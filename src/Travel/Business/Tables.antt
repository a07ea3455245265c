-- ===== src/Travel/Business/Tables.antt =====
-- The tables of homestay businesses and comments (app/travel/model/homestayBusinessModel_gen.go and
-- homestayCommentModel_gen.go). `Real` is Go's float64.
use flash_sale_system.Common.{◌&&◌, String, ℤ, ◌==ℤ◌, Result}
use flash_sale_system.Store.{Table, Conn, is_live}
use flash_sale_system.Store.Models.{
  TableWrites, TableReads, reading_writes, unread_writes, table_reads,
}

pub record HomestayBusiness (Real : Type 0) : Type 0 where
  pub id : ℤ
  pub create_time : ℤ
  pub update_time : ℤ
  pub delete_time : ℤ
  pub del_state : ℤ
  pub title : String
  pub user_id : ℤ
  pub info : String
  pub boss_info : String
  pub license_fron : String
  pub license_back : String
  pub row_state : ℤ
  pub star : Real
  pub tags : String
  pub cover : String
  pub header_img : String
  pub version : ℤ

abbrev pub homestay_business_table : {Real : Type 0} → Table (HomestayBusiness Real)
homestay_business_table = record {
  id = λ r. r.id;
  version = λ r. r.version;
  del_state = λ r. r.del_state;
  with_id = λ v r. record r { id = v };
  with_version = λ v r. record r { version = v };
  with_del_state = λ v r. record r { del_state = v };
  with_delete_time = λ v r. record r { delete_time = v };
  assign = λ new old. record new {
    id = old.id;
    create_time = old.create_time;
    update_time = old.update_time;
  };
}

pub record HomestayComment : Type 0 where
  pub id : ℤ
  pub create_time : ℤ
  pub update_time : ℤ
  pub delete_time : ℤ
  pub del_state : ℤ
  pub homestay_id : ℤ
  pub user_id : ℤ
  pub content : String
  pub star : String
  pub version : ℤ

abbrev pub homestay_comment_table : Table HomestayComment
homestay_comment_table = record {
  id = λ r. r.id;
  version = λ r. r.version;
  del_state = λ r. r.del_state;
  with_id = λ v r. record r { id = v };
  with_version = λ v r. record r { version = v };
  with_del_state = λ v r. record r { del_state = v };
  with_delete_time = λ v r. record r { delete_time = v };
  assign = λ new old. record new {
    id = old.id;
    create_time = old.create_time;
    update_time = old.update_time;
  };
}

-- `FindOneByUserId`
unfoldable pub find_business_by_user_id :
    {Db Real : Type 0} → Conn Db (HomestayBusiness Real) → ℤ → Db → Result (HomestayBusiness Real)
find_business_by_user_id conn user_id =
    conn.find_row (λ r. (r.user_id ==ℤ user_id) && is_live homestay_business_table r)

module _ {Db Real : Type 0} where
  -- The generated models of the two tables.
  abbrev pub homestay_business_writes :
      Conn Db (HomestayBusiness Real) → TableWrites Db (HomestayBusiness Real)
  homestay_business_writes conn = reading_writes homestay_business_table conn

  abbrev pub homestay_business_reads :
      Conn Db (HomestayBusiness Real) → TableReads Db (HomestayBusiness Real)
  homestay_business_reads conn = table_reads homestay_business_table conn

module _ {Db : Type 0} where
  abbrev pub homestay_comment_writes : Conn Db HomestayComment → TableWrites Db HomestayComment
  homestay_comment_writes conn = unread_writes homestay_comment_table conn

  abbrev pub homestay_comment_reads : Conn Db HomestayComment → TableReads Db HomestayComment
  homestay_comment_reads conn = table_reads homestay_comment_table conn
