-- ===== src/Travel.antt =====
-- The travel service's records: `Homestay` of app/travel/model/homestayModel_gen.go and of the RPC
-- messages, and the RPC `HomestayDetail` (app/travel/cmd/rpc/internal/logic/homestayDetailLogic.go).
pub mod Api
pub mod Laws
pub mod Business
pub mod Pipes
pub mod Handler
use flash_sale_system.Common.{Option, some, String, ℤ, pos, Result, ok, err, panic, not_found}
use flash_sale_system.Store.Models.{
  TableWrites, TableReads, reading_writes, unread_writes, table_reads,
}
use flash_sale_system.Store.{Table, Conn, find_one}
use flash_sale_system.Xerr.{db_error, new_err_code}

pub record Homestay : Type 0 where
  pub id : ℤ
  pub create_time : ℤ
  pub update_time : ℤ
  pub delete_time : ℤ
  pub del_state : ℤ
  pub version : ℤ
  pub title : String
  pub sub_title : String
  pub banner : String
  pub info : String
  pub people_num : ℤ
  pub homestay_business_id : ℤ
  pub user_id : ℤ
  pub row_state : ℤ
  pub row_type : ℤ
  pub food_info : String
  pub food_price : ℤ
  pub homestay_price : ℤ
  pub market_homestay_price : ℤ

abbrev pub homestay_table : Table Homestay
homestay_table = record {
  id = λ r. r.id;
  version = λ r. r.version;
  del_state = λ r. r.del_state;
  with_id = λ v r. record r { id = v };
  with_version = λ v r. record r { version = v };
  with_del_state = λ v r. record r { del_state = v };
  with_delete_time = λ v r. record r { delete_time = v };
  assign = λ new old. record new {
    id = old.id;
    create_time = old.create_time;
    update_time = old.update_time;
  };
}

-- `pb.Homestay`
pub record PbHomestay : Type 0 where
  pub id : ℤ
  pub title : String
  pub sub_title : String
  pub banner : String
  pub info : String
  pub people_num : ℤ
  pub homestay_business_id : ℤ
  pub user_id : ℤ
  pub row_state : ℤ
  pub row_type : ℤ
  pub food_info : String
  pub food_price : ℤ
  pub homestay_price : ℤ
  pub market_homestay_price : ℤ

-- `var pbHomestay pb.Homestay`
abbrev pub no_homestay : PbHomestay
no_homestay = record {
  id = pos 0;
  title = "";
  sub_title = "";
  banner = "";
  info = "";
  people_num = pos 0;
  homestay_business_id = pos 0;
  user_id = pos 0;
  row_state = pos 0;
  row_type = pos 0;
  food_info = "";
  food_price = pos 0;
  homestay_price = pos 0;
  market_homestay_price = pos 0;
}

-- `copier.Copy` of the fields that both records have.
unfoldable pub to_pb : Homestay → PbHomestay
to_pb r = record {
  id = r.id;
  title = r.title;
  sub_title = r.sub_title;
  banner = r.banner;
  info = r.info;
  people_num = r.people_num;
  homestay_business_id = r.homestay_business_id;
  user_id = r.user_id;
  row_state = r.row_state;
  row_type = r.row_type;
  food_info = r.food_info;
  food_price = r.food_price;
  homestay_price = r.homestay_price;
  market_homestay_price = r.market_homestay_price;
}

-- The response always holds a record: an empty one where there is no such homestay.
unfoldable pub homestay_detail :
    {Db : Type 0} → Conn Db Homestay → ℤ → Db → Result (Option PbHomestay)
unfolding to_pb
homestay_detail conn i d = elim (find_one homestay_table conn i d) [
  | ok r ↦ ok (some (to_pb r))
  | err e ↦ elim e [ not_found ↦ ok (some no_homestay) | _ ↦ err (new_err_code db_error) ]
  | panic ↦ panic
]

-- The generated model of the table, in its two halves.
abbrev pub homestay_writes : {Db : Type 0} → Conn Db Homestay → TableWrites Db Homestay
homestay_writes conn = unread_writes homestay_table conn

abbrev pub homestay_reads : {Db : Type 0} → Conn Db Homestay → TableReads Db Homestay
homestay_reads conn = table_reads homestay_table conn
