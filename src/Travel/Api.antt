-- ===== src/Travel/Api.antt =====
-- The homestay lists of the travel API (app/travel/cmd/api/internal/logic/homestay): detail, lists
-- by business and by guess, and the list of preferred homestays. `Yuan` is the float64 that
-- pkg/tool's `Fen2Yuan` makes of a price.
use flash_sale_system.Common.{
  ◌&&◌, none, some, List, [], ◌∷◌, ◌++◌, map, String, ℤ, pos, ◌==ℤ◌, Result, ok, err, panic, Error,
  not_found,
}
use flash_sale_system.Store.Models.{TableWrites, TableReads, unread_writes, table_reads}
use flash_sale_system.Store.{
  Table, Conn, select_builder, find_one, find_page_list_by_id_desc, find_page_list_by_page,
}
use flash_sale_system.Xerr.{db_error, new_err_code, new_err_msg}
use flash_sale_system.Reply.{remote}
use flash_sale_system.Travel.{Homestay, PbHomestay, homestay_table, homestay_detail}

pub record HomestayActivity : Type 0 where
  pub id : ℤ
  pub create_time : ℤ
  pub update_time : ℤ
  pub delete_time : ℤ
  pub del_state : ℤ
  pub row_type : String
  pub data_id : ℤ
  pub row_status : ℤ
  pub version : ℤ

abbrev pub homestay_activity_table : Table HomestayActivity
homestay_activity_table = record {
  id = λ r. r.id;
  version = λ r. r.version;
  del_state = λ r. r.del_state;
  with_id = λ v r. record r { id = v };
  with_version = λ v r. record r { version = v };
  with_del_state = λ v r. record r { del_state = v };
  with_delete_time = λ v r. record r { delete_time = v };
  assign = λ new old. record new {
    id = old.id;
    create_time = old.create_time;
    update_time = old.update_time;
  };
}

abbrev pub preferred_type : String
preferred_type = "preferredHomestay"

abbrev pub up_status : ℤ
up_status = pos 1

-- `types.Homestay`, but for the score and the counters that the logic leaves at 0.
pub record HomestayView (Yuan : Type 0) : Type 0 where
  pub id : ℤ
  pub title : String
  pub sub_title : String
  pub banner : String
  pub info : String
  pub people_num : ℤ
  pub homestay_business_id : ℤ
  pub user_id : ℤ
  pub row_state : ℤ
  pub row_type : ℤ
  pub food_info : String
  pub food_price : Yuan
  pub homestay_price : Yuan
  pub market_homestay_price : Yuan

module _ {Yuan : Type 0} (fen2yuan : ℤ → Yuan) where
  unfoldable pub homestay_view : Homestay → HomestayView Yuan
  homestay_view h = record {
    id = h.id;
    title = h.title;
    sub_title = h.sub_title;
    banner = h.banner;
    info = h.info;
    people_num = h.people_num;
    homestay_business_id = h.homestay_business_id;
    user_id = h.user_id;
    row_state = h.row_state;
    row_type = h.row_type;
    food_info = h.food_info;
    food_price = fen2yuan h.food_price;
    homestay_price = fen2yuan h.homestay_price;
    market_homestay_price = fen2yuan h.market_homestay_price;
  }

  unfoldable pub pb_homestay_view : PbHomestay → HomestayView Yuan
  pb_homestay_view h = record {
    id = h.id;
    title = h.title;
    sub_title = h.sub_title;
    banner = h.banner;
    info = h.info;
    people_num = h.people_num;
    homestay_business_id = h.homestay_business_id;
    user_id = h.user_id;
    row_state = h.row_state;
    row_type = h.row_type;
    food_info = h.food_info;
    food_price = fen2yuan h.food_price;
    homestay_price = fen2yuan h.homestay_price;
    market_homestay_price = fen2yuan h.market_homestay_price;
  }

module _ {Db Yuan : Type 0} (homestays : Conn Db Homestay) (fen2yuan : ℤ → Yuan) where
  -- `BusinessList`: here an `ErrNotFound` would be an error too.
  unfoldable pub business_list :
      (homestay_business_id last_id page_size : ℤ) → Db → Result (List (HomestayView Yuan))
  business_list homestay_business_id last_id page_size d =
      elim (find_page_list_by_id_desc homestay_table homestays
        (λ h. h.homestay_business_id ==ℤ homestay_business_id) last_id page_size d) [
          | ok l ↦ ok (map (homestay_view fen2yuan) l)
          | err _ ↦ err (new_err_code db_error)
          | panic ↦ panic
        ]

  -- `GuessList`: the five newest homestays.
  unfoldable pub guess_list : Db → Result (List (HomestayView Yuan))
  guess_list d =
      elim (find_page_list_by_id_desc homestay_table homestays select_builder (pos 0) (pos 5) d) [
        | ok l ↦ ok (map (homestay_view fen2yuan) l)
        | err _ ↦ err (new_err_code db_error)
        | panic ↦ panic
      ]

  -- `HomestayDetail` of the API. A nil record would be answered with the empty view, which
  -- `no_view` is here; the RPC never returns one.
  unfoldable pub api_homestay_detail :
      (carry : Error → Error) → HomestayView Yuan → ℤ → Db → Result (HomestayView Yuan)
  api_homestay_detail carry no_view i d = elim (remote carry (homestay_detail homestays i d)) [
    | ok found ↦ ok (elim found [ none ↦ no_view | some h ↦ pb_homestay_view fen2yuan h ])
    | err _ ↦ err (new_err_msg "get homestay detail fail")
    | panic ↦ panic
  ]

  -- One item of the map phase of `HomestayList`: the homestay of an activity. Any error but "not
  -- found" drops it; for a missing one a nil pointer is written, whose price the reduce phase reads.
  abbrev pub item_view : Result Homestay → Result (List (HomestayView Yuan))
  item_view (ok h) = ok (homestay_view fen2yuan h ∷ [])
  item_view (err e) = elim e [ not_found ↦ panic | _ ↦ ok [] ]
  item_view panic = panic

  -- The reduce phase over the items, in the order in which they come out of the pipe, an argument.
  unfoldable pub reduce_views : List ℤ → Db → Result (List (HomestayView Yuan))
  reduce_views [] d = ok []
  reduce_views (i ∷ ids) d =
      let rest = reduce_views ids d in
      elim (item_view (find_one homestay_table homestays i d)) [
        | ok v ↦ elim rest [ ok vs ↦ ok (v ++ vs) | err e ↦ err e | panic ↦ panic ]
        | err e ↦ err e
        | panic ↦ panic
      ]

  -- `HomestayList`; `shuffle` is the order in which the workers of the map phase finish.
  unfoldable pub homestay_list :
      Conn Db HomestayActivity
      → (shuffle : List ℤ → List ℤ) → (page page_size : ℤ) → Db
      → Result (List (HomestayView Yuan))
  homestay_list activities shuffle page page_size d =
      elim (find_page_list_by_page homestay_activity_table activities
        (λ a. activities.text_eq a.row_type preferred_type && a.row_status ==ℤ up_status) page
        page_size "data_id desc" d) [
          | ok l ↦ reduce_views (shuffle (map (λ a. a.data_id) l)) d
          | err _ ↦ err (new_err_code db_error)
          | panic ↦ panic
        ]

-- The generated model of the table, in its two halves.
abbrev pub homestay_activity_writes :
    {Db : Type 0} → Conn Db HomestayActivity → TableWrites Db HomestayActivity
homestay_activity_writes conn = unread_writes homestay_activity_table conn

abbrev pub homestay_activity_reads :
    {Db : Type 0} → Conn Db HomestayActivity → TableReads Db HomestayActivity
homestay_activity_reads conn = table_reads homestay_activity_table conn
