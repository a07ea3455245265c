-- ===== src/Order/Query.antt =====
-- The reads of the order RPC: homestayOrderDetailLogic.go and userHomestayOrderListLogic.go of
-- app/order/cmd/rpc/internal/logic.
use flash_sale_system.Common.{
  Bool, true, ◌&&◌, Option, some, List, [], map, String, ℤ, pos, ◌==ℤ◌, leb_ℤ, Result, ok, err,
  panic, not_found, if◌then◌else◌,
}
use flash_sale_system.Store.{Conn, find_page_list_by_id_desc}
use flash_sale_system.Xerr.{db_error, new_err_code}
use flash_sale_system.Order.{HomestayOrder, order_table, cancel, expire}
use flash_sale_system.Order.Trade.{find_one_by_sn}

-- `pb.HomestayOrder`
pub record PbHomestayOrder : Type 0 where
  pub id : ℤ
  pub sn : String
  pub user_id : ℤ
  pub homestay_id : ℤ
  pub title : String
  pub sub_title : String
  pub cover : String
  pub info : String
  pub people_num : ℤ
  pub row_type : ℤ
  pub food_info : String
  pub food_price : ℤ
  pub homestay_price : ℤ
  pub market_homestay_price : ℤ
  pub homestay_business_id : ℤ
  pub homestay_user_id : ℤ
  pub live_start_date : ℤ
  pub live_end_date : ℤ
  pub live_people_num : ℤ
  pub trade_state : ℤ
  pub trade_code : String
  pub remark : String
  pub order_total_price : ℤ
  pub food_total_price : ℤ
  pub homestay_total_price : ℤ
  pub create_time : ℤ
  pub need_food : ℤ

-- `var resp pb.HomestayOrder`
abbrev pub no_order : PbHomestayOrder
no_order = record {
  id = pos 0;
  sn = "";
  user_id = pos 0;
  homestay_id = pos 0;
  title = "";
  sub_title = "";
  cover = "";
  info = "";
  people_num = pos 0;
  row_type = pos 0;
  food_info = "";
  food_price = pos 0;
  homestay_price = pos 0;
  market_homestay_price = pos 0;
  homestay_business_id = pos 0;
  homestay_user_id = pos 0;
  live_start_date = pos 0;
  live_end_date = pos 0;
  live_people_num = pos 0;
  trade_state = pos 0;
  trade_code = "";
  remark = "";
  order_total_price = pos 0;
  food_total_price = pos 0;
  homestay_total_price = pos 0;
  create_time = pos 0;
  need_food = pos 0;
}

-- `copier.Copy` and the three times
unfoldable pub to_pb : HomestayOrder → PbHomestayOrder
to_pb o = record {
  id = o.id;
  sn = o.sn;
  user_id = o.user_id;
  homestay_id = o.homestay_id;
  title = o.title;
  sub_title = o.sub_title;
  cover = o.cover;
  info = o.info;
  people_num = o.people_num;
  row_type = o.row_type;
  food_info = o.food_info;
  food_price = o.food_price;
  homestay_price = o.homestay_price;
  market_homestay_price = o.market_homestay_price;
  homestay_business_id = o.homestay_business_id;
  homestay_user_id = o.homestay_user_id;
  live_start_date = o.live_start_date;
  live_end_date = o.live_end_date;
  live_people_num = o.live_people_num;
  trade_state = o.trade_state;
  trade_code = o.trade_code;
  remark = o.remark;
  order_total_price = o.order_total_price;
  food_total_price = o.food_total_price;
  homestay_total_price = o.homestay_total_price;
  create_time = o.create_time;
  need_food = o.need_food;
}

-- `HomestayOrderDetail`: the response always holds an order, an empty one where there is none.
unfoldable pub homestay_order_detail :
    {Db : Type 0} → Conn Db HomestayOrder → String → Db → Result (Option PbHomestayOrder)
unfolding find_one_by_sn
homestay_order_detail conn sn d = elim (find_one_by_sn conn sn d) [
  | ok o ↦ ok (some (to_pb o))
  | err e ↦ elim e [ not_found ↦ ok (some no_order) | _ ↦ err (new_err_code db_error) ]
  | panic ↦ panic
]

pub record UserHomestayOrderListReq : Type 0 where
  pub last_id : ℤ
  pub page_size : ℤ
  pub user_id : ℤ
  pub trader_state : ℤ

-- The query: the user's orders, of one state if the request names a state from -1 to 4.
unfoldable pub list_condition : UserHomestayOrderListReq → HomestayOrder → Bool
list_condition req o =
    o.user_id ==ℤ req.user_id
    && (if leb_ℤ cancel req.trader_state && leb_ℤ req.trader_state expire
        then o.trade_state ==ℤ req.trader_state
        else true)

unfoldable pub user_homestay_order_list :
    {Db : Type 0}
    → Conn Db HomestayOrder
    → UserHomestayOrderListReq
    → Db
    → Result (List PbHomestayOrder)
user_homestay_order_list conn req d =
    elim (find_page_list_by_id_desc order_table conn (list_condition req) req.last_id req.page_size
      d) [
        | ok l ↦ ok (map to_pb l)
        | err e ↦ elim e [ not_found ↦ ok [] | _ ↦ err (new_err_code db_error) ]
        | panic ↦ panic
      ]
