-- ===== src/Order/Api.antt =====
-- The order API (app/order/cmd/api/internal/logic/homestayOrder): createHomestayOrderLogic.go,
-- userHomestayOrderDetailLogic.go and userHomestayOrderListLogic.go. `Float` is the float64 that
-- pkg/tool's `Fen2Yuan` makes of a price, and that an id of a house or its owner is converted to.
use flash_sale_system.Common.{
  Bool, not, ◌&&◌, Option, none, some, List, map, String, ℤ, pos, ◌==ℤ◌, Result, ok, err, panic,
  Error, Action, raise, returned, wrap, ◌>>=◌, if◌then◌else◌,
}
use flash_sale_system.Store.{Conn}
use flash_sale_system.Xerr.{new_err_msg}
use flash_sale_system.Reply.{remote, call}
use flash_sale_system.Travel.{PbHomestay}
use flash_sale_system.Order.{HomestayOrder, Task, State, cancel, wait_pay}
use flash_sale_system.Order.Create.{CreateHomestayOrderReq, create_homestay_order}
use flash_sale_system.Order.Query.{PbHomestayOrder, homestay_order_detail, user_homestay_order_list}
use flash_sale_system.Payment.Query.{PaymentDetail}

-- Go's float64: `Fen2Yuan` of pkg/tool, and the conversion of an int64, by which `copier.Copy` fills a
-- float64 field.
pub record Floats (Float : Type 0) : Type 0 where
  pub fen2yuan : ℤ → Float
  pub from_int64 : ℤ → Float

-- `types.UserHomestayOrderDetailResp`
pub record OrderDetailView (Float : Type 0) : Type 0 where
  pub sn : String
  pub user_id : ℤ
  pub homestay_id : ℤ
  pub title : String
  pub sub_title : String
  pub cover : String
  pub info : String
  pub food_info : String
  pub food_price : Float
  pub homestay_price : Float
  pub market_homestay_price : Float
  pub homestay_business_id : Float
  pub homestay_user_id : Float
  pub order_total_price : Float
  pub create_time : ℤ
  pub trade_state : ℤ
  pub live_start_date : ℤ
  pub live_end_date : ℤ
  pub trade_code : String
  pub food_total_price : Float
  pub homestay_total_price : Float
  pub remark : String
  pub live_people_num : ℤ
  pub need_food : ℤ
  pub pay_time : ℤ
  pub pay_type : String

-- `types.UserHomestayOrderListView`
pub record OrderListView (Float : Type 0) : Type 0 where
  pub sn : String
  pub title : String
  pub sub_title : String
  pub homestay_id : ℤ
  pub cover : String
  pub order_total_price : Float
  pub create_time : ℤ
  pub trade_state : ℤ
  pub live_start_date : ℤ
  pub live_end_date : ℤ
  pub trade_code : String

module _ {Float : Type 0} (floats : Floats Float) where
  unfoldable pub detail_view : PbHomestayOrder → OrderDetailView Float
  detail_view o = record {
    sn = o.sn;
    user_id = o.user_id;
    homestay_id = o.homestay_id;
    title = o.title;
    sub_title = o.sub_title;
    cover = o.cover;
    info = o.info;
    food_info = o.food_info;
    food_price = floats.fen2yuan o.food_price;
    homestay_price = floats.fen2yuan o.homestay_price;
    market_homestay_price = floats.fen2yuan o.market_homestay_price;
    homestay_business_id = floats.from_int64 o.homestay_business_id;
    homestay_user_id = floats.from_int64 o.homestay_user_id;
    order_total_price = floats.fen2yuan o.order_total_price;
    create_time = o.create_time;
    trade_state = o.trade_state;
    live_start_date = o.live_start_date;
    live_end_date = o.live_end_date;
    trade_code = o.trade_code;
    food_total_price = floats.fen2yuan o.food_total_price;
    homestay_total_price = floats.fen2yuan o.homestay_total_price;
    remark = o.remark;
    live_people_num = o.live_people_num;
    need_food = o.need_food;
    pay_time = pos 0;
    pay_type = "";
  }

  unfoldable pub list_view : PbHomestayOrder → OrderListView Float
  list_view o = record {
    sn = o.sn;
    title = o.title;
    sub_title = o.sub_title;
    homestay_id = o.homestay_id;
    cover = o.cover;
    order_total_price = floats.fen2yuan o.order_total_price;
    create_time = o.create_time;
    trade_state = o.trade_state;
    live_start_date = o.live_start_date;
    live_end_date = o.live_end_date;
    trade_code = o.trade_code;
  }

-- The payment of an order, as the answer of the payment RPC tells it. An error is logged; then the
-- field of a nil response is read.
abbrev pub with_payment :
    {Float : Type 0}
    → OrderDetailView Float
    → Result (Option PaymentDetail)
    → Result (Option (OrderDetailView Float))
with_payment v (ok none) = ok (some v)
with_payment v (ok (some p)) = ok (some (record v { pay_time = p.pay_time; pay_type = p.pay_mode }))
with_payment v (err _) = panic
with_payment v panic = panic

module _ {Db : Type 0} (conn : Conn Db HomestayOrder) (carry : Error → Error) where
  -- `UserHomestayOrderDetail`. `user_id` is that of the token, and `payment` the call of
  -- `GetPaymentSuccessRefundByOrderSn`. Another user's order is answered with nil and no error.
  abbrev pub detail_of :
      {Float : Type 0}
      → Floats Float
      → (payment : String → Result (Option PaymentDetail)) → ℤ
      → Option PbHomestayOrder
      → Result (Option (OrderDetailView Float))
  detail_of floats payment user_id none = ok none
  detail_of floats payment user_id (some o) =
      if o.user_id ==ℤ user_id
      then (if not (o.trade_state ==ℤ cancel) && not (o.trade_state ==ℤ wait_pay)
          then with_payment (detail_view floats o) (payment o.sn)
          else ok (some (detail_view floats o)))
      else ok none

  unfoldable pub user_homestay_order_detail :
      {Float : Type 0}
      → Floats Float
      → (payment : String → Result (Option PaymentDetail)) → (user_id : ℤ) → String
      → Db
      → Result (Option (OrderDetailView Float))
  user_homestay_order_detail floats payment user_id sn d =
      elim (remote carry (homestay_order_detail conn sn d)) [
        | ok found ↦ detail_of floats payment user_id found
        | err _ ↦ err (new_err_msg "get homestay order detail fail")
        | panic ↦ panic
      ]

  unfoldable pub api_order_list :
      {Float : Type 0}
      → Floats Float
      → (user_id last_id page_size trade_state : ℤ) → Db
      → Result (List (OrderListView Float))
  api_order_list floats user_id last_id page_size trade_state d =
      elim (remote carry (
        user_homestay_order_list conn
          (record {
            last_id = last_id;
            page_size = page_size;
            user_id = user_id;
            trader_state = trade_state;
          })
          d)) [
            | ok l ↦ ok (map (list_view floats) l)
            | err _ ↦ err (new_err_msg "Failed to get user homestay order list")
            | panic ↦ panic
          ]

module _ {Db : Type 0} (conn : Conn Db HomestayOrder) (marshals : Task → Bool)
    (carry : Error → Error) (homestay_detail : ℤ → Result (Option PbHomestay)) where
  -- `CreateHomestayOrder` of the API, whose request is that of the RPC but for the user's id.
  abbrev pub api_create_for :
      CreateHomestayOrderReq
      → ℤ
      → (sn trade_code : String) → Option PbHomestay
      → Action (State Db) String
  api_create_for req user_id sn trade_code none = raise (new_err_msg "homestay no exists")
  api_create_for req user_id sn trade_code (some h) =
      if h.id ==ℤ pos 0
      then raise (new_err_msg "homestay no exists")
      else wrap (new_err_msg "create homestay order fail") (
          call carry (
            create_homestay_order conn marshals homestay_detail (record req { user_id = user_id })
              sn trade_code))

  unfoldable pub api_create_homestay_order :
      CreateHomestayOrderReq → (user_id : ℤ) → (sn trade_code : String) → Action (State Db) String
  api_create_homestay_order req user_id sn trade_code = do
    found ← returned (homestay_detail req.homestay_id)
    api_create_for req user_id sn trade_code found
