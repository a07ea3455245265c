-- ===== src/Order/Create.antt =====
-- `CreateHomestayOrder` (app/order/cmd/rpc/internal/logic/createHomestayOrderLogic.go). The call of
-- the travel service, the order number of `GenSn` and the trade code of `Krand` are arguments.
use Prim.Native.Char.{code}
use Prim.Native.Nat.{min}
use flash_sale_system.Common.{
  Bool, ◌==◌, ◌/◌, ℕ, Option, none, some, String, ℤ, pos, pos_part, ◌+ℤ◌, ◌-ℤ◌, ◌*ℤ◌, leb_ℤ, i64,
  Result, Action, pure, raise, raise_if, returned, wrap, ◌>>=◌, ◌>>◌, if◌then◌else◌, str_eq,
}
use flash_sale_system.Store.{Conn, insert_row}
use flash_sale_system.Xerr.{db_error, new_err_code, new_err_msg}
use flash_sale_system.Travel.{PbHomestay}
use flash_sale_system.Order.{
  HomestayOrder, order_table, wait_pay, need_food_no, need_food_yes, Task,
  defer_close_homestay_order, State, on_db, enqueue,
}

abbrev pub close_order_time_minutes : ℕ
close_order_time_minutes = 30

pub record CreateHomestayOrderReq : Type 0 where
  pub homestay_id : ℤ
  pub is_food : Bool
  pub live_start_time : ℤ
  pub live_end_time : ℤ
  pub user_id : ℤ
  pub live_people_num : ℤ
  pub remark : String

-- `strings.Split(s, ",")[0]`
unfoldable pub before_comma : String → String
before_comma String.[] = ""
before_comma (String.◌∷◌ c s) =
    let rest = before_comma s in if code c == b',' then "" else String.◌∷◌ c rest

unfoldable pub cover_of : String → String
unfolding before_comma
cover_of banner = if str_eq banner "" then "" else before_comma banner

-- `Sub` of two `time.Unix` values, the second not after the first: a `Duration` counts nanoseconds
-- in an int64, so it ends at 9223372036 seconds. The quotient is cut to whole days. The two are dates
-- that a column of MySQL can hold: `time.Unix` wraps only billions of years from here.
unfoldable pub live_days : ℤ → ℤ → ℕ
live_days start end = min (pos_part (end -ℤ start)) 9223372036 / 86400

unfoldable pub homestay_total : PbHomestay → ℕ → ℤ
homestay_total h days = i64 (h.homestay_price *ℤ pos days)

unfoldable pub food_total : PbHomestay → CreateHomestayOrderReq → ℕ → ℤ
food_total h req days =
    if req.is_food then i64 (i64 (h.food_price *ℤ req.live_people_num) *ℤ pos days) else pos 0

-- The order that is inserted. What the code leaves alone is Go's zero value; that of a `time.Time`
-- is never read, since the table fills it in.
unfoldable pub new_order :
    PbHomestay → CreateHomestayOrderReq → (sn trade_code : String) → HomestayOrder
unfolding cover_of live_days homestay_total food_total
new_order h req sn trade_code =
    let days = live_days req.live_start_time req.live_end_time in
    record {
      id = pos 0;
      create_time = pos 0;
      update_time = pos 0;
      delete_time = pos 0;
      del_state = pos 0;
      version = pos 0;
      sn = sn;
      user_id = req.user_id;
      homestay_id = req.homestay_id;
      title = h.title;
      sub_title = h.sub_title;
      cover = cover_of h.banner;
      info = h.info;
      people_num = h.people_num;
      row_type = h.row_type;
      need_food = if req.is_food then need_food_yes else need_food_no;
      food_info = h.food_info;
      food_price = h.food_price;
      homestay_price = h.homestay_price;
      market_homestay_price = h.market_homestay_price;
      homestay_business_id = h.homestay_business_id;
      homestay_user_id = h.user_id;
      live_start_date = req.live_start_time;
      live_end_date = req.live_end_time;
      live_people_num = req.live_people_num;
      trade_state = wait_pay;
      trade_code = trade_code;
      remark = req.remark;
      order_total_price = i64 (homestay_total h days +ℤ food_total h req days);
      food_total_price = food_total h req days;
      homestay_total_price = homestay_total h days;
    }

module _ {Db : Type 0} (conn : Conn Db HomestayOrder) (marshals : Task → Bool)
    (homestay_detail : ℤ → Result (Option PbHomestay)) where
  abbrev pub create_for :
      CreateHomestayOrderReq → String → String → Option PbHomestay → Action (State Db) String
  create_for req sn trade_code none = raise (new_err_msg "This record does not exist")
  create_for req sn trade_code (some h) = do
    wrap (new_err_code db_error)
        (on_db (insert_row order_table conn (new_order h req sn trade_code)))
    enqueue marshals (defer_close_homestay_order sn close_order_time_minutes)
    pure sn

  unfoldable pub create_homestay_order :
      CreateHomestayOrderReq → (sn trade_code : String) → Action (State Db) String
  create_homestay_order req sn trade_code = do
    raise_if (leb_ℤ req.live_end_time req.live_start_time) (new_err_msg "Stay at least one night")
    resp ←
        wrap (new_err_msg "Failed to query the record") (returned (homestay_detail req.homestay_id))
    create_for req sn trade_code resp
