-- ===== src/Order/Trade.antt =====
-- The trade states of an order and `UpdateHomestayOrderTradeState`
-- (app/order/cmd/rpc/internal/logic/updateHomestayOrderTradeStateLogic.go).
use flash_sale_system.Common.{
  Bool, not, ◌&&◌, Option, none, some, String, ℤ, pos, ◌==ℤ◌, Result, ok, err, panic, not_found,
  Action, pure, raise, returned, ◌>>=◌, ◌>>◌, if◌then◌else◌, wrap,
}
use flash_sale_system.Store.{Conn, is_live, next_version, update_with_version}
use flash_sale_system.Xerr.{db_error, new_err_code, new_err_msg}
use flash_sale_system.Order.{
  HomestayOrder, order_table, cancel, wait_pay, wait_use, used, refund, expire, Task,
  msg_pay_success_notify_user, State, on_db, enqueue,
}

-- `FindOneBySn`
unfoldable pub find_one_by_sn :
    {Db : Type 0} → Conn Db HomestayOrder → String → Db → Result HomestayOrder
find_one_by_sn conn sn = conn.find_row (λ r. conn.text_eq r.sn sn && is_live order_table r)

unfoldable pub verify_order_trade_state : ℤ → ℤ → Result (Unit {0})
verify_order_trade_state new old =
    if new ==ℤ wait_pay
    then err (new_err_msg "Changing this status is not supported")
    else if new ==ℤ cancel
    then (if not (old ==ℤ wait_pay) then err (new_err_msg "只有待支付的订单才能被取消") else ok tt)
    else if new ==ℤ wait_use
    then (if not (old ==ℤ wait_pay)
        then err (new_err_msg "Only orders pending payment can change this status")
        else ok tt)
    else if new ==ℤ used
    then (if not (old ==ℤ wait_use)
        then err (new_err_msg "Only unused orders can be changed to this status")
        else ok tt)
    else if new ==ℤ refund
    then (if not (old ==ℤ wait_use)
        then err (new_err_msg "Only unused orders can be changed to this status")
        else ok tt)
    else if new ==ℤ expire
    then (if not (old ==ℤ wait_use)
        then err (new_err_msg "Only unused orders can be changed to this status")
        else ok tt)
    else ok tt

pub record UpdateTradeStateReq : Type 0 where
  pub sn : String
  pub trade_state : ℤ

pub record UpdateTradeStateResp : Type 0 where
  pub id : ℤ
  pub user_id : ℤ
  pub sn : String
  pub trade_code : String
  pub live_start_date : ℤ
  pub live_end_date : ℤ
  pub order_total_price : ℤ
  pub title : String

abbrev pub empty_resp : UpdateTradeStateResp
empty_resp = record {
  id = pos 0;
  user_id = pos 0;
  sn = "";
  trade_code = "";
  live_start_date = pos 0;
  live_end_date = pos 0;
  order_total_price = pos 0;
  title = "";
}

abbrev pub update_resp : HomestayOrder → UpdateTradeStateResp
update_resp o = record {
  id = o.id;
  user_id = o.user_id;
  sn = o.sn;
  trade_code = o.trade_code;
  live_start_date = o.live_start_date;
  live_end_date = o.live_end_date;
  order_total_price = o.order_total_price;
  title = o.title;
}

-- A query by `Sn` as the logic reads it: `nil` for a missing order.
abbrev pub order_or_nil : Result HomestayOrder → Result (Option HomestayOrder)
order_or_nil (ok o) = ok (some o)
order_or_nil (err e) = elim e [ not_found ↦ ok none | _ ↦ err (new_err_code db_error) ]
order_or_nil panic = panic

module _ {Db : Type 0} (conn : Conn Db HomestayOrder) (marshals : Task → Bool) where
  -- Steps 2 to 4: the order has been read, and it has another state.
  unfoldable pub change_trade_state :
      UpdateTradeStateReq → HomestayOrder → Action (State Db) UpdateTradeStateResp
  change_trade_state req order = do
    returned (verify_order_trade_state req.trade_state order.trade_state)
    let order' = record order { trade_state = req.trade_state }
    wrap (new_err_msg "Failed to update homestay order status")
        (on_db (update_with_version order_table conn order'))
    let order'' = next_version order_table order'
    (if req.trade_state ==ℤ wait_use
        then enqueue marshals (msg_pay_success_notify_user order'')
        else pure tt)
    pure (update_resp order'')

  abbrev pub update_found :
      UpdateTradeStateReq → Option HomestayOrder → Action (State Db) UpdateTradeStateResp
  update_found req none = raise (new_err_msg "order no exists")
  update_found req (some order) =
      if order.trade_state ==ℤ req.trade_state
      then pure empty_resp
      else change_trade_state req order

  unfoldable pub update_homestay_order_trade_state :
      UpdateTradeStateReq → Action (State Db) UpdateTradeStateResp
  unfolding find_one_by_sn
  update_homestay_order_trade_state req s =
      (do found ← returned (order_or_nil (find_one_by_sn conn req.sn s.db)); update_found req found)
        s
