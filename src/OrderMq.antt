-- ===== src/OrderMq.antt =====
-- The consumer of payment messages (app/order/cmd/mq/internal/mqs/kq/paymentUpdateStatus.go).
use flash_sale_system.Common.{
  Bool, not, ℤ, negsuc, ◌==ℤ◌, Result, Error, Action, pure, returned, wrap, ◌>>=◌, ◌>>◌,
  if◌then◌else◌,
}
use flash_sale_system.Store.{Conn}
use flash_sale_system.Xerr.{new_err_msg}
use flash_sale_system.Order.{HomestayOrder, Task, State, wait_use}
use flash_sale_system.Order as Order
use flash_sale_system.Order.Trade.{update_homestay_order_trade_state}
use flash_sale_system.Payment.{NotifyMessage, success}
use flash_sale_system.Payment as Payment
use flash_sale_system.Reply.{call}

-- -99: no order state follows from the payment's.
abbrev pub no_trade_state : ℤ
no_trade_state = negsuc 98

unfoldable pub get_order_trade_state_by_payment_trade_state : ℤ → ℤ
get_order_trade_state_by_payment_trade_state status =
    if status ==ℤ success
    then wait_use
    else if status ==ℤ Payment.refund
    then Order.refund
    else no_trade_state

module _ {Db : Type 0} (conn : Conn Db HomestayOrder) (marshals : Task → Bool)
    (carry : Error → Error) where
  unfoldable pub exec_service : NotifyMessage → Action (State Db) (Unit {0})
  exec_service m =
      let new = get_order_trade_state_by_payment_trade_state m.pay_status in
      if not (new ==ℤ no_trade_state)
      then (do
        wrap (new_err_msg "update homestay order state fail") (
            call carry (
              update_homestay_order_trade_state conn marshals
                (record { sn = m.order_sn; trade_state = new })))
        pure tt)
      else pure tt

  -- `Consume`; `message` is what `json.Unmarshal` makes of the text.
  unfoldable pub consume : (message : Result NotifyMessage) → Action (State Db) (Unit {0})
  consume message = do m ← returned message; exec_service m
