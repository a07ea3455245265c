-- ===== src/Mqueue/CloseOrder.antt =====
-- The job that closes an unpaid order (app/mqueue/cmd/job/internal/logic/closeOrder.go).
use flash_sale_system.Common.{
  Bool, Option, none, some, String, ◌==ℤ◌, Result, ok, err, panic, Error, Action, pure, raise,
  panics, returned, wrap, ◌>>=◌, ◌>>◌, if◌then◌else◌,
}
use flash_sale_system.Store.{Conn}
use flash_sale_system.Xerr.{new_err_msg}
use flash_sale_system.Reply.{remote}
use flash_sale_system.Order.{HomestayOrder, Task, State, wait_pay, cancel}
use flash_sale_system.Order.Trade.{update_homestay_order_trade_state}
use flash_sale_system.Order.Query.{PbHomestayOrder, homestay_order_detail}
use flash_sale_system.Reply.{call}

abbrev pub err_close_order : Error
err_close_order = new_err_msg "close order fail"

module _ {Db : Type 0} (conn : Conn Db HomestayOrder) (marshals : Task → Bool)
    (carry : Error → Error) where
  -- After `HomestayOrderDetail`. Where that call failed its response is nil, and the error text reads
  -- a field of it: a nil pointer.
  abbrev pub close_read : String → Result (Option PbHomestayOrder) → Action (State Db) (Unit {0})
  close_read sn (err e) = panics
  close_read sn panic = panics
  close_read sn (ok none) = raise err_close_order
  close_read sn (ok (some o)) =
      if o.trade_state ==ℤ wait_pay
      then (do
        wrap err_close_order (
            call carry (
              update_homestay_order_trade_state conn marshals
                (record { sn = sn; trade_state = cancel })))
        pure tt)
      else pure tt

  -- `ProcessTask`; `payload` is what `json.Unmarshal` makes of the task's payload.
  unfoldable pub close_order : (payload : Result String) → Action (State Db) (Unit {0})
  close_order payload = do
    sn ← wrap err_close_order (returned payload)
    λ s. close_read sn (remote carry (homestay_order_detail conn sn s.db)) s
