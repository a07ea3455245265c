-- ===== src/Payment/HandlerLaws.antt =====
-- What WeChat is answered by the payment API's handler of its notifications.
use flash_sale_system.Common.{◌≡◌, ◌≢◌, ◌⊎◌, Result, ok, Error}
use flash_sale_system.Store.{Conn}
use flash_sale_system.Payment.{ThirdPayment, wait, success, State}
use flash_sale_system.Payment.Update.{find_one_by_sn, update_trade_state}
use flash_sale_system.Payment.Callback.{
  Transaction, notification_req, get_pay_status_by_wx_pay_trade_state,
}

-- A notification that was verified and read.
abbrev pub IsVerified : Result (Unit {0}) → Result Transaction → Type 0
IsVerified client notification = (client ≡ ok tt) × ((n : Transaction) × (notification ≡ ok n))

module _ {Db : Type 0} (conn : Conn Db ThirdPayment) (carry : Error → Error) where
  -- What a notification that is answered with SUCCESS has met.
  abbrev pub IsTaken : Transaction → State Db → Type 0
  IsTaken n s =
      (p : ThirdPayment) × (find_one_by_sn conn n.out_trade_no s.db ≡ ok p)
      × (p.pay_total ≡ n.payer_total)
      × ((get_pay_status_by_wx_pay_trade_state n.trade_state ≢ success)
          ⊎ (p.pay_status ≢ wait)
          ⊎ ((update_trade_state conn (notification_req n) s).0 ≡ ok tt))
