-- ===== src/Payment/Handler.antt =====
-- The HTTP handlers of the payment API (app/payment/cmd/api/internal/handler/thirdPayment).
use flash_sale_system.Common.{ℕ, Option, none, some, String, Result, ok, err, panic, Error, Action}
use flash_sale_system.Store.{Conn}
use flash_sale_system.Reply.{Response}
use flash_sale_system.Http.{Parsed, handle}
use flash_sale_system.Payment.{ThirdPayment, State}
use flash_sale_system.Payment.Callback.{Transaction, third_payment_wx_pay_callback}
use flash_sale_system.Payment.WxPay.{WxPayReq, Environment, PrepayResponse, third_payment_wx_pay}

-- The HTTP status and the body that WeChat is sent. Where the logic returns no response, its
-- `ReturnCode` is read of a nil pointer.
abbrev pub answer : Result (String × Option Error) → Result (ℕ × String)
answer (ok (return_code, none)) = ok (200, return_code)
answer (ok (return_code, some e)) = ok (400, return_code)
answer (err e) = panic
answer panic = panic

module _ {Db : Type 0} (conn : Conn Db ThirdPayment) (carry : Error → Error) where
  unfoldable pub third_payment_wx_pay_callback_handler :
      (client : Result (Unit {0}))
      → (notification : Result Transaction) → Action (State Db) (ℕ × String)
  third_payment_wx_pay_callback_handler client notification s =
      let (r, s') = third_payment_wx_pay_callback conn carry client notification s in (answer r, s')

  unfoldable pub third_payment_wx_pay_handler :
      Environment → Parsed WxPayReq → Action (State Db) (Response (Option PrepayResponse))
  third_payment_wx_pay_handler env p = handle p (third_payment_wx_pay conn carry env)
