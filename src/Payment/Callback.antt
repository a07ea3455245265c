-- ===== src/Payment/Callback.antt =====
-- The notification of WeChat Pay
-- (app/payment/cmd/api/internal/logic/thirdPayment/thirdPaymentWxPayCallbackLogic.go). WeChat's
-- library, which makes the client and verifies and reads the request, is an argument.
use flash_sale_system.Common.{
  not, Option, none, some, String, ℤ, pos, ◌==ℤ◌, Result, ok, err, panic, Error, Action, pure,
  returned, panics, wrap, raise_if, panics, ◌>>=◌, ◌>>◌, if◌then◌else◌, str_eq,
}
use flash_sale_system.Store.{Conn}
use flash_sale_system.Xerr.{new_err_msg}
use flash_sale_system.Reply.{remote, call}
use flash_sale_system.Payment.{ThirdPayment, fail, wait, success, State}
use flash_sale_system.Payment.Update.{UpdateTradeStateReq, update_trade_state}
use flash_sale_system.Payment.Query.{PaymentDetail, get_payment_by_sn}

-- The fields of `payments.Transaction` that are read; in a notification none of the pointers is nil.
pub record Transaction : Type 0 where
  pub out_trade_no : String
  pub trade_state : String
  pub transaction_id : String
  pub trade_type : String
  pub trade_state_desc : String
  pub payer_total : ℤ

abbrev pub err_wx_pay_callback : Error
err_wx_pay_callback = new_err_msg "wechat pay callback fail"

unfoldable pub get_pay_status_by_wx_pay_trade_state : String → ℤ
get_pay_status_by_wx_pay_trade_state state =
    if str_eq state "SUCCESS"
    then success
    else if str_eq state "USERPAYING"
    then wait
    else if str_eq state "REFUND"
    then wait
    else fail

-- The request that the callback sends. It names no `PayTime`, which is then 0.
abbrev pub notification_req : Transaction → UpdateTradeStateReq
notification_req n = record {
  sn = n.out_trade_no;
  trade_state = n.trade_state;
  transaction_id = n.transaction_id;
  trade_type = n.trade_type;
  trade_state_desc = n.trade_state_desc;
  pay_status = get_pay_status_by_wx_pay_trade_state n.trade_state;
  pay_time = pos 0;
}

module _ {Db : Type 0} (conn : Conn Db ThirdPayment) (carry : Error → Error) where
  -- After the payment record was read. A response without a record, which
  -- `GetPaymentBySn` never returns, would be a nil pointer.
  abbrev pub update_for : Transaction → Option PaymentDetail → Action (State Db) (Unit {0})
  update_for n none = panics
  update_for n (some p) = do
    raise_if (p.id ==ℤ pos 0) err_wx_pay_callback
    raise_if (not (p.pay_total ==ℤ n.payer_total)) err_wx_pay_callback
    (if get_pay_status_by_wx_pay_trade_state n.trade_state ==ℤ success
        then (if not (p.pay_status ==ℤ wait)
            then pure tt
            else wrap err_wx_pay_callback
                (call carry (update_trade_state conn (notification_req n))))
        else pure tt)

  unfoldable pub verify_and_update_state : Transaction → Action (State Db) (Unit {0})
  verify_and_update_state n s =
      (do
        found ←
            wrap err_wx_pay_callback
              (returned (remote carry (get_payment_by_sn conn n.out_trade_no s.db)))
        update_for n found)
        s

  -- The return code of the response, with the error beside it; no response where the client cannot
  -- be made or the request does not verify.
  abbrev pub reply_of : Result (Unit {0}) → Result (String × Option Error)
  reply_of (ok _) = ok ("SUCCESS", none)
  reply_of (err e) = ok ("FAIL", some e)
  reply_of panic = panic

  unfoldable pub third_payment_wx_pay_callback :
      (client : Result (Unit {0}))
      → (parsed : Result Transaction) → Action (State Db) (String × Option Error)
  third_payment_wx_pay_callback client parsed = do
    returned client
    n ← wrap err_wx_pay_callback (returned parsed)
    λ s. let (r, s') = verify_and_update_state n s in (reply_of r, s')
