-- ===== src/Payment/WxPay.antt =====
-- The start of a payment
-- (app/payment/cmd/api/internal/logic/thirdPayment/thirdPaymentwxPayLogic.go). The RPCs of the order
-- and the user service, and WeChat's library, are arguments.
use flash_sale_system.Common.{
  Option, none, some, String, ℤ, pos, ◌==ℤ◌, Result, ok, err, Error, Action, raise, raise_if,
  returned, wrap, ◌>>=◌, ◌>>◌, if◌then◌else◌, str_eq,
}
use flash_sale_system.Store.{Conn}
use flash_sale_system.Xerr.{new_err_msg}
use flash_sale_system.Order.Query.{PbHomestayOrder}
use flash_sale_system.Payment.{
  ThirdPayment, service_type_homestay_order, pay_model_wechat_pay, State,
}
use flash_sale_system.Payment.Update.{create_payment}
use flash_sale_system.Reply.{call}

abbrev pub err_wx_pay : Error
err_wx_pay = new_err_msg "wechat pay fail"

-- What `createWxPrePayOrder` reads of a `usercenter.UserAuth`.
pub record PayerAuth : Type 0 where
  pub id : ℤ
  pub auth_key : String

-- The fields of `jsapi.PrepayRequest` that depend on the request; the rest is configuration.
pub record PrepayRequest : Type 0 where
  pub description : String
  pub out_trade_no : String
  pub attach : String
  pub total : ℤ
  pub openid : String

-- The fields of `jsapi.PrepayWithRequestPaymentResponse` that the response passes on.
pub record PrepayResponse : Type 0 where
  pub nonce_str : String
  pub pay_sign : String
  pub package_text : String
  pub time_stamp : String
  pub sign_type : String

pub record WxPayReq : Type 0 where
  pub order_sn : String
  pub service_type : String

-- What the call meets: the user of the token, the two RPCs, the number of the new record, and
-- WeChat's client.
pub record Environment : Type 0 where
  pub user_id : ℤ
  pub order_detail : String → Result (Option PbHomestayOrder)
  pub user_auth : ℤ → Result (Option PayerAuth)
  pub payment_sn : String
  pub zero_time : ℤ
  pub client : Result (Unit {0})
  pub prepay : PrepayRequest → Result PrepayResponse

abbrev pub homestay_description : String
homestay_description = "homestay pay"

-- `getPayHomestayPriceDescription`
abbrev pub price_of : Option PbHomestayOrder → Result ℤ
price_of none = err (new_err_msg "order no exists")
price_of (some o) =
    if o.id ==ℤ pos 0 then err (new_err_msg "order no exists") else ok o.order_total_price

unfoldable pub get_pay_homestay_price : {S : Type 0} → Environment → String → Action S ℤ
get_pay_homestay_price env order_sn = do
  found ← wrap err_wx_pay (returned (env.order_detail order_sn))
  returned (price_of found)

-- The open id of the payer.
abbrev pub openid_of : Option PayerAuth → Result String
openid_of none =
    err (new_err_msg "Get user wechat openid fail，Please pay before authorization by weChat")
openid_of (some a) =
    if a.id ==ℤ pos 0
    then err (new_err_msg "Get user wechat openid fail，Please pay before authorization by weChat")
    else ok a.auth_key

module _ {Db : Type 0} (conn : Conn Db ThirdPayment) (carry : Error → Error)
    (env : Environment) where
  unfoldable pub create_wx_pre_pay_order :
      (service_type order_sn : String) → ℤ → String → Action (State Db) PrepayResponse
  create_wx_pre_pay_order service_type order_sn total_price description = do
    auth ← wrap err_wx_pay (returned (env.user_auth env.user_id))
    openid ← returned (openid_of auth)
    sn ← wrap err_wx_pay (
        call carry (
          create_payment conn env.zero_time
            (record {
              user_id = env.user_id;
              pay_model = pay_model_wechat_pay;
              pay_total = total_price;
              order_sn = order_sn;
              service_type = service_type;
            })
            env.payment_sn))
    raise_if (str_eq sn "") err_wx_pay
    returned env.client
    wrap err_wx_pay (
        returned (
          env.prepay (record {
            description = description;
            out_trade_no = sn;
            attach = description;
            total = total_price;
            openid = openid;
          })))

  -- Every failure of the price query is reported as `ErrWxPayError`.
  unfoldable pub third_payment_wx_pay : WxPayReq → Action (State Db) PrepayResponse
  third_payment_wx_pay req =
      if str_eq req.service_type service_type_homestay_order
      then (do
        total_price ← wrap err_wx_pay (get_pay_homestay_price env req.order_sn)
        create_wx_pre_pay_order req.service_type req.order_sn total_price homestay_description)
      else raise (new_err_msg "Payment for this business type is not supported")
