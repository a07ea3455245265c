-- ===== src/Mqueue/Notify.antt =====
-- The job that tells a user of a payment (app/mqueue/cmd/job/internal/logic/paySuccessNotifyUser.go).
-- WeChat's service and the texts made of times and prices are arguments.
use flash_sale_system.Common.{
  ℕ, zero, suc, ltb, Bool, not, Option, none, some, List, [], ◌∷◌, String, ℤ, Result, ok, err,
  panic, Error, if◌then◌else◌, str_eq,
}
use flash_sale_system.Xerr.{new_err_msg}
use flash_sale_system.Order.{HomestayOrder}

abbrev pub err_pay_success_notify : Error
err_pay_success_notify = new_err_msg "pay success notify user fail"

-- `subscribe.Message`
pub record Message : Type 0 where
  pub to_user : String
  pub template_id : String
  pub items : List (String × String)
  pub miniprogram_state : String

-- What `getData` takes from elsewhere: the templates, and its texts of a price and of a time.
pub record Texts : Type 0 where
  pub order_pay_success_template : String
  pub order_pay_success_live_know_template : String
  pub price : ℤ → String
  pub date : ℤ → String

unfoldable pub get_data : Texts → HomestayOrder → String → List Message
get_data texts o openid =
    record {
      to_user = openid;
      template_id = texts.order_pay_success_template;
      items =
          ("character_string6", o.sn)
          ∷ ("thing1", o.title)
          ∷ ("amount2", texts.price o.order_total_price)
          ∷ ("time4", texts.date o.live_start_date)
          ∷ ("time5", texts.date o.live_end_date)
          ∷ [];
      miniprogram_state = "";
    }
    ∷ record {
      to_user = openid;
      template_id = texts.order_pay_success_live_know_template;
      items =
          ("date2", texts.date o.live_start_date)
          ∷ ("date3", texts.date o.live_end_date)
          ∷ ("character_string4", o.trade_code)
          ∷ ("thing1", "请不要将验证码告知商家以外人员，以防上当")
          ∷ [];
      miniprogram_state = "";
    }
    ∷ []

abbrev pub max_retry_num : ℕ
max_retry_num = 5

-- The loop of `SendWxMini`, from the call `k` of `Send` on, with `retry_num` retries behind it: the
-- number of calls made, or `none` where the fuel ran out. `sends k` is whether call `k` succeeds.
unfoldable pub send_loop : (fuel : ℕ) (sends : ℕ → Bool) (retry_num k : ℕ) → Option ℕ
send_loop zero sends retry_num k = none
send_loop (suc fuel) sends retry_num k =
    let again = send_loop fuel sends (suc retry_num) (suc k) in
    if sends k then some (suc k) else if ltb max_retry_num retry_num then some (suc k) else again

-- The message that is sent.
unfoldable pub with_state : (pro_mode : Bool) → Message → Message
with_state pro_mode m = record m {
  miniprogram_state = if not pro_mode then "developer" else "formal";
}

-- What the job reads of a `usercenter.UserAuth`; the empty key is that of the empty record.
abbrev pub openid_of : Option String → Result String
openid_of none = err err_pay_success_notify
openid_of (some key) = if str_eq key "" then err err_pay_success_notify else ok key

-- `ProcessTask`: the messages that it sends, each by `SendWxMini`.
unfoldable pub notify_user :
    Texts
    → (payload : Result HomestayOrder) → (user_auth : ℤ → Result (Option String))
    → Result (List Message)
unfolding get_data
notify_user texts payload user_auth = elim payload [
  | ok o ↦ elim (user_auth o.user_id) [
    | ok auth ↦ elim (openid_of auth) [
      | ok openid ↦ ok (get_data texts o openid)
      | err e ↦ err e
      | panic ↦ panic
    ]
    | err _ ↦ err err_pay_success_notify
    | panic ↦ panic
  ]
  | err _ ↦ err err_pay_success_notify
  | panic ↦ panic
]
