-- ===== src/Payment/Query.antt =====
-- The reads of the payment RPC: getPaymentBySnLogic.go and
-- getPaymentSuccessRefundByOrderSnLogic.go of app/payment/cmd/rpc/internal/logic.
use flash_sale_system.Common.{
  Bool, ◌&&◌, ◌||◌, Option, some, List, [], ◌∷◌, String, ℤ, pos, Result, ok, err, panic, not_found,
}
use flash_sale_system.Store.{Conn, find_all}
use flash_sale_system.Xerr.{db_error, new_err_code, new_err_msg}
use flash_sale_system.Payment.{ThirdPayment, payment_table, success, refund}
use flash_sale_system.Payment.Update.{find_one_by_sn}

-- `pb.PaymentDetail`. Its `tradeState` is an int64 and the table's is a text, which `copier.Copy`
-- does not convert: the field stays 0 and is left out here.
pub record PaymentDetail : Type 0 where
  pub id : ℤ
  pub sn : String
  pub user_id : ℤ
  pub pay_mode : String
  pub trade_type : String
  pub pay_total : ℤ
  pub transaction_id : String
  pub trade_state_desc : String
  pub order_sn : String
  pub service_type : String
  pub create_time : ℤ
  pub update_time : ℤ
  pub pay_status : ℤ
  pub pay_time : ℤ

-- `var resp pb.PaymentDetail`
abbrev pub no_payment : PaymentDetail
no_payment = record {
  id = pos 0;
  sn = "";
  user_id = pos 0;
  pay_mode = "";
  trade_type = "";
  pay_total = pos 0;
  transaction_id = "";
  trade_state_desc = "";
  order_sn = "";
  service_type = "";
  create_time = pos 0;
  update_time = pos 0;
  pay_status = pos 0;
  pay_time = pos 0;
}

unfoldable pub to_pb : ThirdPayment → PaymentDetail
to_pb p = record {
  id = p.id;
  sn = p.sn;
  user_id = p.user_id;
  pay_mode = p.pay_mode;
  trade_type = p.trade_type;
  pay_total = p.pay_total;
  transaction_id = p.transaction_id;
  trade_state_desc = p.trade_state_desc;
  order_sn = p.order_sn;
  service_type = p.service_type;
  create_time = p.create_time;
  update_time = p.update_time;
  pay_status = p.pay_status;
  pay_time = p.pay_time;
}

-- `GetPaymentBySn`: the response always holds a record, an empty one where there is none.
unfoldable pub get_payment_by_sn :
    {Db : Type 0} → Conn Db ThirdPayment → String → Db → Result (Option PaymentDetail)
get_payment_by_sn conn sn d = elim (find_one_by_sn conn sn d) [
  | ok p ↦ ok (some (to_pb p))
  | err e ↦ elim e [ not_found ↦ ok (some no_payment) | _ ↦ err (new_err_code db_error) ]
  | panic ↦ panic
]

abbrev pub first_or_empty : List ThirdPayment → PaymentDetail
first_or_empty [] = no_payment
first_or_empty (p ∷ ps) = to_pb p

-- `GetPaymentSuccessRefundByOrderSn`. The query compares the text column `trade_state` with the
-- numbers 1 and 2; `text_eq_number` is how MySQL does that.
unfoldable pub get_payment_success_refund_by_order_sn :
    {Db : Type 0}
    → Conn Db ThirdPayment
    → (text_eq_number : String → ℤ → Bool) → String
    → Db
    → Result (Option PaymentDetail)
get_payment_success_refund_by_order_sn conn text_eq_number order_sn d =
    elim (find_all payment_table conn
      (λ r.
        conn.text_eq r.order_sn order_sn
        && (text_eq_number r.trade_state success || text_eq_number r.trade_state refund))
      "id desc" d) [
        | ok ps ↦ ok (some (first_or_empty ps))
        | err e ↦ elim e [
          | not_found ↦ ok (some no_payment)
          | _ ↦ err (new_err_msg "get payment record fail")
        ]
        | panic ↦ panic
      ]
