-- ===== src/Payment/Update.antt =====
-- The writes of the payment RPC: createPaymentLogic.go and updateTradeStateLogic.go of
-- app/payment/cmd/rpc/internal/logic.
use flash_sale_system.Common.{
  not, ◌&&◌, ◌||◌, Option, none, some, [], ◌∷◌, ◌++◌, String, ℤ, pos, ◌==ℤ◌, Result, ok, err, panic,
  not_found, Action, pure, raise, returned, wrap, ◌>>=◌, ◌>>◌, if◌then◌else◌,
}
use flash_sale_system.Store.{Conn, is_live, insert_row, update_with_version}
use flash_sale_system.Xerr.{db_error, new_err_code, new_err_msg}
use flash_sale_system.Payment.{
  ThirdPayment, payment_table, service_type_homestay_order, fail, wait, success, refund, State,
  on_db,
}

-- `FindOneBySn`
unfoldable pub find_one_by_sn :
    {Db : Type 0} → Conn Db ThirdPayment → String → Db → Result ThirdPayment
find_one_by_sn conn sn = conn.find_row (λ r. conn.text_eq r.sn sn && is_live payment_table r)

pub record CreatePaymentReq : Type 0 where
  pub user_id : ℤ
  pub pay_model : String
  pub pay_total : ℤ
  pub order_sn : String
  pub service_type : String

-- The record that is inserted. The logic gives no `PayTime`, Go's zero time, which is `zero_time`
-- here.
unfoldable pub new_payment : (zero_time : ℤ) → CreatePaymentReq → String → ThirdPayment
new_payment zero_time req sn = record {
  id = pos 0;
  sn = sn;
  create_time = zero_time;
  update_time = zero_time;
  delete_time = zero_time;
  del_state = pos 0;
  version = pos 0;
  user_id = req.user_id;
  pay_mode = req.pay_model;
  trade_type = "";
  trade_state = "";
  pay_total = req.pay_total;
  transaction_id = "";
  trade_state_desc = "";
  order_sn = req.order_sn;
  service_type = service_type_homestay_order;
  pay_status = pos 0;
  pay_time = zero_time;
}

pub record UpdateTradeStateReq : Type 0 where
  pub sn : String
  pub trade_state : String
  pub transaction_id : String
  pub trade_type : String
  pub trade_state_desc : String
  pub pay_status : ℤ
  pub pay_time : ℤ

-- A query by `Sn` as the logic reads it: `nil` for a missing record.
abbrev pub payment_or_nil : Result ThirdPayment → Result (Option ThirdPayment)
payment_or_nil (ok p) = ok (some p)
payment_or_nil (err e) = elim e [ not_found ↦ ok none | _ ↦ err (new_err_code db_error) ]
payment_or_nil panic = panic

-- Step 2 of `UpdateTradeState`: go on with the update, or answer at once that all is well.
pub data Verdict : Type 0 where
  proceed answer_at_once : Verdict

unfoldable pub judge : ℤ → ℤ → Result Verdict
judge new old =
    if (new ==ℤ success) || (new ==ℤ fail)
    then (if not (old ==ℤ wait) then ok answer_at_once else ok proceed)
    else if new ==ℤ refund
    then (if not (old ==ℤ success)
        then err (new_err_msg "Only orders with successful payment can be refunded")
        else ok proceed)
    else err (new_err_msg "This status is not currently supported")

-- Step 3: the fields that are written.
unfoldable pub with_notification : UpdateTradeStateReq → ThirdPayment → ThirdPayment
with_notification req p = record p {
  trade_state = req.trade_state;
  transaction_id = req.transaction_id;
  trade_type = req.trade_type;
  trade_state_desc = req.trade_state_desc;
  pay_status = req.pay_status;
  pay_time = req.pay_time;
}

-- `pubKqPaySuccess`
abbrev pub pub_kq_pay_success : {Db : Type 0} → String → ℤ → Action (State Db) (Unit {0})
pub_kq_pay_success order_sn pay_status s = (
  ok tt,
  record s {
    published = s.published ++ record { pay_status = pay_status; order_sn = order_sn } ∷ [];
  },
)

module _ {Db : Type 0} (conn : Conn Db ThirdPayment) where
  -- `sn` is the number that `GenSn` made.
  unfoldable pub create_payment :
      (zero_time : ℤ) → CreatePaymentReq → String → Action (State Db) String
  create_payment zero_time req sn = do
    wrap (new_err_code db_error)
        (on_db (insert_row payment_table conn (new_payment zero_time req sn)))
    pure sn

  -- Steps 3 and 4
  unfoldable pub write_trade_state :
      UpdateTradeStateReq → ThirdPayment → Action (State Db) (Unit {0})
  write_trade_state req p = do
    wrap (new_err_code db_error)
        (on_db (update_with_version payment_table conn (with_notification req p)))
    pub_kq_pay_success req.sn req.pay_status

  abbrev pub act : UpdateTradeStateReq → ThirdPayment → Verdict → Action (State Db) (Unit {0})
  act req p proceed = write_trade_state req p
  act req p answer_at_once = pure tt

  abbrev pub update_found : UpdateTradeStateReq → Option ThirdPayment → Action (State Db) (Unit {0})
  update_found req none = raise (new_err_msg "third payment record no exists")
  update_found req (some p) = do
    verdict ← returned (judge req.pay_status p.pay_status)
    act req p verdict

  unfoldable pub update_trade_state : UpdateTradeStateReq → Action (State Db) (Unit {0})
  update_trade_state req s =
      (do
        found ← returned (payment_or_nil (find_one_by_sn conn req.sn s.db))
        update_found req found)
        s
