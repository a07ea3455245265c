-- ===== src/Payment/CallbackLaws.antt =====
-- What a notification of WeChat Pay can change, and what it is answered with.
use flash_sale_system.Common.{
  ◌≡◌, ◌≢◌, ◌⊎◌, inl, inr, some, none, String, pos, eq_iff, ok, err, panic, Error, arith,
  Result-cases, ap, ◌∙◌,
}
use flash_sale_system.Store.{Conn}
use flash_sale_system.Reply.{remote}
use flash_sale_system.Payment.{ThirdPayment, wait, success, State}
use flash_sale_system.Payment.Update.{find_one_by_sn}
use flash_sale_system.Payment.Query.{get_payment_by_sn, to_pb}
use flash_sale_system.Payment.Callback.{
  Transaction, err_wx_pay_callback, get_pay_status_by_wx_pay_trade_state, update_for,
  verify_and_update_state, third_payment_wx_pay_callback,
}

module _ {Db : Type 0} (conn : Conn Db ThirdPayment) (carry : Error → Error) where
  pub verify_of_found :
      (n : Transaction) (s : State Db) (p : ThirdPayment)
      → find_one_by_sn conn n.out_trade_no s.db ≡ ok p
      → verify_and_update_state conn carry n s ≡ update_for conn carry n (some (to_pb p)) s
  unfolding verify_and_update_state get_payment_by_sn remote
  verify_of_found n s p found = rw (found, get_payment_by_sn)

  pub verify_of_failed :
      (n : Transaction) (s : State Db)
      → ((e : Error) × (find_one_by_sn conn n.out_trade_no s.db ≡ err e))
        ⊎ (find_one_by_sn conn n.out_trade_no s.db ≡ panic)
      → (verify_and_update_state conn carry n s).1 ≡ s
  unfolding verify_and_update_state get_payment_by_sn remote
  verify_of_failed n s (inl (e, h)) = ground arith
  verify_of_failed n s (inr h) = ground arith

  status-success :
      (state : String) → get_pay_status_by_wx_pay_trade_state state ≡ success → state ≡ "SUCCESS"
  unfolding get_pay_status_by_wx_pay_trade_state
  status-success state h =
      ground (arith, eq_iff state "SUCCESS", eq_iff state "USERPAYING", eq_iff state "REFUND")

  update_for-changes :
      (n : Transaction) (p : ThirdPayment) (s : State Db)
      → (update_for conn carry n (some (to_pb p)) s).1 ≢ s
      → (p.pay_total ≡ n.payer_total)
        × (p.pay_status ≡ wait)
        × (get_pay_status_by_wx_pay_trade_state n.trade_state ≡ success)
  unfolding to_pb
  update_for-changes n p s h = (ground arith, ground arith, ground arith)

  -- A notification changes the payment service's state only if it reports a success, of a payment
  -- that is on record under its number, for exactly the amount on record, and still waited for.
  pub callback_changes :
      (n : Transaction) (s : State Db)
      → (verify_and_update_state conn carry n s).1 ≢ s
      → (p : ThirdPayment) × (find_one_by_sn conn n.out_trade_no s.db ≡ ok p)
        × (p.pay_total ≡ n.payer_total)
        × (p.pay_status ≡ wait)
        × (n.trade_state ≡ "SUCCESS")
  callback_changes n s h = elim (Result-cases (find_one_by_sn conn n.out_trade_no s.db)) [
    | inl (p, found) ↦
        let (amount, waited, reported) =
          update_for-changes n p s (λ e. h (ap (λ r. r.1) (verify_of_found n s p found) ∙ e)) in
        (p, found, amount, waited, status-success n.trade_state reported)
    | inr failed ↦ absurd (h (verify_of_failed n s failed))
  ]

  -- A notification of another amount is refused and changes nothing.
  pub callback_wrong_amount :
      (n : Transaction) (s : State Db) (p : ThirdPayment)
      → find_one_by_sn conn n.out_trade_no s.db ≡ ok p
      → p.pay_total ≢ n.payer_total
      → verify_and_update_state conn carry n s ≡ (err err_wx_pay_callback, s)
  unfolding to_pb
  callback_wrong_amount n s p found ne = rw (verify_of_found n s p found) (ground arith)

  -- A notification that comes again, for a payment on record that is no longer waited for, is
  -- answered with SUCCESS and changes nothing.
  pub callback_again :
      (n : Transaction) (s : State Db) (p : ThirdPayment)
      → find_one_by_sn conn n.out_trade_no s.db ≡ ok p
      → p.id ≢ pos 0
      → p.pay_total ≡ n.payer_total
      → p.pay_status ≢ wait
      → third_payment_wx_pay_callback conn carry (ok tt) (ok n) s ≡ (ok ("SUCCESS", none), s)
  unfolding third_payment_wx_pay_callback to_pb
  callback_again n s p found recorded amount again = rw (verify_of_found n s p found) (ground arith)
