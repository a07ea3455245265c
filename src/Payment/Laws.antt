-- ===== src/Payment/Laws.antt =====
-- The life of a payment record, and what `UpdateTradeState` does to the table and to the messages.
use flash_sale_system.Common.{
  ◌≡◌, ◌≢◌, refl, ◌↔◌, ◌⊎◌, inl, inr, ◌<◌, [], ◌∷◌, ◌++◌, map, ℤ, ok, err, panic, Error,
  if◌then◌else◌, count, arith, Result-cases,
}
use flash_sale_system.Store.{Conn, is_current, update_with_version}
use flash_sale_system.Store.Sql.{IsSql}
use flash_sale_system.Store.Version.{written, update_with_version_done}
use flash_sale_system.Payment.{
  ThirdPayment, payment_table, payment_table-IsTable, fail, wait, success, refund, State,
}
use flash_sale_system.Payment.Update.{
  find_one_by_sn, UpdateTradeStateReq, proceed, answer_at_once, judge, with_notification,
  write_trade_state, update_trade_state,
}

-- A payment that is waited for succeeds or fails; one that succeeded is refunded.
pub data Transition : ℤ → ℤ → Type 0 where
  succeeds : Transition wait success
  fails : Transition wait fail
  refunds : Transition success refund

pub judge_sound : (new old : ℤ) → judge new old ≡ ok proceed → Transition old new
unfolding judge
judge_sound new old h = grind (arith, succeeds, fails, refunds)

judge_complete : (new old : ℤ) → Transition old new → judge new old ≡ ok proceed
unfolding judge
judge_complete new old succeeds = refl
judge_complete new old fails = refl
judge_complete new old refunds = refl

judge-ne-panic : (new old : ℤ) → judge new old ≢ panic
unfolding judge
judge-ne-panic new old h = ground arith

-- `UpdateTradeState` goes on to the update exactly for a transition of the payment's status. It
-- answers at once, with no error, exactly for a success or a failure that comes when the payment is
-- no longer waited for.
pub judge-Transition :
    (new old : ℤ)
    → ((judge new old ≡ ok proceed) ↔ Transition old new)
      × ((judge new old ≡ ok answer_at_once) ↔ (((new ≡ success) ⊎ (new ≡ fail)) × (old ≢ wait)))
unfolding judge
judge-Transition new old =
    ((judge_sound new old, judge_complete new old), (λ h. ground arith, λ h. ground arith))

module _ {Db : Type 0} (conn : Conn Db ThirdPayment) where
  module _ (sql : IsSql payment_table conn) where
    -- From `s` to `s'` the record `p`, as it was read, took the request's fields: by a transition of
    -- its status; in the rows that still had its id and version, of which there was one at least; no
    -- other row changed; and one message was published.
    pub record IsPaid (p : ThirdPayment) (req : UpdateTradeStateReq) (s s' : State Db)
        : Type 0 where
      pub transition : Transition p.pay_status req.pay_status
      pub current : 0 < count (is_current payment_table p) (sql.rows s.db)
      pub rows_changed :
          sql.rows s'.db
          ≡ map
              (λ r.
                if is_current payment_table p r
                then written payment_table conn payment_table-IsTable sql
                    (with_notification req p)
                    s.db
                    r
                else r)
              (sql.rows s.db)
      pub message :
          s'.published
          ≡ s.published ++ record { pay_status = req.pay_status; order_sn = req.sn } ∷ []

    write_effect :
        (req : UpdateTradeStateReq) (p : ThirdPayment) (s : State Db)
        → Transition p.pay_status req.pay_status
        → (write_trade_state conn req p s).0 ≡ ok tt
        → IsPaid p req s (write_trade_state conn req p s).1
    unfolding write_trade_state with_notification
    write_effect req p s step h =
        elim (Result-cases
          (update_with_version payment_table conn (with_notification req p) s.db).0) [
            | inl (_, w) ↦
                let (rows, some_current) =
                  update_with_version_done payment_table conn payment_table-IsTable sql
                    (with_notification req p) s.db w in
                record {
                  transition = step;
                  current = some_current;
                  rows_changed = ground arith;
                  message = ground arith;
                }
            | inr failed ↦ absurd (ground arith)
          ]

    -- A request that succeeds either found a payment that is no longer waited for and changed nothing,
    -- or it changed the record that it read, as `IsPaid` says.
    pub update_payment_effect :
        (req : UpdateTradeStateReq) (s : State Db)
        → (update_trade_state conn req s).0 ≡ ok tt
        → (p : ThirdPayment) × (find_one_by_sn conn req.sn s.db ≡ ok p)
          × ((p.pay_status ≢ wait) × ((update_trade_state conn req s).1 ≡ s)
              ⊎ IsPaid p req s (update_trade_state conn req s).1)
    unfolding update_trade_state
    update_payment_effect req s h = elim (Result-cases (find_one_by_sn conn req.sn s.db)) [
      | inl (p, found) ↦ (
        p,
        found,
        elim (Result-cases (judge req.pay_status p.pay_status)) [
          | inl (proceed, j) ↦ inr (
              rw (found, j)
                (write_effect req p s (judge_sound req.pay_status p.pay_status j)
                  (rw (found, j) at h)))
          | inl (answer_at_once, j) ↦
              inl (((judge-Transition req.pay_status p.pay_status).1.0 j).1, rw (found, j))
          | inr refusal ↦ absurd (ground arith)
        ],
      )
      | inr missing ↦ absurd (ground arith)
    ]

  -- A refund of a payment that has not succeeded, and any status but the three, is an error that
  -- changes nothing.
  pub update_refused :
      (req : UpdateTradeStateReq) (p : ThirdPayment) (s : State Db)
      → find_one_by_sn conn req.sn s.db ≡ ok p
      → ¬ Transition p.pay_status req.pay_status
      → req.pay_status ≢ success
      → req.pay_status ≢ fail
      → (e : Error) × (update_trade_state conn req s ≡ (err e, s))
  unfolding update_trade_state
  update_refused req p s found none_such ns nf =
      elim (Result-cases (judge req.pay_status p.pay_status)) [
        | inl (proceed, j) ↦ absurd (none_such (judge_sound req.pay_status p.pay_status j))
        | inl (answer_at_once, j) ↦
            absurd (ground (arith, (judge-Transition req.pay_status p.pay_status).1.0 j))
        | inr (inl (e, j)) ↦ (e, rw (found, j))
        | inr (inr j) ↦ absurd (judge-ne-panic req.pay_status p.pay_status j)
      ]
