-- ===== src/Order/TradeLaws.antt =====
-- The life of an order: the transitions that `verifyOrderTradeState` allows, and that the table and
-- the task queue change only along them.
use flash_sale_system.Common.{
  ◌≡◌, ◌≢◌, refl, ◌↔◌, inl, inr, Bool, false, List, [], ◌∷◌, ◌++◌, ℤ, ◌≤ℤ◌, ◌==ℤ◌, ==ℤ_iff, ok, err,
  panic, Error, not_found, if◌then◌else◌, arith, Result-cases, Bool-cases, ◌∙◌,
}
use mathlib.Core.List.{append-nil}
use flash_sale_system.Store.{Conn, next_version, update_with_version}
use flash_sale_system.Xerr.{new_err_msg}
use flash_sale_system.Order.{
  HomestayOrder, order_table, cancel, wait_pay, wait_use, used, refund, expire, Task, State,
  msg_pay_success_notify_user,
}
use flash_sale_system.Order.Trade.{
  find_one_by_sn, verify_order_trade_state, UpdateTradeStateResp, update_resp, UpdateTradeStateReq,
  empty_resp, change_trade_state, update_homestay_order_trade_state,
}

-- An order that waits for its payment is cancelled or paid; one that was paid is used, refunded or
-- expires.
pub data Transition : ℤ → ℤ → Type 0 where
  cancels : Transition wait_pay cancel
  pays : Transition wait_pay wait_use
  uses : Transition wait_use used
  refunds : Transition wait_use refund
  expires : Transition wait_use expire

-- The states that the constants name, -1 to 4.
abbrev pub IsTradeState : ℤ → Type 0
IsTradeState s = (cancel ≤ℤ s) × (s ≤ℤ expire)

pub verify_sound :
    (new old : ℤ) → IsTradeState new → verify_order_trade_state new old ≡ ok tt → Transition old new
unfolding verify_order_trade_state
verify_sound new old known h = grind (arith, cancels, pays, uses, refunds, expires)

pub verify_complete : (new old : ℤ) → Transition old new → verify_order_trade_state new old ≡ ok tt
unfolding verify_order_trade_state
verify_complete new old cancels = refl
verify_complete new old pays = refl
verify_complete new old uses = refl
verify_complete new old refunds = refl
verify_complete new old expires = refl

-- For the new states -1 to 4, `verifyOrderTradeState` allows a change exactly when it is a transition.
pub verify-Transition :
    (new old : ℤ)
    → IsTradeState new
    → (verify_order_trade_state new old ≡ ok tt) ↔ Transition old new
verify-Transition new old known = (verify_sound new old known, verify_complete new old)

pub verify-ne-panic : (new old : ℤ) → verify_order_trade_state new old ≢ panic
unfolding verify_order_trade_state
verify-ne-panic new old h = ground arith

-- A change that is no transition is refused with an error.
verify_refuses :
    (new old : ℤ)
    → IsTradeState new
    → ¬ Transition old new
    → (e : Error) × (verify_order_trade_state new old ≡ err e)
verify_refuses new old known none_such = elim (Result-cases (verify_order_trade_state new old)) [
  | inl (_, h) ↦ absurd (none_such (verify_sound new old known (rw h)))
  | inr (inl refusal) ↦ refusal
  | inr (inr h) ↦ absurd (verify-ne-panic new old h)
]

module _ {Db : Type 0} (conn : Conn Db HomestayOrder) (marshals : Task → Bool) where
  -- The order as the logic hands it to `UpdateWithVersion`, and the task of a paid order.
  abbrev pub with_trade_state : HomestayOrder → ℤ → HomestayOrder
  with_trade_state o new = record o { trade_state = new }

  abbrev pub notifications : HomestayOrder → ℤ → List Task
  notifications o new =
      let task = msg_pay_success_notify_user (next_version order_table (with_trade_state o new)) in
      if new ==ℤ wait_use then (if marshals task then task ∷ [] else []) else []

  pub update_of_found :
      (req : UpdateTradeStateReq) (o : HomestayOrder) (s : State Db)
      → find_one_by_sn conn req.sn s.db ≡ ok o
      → update_homestay_order_trade_state conn marshals req s ≡ (
          if o.trade_state ==ℤ req.trade_state
          then (ok empty_resp, s)
          else change_trade_state conn marshals req o s)
  unfolding update_homestay_order_trade_state
  update_of_found req o s found = elim (Bool-cases (o.trade_state ==ℤ req.trade_state)) [
    | inl e ↦ rw (found, e)
    | inr e ↦ rw (found, e)
  ]

  pub update_of_missing :
      (req : UpdateTradeStateReq) (s : State Db)
      → find_one_by_sn conn req.sn s.db ≡ err not_found
      → update_homestay_order_trade_state conn marshals req s
        ≡ (err (new_err_msg "order no exists"), s)
  unfolding update_homestay_order_trade_state
  update_of_missing req s missing = rw missing

  pub change_refused :
      (req : UpdateTradeStateReq) (o : HomestayOrder) (s : State Db) (e : Error)
      → verify_order_trade_state req.trade_state o.trade_state ≡ err e
      → change_trade_state conn marshals req o s ≡ (err e, s)
  unfolding change_trade_state
  change_refused req o s e h = rw h

  -- A request for the state that the order has changes nothing and is answered with an empty
  -- response; one for a state that no transition leads to is an error that changes nothing.
  pub update_without_effect :
      (req : UpdateTradeStateReq) (o : HomestayOrder) (s : State Db)
      → IsTradeState req.trade_state
      → find_one_by_sn conn req.sn s.db ≡ ok o
      → ((o.trade_state ≡ req.trade_state)
          → update_homestay_order_trade_state conn marshals req s ≡ (ok empty_resp, s))
        × (o.trade_state ≢ req.trade_state
            → ¬ Transition o.trade_state req.trade_state
            → (e : Error) × (update_homestay_order_trade_state conn marshals req s ≡ (err e, s)))
  update_without_effect req o s known found = (same, other_state)
    where
      same :
          o.trade_state ≡ req.trade_state
          → update_homestay_order_trade_state conn marshals req s ≡ (ok empty_resp, s)
      same e =
          let test = (==ℤ_iff o.trade_state req.trade_state).1 e in
          update_of_found req o s found ∙ (rw test)

      other_state :
          o.trade_state ≢ req.trade_state
          → ¬ Transition o.trade_state req.trade_state
          → (e : Error) × (update_homestay_order_trade_state conn marshals req s ≡ (err e, s))
      other_state ne none_such =
          let (e, h) = verify_refuses req.trade_state o.trade_state known none_such in
          let test : (o.trade_state ==ℤ req.trade_state) ≡ false = ground arith in
          (e, update_of_found req o s found ∙ rw test (change_refused req o s e h))

  pub change_written :
      (req : UpdateTradeStateReq) (o : HomestayOrder) (s : State Db)
      → verify_order_trade_state req.trade_state o.trade_state ≡ ok tt
      → (update_with_version order_table conn (with_trade_state o req.trade_state) s.db).0 ≡ ok tt
      → change_trade_state conn marshals req o s ≡ (
        ok (update_resp (next_version order_table (with_trade_state o req.trade_state))),
        record {
          db = (update_with_version order_table conn (with_trade_state o req.trade_state) s.db).1;
          enqueued = s.enqueued ++ notifications o req.trade_state;
        },
      )
  unfolding change_trade_state
  change_written req o s h w = ground (arith, append-nil s.enqueued)

  pub change_failed :
      (req : UpdateTradeStateReq) (o : HomestayOrder) (s : State Db)
      → verify_order_trade_state req.trade_state o.trade_state ≡ ok tt
      → (update_with_version order_table conn (with_trade_state o req.trade_state) s.db).0 ≢ ok tt
      → ((resp : UpdateTradeStateResp) → (change_trade_state conn marshals req o s).0 ≢ ok resp)
        × ((change_trade_state conn marshals req o s).1.enqueued ≡ s.enqueued)
  unfolding change_trade_state
  change_failed req o s h w =
      elim (Result-cases
        (update_with_version order_table conn (with_trade_state o req.trade_state) s.db).0) [
          | inl (_, done) ↦ absurd (w done)
          | inr (inl (e, failed)) ↦ (λ resp r. ground arith, ground arith)
          | inr (inr failed) ↦ (λ resp r. ground arith, ground arith)
        ]
