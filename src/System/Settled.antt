-- ===== src/System/Settled.antt =====
-- What a write of `UpdateTradeState`
-- (app/payment/cmd/rpc/internal/logic/updateTradeStateLogic.go) does to the number of settled payments.
use flash_sale_system.Common.{
  ◌≡◌, refl, sym, ap, ◌∙◌, inl, inr, ℕ, suc, ◌+◌, ◌≤◌, Bool, true, false, not, ◌&&◌, List, [], ◌∷◌,
  map, String, ℤ, pos, pos_part, ◌==ℤ◌, tests, ok, str_eq, if◌then◌else◌, Bool-cases, arith,
}
use flash_sale_system.Store.{is_current, update_with_version}
use flash_sale_system.Store.Version.{written, update_with_version_done}
use flash_sale_system.Store.Keys.{update_rows}
use flash_sale_system.Store.Ranked.{In}
use flash_sale_system.Store.Stamps.{In-map, IsFunctional, columns-written}
use flash_sale_system.Store.Tally.{total, total-write}
use flash_sale_system.Payment.{
  ThirdPayment, payment_table, payment_table-IsTable, NotifyMessage, wait, success,
}
use flash_sale_system.Payment.Update.{UpdateTradeStateReq, with_notification}
use flash_sale_system.Payment.Laws.{Transition, succeeds, fails, refunds}
use flash_sale_system.Payment.Runs.{pay_rank, KeepsStatus, written_status}
use flash_sale_system.System.{PaymentService, payment_columns}
use flash_sale_system.System.Payments.{payment_stamps, payment_keeps}

-- A payment of a number that no longer waits, and a message of its success, each counted as one.
abbrev pub settled : String → ThirdPayment → ℕ
settled sn p = if str_eq p.sn sn && not (p.pay_status ==ℤ wait) then 1 else 0

abbrev pub tells : String → NotifyMessage → ℕ
tells sn m = if str_eq m.order_sn sn && (m.pay_status ==ℤ success) then 1 else 0

total-le :
    {A : Type 0} (measure : A → ℕ) (p : A → Bool) (f : A → A) (rows : List A)
    → ((r : A) → In r rows → p r ≡ true → measure r ≤ measure (f r))
    → total measure rows ≤ total measure (map (λ r. if p r then f r else r) rows)
total-le measure p f [] more = omega arith
total-le measure p f (r ∷ rows) more =
    let rest = total-le measure p f rows (λ x m. more x (inr m)) in
    elim (Bool-cases (p r)) [
      | inl passes ↦ ground (arith, rest, more r (inl refl) passes)
      | inr differs ↦ ground (arith, rest)
    ]

rank_of_wait : (s : ℤ) → pay_rank s ≡ 0 → s ≡ wait
unfolding pay_rank
rank_of_wait s h = ground arith

not_waiting : (a b : ℤ) → Transition a b → (b ==ℤ wait) ≡ false
not_waiting a b succeeds = refl
not_waiting a b fails = refl
not_waiting a b refunds = refl

from_wait : (a b : ℤ) → Transition a b → b ≡ success → a ≡ wait
from_wait a b succeeds e = refl
from_wait a b fails e = refl
from_wait a b refunds e = absurd (ground arith)

module _ {Db : Type 0} (service : PaymentService Db) (keeps : KeepsStatus service.sql) where
  open service use {conn, sql}

  abbrev pub IsCountedRow : ThirdPayment → Type 0
  IsCountedRow p = p.version ≡ pos (pay_rank p.pay_status)

  abbrev pub payments_settled : String → Db → ℕ
  payments_settled sn d = total (settled sn) (sql.rows d)

  module _ (req : UpdateTradeStateReq) (p : ThirdPayment) (d : Db)
      (one : IsFunctional (payment_stamps service d))
      (counted : (r : ThirdPayment) → In r (sql.rows d) → IsCountedRow r) (copied : IsCountedRow p)
      (there : In (p.id, (p.sn, p.order_sn, p.pay_total)) (payment_stamps service d))
      (go : Transition p.pay_status req.pay_status) where
    abbrev new_row : ThirdPayment
    new_row = with_notification req p

    abbrev after_write : ThirdPayment → ThirdPayment
    after_write = written payment_table conn payment_table-IsTable sql new_row d

    -- The number of a payment that is written is the one that was read, before and after.
    same_number :
        (r : ThirdPayment)
        → In r (sql.rows d)
        → is_current payment_table new_row r ≡ true
        → (r.sn ≡ p.sn) × ((after_write r).sn ≡ p.sn)
    unfolding with_notification
    same_number r m current =
        let its : r.id ≡ p.id = grind tests in
        let on_record : In (r.id, (r.sn, r.order_sn, r.pay_total)) (payment_stamps service d) =
          In-map _ r (sql.rows d) m in
        let same = one p.id (payment_columns r) (payment_columns p) (rw its at on_record) there in
        let kept_columns =
          columns-written payment_table conn payment_table-IsTable sql payment_columns
            service.stamped (payment_keeps service) new_row d r in
        (ap (λ k. k.0) same, ap (λ k. k.0) kept_columns)

    after_status : (r : ThirdPayment) → (after_write r).pay_status ≡ req.pay_status
    unfolding with_notification
    after_status r = written_status conn sql keeps new_row d r p.pay_status go

    after_settled :
        (sn : String) (r : ThirdPayment)
        → (after_write r).sn ≡ p.sn
        → settled sn (after_write r) ≡ (if str_eq p.sn sn then 1 else 0)
    after_settled sn r named =
        rw (named, after_status r, not_waiting p.pay_status req.pay_status go) (ground arith)

    -- A payment that is written stays settled; one that is told to have succeeded was not.
    more_settled :
        (sn : String) (r : ThirdPayment)
        → In r (sql.rows d)
        → is_current payment_table new_row r ≡ true
        → settled sn r ≤ settled sn (after_write r)
    more_settled sn r m current =
        let (before, named) = same_number r m current in
        rw (after_settled sn r named, before) (ground arith)

    was_waiting :
        (r : ThirdPayment)
        → In r (sql.rows d)
        → is_current payment_table new_row r ≡ true
        → req.pay_status ≡ success
        → r.pay_status ≡ wait
    unfolding with_notification pay_rank
    was_waiting r m current succeeded =
        let version : r.version ≡ p.version = grind tests in
        let waited = from_wait p.pay_status req.pay_status go succeeded in
        let rank : pos (pay_rank r.pay_status) ≡ pos (pay_rank p.pay_status) =
          sym (counted r m) ∙ version ∙ copied in
        rank_of_wait r.pay_status (ap pos_part rank ∙ ap pay_rank waited)

    abbrev message : NotifyMessage
    message = record { pay_status = req.pay_status; order_sn = req.sn }

    more_rows :
        (sn : String)
        → total (settled sn) (sql.rows d)
          ≤ total (settled sn) (
              map
                (λ r. if is_current payment_table new_row r then after_write r else r)
                (sql.rows d))
    more_rows sn =
        total-le (settled sn) (is_current payment_table new_row) after_write (sql.rows d)
          (more_settled sn)

    one_more :
        (sn : String)
        → req.pay_status ≡ success
        → str_eq p.sn sn ≡ true
        → (r : ThirdPayment) → In r (sql.rows d)
        → is_current payment_table new_row r ≡ true
        → settled sn (after_write r) ≡ suc (settled sn r)
    one_more sn succeeded its r m current =
        let (before, named) = same_number r m current in
        rw (after_settled sn r named, was_waiting r m current succeeded, its) (ground arith)

    tells_another : (sn : String) → p.sn ≡ req.sn → str_eq p.sn sn ≡ false → tells sn message ≡ 0
    tells_another sn named another = ground (arith, ap (λ k. str_eq k sn) named)

    tells_unpaid : (sn : String) → (req.pay_status ==ℤ success) ≡ false → tells sn message ≡ 0
    tells_unpaid sn unpaid = elim (Bool-cases (str_eq req.sn sn)) [
      | inl its ↦ ground arith
      | inr another ↦ ground arith
    ]

    tells-le : (sn : String) → tells sn message ≤ 1
    tells-le sn = elim (Bool-cases (str_eq req.sn sn && (req.pay_status ==ℤ success))) [
      | inl its ↦ ground arith
      | inr another ↦ ground arith
    ]

    -- A write settles payments of its number, and one more at least when it succeeds with the success
    -- of a payment.
    pub write_told :
        (sn : String)
        → payments_settled sn d
            ≤ payments_settled sn (update_with_version payment_table conn new_row d).1
          × ((update_with_version payment_table conn new_row d).0 ≡ ok tt
              → p.sn ≡ req.sn
              → payments_settled sn d + tells sn message
                ≤ payments_settled sn (update_with_version payment_table conn new_row d).1)
    write_told sn = (
      elim (update_rows payment_table conn payment_table-IsTable sql new_row d) [
        | inl same ↦ rw same (omega arith)
        | inr run ↦ rw run (more_rows sn)
      ],
      λ done named.
          let (run, some_row) =
            update_with_version_done payment_table conn payment_table-IsTable sql new_row d done in
          elim (Bool-cases (str_eq p.sn sn)) [
            | inr another ↦ rw run (omega (arith, more_rows sn, tells_another sn named another))
            | inl its ↦ elim (Bool-cases (req.pay_status ==ℤ success)) [
              | inr unpaid ↦ rw run (omega (arith, more_rows sn, tells_unpaid sn unpaid))
              | inl succeeded ↦
                  let more =
                    total-write (settled sn) (is_current payment_table new_row) after_write
                      (sql.rows d) (one_more sn (grind tests) its) in
                  rw run (omega (arith, some_row, more, tells-le sn))
            ]
          ],
    )
