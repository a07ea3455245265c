-- ===== src/System/Once.antt =====
-- How often the success of a payment is published: `UpdateTradeState`
-- (app/payment/cmd/rpc/internal/logic/updateTradeStateLogic.go), with any number of requests that stand
-- between their read and their write while others run.
use flash_sale_system.Common.{
  ◌≡◌, refl, inl, inr, ◌≤◌, List, [], ◌∷◌, count, String, ℤ, some, str_eq, Bool-cases, arith,
}
use flash_sale_system.Store.{update_with_version, insert_row}
use flash_sale_system.Store.Keys.{row_of, insert_rows}
use flash_sale_system.Store.Ranked.{In}
use flash_sale_system.Store.Stamps.{In-map, IsFunctional, update_stamps, insert_IsFunctional}
use flash_sale_system.Store.Tally.{total, total-snoc, write_AreCounted, insert_AreCounted}
use flash_sale_system.Payment.{ThirdPayment, payment_table, payment_table-IsTable, State}
use flash_sale_system.Payment.Update.{
  CreatePaymentReq, UpdateTradeStateReq, new_payment, create_payment, with_notification,
  update_found,
}
use flash_sale_system.Payment.Laws.{Transition}
use flash_sale_system.Payment.Runs.{
  pay_ranked, KeepsStatus, Config, written_status, create_database, new_payment_version,
  new_payment_rank,
}
use flash_sale_system.Payment.Messages.{update_effect, create_published, row_of-In}
use flash_sale_system.System.{PaymentService, payment_columns}
use flash_sale_system.System.Payments.{payment_stamps, payment_keeps}
use flash_sale_system.System.Settled.{settled, tells, IsCountedRow, payments_settled, write_told}

module _ {Db : Type 0} (service : PaymentService Db) (keeps : KeepsStatus service.sql) where
  open service use {conn, sql}

  -- The steps of Payment/Runs, where the payment that an update goes on with was read by the number of
  -- its request, letter for letter.
  pub data Step : Config Db → Config Db → Type 0 where
    reads :
        {c : Config Db} (p : ThirdPayment)
        → row_of payment_table p.id (sql.rows c.service.db) ≡ some p
        → Step c (record c { copies = p ∷ c.copies })
    updates :
        {c : Config Db} (req : UpdateTradeStateReq) (p : ThirdPayment)
        → In p c.copies
        → p.sn ≡ req.sn
        → Step c (record c { service = (update_found conn req (some p) c.service).1 })
    creates :
        {c : Config Db} (zero_time : ℤ) (req : CreatePaymentReq) (sn : String)
        → Step c (record c { service = (create_payment conn zero_time req sn c.service).1 })

  pub data Run : Config Db → Config Db → Type 0 where
    ends : {c : Config Db} → Run c c
    step : {a b c : Config Db} → Step a b → Run b c → Run a c

  -- Each id stands for one payment, each version counts the changes behind a status, what was read is
  -- of payments on record, and no success was told more often than payments of its number are settled.
  pub record IsTold (c : Config Db) : Type 0 where
    pub one_stamp : IsFunctional (payment_stamps service c.service.db)
    pub counted : (p : ThirdPayment) → In p (sql.rows c.service.db) → IsCountedRow service keeps p
    pub copied :
        (p : ThirdPayment)
        → In p c.copies
        → IsCountedRow service keeps p
          × In (p.id, (p.sn, p.order_sn, p.pay_total)) (payment_stamps service c.service.db)
    pub once :
        (sn : String)
        → total (tells sn) c.service.published ≤ payments_settled service keeps sn c.service.db

  module _ (c : Config Db) (inv : IsTold c) where
    abbrev IsToldBy : State Db → Type 0
    IsToldBy s = IsTold (record c { service = s })

    -- A write of a payment that was read, and the message behind it.
    written_IsTold :
        (req : UpdateTradeStateReq) (p : ThirdPayment) (s : State Db)
        → In p c.copies
        → Transition p.pay_status req.pay_status
        → s.db ≡ (update_with_version payment_table conn (with_notification req p) c.service.db).1
        → ((sn : String)
            → total (tells sn) s.published
              ≤ payments_settled service keeps sn
                  (update_with_version payment_table conn (with_notification req p) c.service.db).1)
        → IsToldBy s
    unfolding with_notification
    written_IsTold req p s copy go run once =
        let (count, there) = inv.copied p copy in
        let new = with_notification req p in
        let same =
          update_stamps payment_table conn payment_table-IsTable sql payment_columns service.stamped
            (payment_keeps service) new c.service.db inv.one_stamp there in
        let (counted, kept, more) =
          write_AreCounted payment_table conn payment_table-IsTable sql (λ x. x.pay_status)
            pay_ranked (written_status conn sql keeps) c.service.db p new inv.counted count go
            refl in
        record {
          one_stamp = rw (run, same) inv.one_stamp;
          counted = rw run counted;
          copied = λ x m. rw (run, same) (inv.copied x m);
          once = rw run once;
        }

    update_IsTold :
        (req : UpdateTradeStateReq) (p : ThirdPayment)
        → In p c.copies
        → p.sn ≡ req.sn
        → IsToldBy (update_found conn req (some p) c.service).1
    update_IsTold req p copy named = elim (update_effect conn sql keeps req p c.service) [
      | inl same ↦ rw same inv
      | inr (go, run, messages) ↦
          let (count, there) = inv.copied p copy in
          let grown =
            write_told service keeps req p c.service.db inv.one_stamp inv.counted count there go in
          written_IsTold req p (update_found conn req (some p) c.service).1 copy go run
            (elim messages [
              | inl silent ↦ λ sn. rw silent (omega (arith, inv.once sn, (grown sn).0))
              | inr (done, published) ↦ λ sn.
                  rw (published, total-snoc (tells sn) c.service.published _)
                    (omega (arith, inv.once sn, (grown sn).1 done named))
            ])
    ]

    -- A new payment waits: no payment of any number is settled by it.
    create_settles :
        (zero_time : ℤ) (req : CreatePaymentReq) (number sn : String)
        → payments_settled service keeps sn c.service.db
          ≤ payments_settled service keeps sn
              (insert_row payment_table conn (new_payment zero_time req number) c.service.db).1
    create_settles zero_time req number sn =
        let new = new_payment zero_time req number in
        elim (insert_rows payment_table conn payment_table-IsTable sql new c.service.db) [
          | inl same ↦ rw same (omega arith)
          | inr grown ↦ rw (grown, total-snoc (settled sn) (sql.rows c.service.db) _) (omega arith)
        ]

    create_IsTold :
        (zero_time : ℤ) (req : CreatePaymentReq) (number : String)
        → IsToldBy (create_payment conn zero_time req number c.service).1
    create_IsTold zero_time req number =
        let new = new_payment zero_time req number in
        let (one, grows, from) =
          insert_IsFunctional payment_table conn payment_table-IsTable sql payment_columns
            service.stamped (payment_keeps service) new c.service.db inv.one_stamp in
        let (counted, kept) =
          insert_AreCounted payment_table conn payment_table-IsTable sql (λ x. x.pay_status)
            pay_ranked (written_status conn sql keeps) new c.service.db inv.counted
            (new_payment_version conn sql keeps zero_time req number c.service.db)
            (new_payment_rank conn sql keeps zero_time req number c.service.db) in
        let run = create_database conn sql keeps zero_time req number c.service in
        let silent = create_published conn sql keeps zero_time req number c.service in
        record {
          one_stamp = rw run one;
          counted = rw run counted;
          copied = λ x m. let (count, there) = inv.copied x m in (count, rw run (grows _ there));
          once = λ sn.
              rw (run, silent) (omega (arith, inv.once sn, create_settles zero_time req number sn));
        }

    read_IsTold :
        (p : ThirdPayment)
        → row_of payment_table p.id (sql.rows c.service.db) ≡ some p
        → IsTold (record c { copies = p ∷ c.copies })
    read_IsTold p found =
        let m = row_of-In conn sql keeps p.id p (sql.rows c.service.db) found in
        record {
          one_stamp = inv.one_stamp;
          counted = inv.counted;
          copied = λ x there. elim there [
            | inl same ↦ rw same (inv.counted p m, In-map _ p (sql.rows c.service.db) m)
            | inr old ↦ inv.copied x old
          ];
          once = inv.once;
        }

  Step-IsTold : (a b : Config Db) → Step a b → IsTold a → IsTold b
  Step-IsTold a b (reads p found) inv = read_IsTold a inv p found
  Step-IsTold a b (updates req p copy named) inv = update_IsTold a inv req p copy named
  Step-IsTold a b (creates zero_time req number) inv = create_IsTold a inv zero_time req number

  settled-le :
      (sn : String) (rows : List ThirdPayment)
      → total (settled sn) rows ≤ count (λ p. str_eq p.sn sn) rows
  settled-le sn [] = omega arith
  settled-le sn (p ∷ rows) =
      let rest = settled-le sn rows in
      elim (Bool-cases (str_eq p.sn sn)) [
        | inl its ↦ ground (arith, rest)
        | inr another ↦ ground (arith, rest)
      ]

  Run-IsTold : (a b : Config Db) → Run a b → IsTold a → IsTold b
  Run-IsTold a b ends inv = inv
  Run-IsTold a b (step {b = m} first rest) inv = Run-IsTold m b rest (Step-IsTold a m first inv)

  -- Where the column keeps the statuses that the constants name, take any run of reads, updates with
  -- a payment that was read by the number of the request, and creations, however they interleave,
  -- however often a notification comes and whichever calls of the database fail, from a sound start:
  -- ids are given once, versions count the changes of the statuses, what was read is of payments on
  -- record, and for no number more successes were published than payments settled. If one payment at
  -- most has a number in the end, then one message at most has told of its success.
  pub told_at_most_once :
      (a b : Config Db)
      → Run a b
      → IsTold a
      → (sn : String) → count (λ p. str_eq p.sn sn) (sql.rows b.service.db) ≤ 1
      → total (tells sn) b.service.published ≤ 1
  told_at_most_once a b run inv sn single =
      omega (arith, (Run-IsTold a b run inv).once sn, settled-le sn (sql.rows b.service.db), single)
