-- ===== src/Payment/Messages.antt =====
-- The messages that the payment RPC publishes (updateTradeStateLogic.go of
-- app/payment/cmd/rpc/internal/logic), counted over its runs.
use flash_sale_system.Common.{
  ◌≡◌, refl, ap, ◌⊎◌, inl, inr, ℕ, suc, ◌+◌, ◌≤◌, List, [], ◌∷◌, ◌++◌, length, ℤ, pos, ok, some,
  Result-cases, Bool-cases, ◌==ℤ◌, String, arith,
}
use flash_sale_system.Store.{Conn, update_with_version, insert_row}
use flash_sale_system.Store.Sql.{IsSql}
use flash_sale_system.Store.Ranked.{In}
use flash_sale_system.Store.Keys.{row_of}
use flash_sale_system.Store.Tally.{AreCounted, changes, write_AreCounted, insert_AreCounted}
use flash_sale_system.Payment.{ThirdPayment, payment_table, payment_table-IsTable, State}
use flash_sale_system.Payment.Update.{
  CreatePaymentReq, UpdateTradeStateReq, new_payment, create_payment, proceed, answer_at_once,
  judge, with_notification, write_trade_state, update_found,
}
use flash_sale_system.Payment.Laws.{Transition, judge_sound}
use flash_sale_system.Payment.Runs.{
  pay_rank, pay_ranked, KeepsStatus, Config, Step, reads, updates, creates, Run, ends, step,
  written_status, create_database, new_payment_version, new_payment_rank,
}

length-snoc : {A : Type 0} (xs : List A) (x : A) → length (xs ++ x ∷ []) ≡ suc (length xs)
length-snoc [] x = refl
length-snoc (y ∷ xs) x = ap suc (length-snoc xs x)

module _ {Db : Type 0} (conn : Conn Db ThirdPayment) (sql : IsSql payment_table conn)
    (keeps : KeepsStatus sql) where
  abbrev AreCountedPayments : List ThirdPayment → Type 0
  AreCountedPayments =
      AreCounted payment_table conn payment_table-IsTable sql (λ p. p.pay_status) pay_ranked
        (written_status conn sql keeps)

  -- How many changes of a status are behind the payments on record.
  abbrev pub status_changes : Db → ℕ
  status_changes =
      changes payment_table conn payment_table-IsTable sql (λ p. p.pay_status) pay_ranked
        (written_status conn sql keeps)

  -- The version of each payment counts the changes behind its status, and so does that of each row
  -- that a request has read.
  pub record IsCounted (c : Config Db) : Type 0 where
    pub on_record :
        (p : ThirdPayment) → In p (sql.rows c.service.db) → p.version ≡ pos (pay_rank p.pay_status)
    pub copied : (p : ThirdPayment) → In p c.copies → p.version ≡ pos (pay_rank p.pay_status)

  -- An update writes the payment by a transition, and publishes one message if the write succeeds; or
  -- it does nothing.
  pub update_effect :
      (req : UpdateTradeStateReq) (p : ThirdPayment) (s : State Db)
      → let s' = (update_found conn req (some p) s).1 in
        let write = update_with_version payment_table conn (with_notification req p) s.db in
        (s' ≡ s)
        ⊎ Transition p.pay_status req.pay_status
          × (s'.db ≡ write.1)
          × ((s'.published ≡ s.published)
              ⊎ (write.0 ≡ ok tt)
                × (s'.published
                    ≡ s.published
                      ++ record { pay_status = req.pay_status; order_sn = req.sn } ∷ []))
  unfolding write_trade_state
  update_effect req p s = elim (Result-cases (judge req.pay_status p.pay_status)) [
    | inl (proceed, allowed) ↦
        let go = judge_sound req.pay_status p.pay_status allowed in
        elim (Result-cases
          (update_with_version payment_table conn (with_notification req p) s.db).0) [
            | inl (_, done) ↦ inr (go, ground arith, inr (done, ground arith))
            | inr failed ↦ inr (go, ground arith, inl (ground arith))
          ]
    | inl (answer_at_once, late) ↦ inl (ground arith)
    | inr refused ↦ inl (ground arith)
  ]

  -- From one state of the service to a later one: no more messages than changes.
  abbrev Paced : State Db → State Db → Type 0
  Paced s s' = length s'.published + status_changes s.db ≤ length s.published + status_changes s'.db

  Paced-trans : (a b c : State Db) → Paced a b → Paced b c → Paced a c
  Paced-trans a b c h k = omega (arith, h, k)

  Paced-update :
      (req : UpdateTradeStateReq) (p : ThirdPayment) (s : State Db)
      → AreCountedPayments (sql.rows s.db)
      → p.version ≡ pos (pay_rank p.pay_status)
      → AreCountedPayments (sql.rows (update_found conn req (some p) s).1.db)
        × Paced s (update_found conn req (some p) s).1
  unfolding with_notification
  Paced-update req p s counted copied = elim (update_effect req p s) [
    | inl same ↦ rw same (counted, omega arith)
    | inr (go, run, messages) ↦
        let (counted', kept, more) =
          write_AreCounted payment_table conn payment_table-IsTable sql (λ x. x.pay_status)
            pay_ranked (written_status conn sql keeps) s.db p (with_notification req p) counted
            copied go refl in
        (
          rw run counted',
          elim messages [
            | inl silent ↦ rw (run, silent) (omega (arith, kept))
            | inr (done, published) ↦
                rw (run, published, length-snoc s.published _) (omega (arith, more done))
          ],
        )
  ]

  pub create_published :
      (zero_time : ℤ) (req : CreatePaymentReq) (sn : String) (s : State Db)
      → (create_payment conn zero_time req sn s).1.published ≡ s.published
  unfolding create_payment
  create_published zero_time req sn s =
      elim (Result-cases (insert_row payment_table conn (new_payment zero_time req sn) s.db).0) [
        | inl done ↦ ground arith
        | inr failed ↦ ground arith
      ]

  Paced-create :
      (zero_time : ℤ) (req : CreatePaymentReq) (sn : String) (s : State Db)
      → AreCountedPayments (sql.rows s.db)
      → AreCountedPayments (sql.rows (create_payment conn zero_time req sn s).1.db)
        × Paced s (create_payment conn zero_time req sn s).1
  Paced-create zero_time req sn s counted =
      let (counted', kept) =
        insert_AreCounted payment_table conn payment_table-IsTable sql (λ x. x.pay_status)
          pay_ranked (written_status conn sql keeps) (new_payment zero_time req sn) s.db counted
          (new_payment_version conn sql keeps zero_time req sn s.db)
          (new_payment_rank conn sql keeps zero_time req sn s.db) in
      let run = create_database conn sql keeps zero_time req sn s in
      let silent = create_published zero_time req sn s in
      (rw run counted', rw (run, silent) (omega (arith, kept)))

  pub row_of-In :
      (i : ℤ) (p : ThirdPayment) (rows : List ThirdPayment)
      → row_of payment_table i rows ≡ some p
      → In p rows
  row_of-In i p [] h = absurd (ground arith)
  row_of-In i p (x ∷ rows) h = elim (Bool-cases (x.id ==ℤ i)) [
    | inl its ↦ let same : p ≡ x = ground (arith, its, h) in inl same
    | inr differs ↦ inr (row_of-In i p rows (ground (arith, differs, h)))
  ]

  Step-IsCounted :
      (a b : Config Db)
      → Step conn sql keeps a b
      → IsCounted a
      → IsCounted b × Paced a.service b.service
  Step-IsCounted a b (reads p found) counted = (
    record {
      on_record = counted.on_record;
      copied = λ x m. elim m [
        | inl same ↦ rw same (counted.on_record p (row_of-In p.id p (sql.rows a.service.db) found))
        | inr old ↦ counted.copied x old
      ];
    },
    omega arith,
  )
  Step-IsCounted a b (updates req p copy) counted =
      let (on_record, paced) =
        Paced-update req p a.service counted.on_record (counted.copied p copy) in
      (record { on_record = on_record; copied = counted.copied }, paced)
  Step-IsCounted a b (creates zero_time req sn) counted =
      let (on_record, paced) = Paced-create zero_time req sn a.service counted.on_record in
      (record { on_record = on_record; copied = counted.copied }, paced)

  -- Where the column keeps the statuses that the constants name, start with a service whose
  -- versions count the changes of the statuses, on record and in the rows that requests have read.
  -- In any run of reads, updates and creations, however they interleave, however often a
  -- notification comes and whichever calls of the database fail: there are at most as many new
  -- messages as there are new changes of the payments' statuses, and the versions go on counting
  -- the changes.
  pub messages_follow_changes :
      (a b : Config Db)
      → Run conn sql keeps a b
      → IsCounted a
      → IsCounted b
        × (length b.service.published + status_changes a.service.db
            ≤ length a.service.published + status_changes b.service.db)
  messages_follow_changes a b ends counted = (counted, omega arith)
  messages_follow_changes a b (step {b = m} first rest) counted =
      let (counted_m, paced) = Step-IsCounted a m first counted in
      let (counted_b, paced') = messages_follow_changes m b rest counted_m in
      (counted_b, Paced-trans a.service m.service b.service paced paced')
