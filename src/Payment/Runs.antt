-- ===== src/Payment/Runs.antt =====
-- Runs of the payment RPC: any number of requests, of which those that update a payment may stand
-- between their read and their write while others run.
use flash_sale_system.Common.{
  ◌≡◌, refl, ap, ◌⊎◌, inl, inr, ℕ, suc, ◌≤◌, ◌≤ℤ◌, some, List, ◌∷◌, String, ℤ, pos, ◌==ℤ◌, ◌||◌,
  if◌then◌else◌, arith, Result-cases,
}
use flash_sale_system.Store.{Conn, next_version, update_with_version, insert_row}
use flash_sale_system.Store.Sql.{IsSql}
use flash_sale_system.Store.Version.{written}
use flash_sale_system.Store.Keys.{row_of, inserted_row}
use flash_sale_system.Store.Ranked.{In, IsRanked, Reaches, stays, Reaches-move}
use flash_sale_system.Store.Machine.{
  IsConsistent, Evolves, write_IsConsistent, insert_IsConsistent, read_IsConsistent,
}
use flash_sale_system.Payment.{
  ThirdPayment, payment_table, payment_table-IsTable, State, fail, wait, success, refund,
}
use flash_sale_system.Payment.Update.{
  CreatePaymentReq, UpdateTradeStateReq, new_payment, create_payment, proceed, answer_at_once,
  judge, with_notification, write_trade_state, update_found,
}
use flash_sale_system.Payment.Laws.{Transition, succeeds, fails, refunds, judge_sound}

-- How many changes led to a status.
unfoldable pub pay_rank : ℤ → ℕ
pay_rank s = if s ==ℤ wait then 0 else if (s ==ℤ success) || (s ==ℤ fail) then 1 else 2

pay_rank-step : (a b : ℤ) → Transition a b → pay_rank b ≡ suc (pay_rank a)
unfolding pay_rank
pay_rank-step a b succeeds = refl
pay_rank-step a b fails = refl
pay_rank-step a b refunds = refl

pay_rank-le : (a : ℤ) → pay_rank a ≤ 2
unfolding pay_rank
pay_rank-le a = ground arith

pub pay_ranked : IsRanked Transition pay_rank
pay_ranked = record { rank-step = pay_rank-step; rank-le = pay_rank-le }

abbrev pub IsPayStatus : ℤ → Type 0
IsPayStatus s = (fail ≤ℤ s) × (s ≤ℤ refund)

target_known : (a b : ℤ) → Transition a b → IsPayStatus b
target_known a b succeeds = omega arith
target_known a b fails = omega arith
target_known a b refunds = omega arith

-- The column `pay_status` keeps the states that the constants name.
abbrev pub KeepsStatus :
    {Db : Type 0} {conn : Conn Db ThirdPayment} → IsSql payment_table conn → Type 0
KeepsStatus {Db} sql =
    (d : Db) (p : ThirdPayment)
    → IsPayStatus p.pay_status
    → (sql.column d p).pay_status ≡ p.pay_status

-- The service with the rows that its requests have read.
pub record Config (Db : Type 0) : Type 0 where
  pub service : State Db
  pub copies : List ThirdPayment

module _ {Db : Type 0} (conn : Conn Db ThirdPayment) (sql : IsSql payment_table conn)
    (keeps : KeepsStatus sql) where
  -- A request reads a payment; a request goes on with a payment that was read at any time before; a
  -- request creates a payment. Any call of the database may fail.
  pub data Step : Config Db → Config Db → Type 0 where
    reads :
        {c : Config Db} (p : ThirdPayment)
        → row_of payment_table p.id (sql.rows c.service.db) ≡ some p
        → Step c (record c { copies = p ∷ c.copies })
    updates :
        {c : Config Db} (req : UpdateTradeStateReq) (p : ThirdPayment)
        → In p c.copies
        → Step c (record c { service = (update_found conn req (some p) c.service).1 })
    creates :
        {c : Config Db} (zero_time : ℤ) (req : CreatePaymentReq) (sn : String)
        → Step c (record c { service = (create_payment conn zero_time req sn c.service).1 })

  pub data Run : Config Db → Config Db → Type 0 where
    ends : {c : Config Db} → Run c c
    step : {a b c : Config Db} → Step a b → Run b c → Run a c

  pub written_status :
      (new : ThirdPayment) (d : Db) (r : ThirdPayment) (a : ℤ)
      → Transition a new.pay_status
      → (written payment_table conn payment_table-IsTable sql new d r).pay_status ≡ new.pay_status
  unfolding next_version
  written_status new d r a t =
      keeps d (payment_table.assign (next_version payment_table new) r)
        (target_known a new.pay_status t)

  abbrev pub IsSoundWith : List ThirdPayment → List ThirdPayment → Type 0
  IsSoundWith =
      IsConsistent payment_table conn payment_table-IsTable sql (λ p. p.pay_status) pay_ranked
        written_status

  abbrev pub IsSound : Config Db → Type 0
  IsSound c = IsSoundWith (sql.rows c.service.db) c.copies

  abbrev pub Moved : List ThirdPayment → List ThirdPayment → Type 0
  Moved =
      Evolves payment_table conn payment_table-IsTable sql (λ p. p.pay_status) pay_ranked
        written_status

  rests :
      (rows rows' copies : List ThirdPayment)
      → rows' ≡ rows
      → IsSoundWith rows copies
      → IsSoundWith rows' copies × Moved rows rows'
  rests rows rows' copies same inv = rw same (inv, λ i r found. (r, found, inl refl))

  -- An update writes the copy with the new status, by a transition, or leaves the table alone.
  pub update_database :
      (req : UpdateTradeStateReq) (p : ThirdPayment) (s : State Db)
      → ((update_found conn req (some p) s).1.db ≡ s.db)
        ⊎ ((update_found conn req (some p) s).1.db
            ≡ (update_with_version payment_table conn (with_notification req p) s.db).1)
          × Transition p.pay_status req.pay_status
  unfolding write_trade_state
  update_database req p s = elim (Result-cases (judge req.pay_status p.pay_status)) [
    | inl (proceed, allowed) ↦ inr (
      elim (Result-cases
          (update_with_version payment_table conn (with_notification req p) s.db).0) [
            | inl done ↦ ground arith
            | inr failed ↦ ground arith
          ],
      judge_sound req.pay_status p.pay_status allowed,
    )
    | inl (answer_at_once, late) ↦ inl (ground arith)
    | inr refused ↦ inl (ground arith)
  ]

  -- A creation is an insert.
  pub create_database :
      (zero_time : ℤ) (req : CreatePaymentReq) (sn : String) (s : State Db)
      → (create_payment conn zero_time req sn s).1.db
        ≡ (insert_row payment_table conn (new_payment zero_time req sn) s.db).1
  unfolding create_payment
  create_database zero_time req sn s =
      elim (Result-cases (insert_row payment_table conn (new_payment zero_time req sn) s.db).0) [
        | inl done ↦ ground arith
        | inr failed ↦ ground arith
      ]

  pub new_payment_version :
      (zero_time : ℤ) (req : CreatePaymentReq) (sn : String) (d : Db)
      → (inserted_row payment_table conn payment_table-IsTable sql
          (new_payment zero_time req sn)
          d).version
        ≡ pos 0
  unfolding new_payment
  new_payment_version zero_time req sn d = sql.version-column d _

  pub new_payment_rank :
      (zero_time : ℤ) (req : CreatePaymentReq) (sn : String) (d : Db)
      → let new =
          inserted_row payment_table conn payment_table-IsTable sql
            (new_payment zero_time req sn)
            d in
        pay_rank new.pay_status ≡ 0
  unfolding new_payment pay_rank
  new_payment_rank zero_time req sn d = ap pay_rank (keeps d _ (omega arith))

  update_writes :
      (req : UpdateTradeStateReq) (p : ThirdPayment) (d : Db) (copies : List ThirdPayment)
      → IsSoundWith (sql.rows d) copies
      → In p copies
      → Transition p.pay_status req.pay_status
      → let d' = (update_with_version payment_table conn (with_notification req p) d).1 in
        IsSoundWith (sql.rows d') copies × Moved (sql.rows d) (sql.rows d')
  unfolding with_notification
  update_writes req p d copies sound copy transition =
      write_IsConsistent payment_table conn payment_table-IsTable sql (λ p. p.pay_status) pay_ranked
        written_status d copies p (with_notification req p) sound copy transition refl refl

  -- Every step keeps the service sound, and each payment of its table stays or goes one transition.
  Step-IsSound :
      (a b : Config Db)
      → Step a b
      → IsSound a
      → IsSound b × Moved (sql.rows a.service.db) (sql.rows b.service.db)
  Step-IsSound a b (reads p found) sound = (
    read_IsConsistent payment_table conn payment_table-IsTable sql (λ p. p.pay_status) pay_ranked
        written_status (sql.rows a.service.db) a.copies p sound found,
    λ i r there. (r, there, inl refl),
  )
  Step-IsSound a b (updates req p copy) sound = elim (update_database req p a.service) [
    | inl same ↦
        rests (sql.rows a.service.db) (sql.rows b.service.db) a.copies (ap sql.rows same) sound
    | inr (run, transition) ↦
        rw run (update_writes req p a.service.db a.copies sound copy transition)
  ]
  Step-IsSound a b (creates zero_time req sn) sound =
      rw (create_database zero_time req sn a.service) (
        insert_IsConsistent payment_table conn payment_table-IsTable sql (λ p. p.pay_status)
          pay_ranked written_status a.service.db a.copies (new_payment zero_time req sn) sound
          (new_payment_version zero_time req sn a.service.db)
          (new_payment_rank zero_time req sn a.service.db))

  -- Start with a sound service: the version of each payment counts the changes behind its status, and
  -- a row that a request has read is of a payment that is there, with the same status if it has the
  -- same version. After any run of reads, updates and creations, however they interleave and whichever
  -- calls of the database fail: the service is sound, no payment has disappeared, and the status of
  -- each has changed only along the transitions.
  pub payments_follow_transitions :
      (a b : Config Db)
      → Run a b
      → IsSound a
      → IsSound b
        × ((i : ℤ) (p : ThirdPayment)
            → row_of payment_table i (sql.rows a.service.db) ≡ some p
            → (p' : ThirdPayment) × (row_of payment_table i (sql.rows b.service.db) ≡ some p')
              × Reaches Transition p.pay_status p'.pay_status)
  payments_follow_transitions a b ends sound = (sound, λ i p there. (p, there, stays))
  payments_follow_transitions a b (step {b = m} first rest) sound =
      let (sound_m, moved) = Step-IsSound a m first sound in
      let (sound_b, reached) = payments_follow_transitions m b rest sound_m in
      (
        sound_b,
        λ i p there.
            let (p1, there1, move) = moved i p there in
            let (p2, there2, path) = reached i p1 there1 in
            (p2, there2, Reaches-move p.pay_status p1.pay_status p2.pay_status move path),
      )
