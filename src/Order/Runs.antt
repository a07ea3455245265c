-- ===== src/Order/Runs.antt =====
-- Runs of the order RPC: any number of requests, of which those that update an order may stand
-- between their read and their write while others run.
mod Ranks
unfoldable pub use Ranks.*
use flash_sale_system.Common.{
  ◌≡◌, refl, ap, ◌⊎◌, inl, inr, ℕ, suc, ◌≤◌, Bool, Option, some, none, List, ◌∷◌, String, ℤ, pos,
  ◌==ℤ◌, ◌||◌, leb_ℤ, Result, if◌then◌else◌, arith, Result-cases, Bool-cases,
}
use flash_sale_system.Store.{Conn, next_version, update_with_version, insert_row}
use flash_sale_system.Store.Sql.{IsSql}
use flash_sale_system.Store.Version.{written}
use flash_sale_system.Store.Keys.{row_of, inserted_row}
use flash_sale_system.Store.Ranked.{In, IsRanked, Reaches, stays, Reaches-move}
use flash_sale_system.Store.Machine.{
  IsConsistent, Evolves, write_IsConsistent, insert_IsConsistent, read_IsConsistent,
}
use flash_sale_system.Travel.{PbHomestay}
use flash_sale_system.Order.{
  HomestayOrder, order_table, order_table-IsTable, State, Task, cancel, wait_pay, wait_use,
}
use flash_sale_system.Order.Trade.{
  UpdateTradeStateReq, verify_order_trade_state, change_trade_state, update_found,
}
use flash_sale_system.Order.TradeLaws.{
  Transition, cancels, pays, uses, refunds, expires, IsTradeState, verify_sound,
}
use flash_sale_system.Order.Create.{CreateHomestayOrderReq, new_order, create_homestay_order}

-- The service with the rows that its requests have read.
pub record Config (Db : Type 0) : Type 0 where
  pub service : State Db
  pub copies : List HomestayOrder

module _ {Db : Type 0} (conn : Conn Db HomestayOrder) (marshals : Task → Bool)
    (homestay_detail : ℤ → Result (Option PbHomestay)) (sql : IsSql order_table conn)
    (keeps : KeepsState sql) where
  -- A request reads an order; a request for one of the states -1 to 4 goes on with an order that was
  -- read at any time before; a request creates an order. Any call of the database may fail.
  pub data Step : Config Db → Config Db → Type 0 where
    reads :
        {c : Config Db} (o : HomestayOrder)
        → row_of order_table o.id (sql.rows c.service.db) ≡ some o
        → Step c (record c { copies = o ∷ c.copies })
    updates :
        {c : Config Db} (req : UpdateTradeStateReq) (o : HomestayOrder)
        → In o c.copies
        → IsTradeState req.trade_state
        → Step c (record c { service = (update_found conn marshals req (some o) c.service).1 })
    creates :
        {c : Config Db} (req : CreateHomestayOrderReq) (sn trade_code : String)
        → Step c (record c {
          service =
              (create_homestay_order conn marshals homestay_detail req sn trade_code c.service).1;
        })

  pub data Run : Config Db → Config Db → Type 0 where
    ends : {c : Config Db} → Run c c
    step : {a b c : Config Db} → Step a b → Run b c → Run a c

  pub written_state :
      (new : HomestayOrder) (d : Db) (r : HomestayOrder) (a : ℤ)
      → Transition a new.trade_state
      → (written order_table conn order_table-IsTable sql new d r).trade_state ≡ new.trade_state
  unfolding next_version
  written_state new d r a t =
      keeps d (order_table.assign (next_version order_table new) r)
        (target_known a new.trade_state t)

  abbrev pub IsSound : Config Db → Type 0
  IsSound c =
      IsConsistent order_table conn order_table-IsTable sql (λ o. o.trade_state) trade_ranked
        written_state (sql.rows c.service.db) c.copies

  abbrev pub Moved : Config Db → Config Db → Type 0
  Moved a b =
      Evolves order_table conn order_table-IsTable sql (λ o. o.trade_state) trade_ranked
        written_state (sql.rows a.service.db) (sql.rows b.service.db)

  rests :
      (rows rows' copies : List HomestayOrder)
      → rows' ≡ rows
      → IsConsistent order_table conn order_table-IsTable sql
          (λ o. o.trade_state)
          trade_ranked
          written_state
          rows
          copies
      → IsConsistent order_table conn order_table-IsTable sql
          (λ o. o.trade_state)
          trade_ranked
          written_state
          rows'
          copies
        × Evolves order_table conn order_table-IsTable sql
            (λ o. o.trade_state)
            trade_ranked
            written_state
            rows
            rows'
  rests rows rows' copies same inv = rw same (inv, λ i r found. (r, found, inl refl))

  -- An update writes the copy with the new state, by a transition, or leaves the table alone.
  pub update_database :
      (req : UpdateTradeStateReq) (o : HomestayOrder) (s : State Db)
      → IsTradeState req.trade_state
      → ((update_found conn marshals req (some o) s).1.db ≡ s.db)
        ⊎ ((update_found conn marshals req (some o) s).1.db
            ≡ (update_with_version order_table conn
                (record o { trade_state = req.trade_state })
                s.db).1)
          × Transition o.trade_state req.trade_state
  unfolding change_trade_state
  update_database req o s known = elim (Bool-cases (o.trade_state ==ℤ req.trade_state)) [
    | inl same ↦ inl (ground arith)
    | inr other ↦ elim (Result-cases (verify_order_trade_state req.trade_state o.trade_state)) [
      | inl (_, allowed) ↦ inr (
        elim (Result-cases
            (update_with_version order_table conn (record o { trade_state = req.trade_state })
              s.db).0) [ inl done ↦ ground arith | inr failed ↦ ground arith ],
        verify_sound req.trade_state o.trade_state known allowed,
      )
      | inr refused ↦ inl (ground arith)
    ]
  ]

  -- A creation inserts a new order, or leaves the table alone.
  pub create_database :
      (req : CreateHomestayOrderReq) (sn trade_code : String) (s : State Db)
      → let s' = (create_homestay_order conn marshals homestay_detail req sn trade_code s).1 in
        (s'.db ≡ s.db)
        ⊎ ((h : PbHomestay) × (s'.db
              ≡ (insert_row order_table conn (new_order h req sn trade_code) s.db).1))
  unfolding create_homestay_order
  create_database req sn trade_code s = elim (Result-cases (homestay_detail req.homestay_id)) [
    | inl (none, nil) ↦ inl (ground arith)
    | inl (some h, found) ↦ elim (Bool-cases (leb_ℤ req.live_end_time req.live_start_time)) [
      | inl short ↦ inl (ground arith)
      | inr night ↦ inr (
        h,
        elim (Result-cases (insert_row order_table conn (new_order h req sn trade_code) s.db).0) [
          | inl done ↦ ground arith
          | inr failed ↦ ground arith
        ],
      )
    ]
    | inr failed ↦ inl (ground arith)
  ]

  new_order_version :
      (h : PbHomestay) (req : CreateHomestayOrderReq) (sn trade_code : String) (d : Db)
      → (inserted_row order_table conn order_table-IsTable sql
          (new_order h req sn trade_code)
          d).version
        ≡ pos 0
  unfolding new_order
  new_order_version h req sn trade_code d = sql.version-column d _

  new_order_rank :
      (h : PbHomestay) (req : CreateHomestayOrderReq) (sn trade_code : String) (d : Db)
      → let new =
          inserted_row order_table conn order_table-IsTable sql (new_order h req sn trade_code) d in
        trade_rank new.trade_state ≡ 0
  unfolding new_order trade_rank
  new_order_rank h req sn trade_code d = ap trade_rank (keeps d _ (omega arith))

  -- Every step keeps the service sound, and each order of its table stays or goes one transition.
  pub Step-IsSound : (a b : Config Db) → Step a b → IsSound a → IsSound b × Moved a b
  Step-IsSound a b (reads o found) sound = (
    read_IsConsistent order_table conn order_table-IsTable sql (λ o. o.trade_state) trade_ranked
        written_state (sql.rows a.service.db) a.copies o sound found,
    λ i r there. (r, there, inl refl),
  )
  Step-IsSound a b (updates req o copy known) sound = elim (update_database req o a.service known) [
    | inl same ↦
        rests (sql.rows a.service.db) (sql.rows b.service.db) a.copies (ap sql.rows same) sound
    | inr (run, transition) ↦ rw run (
        write_IsConsistent order_table conn order_table-IsTable sql (λ o. o.trade_state)
          trade_ranked written_state a.service.db a.copies o
          (record o { trade_state = req.trade_state }) sound copy transition refl refl)
  ]
  Step-IsSound a b (creates req sn trade_code) sound =
      elim (create_database req sn trade_code a.service) [
        | inl same ↦
            rests (sql.rows a.service.db) (sql.rows b.service.db) a.copies (ap sql.rows same) sound
        | inr (h, run) ↦ rw run (
            insert_IsConsistent order_table conn order_table-IsTable sql (λ o. o.trade_state)
              trade_ranked written_state a.service.db a.copies (new_order h req sn trade_code) sound
              (new_order_version h req sn trade_code a.service.db)
              (new_order_rank h req sn trade_code a.service.db))
      ]

  -- Start with a sound service: the version of each order counts the changes behind its state, and a
  -- row that a request has read is of an order that is there, in the same state if it has the same
  -- version. After any run of reads, of updates to one of the six states and of creations, however
  -- they interleave and whichever calls of the database fail: the service is sound, no order has
  -- disappeared, and the state of each has changed only along the transitions.
  pub orders_follow_transitions :
      (a b : Config Db)
      → Run a b
      → IsSound a
      → IsSound b
        × ((i : ℤ) (o : HomestayOrder)
            → row_of order_table i (sql.rows a.service.db) ≡ some o
            → (o' : HomestayOrder) × (row_of order_table i (sql.rows b.service.db) ≡ some o')
              × Reaches Transition o.trade_state o'.trade_state)
  orders_follow_transitions a b ends sound = (sound, λ i o there. (o, there, stays))
  orders_follow_transitions a b (step {b = m} first rest) sound =
      let (sound_m, moved) = Step-IsSound a m first sound in
      let (sound_b, reached) = orders_follow_transitions m b rest sound_m in
      (
        sound_b,
        λ i o there.
            let (o1, there1, move) = moved i o there in
            let (o2, there2, path) = reached i o1 there1 in
            (o2, there2, Reaches-move o.trade_state o1.trade_state o2.trade_state move path),
      )
