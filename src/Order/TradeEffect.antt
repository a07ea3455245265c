-- ===== src/Order/TradeEffect.antt =====
-- What `UpdateHomestayOrderTradeState` does to the table of orders and to the task queue.
use flash_sale_system.Common.{
  ◌≡◌, ◌≢◌, refl, ◌⊎◌, inl, inr, ◌<◌, ◌++◌, map, ℤ, ==ℤ_iff, Bool, Result, ok, err, panic, Error,
  if◌then◌else◌, arith, Result-cases, Bool-cases, ◌==ℤ◌, ◌∙◌, ap, count,
}
use flash_sale_system.Store.{Conn, is_current, update_with_version}
use flash_sale_system.Store.Sql.{IsSql}
use flash_sale_system.Store.Version.{written, update_with_version_done}
use flash_sale_system.Order.{HomestayOrder, order_table, order_table-IsTable, Task, State}
use flash_sale_system.Order.Trade.{
  find_one_by_sn, verify_order_trade_state, UpdateTradeStateReq, UpdateTradeStateResp, empty_resp,
  change_trade_state, update_homestay_order_trade_state,
}
use flash_sale_system.Order.TradeLaws.{
  Transition, IsTradeState, with_trade_state, notifications, update_of_found, change_refused,
  change_written, change_failed, verify_sound, verify-ne-panic,
}

module _ {Db : Type 0} (conn : Conn Db HomestayOrder) (marshals : Task → Bool)
    (sql : IsSql order_table conn) where
  -- From `s` to `s'` the order `o`, as it was read, was given the state `new`: by a transition; in
  -- the rows that still had its id and version, of which there was one at least; with the next
  -- version; no other row changed; and the user's notification was queued if the order is now paid.
  pub record IsChanged (o : HomestayOrder) (new : ℤ) (s s' : State Db) : Type 0 where
    pub transition : Transition o.trade_state new
    pub current : 0 < count (is_current order_table o) (sql.rows s.db)
    pub rows_changed :
        sql.rows s'.db
        ≡ map
            (λ r.
              if is_current order_table o r
              then written order_table conn order_table-IsTable sql
                  (with_trade_state conn marshals o new)
                  s.db
                  r
              else r)
            (sql.rows s.db)
    pub queued : s'.enqueued ≡ s.enqueued ++ notifications conn marshals o new

  read : HomestayOrder → UpdateTradeStateReq → HomestayOrder
  read o req = with_trade_state conn marshals o req.trade_state

  change_effect :
      (req : UpdateTradeStateReq) (o : HomestayOrder) (s : State Db) (resp : UpdateTradeStateResp)
      → IsTradeState req.trade_state
      → (change_trade_state conn marshals req o s).0 ≡ ok resp
      → IsChanged o req.trade_state s (change_trade_state conn marshals req o s).1
  unfolding read
  change_effect req o s resp known h =
      elim (Result-cases (verify_order_trade_state req.trade_state o.trade_state)) [
        | inl (_, v) ↦
            elim (Result-cases (update_with_version order_table conn (read o req) s.db).0) [
              | inl (_, w) ↦
                  let (rows, some_current) =
                    update_with_version_done order_table conn order_table-IsTable sql (read o req)
                      s.db w in
                  rw (change_written conn marshals req o s v w) (record {
                    transition = verify_sound req.trade_state o.trade_state known v;
                    current = some_current;
                    rows_changed = rows;
                    queued = refl;
                  })
              | inr f ↦
                  absurd ((change_failed conn marshals req o s v (λ w. ground arith)).0 resp h)
            ]
        | inr (inl (e, v)) ↦
            absurd (no_answer e (rw (change_refused conn marshals req o s e v) at h))
        | inr (inr v) ↦ absurd (verify-ne-panic req.trade_state o.trade_state v)
      ]
    where
      no_answer : (e : Error) → ◌≡◌ {A = Result UpdateTradeStateResp} (err e) (ok resp) → ⊥
      no_answer e h = cc

  not_found_fails :
      (req : UpdateTradeStateReq) (s : State Db) (resp : UpdateTradeStateResp)
      → ((e : Error) × (find_one_by_sn conn req.sn s.db ≡ err e))
        ⊎ (find_one_by_sn conn req.sn s.db ≡ panic)
      → (update_homestay_order_trade_state conn marshals req s).0 ≢ ok resp
  unfolding update_homestay_order_trade_state
  not_found_fails req s resp (inl (e, h)) r = ground arith
  not_found_fails req s resp (inr h) r = ground arith

  -- A request for one of the states -1 to 4 that succeeds either found the order in the state that it
  -- asks for and changed nothing, or it changed the order that it read, as `IsChanged` says.
  pub update_effect :
      (req : UpdateTradeStateReq) (s : State Db) (resp : UpdateTradeStateResp)
      → IsTradeState req.trade_state
      → (update_homestay_order_trade_state conn marshals req s).0 ≡ ok resp
      → (o : HomestayOrder) × (find_one_by_sn conn req.sn s.db ≡ ok o)
        × ((o.trade_state ≡ req.trade_state)
              × ((update_homestay_order_trade_state conn marshals req s).1 ≡ s)
            ⊎ IsChanged o req.trade_state s
                (update_homestay_order_trade_state conn marshals req s).1)
  update_effect req s resp known h = elim (Result-cases (find_one_by_sn conn req.sn s.db)) [
    | inl (o, found) ↦ (
      o,
      found,
      elim (Bool-cases (o.trade_state ==ℤ req.trade_state)) [
        | inl same ↦ inl (
          (==ℤ_iff o.trade_state req.trade_state).0 same,
          let quiet : update_homestay_order_trade_state conn marshals req s ≡ (ok empty_resp, s) =
                answer o found ∙ rw same in
              ap (λ p. p.1) quiet,
        )
        | inr other ↦
            let changed : update_homestay_order_trade_state conn marshals req s
                ≡ change_trade_state conn marshals req o s =
              answer o found ∙ rw other in
            inr (rw changed (change_effect req o s resp known (rw changed at h)))
      ],
    )
    | inr missing ↦ absurd (not_found_fails req s resp missing h)
  ]
    where
      answer :
          (o : HomestayOrder)
          → find_one_by_sn conn req.sn s.db ≡ ok o
          → update_homestay_order_trade_state conn marshals req s ≡ (
              if o.trade_state ==ℤ req.trade_state
              then (ok empty_resp, s)
              else change_trade_state conn marshals req o s)
      answer o found = update_of_found conn marshals req o s found
