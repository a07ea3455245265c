-- ===== src/Order/Live.antt =====
-- Progress of the order service while its database answers.
use flash_sale_system.Common.{
  Bool, true, ◌&&◌, ◌≡◌, ◌≢◌, refl, ap, ◌∙◌, some, String, ℤ, ◌==ℤ◌, false, ok, arith,
}
use flash_sale_system.Store.{Conn, is_live, next_version}
use flash_sale_system.Store.Sql.{IsSql}
use flash_sale_system.Store.Version.{written}
use flash_sale_system.Store.Keys.{IsKeyed, row_of}
use flash_sale_system.Store.Live.{Answers, update_succeeds}
use flash_sale_system.Order.{HomestayOrder, order_table, order_table-IsTable, State, Task}
use flash_sale_system.Order.Trade.{
  UpdateTradeStateReq, find_one_by_sn, change_trade_state, update_resp,
  update_homestay_order_trade_state,
}
use flash_sale_system.Order.TradeLaws.{
  Transition, IsTradeState, cancels, pays, uses, refunds, expires, verify_complete, update_of_found,
  change_written,
}
use flash_sale_system.Order.Runs.{KeepsState, target_known}

pub Transition-ne : (a b : ℤ) → Transition a b → a ≢ b
Transition-ne a b cancels h = cc
Transition-ne a b pays h = cc
Transition-ne a b uses h = cc
Transition-ne a b refunds h = cc
Transition-ne a b expires h = cc

module _ {Db : Type 0} (conn : Conn Db HomestayOrder) (marshals : Task → Bool)
    (sql : IsSql order_table conn) (s : State Db) (keyed : IsKeyed sql s.db)
    (answers : Answers sql s.db) (keeps : KeepsState sql) where
  found_row :
      (sn : String) (o : HomestayOrder)
      → find_one_by_sn conn sn s.db ≡ ok o
      → (is_live order_table o ≡ true) × (row_of order_table o.id (sql.rows s.db) ≡ some o)
  unfolding find_one_by_sn
  found_row sn o found =
      let (passes, there) =
        keyed.row_found (λ r. conn.text_eq r.sn sn && is_live order_table r) o found in
      (ground arith, there)

  new_state :
      (new : HomestayOrder) (d : Db) (r : HomestayOrder)
      → IsTradeState new.trade_state
      → (written order_table conn order_table-IsTable sql new d r).trade_state ≡ new.trade_state
  unfolding next_version
  new_state new d r known = keeps d (order_table.assign (next_version order_table new) r) known

  update_of_other :
      (req : UpdateTradeStateReq) (o : HomestayOrder)
      → find_one_by_sn conn req.sn s.db ≡ ok o
      → o.trade_state ≢ req.trade_state
      → update_homestay_order_trade_state conn marshals req s
        ≡ change_trade_state conn marshals req o s
  update_of_other req o found ne =
      let other : (o.trade_state ==ℤ req.trade_state) ≡ false = ground arith in
      update_of_found conn marshals req o s found ∙ (rw other)

  -- The update of an order by a transition succeeds, and the order is then in the new state.
  pub transition_made :
      (req : UpdateTradeStateReq) (o : HomestayOrder)
      → find_one_by_sn conn req.sn s.db ≡ ok o
      → Transition o.trade_state req.trade_state
      → let (r, s') = update_homestay_order_trade_state conn marshals req s in
        (r
          ≡ ok
              (update_resp (next_version order_table (record o { trade_state = req.trade_state }))))
        × (o' : HomestayOrder) × (row_of order_table o.id (sql.rows s'.db) ≡ some o')
        × (o'.trade_state ≡ req.trade_state)
  transition_made req o found step =
      let (live, there) = found_row req.sn o found in
      let new = record o { trade_state = req.trade_state } in
      let (done, row) =
        update_succeeds order_table conn order_table-IsTable sql s.db answers new o there refl
          live in
      let allowed = verify_complete req.trade_state o.trade_state step in
      let run =
        update_of_other req o found (Transition-ne o.trade_state req.trade_state step)
        ∙ change_written conn marshals req o s allowed done in
      (
        ap (λ p. p.0) run,
        written order_table conn order_table-IsTable sql new s.db o,
        ap (λ p. row_of order_table o.id (sql.rows p.1.db)) run ∙ row,
        new_state new s.db o (target_known o.trade_state req.trade_state step),
      )
