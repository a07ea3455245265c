-- ===== src/Mqueue/Live.antt =====
-- The job that closes an order, while the database answers.
use flash_sale_system.Common.{
  ◌≡◌, inl, inr, ap, ◌∙◌, some, ok, Error, Bool, String, arith, Result-cases,
}
use flash_sale_system.Store.{Conn}
use flash_sale_system.Store.Sql.{IsSql}
use flash_sale_system.Store.Keys.{IsKeyed, row_of}
use flash_sale_system.Store.Live.{Answers}
use flash_sale_system.Reply.{remote}
use flash_sale_system.Order.{HomestayOrder, order_table, State, Task, wait_pay, cancel}
use flash_sale_system.Order.Trade.{
  find_one_by_sn, UpdateTradeStateReq, UpdateTradeStateResp, update_homestay_order_trade_state,
}
use flash_sale_system.Order.TradeLaws.{cancels}
use flash_sale_system.Order.Query.{homestay_order_detail, to_pb}
use flash_sale_system.Order.Runs.{KeepsState}
use flash_sale_system.Order.Live.{transition_made}
use flash_sale_system.Mqueue.CloseOrder.{close_order}

module _ {Db : Type 0} (conn : Conn Db HomestayOrder) (marshals : Task → Bool)
    (carry : Error → Error) (sql : IsSql order_table conn) (s : State Db) (keyed : IsKeyed sql s.db)
    (answers : Answers sql s.db) (keeps : KeepsState sql) where
  close_runs_update :
      (sn : String) (o : HomestayOrder)
      → find_one_by_sn conn sn s.db ≡ ok o
      → o.trade_state ≡ wait_pay
      → let req : UpdateTradeStateReq = record { sn = sn; trade_state = cancel } in
        ((close_order conn marshals carry (ok sn) s).1
          ≡ (update_homestay_order_trade_state conn marshals req s).1)
        × ((r : UpdateTradeStateResp)
            → (update_homestay_order_trade_state conn marshals req s).0 ≡ ok r
            → (close_order conn marshals carry (ok sn) s).0 ≡ ok tt)
  unfolding close_order homestay_order_detail remote to_pb
  close_runs_update sn o found waits = (
    elim (Result-cases
        (update_homestay_order_trade_state conn marshals (record { sn = sn; trade_state = cancel })
          s).0) [
            | inl done ↦ ground arith
            | inr (inl failed) ↦ ground arith
            | inr (inr failed) ↦ ground arith
          ],
    λ r e. ground arith,
  )

  -- While the database answers, with the id as its key, and keeps the trade states that are written,
  -- the job closes an order that waits for its payment: it succeeds, and the order is then cancelled.
  pub close_cancels :
      (sn : String) (o : HomestayOrder)
      → find_one_by_sn conn sn s.db ≡ ok o
      → o.trade_state ≡ wait_pay
      → let (r, s') = close_order conn marshals carry (ok sn) s in
        (r ≡ ok tt)
        × (o' : HomestayOrder) × (row_of order_table o.id (sql.rows s'.db) ≡ some o')
        × (o'.trade_state ≡ cancel)
  close_cancels sn o found waits =
      let req : UpdateTradeStateReq = record { sn = sn; trade_state = cancel } in
      let (done, o', there, cancelled) =
        transition_made conn marshals sql s keyed answers keeps req o found (rw waits cancels) in
      let (same, ends) = close_runs_update sn o found waits in
      (ends _ done, o', ap (λ s'. row_of order_table o.id (sql.rows s'.db)) same ∙ there, cancelled)
