-- ===== src/System/Orders.antt =====
-- What the steps of the system do to the order RPC: `CreateHomestayOrder` behind the API, the messages
-- that order-mq consumes and the tasks of `CloseHomestayOrderHandler`.
use flash_sale_system.Common.{
  true, ◌≡◌, refl, ap, ◌∙◌, ◌⊎◌, inl, inr, List, String, ℤ, ℕ, ok, arith,
}
use flash_sale_system.Store.{update_with_version, insert_row}
use flash_sale_system.Store.Ranked.{In}
use flash_sale_system.Store.Stamps.{
  updated_row, new_row, IsFunctional, stamps, KeepsColumns, update_stamps, insert_IsFunctional,
}
use flash_sale_system.Travel.{PbHomestay}
use flash_sale_system.Order.{
  HomestayOrder, order_table, order_table-IsTable, Task, State, defer_close_homestay_order, cancel,
  wait_pay,
}
use flash_sale_system.Order.Trade.{find_one_by_sn}
use flash_sale_system.Order.TradeLaws.{cancels}
use flash_sale_system.Order.Create.{CreateHomestayOrderReq, new_order}
use flash_sale_system.Order.Runs as Runs
use flash_sale_system.System.{IsOrderSn, order_columns, OrderService}

order_keeps :
    {Db : Type 0} (service : OrderService Db)
    → KeepsColumns order_table service.conn order_table-IsTable service.sql order_columns
order_keeps service = record {
  id-with_id = λ v r. refl;
  columns-assign = λ new old. refl;
  columns-with_id = λ v r. refl;
  columns-with_version = λ v r. refl;
  columns-with_del_state = λ v r. refl;
  columns-with_delete_time = λ v r. refl;
}

module _ {Db : Type 0} (service : OrderService Db) where
  open service use {conn, marshals, homestay_detail, sql}

  -- The numbers and prices of the orders on record.
  abbrev pub order_stamps : Db → List (ℤ × (String × ℤ))
  order_stamps = stamps order_table conn order_table-IsTable sql order_columns

  abbrev pub IsUnpaid : HomestayOrder → Type 0
  IsUnpaid o = (o.trade_state ≡ wait_pay) ⊎ (o.trade_state ≡ cancel)

  abbrev pub IsClosing : Task → Type 0
  IsClosing task = (sn : String) × (minutes : ℕ) × (task ≡ defer_close_homestay_order sn minutes)

  -- The orders on record have numbers of `GenSn`, and nobody has paid.
  pub record IsOrderly (s : State Db) : Type 0 where
    pub one_stamp : IsFunctional (order_stamps s.db)
    pub numbered : (i : ℤ) (k : String × ℤ) → In (i, k) (order_stamps s.db) → IsOrderSn k.0
    pub unpaid : (o : HomestayOrder) → In o (sql.rows s.db) → IsUnpaid o
    pub to_close : (task : Task) → In task s.enqueued → IsClosing task

  -- No order disappears or changes its number or price.
  abbrev pub Grows : Db → Db → Type 0
  Grows d d' = (k : ℤ × (String × ℤ)) → In k (order_stamps d) → In k (order_stamps d')

  abbrev pub Next : State Db → State Db → Type 0
  Next s s' = IsOrderly s' × Grows s.db s'.db

  pub read_order :
      (sn : String) (o : HomestayOrder) (d : Db)
      → find_one_by_sn conn sn d ≡ ok o
      → (conn.text_eq o.sn sn ≡ true) × In (o.id, (o.sn, o.order_total_price)) (order_stamps d)
  unfolding find_one_by_sn
  read_order sn o d found =
      let (passes, there) = service.stamped.row_stamped _ o d found in (ground arith, there)

  pub rests : (s s' : State Db) → s' ≡ s → IsOrderly s → Next s s'
  rests s s' same inv = rw same (inv, λ k m. m)

  -- An order that is cancelled, and one that is inserted.
  abbrev pub cancelled : (o : HomestayOrder) → HomestayOrder
  cancelled o = record o { trade_state = cancel }

  pub cancel_Next :
      (o : HomestayOrder) (s : State Db)
      → IsOrderly s
      → In (o.id, (o.sn, o.order_total_price)) (order_stamps s.db)
      → Next s (record s { db = (update_with_version order_table conn (cancelled o) s.db).1 })
  cancel_Next o s inv there =
      let same =
        update_stamps order_table conn order_table-IsTable sql order_columns service.stamped
          (order_keeps service) (cancelled o) s.db inv.one_stamp there in
      (
        record {
          one_stamp = rw same inv.one_stamp;
          numbered = rw same inv.numbered;
          unpaid = λ x m.
              elim (updated_row order_table conn order_table-IsTable sql (cancelled o) x s.db m) [
                | inl old ↦ inv.unpaid x old
                | inr (r, e) ↦ inr (
                    ap (λ y. y.trade_state) e
                    ∙ Runs.written_state conn marshals homestay_detail sql service.keeps_state
                        (cancelled o) s.db r wait_pay cancels)
              ];
          to_close = inv.to_close;
        },
        λ k m. rw same m,
      )

  pub insert_Next :
      (h : PbHomestay) (req : CreateHomestayOrderReq) (sn trade_code : String) (s : State Db)
      → IsOrderSn sn
      → IsOrderly s
      → Next s
          (record s { db = (insert_row order_table conn (new_order h req sn trade_code) s.db).1 })
  unfolding new_order
  insert_Next h req sn trade_code s number inv =
      let new = new_order h req sn trade_code in
      let (one, grows, from) =
        insert_IsFunctional order_table conn order_table-IsTable sql order_columns service.stamped
          (order_keeps service) new s.db inv.one_stamp in
      (
        record {
          one_stamp = one;
          numbered =
              λ i k m. elim (from i k m) [ inl old ↦ inv.numbered i k old | inr e ↦ rw e number ];
          unpaid = λ x m. elim (new_row order_table conn order_table-IsTable sql new x s.db m) [
            | inl old ↦ inv.unpaid x old
            | inr e ↦
                inl (
                  ap (λ y. y.trade_state) e ∙ service.keeps_state s.db _ (omega arith, omega arith))
          ];
          to_close = inv.to_close;
        },
        grows,
      )

  -- The same database with other tasks.
  pub with_tasks :
      (s s' : State Db) (d : Db)
      → s'.db ≡ d
      → ((task : Task) → In task s'.enqueued → IsClosing task)
      → Next s (record s { db = d })
      → Next s s'
  with_tasks s s' d same tasks (inv, grows) = (
    record {
      one_stamp = rw same inv.one_stamp;
      numbered = rw same inv.numbered;
      unpaid = rw same inv.unpaid;
      to_close = tasks;
    },
    rw same grows,
  )
