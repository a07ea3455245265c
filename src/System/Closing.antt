-- ===== src/System/Closing.antt =====
-- The end of an order in the system: the tasks of `CloseHomestayOrderHandler`
-- (app/mqueue/cmd/job/internal/logic/closeOrder.go), and the messages that order-mq consumes
-- (app/order/cmd/mq/internal/mqs/kq/paymentUpdateStatus.go).
use flash_sale_system.Common.{
  Bool, true, ◌≡◌, ◌≢◌, ◌∙◌, ◌⊎◌, inl, inr, String, ◌==ℤ◌, some, none, ok, Error, Action, pure,
  wrap, ◌>>◌, Result-cases, row-cases, Bool-cases, arith,
}
use flash_sale_system.Store.{update_with_version}
use flash_sale_system.Store.Sql.{IsCollation}
use flash_sale_system.Tool.{gen_sn}
use flash_sale_system.Xerr.{db_error, new_err_code}
use flash_sale_system.Reply.{remote, call}
use flash_sale_system.Order.{HomestayOrder, order_table, State, cancel, wait_pay}
use flash_sale_system.Order.Trade.{
  UpdateTradeStateReq, find_one_by_sn, update_homestay_order_trade_state, change_trade_state,
  verify_order_trade_state,
}
use flash_sale_system.Order.Query.{homestay_order_detail}
use flash_sale_system.OrderMq.{
  consume, exec_service, no_trade_state, get_order_trade_state_by_payment_trade_state,
}
use flash_sale_system.Mqueue.CloseOrder.{close_order, err_close_order}
use flash_sale_system.Payment.{NotifyMessage}
use flash_sale_system.System.{IsOrderSn, IsPaymentSn, OrderService}
use flash_sale_system.System.Orders.{IsOrderly, Next, rests, cancelled, cancel_Next, read_order}

-- The number of an order and that of a payment begin with different capitals.
prefixes_differ :
    (text_eq : String → String → Bool)
    → IsCollation text_eq
    → (a b : String) → IsOrderSn a
    → IsPaymentSn b
    → text_eq a b ≢ true
unfolding gen_sn
prefixes_differ text_eq collated a b (t, d, h) (t', d', h') same = absurd (
    omega (
      arith,
      collated.first_capital a b _ _ _ _ same h h' (omega arith, omega arith)
          (omega arith, omega arith),
    ))

-- An error of a call that is passed on leaves what the call did.
called_state :
    {S A : Type 0} (carry : Error → Error) (e : Error) (m : Action S A) (s : S)
    → ((do wrap e (call carry m); pure tt) s).1 ≡ (m s).1
called_state carry e m s = elim (Result-cases (remote carry (m s).0)) [
  | inl done ↦ ground arith
  | inr failed ↦ ground arith
]

module _ {Db : Type 0} (service : OrderService Db) (carry : Error → Error) where
  open service use {conn, marshals, homestay_detail, sql}

  -- `UpdateHomestayOrderTradeState` to `cancel` cancels the order that it has read, or does nothing.
  cancel_effect :
      (sn : String) (s : State Db)
      → let s' =
          (update_homestay_order_trade_state conn marshals
            (record { sn = sn; trade_state = cancel })
            s).1 in
        (s' ≡ s)
        ⊎ ((o : HomestayOrder) × (find_one_by_sn conn sn s.db ≡ ok o)
            × (s' ≡ record s {
              db = (update_with_version order_table conn (cancelled service o) s.db).1;
            }))
  unfolding update_homestay_order_trade_state change_trade_state
  cancel_effect sn s = elim (row-cases (new_err_code db_error) (find_one_by_sn conn sn s.db)) [
    | inl (o, found) ↦ elim (Bool-cases (o.trade_state ==ℤ cancel)) [
      | inl same ↦ inl (ground arith)
      | inr differs ↦ elim (Result-cases (verify_order_trade_state cancel o.trade_state)) [
        | inl (_, allowed) ↦ inr (
          o,
          found,
          elim (Result-cases (update_with_version order_table conn (cancelled service o) s.db).0) [
            | inl done ↦ ground arith
            | inr failed ↦ ground arith
          ],
        )
        | inr refused ↦ inl (ground arith)
      ]
    ]
    | inr unread ↦ inl (ground arith)
  ]

  cancel_request_Next :
      (sn : String) (s : State Db)
      → IsOrderly service s
      → Next service s
          (update_homestay_order_trade_state conn marshals
            (record { sn = sn; trade_state = cancel })
            s).1
  cancel_request_Next sn s inv = elim (cancel_effect sn s) [
    | inl same ↦ rests service s _ same inv
    | inr (o, found, run) ↦
        rw run (cancel_Next service o s inv (read_order service sn o s.db found).1)
  ]

  pub closes_Next :
      (sn : String) (s : State Db)
      → IsOrderly service s
      → Next service s (close_order conn marshals carry (ok sn) s).1
  unfolding close_order
  closes_Next sn s inv = elim (Result-cases (remote carry (homestay_order_detail conn sn s.db))) [
    | inl (none, nil) ↦ rests service s _ (ground arith) inv
    | inl (some o, found) ↦ elim (Bool-cases (o.trade_state ==ℤ wait_pay)) [
      | inl waits ↦
          let m =
            update_homestay_order_trade_state conn marshals
              (record { sn = sn; trade_state = cancel }) in
          rw (found, waits)
            (rw (called_state carry err_close_order m s) (cancel_request_Next sn s inv))
      | inr differs ↦ rests service s _ (ground arith) inv
    ]
    | inr (inl (e, failed)) ↦ rests service s _ (ground arith) inv
    | inr (inr failed) ↦ rests service s _ (ground arith) inv
  ]

  unread_request :
      (req : UpdateTradeStateReq) (s : State Db)
      → ((o : HomestayOrder) → find_one_by_sn conn req.sn s.db ≢ ok o)
      → (update_homestay_order_trade_state conn marshals req s).1 ≡ s
  unfolding update_homestay_order_trade_state
  unread_request req s none_such =
      elim (row-cases (new_err_code db_error) (find_one_by_sn conn req.sn s.db)) [
        | inl (o, found) ↦ absurd (none_such o found)
        | inr unread ↦ ground arith
      ]

  -- A message with the number of a payment, as the collation compares them, finds no order, and changes nothing.
  pub consumes_nothing :
      (m : NotifyMessage) (s : State Db)
      → (payment_sn : String) → IsPaymentSn payment_sn
      → conn.text_eq payment_sn m.order_sn ≡ true
      → IsOrderly service s
      → (consume conn marshals carry (ok m) s).1 ≡ s
  unfolding consume exec_service
  consumes_nothing m s payment_sn number named inv =
      let new = get_order_trade_state_by_payment_trade_state m.pay_status in
      let req : UpdateTradeStateReq = record { sn = m.order_sn; trade_state = new } in
      elim (Bool-cases (new ==ℤ no_trade_state)) [
        | inl none_such ↦ ground arith
        | inr known ↦ rw known (
            called_state carry _ (update_homestay_order_trade_state conn marshals req) s
            ∙ unread_request req s unknown)
      ]
    where
      unknown : (o : HomestayOrder) → find_one_by_sn conn m.order_sn s.db ≢ ok o
      unknown o found =
          let (same, there) = read_order service m.order_sn o s.db found in
          prefixes_differ conn.text_eq service.collated o.sn payment_sn
            (inv.numbered o.id (o.sn, o.order_total_price) there) number
            (service.collated.transitive o.sn m.order_sn payment_sn same
              (service.collated.symmetric payment_sn m.order_sn named))
