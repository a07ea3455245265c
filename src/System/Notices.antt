-- ===== src/System/Notices.antt =====
-- A notification of WeChat Pay in the system: `ThirdPaymentWxPayCallbackHandler`
-- (app/payment/cmd/api/internal/handler/thirdPayment) and `UpdateTradeState` of the payment RPC.
use flash_sale_system.Common.{
  ◌≡◌, refl, ◌⊎◌, inl, inr, some, List, [], ◌∷◌, ◌++◌, String, ℤ, pos, ◌==ℤ◌, tests, Result, ok,
  Error, Result-cases, row-cases, Bool-cases, arith,
}
use flash_sale_system.Store.{Conn, update_with_version}
use flash_sale_system.Xerr.{db_error, new_err_code}
use flash_sale_system.Payment.{ThirdPayment, payment_table, State, success, wait}
use flash_sale_system.Payment.Update.{
  UpdateTradeStateReq, find_one_by_sn, judge, proceed, answer_at_once, with_notification,
  write_trade_state, update_trade_state,
}
use flash_sale_system.Payment.CallbackLaws.{verify_of_found, verify_of_failed}
use flash_sale_system.Payment.Query.{PaymentDetail, to_pb}
use flash_sale_system.Payment.Callback.{
  Transaction, update_for, notification_req, verify_and_update_state,
  get_pay_status_by_wx_pay_trade_state, third_payment_wx_pay_callback,
}
use flash_sale_system.Payment.Handler.{third_payment_wx_pay_callback_handler}
use flash_sale_system.System.{PaymentService}
use flash_sale_system.System.Payments.{IsBacked, read_payment, update_IsBacked, publish_IsBacked}

module _ {Db : Type 0} (conn : Conn Db ThirdPayment) where
  abbrev updated_db : UpdateTradeStateReq → ThirdPayment → Db → Db
  updated_db req p d = (update_with_version payment_table conn (with_notification req p) d).1

  -- What `UpdateTradeState` does, whatever it returns: nothing, a write of the payment that it has read,
  -- or that and a message with the payment's number.
  update_trade_state_state :
      (req : UpdateTradeStateReq) (s : State Db)
      → let s' = (update_trade_state conn req s).1 in
        (s' ≡ s)
        ⊎ ((p : ThirdPayment) × (find_one_by_sn conn req.sn s.db ≡ ok p)
            × ((s' ≡ record s { db = updated_db req p s.db })
                ⊎ (s' ≡ record {
                  db = updated_db req p s.db;
                  published =
                      s.published ++ record { pay_status = req.pay_status; order_sn = req.sn } ∷ [];
                })))
  unfolding update_trade_state write_trade_state
  update_trade_state_state req s =
      elim (row-cases (new_err_code db_error) (find_one_by_sn conn req.sn s.db)) [
        | inl (p, found) ↦ elim (Result-cases (judge req.pay_status p.pay_status)) [
          | inl (proceed, go_on) ↦
              elim (Result-cases
                (update_with_version payment_table conn (with_notification req p) s.db).0) [
                  | inl done ↦ inr (p, found, inr (ground arith))
                  | inr failed ↦ inr (p, found, inl (ground arith))
                ]
          | inl (answer_at_once, late) ↦ inl (ground arith)
          | inr refused ↦ inl (ground arith)
        ]
        | inr unread ↦ inl (ground arith)
      ]

  module _ (carry : Error → Error) where
    update_for_effect :
        (n : Transaction) (q : PaymentDetail) (s : State Db)
        → let s' = (update_for conn carry n (some q) s).1 in
          (s' ≡ s)
          ⊎ (get_pay_status_by_wx_pay_trade_state n.trade_state ≡ success)
            × (s' ≡ (update_trade_state conn (notification_req n) s).1)
    update_for_effect n q s = elim (Bool-cases (q.id ==ℤ pos 0)) [
      | inl absent ↦ inl (ground arith)
      | inr there ↦ elim (Bool-cases (q.pay_total ==ℤ n.payer_total)) [
        | inr another ↦ inl (ground arith)
        | inl amount ↦
            elim (Bool-cases (get_pay_status_by_wx_pay_trade_state n.trade_state ==ℤ success)) [
              | inr unpaid ↦ inl (ground arith)
              | inl paid ↦ elim (Bool-cases (q.pay_status ==ℤ wait)) [
                | inr again ↦ inl (ground arith)
                | inl waits ↦ inr (grind tests, rw (there, amount, paid, waits) refl)
              ]
            ]
      ]
    ]

    verify_effect :
        (n : Transaction) (s : State Db)
        → let s' = (verify_and_update_state conn carry n s).1 in
          (s' ≡ s)
          ⊎ (get_pay_status_by_wx_pay_trade_state n.trade_state ≡ success)
            × (s' ≡ (update_trade_state conn (notification_req n) s).1)
    verify_effect n s = elim (Result-cases (find_one_by_sn conn n.out_trade_no s.db)) [
      | inl (p, found) ↦
          rw (verify_of_found conn carry n s p found) (update_for_effect n (to_pb p) s)
      | inr failed ↦ inl (verify_of_failed conn carry n s failed)
    ]

    handler_effect :
        (client : Result (Unit {0})) (notification : Result Transaction) (s : State Db)
        → let s' = (third_payment_wx_pay_callback_handler conn carry client notification s).1 in
          (s' ≡ s) ⊎ ((n : Transaction) × (s' ≡ (verify_and_update_state conn carry n s).1))
    unfolding third_payment_wx_pay_callback_handler third_payment_wx_pay_callback
    handler_effect client notification s = elim (Result-cases client) [
      | inl made ↦ elim (Result-cases notification) [
        | inl (n, verified) ↦ inr (n, ground arith)
        | inr unverified ↦ inl (ground arith)
      ]
      | inr unmade ↦ inl (ground arith)
    ]

module _ {Db : Type 0} (service : PaymentService Db) (orders : List (ℤ × (String × ℤ))) where
  update_trade_state-IsBacked :
      (req : UpdateTradeStateReq) (s : State Db)
      → req.pay_status ≡ success
      → IsBacked service orders s
      → IsBacked service orders (update_trade_state service.conn req s).1
  unfolding with_notification
  update_trade_state-IsBacked req s paid inv = elim (update_trade_state_state service.conn req s) [
    | inl same ↦ rw same inv
    | inr (p, found, effect) ↦
        let (named, there) = read_payment service req.sn p s.db found in
        let written = update_IsBacked service orders (with_notification req p) s inv there in
        elim effect [
          | inl run ↦ rw run written
          | inr run ↦ rw run (
              publish_IsBacked service orders _
                (record s { db = updated_db service.conn req p s.db })
                (p.sn, inv.numbered p.id _ there, named) paid written)
        ]
  ]

  pub notifies_IsBacked :
      (carry : Error → Error) (client : Result (Unit {0})) (notification : Result Transaction)
      (s : State Db)
      → IsBacked service orders s
      → IsBacked service orders
          (third_payment_wx_pay_callback_handler service.conn carry client notification s).1
  notifies_IsBacked carry client notification s inv =
      elim (handler_effect service.conn carry client notification s) [
        | inl same ↦ rw same inv
        | inr (n, verified) ↦ rw verified (elim (verify_effect service.conn carry n s) [
          | inl same ↦ rw same inv
          | inr (paid, run) ↦ rw run (update_trade_state-IsBacked (notification_req n) s paid inv)
        ])
      ]
