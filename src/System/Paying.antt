-- ===== src/System/Paying.antt =====
-- A payment that is started in the system: `ThirdPaymentwxPay` of the payment API
-- (app/payment/cmd/api/internal/logic/thirdPayment/thirdPaymentwxPayLogic.go) and `CreatePayment` of
-- the payment RPC.
use flash_sale_system.Common.{
  Bool, true, ◌≡◌, ◌≢◌, ◌⊎◌, inl, inr, some, none, List, String, ℤ, pos, ◌==ℤ◌, tests, ok, Error,
  Result-cases, Bool-cases, arith, str_eq,
}
use flash_sale_system.Store.{Conn, insert_row}
use flash_sale_system.Store.Ranked.{In}
use flash_sale_system.Reply.{remote}
use flash_sale_system.Order.Query.{PbHomestayOrder}
use flash_sale_system.Payment.{
  ThirdPayment, payment_table, State, pay_model_wechat_pay, service_type_homestay_order,
}
use flash_sale_system.Payment.Update.{CreatePaymentReq, new_payment, create_payment}
use flash_sale_system.Payment.WxPay.{
  Environment, WxPayReq, openid_of, get_pay_homestay_price, create_wx_pre_pay_order,
  third_payment_wx_pay, homestay_description,
}
use flash_sale_system.System.{IsPaymentSn, PaymentService}
use flash_sale_system.System.Payments.{IsFor, IsBacked, insert_IsBacked}

module _ {Db : Type 0} (conn : Conn Db ThirdPayment) (carry : Error → Error)
    (env : Environment) where
  abbrev payment_of : (service_type order_sn : String) → ℤ → CreatePaymentReq
  payment_of service_type order_sn total = record {
    user_id = env.user_id;
    pay_model = pay_model_wechat_pay;
    pay_total = total;
    order_sn = order_sn;
    service_type = service_type;
  }

  -- The payment order creates one payment record, of the price that it is given, or none.
  pre_pay_effect :
      (service_type order_sn : String) (total : ℤ) (description : String) (s : State Db)
      → let s' =
          (create_wx_pre_pay_order conn carry env service_type order_sn total description s).1 in
        (s' ≡ s)
        ⊎ (s'
            ≡ (create_payment conn env.zero_time
                (payment_of service_type order_sn total)
                env.payment_sn
                s).1)
  unfolding create_wx_pre_pay_order
  pre_pay_effect service_type order_sn total description s =
      elim (Result-cases (env.user_auth env.user_id)) [
        | inl (auth, known) ↦ elim (Result-cases (openid_of auth)) [
          | inl (openid, bound) ↦
              let req = payment_of service_type order_sn total in
              let r = remote carry (create_payment conn env.zero_time req env.payment_sn s).0 in
              elim (Result-cases r) [
                | inl (sn, done) ↦ elim (Bool-cases (str_eq sn "")) [
                  | inl empty ↦ inr (ground arith)
                  | inr named ↦ elim (Result-cases env.client) [
                    | inl made ↦ inr (ground arith)
                    | inr unmade ↦ inr (ground arith)
                  ]
                ]
                | inr failed ↦ inr (ground arith)
              ]
          | inr unbound ↦ inl (ground arith)
        ]
        | inr failed ↦ inl (ground arith)
      ]

  -- What `ThirdPaymentwxPay` does to the payment RPC: nothing, or it creates a payment for the order
  -- that it was told of, at the order's price.
  wx_pay_effect :
      (req : WxPayReq) (s : State Db)
      → let s' = (third_payment_wx_pay conn carry env req s).1 in
        (s' ≡ s)
        ⊎ ((o : PbHomestayOrder) × (env.order_detail req.order_sn ≡ ok (some o))
            × (o.id ≢ pos 0)
            × (s'
                ≡ (create_payment conn env.zero_time
                    (payment_of req.service_type req.order_sn o.order_total_price)
                    env.payment_sn
                    s).1))
  unfolding third_payment_wx_pay get_pay_homestay_price
  wx_pay_effect req s = elim (Bool-cases (str_eq req.service_type service_type_homestay_order)) [
    | inl homestay ↦ elim (Result-cases (env.order_detail req.order_sn)) [
      | inl (none, nil) ↦ inl (ground arith)
      | inl (some o, found) ↦ elim (Bool-cases (o.id ==ℤ pos 0)) [
        | inl absent ↦ inl (ground arith)
        | inr there ↦
            elim (pre_pay_effect req.service_type req.order_sn o.order_total_price
              homestay_description s) [
                | inl same ↦ inl (ground arith)
                | inr run ↦ inr (o, found, grind tests, ground arith)
              ]
      ]
      | inr failed ↦ inl (ground arith)
    ]
    | inr unknown ↦ inl (ground arith)
  ]

-- The answers to a question for an order's number: an empty one, or one that names the order's price.
abbrev pub AreKnown :
    (String → String → Bool) → List (ℤ × (String × ℤ)) → List (String × PbHomestayOrder) → Type 0
AreKnown text_eq orders answers =
    (sn : String) (o : PbHomestayOrder)
    → In (sn, o) answers
    → (o.id ≡ pos 0) ⊎ (text_eq o.sn sn ≡ true) × In (o.id, (o.sn, o.order_total_price)) orders

module _ {Db : Type 0} (service : PaymentService Db) (orders : List (ℤ × (String × ℤ))) where
  create_state :
      (zero_time : ℤ) (req : CreatePaymentReq) (sn : String) (s : State Db)
      → (create_payment service.conn zero_time req sn s).1 ≡ record s {
        db = (insert_row payment_table service.conn (new_payment zero_time req sn) s.db).1;
      }
  unfolding create_payment
  create_state zero_time req sn s =
      elim (Result-cases
        (insert_row payment_table service.conn (new_payment zero_time req sn) s.db).0) [
          | inl done ↦ ground arith
          | inr failed ↦ ground arith
        ]

  create_IsBacked :
      (zero_time : ℤ) (req : CreatePaymentReq) (sn : String) (s : State Db)
      → IsPaymentSn sn
      → IsFor service.conn.text_eq orders (sn, req.order_sn, req.pay_total)
      → IsBacked service orders s
      → IsBacked service orders (create_payment service.conn zero_time req sn s).1
  create_IsBacked zero_time req sn s number paid inv =
      rw (create_state zero_time req sn s)
        (insert_IsBacked service orders zero_time req sn s number paid inv)

  -- The payment is for an order of an answer, and the answers are of orders on record.
  pub pays_IsBacked :
      (carry : Error → Error) (env : Environment) (req : WxPayReq)
      (answers : List (String × PbHomestayOrder)) (s : State Db)
      → IsPaymentSn env.payment_sn
      → ((sn : String) (o : PbHomestayOrder)
          → env.order_detail sn ≡ ok (some o)
          → In (sn, o) answers)
      → AreKnown service.conn.text_eq orders answers
      → IsBacked service orders s
      → IsBacked service orders (third_payment_wx_pay service.conn carry env req s).1
  pays_IsBacked carry env req answers s number told known inv =
      elim (wx_pay_effect service.conn carry env req s) [
        | inl same ↦ rw same inv
        | inr (o, found, some_id, run) ↦ elim (known req.order_sn o (told req.order_sn o found)) [
          | inl empty ↦ absurd (some_id empty)
          | inr (named, there) ↦ rw run (
              create_IsBacked env.zero_time _ env.payment_sn s number (o.id, o.sn, named, there)
                inv)
        ]
      ]
