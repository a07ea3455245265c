-- ===== src/System/Payments.antt =====
-- The payments of the system: what stays true of the payment RPC's database (app/payment/model) and of
-- the messages of pkg/kqueue.
use flash_sale_system.Common.{
  Bool, true, ◌≡◌, refl, inl, inr, List, [], ◌∷◌, ◌++◌, String, ℤ, ok, arith,
}
use flash_sale_system.Store.{update_with_version, insert_row}
use flash_sale_system.Store.Ranked.{In}
use flash_sale_system.Store.Stamps.{
  In-snoc, IsFunctional, stamps, KeepsColumns, update_stamps, insert_IsFunctional,
}
use flash_sale_system.Payment.{
  ThirdPayment, payment_table, payment_table-IsTable, State, NotifyMessage, success,
}
use flash_sale_system.Payment.Update.{find_one_by_sn, CreatePaymentReq, new_payment}
use flash_sale_system.System.{IsPaymentSn, payment_columns, PaymentService}

-- A list of orders' numbers and prices has a payment's order, at the payment's amount.
abbrev pub IsFor : (String → String → Bool) → List (ℤ × (String × ℤ)) → String × String × ℤ → Type 0
IsFor text_eq orders (sn, order_sn, total) =
    (i : ℤ) × (k : String) × (text_eq k order_sn ≡ true) × In (i, (k, total)) orders

pub payment_keeps :
    {Db : Type 0} (service : PaymentService Db)
    → KeepsColumns payment_table service.conn payment_table-IsTable service.sql payment_columns
payment_keeps service = record {
  id-with_id = λ v r. refl;
  columns-assign = λ new old. refl;
  columns-with_id = λ v r. refl;
  columns-with_version = λ v r. refl;
  columns-with_del_state = λ v r. refl;
  columns-with_delete_time = λ v r. refl;
}

module _ {Db : Type 0} (service : PaymentService Db) where
  open service use {conn, sql}

  -- The numbers of the payments on record, with their orders' numbers and their amounts.
  abbrev pub payment_stamps : Db → List (ℤ × (String × String × ℤ))
  payment_stamps = stamps payment_table conn payment_table-IsTable sql payment_columns

  -- The number of a payment, as the collation compares them.
  abbrev pub NamesPayment : String → Type 0
  NamesPayment sn = (k : String) × IsPaymentSn k × (conn.text_eq k sn ≡ true)

  -- The payments on record have numbers of `GenSn` and are for orders on record, at their prices; a
  -- message says that a payment has succeeded.
  pub record IsBacked (orders : List (ℤ × (String × ℤ))) (s : State Db) : Type 0 where
    pub one_stamp : IsFunctional (payment_stamps s.db)
    pub numbered :
        (i : ℤ) (k : String × String × ℤ) → In (i, k) (payment_stamps s.db) → IsPaymentSn k.0
    pub backed :
        (i : ℤ) (k : String × String × ℤ)
        → In (i, k) (payment_stamps s.db)
        → IsFor conn.text_eq orders k
    pub announced :
        (m : NotifyMessage) → In m s.published → NamesPayment m.order_sn × (m.pay_status ≡ success)

  pub read_payment :
      (sn : String) (p : ThirdPayment) (d : Db)
      → find_one_by_sn conn sn d ≡ ok p
      → (conn.text_eq p.sn sn ≡ true)
        × In (p.id, (p.sn, p.order_sn, p.pay_total)) (payment_stamps d)
  unfolding find_one_by_sn
  read_payment sn p d found =
      let (passes, there) = service.stamped.row_stamped _ p d found in (ground arith, there)

  -- More orders back as many payments.
  pub IsBacked-more :
      (orders orders' : List (ℤ × (String × ℤ))) (s : State Db)
      → ((x : ℤ × (String × ℤ)) → In x orders → In x orders')
      → IsBacked orders s
      → IsBacked orders' s
  IsBacked-more orders orders' s grows inv = record {
    one_stamp = inv.one_stamp;
    numbered = inv.numbered;
    backed = λ i k m. let (j, n, e, there) = inv.backed i k m in (j, n, e, grows _ there);
    announced = inv.announced;
  }

  module _ (orders : List (ℤ × (String × ℤ))) where
    pub update_IsBacked :
        (new : ThirdPayment) (s : State Db)
        → IsBacked orders s
        → In (new.id, (new.sn, new.order_sn, new.pay_total)) (payment_stamps s.db)
        → IsBacked orders (record s { db = (update_with_version payment_table conn new s.db).1 })
    update_IsBacked new s inv there =
        let same =
          update_stamps payment_table conn payment_table-IsTable sql payment_columns service.stamped
            (payment_keeps service) new s.db inv.one_stamp there in
        record {
          one_stamp = rw same inv.one_stamp;
          numbered = rw same inv.numbered;
          backed = rw same inv.backed;
          announced = inv.announced;
        }

    pub insert_IsBacked :
        (zero_time : ℤ) (req : CreatePaymentReq) (sn : String) (s : State Db)
        → IsPaymentSn sn
        → IsFor conn.text_eq orders (sn, req.order_sn, req.pay_total)
        → IsBacked orders s
        → IsBacked orders (record s {
          db = (insert_row payment_table conn (new_payment zero_time req sn) s.db).1;
        })
    unfolding new_payment
    insert_IsBacked zero_time req sn s number paid inv =
        let (one, grows, from) =
          insert_IsFunctional payment_table conn payment_table-IsTable sql payment_columns
            service.stamped (payment_keeps service) (new_payment zero_time req sn) s.db
            inv.one_stamp in
        record {
          one_stamp = one;
          numbered =
              λ i k m. elim (from i k m) [ inl old ↦ inv.numbered i k old | inr e ↦ rw e number ];
          backed = λ i k m. elim (from i k m) [ inl old ↦ inv.backed i k old | inr e ↦ rw e paid ];
          announced = inv.announced;
        }

    -- A message about a payment on record, behind those that are there.
    pub publish_IsBacked :
        (m : NotifyMessage) (s : State Db)
        → NamesPayment m.order_sn
        → m.pay_status ≡ success
        → IsBacked orders s
        → IsBacked orders (record s { published = s.published ++ m ∷ [] })
    publish_IsBacked m s number succeeded inv = record {
      one_stamp = inv.one_stamp;
      numbered = inv.numbered;
      backed = inv.backed;
      announced = λ x there. elim (In-snoc x m s.published there) [
        | inl old ↦ inv.announced x old
        | inr e ↦ rw e (number, succeeded)
      ];
    }
