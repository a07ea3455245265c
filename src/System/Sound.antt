-- ===== src/System/Sound.antt =====
-- What every run of the system keeps, over the order RPC and the payment RPC together.
use flash_sale_system.Common.{
  true, ◌∙◌, ◌≡◌, refl, sym, ap, ◌⊎◌, inl, inr, some, String, ℕ, pos, ok, err, Error, not_found,
  no_rows_update, code_error, status, other, Result-cases, arith,
}
use flash_sale_system.Store.Ranked.{In}
use flash_sale_system.Store.Stamps.{In-of_map, In-map}
use flash_sale_system.Reply.{remote-ok}
use flash_sale_system.Order as Order
use flash_sale_system.Order.{HomestayOrder, Task, defer_close_homestay_order, wait_pay, cancel}
use flash_sale_system.Order.Query.{PbHomestayOrder, homestay_order_detail, to_pb, no_order}
use flash_sale_system.Order.Trade.{find_one_by_sn}
use flash_sale_system.Payment.{ThirdPayment}
use flash_sale_system.System.{
  System, OrderService, PaymentService, Step, books, asks, pays, notifies, consumes, closes, Run,
  ends, step,
}
use flash_sale_system.System.Orders.{IsOrderly, Grows, Next, order_stamps, read_order, rests}
use flash_sale_system.System.Booking.{books_Next}
use flash_sale_system.System.Closing.{closes_Next, consumes_nothing}
use flash_sale_system.System.Payments.{IsBacked, IsBacked-more}
use flash_sale_system.System.Paying.{AreKnown, pays_IsBacked}
use flash_sale_system.System.Notices.{notifies_IsBacked}

module _ {OrderDb PayDb : Type 0} (order : OrderService OrderDb) (payment : PaymentService PayDb)
    (carry : Error → Error) (one_collation : payment.conn.text_eq ≡ order.conn.text_eq) where
  -- Orders that nobody has paid, payments for them at their prices, and answers with their prices.
  pub record IsSound (c : System OrderDb PayDb) : Type 0 where
    pub orderly : IsOrderly order c.orders
    pub backed : IsBacked payment (order_stamps order c.orders.db) c.payments
    pub known : AreKnown payment.conn.text_eq (order_stamps order c.orders.db) c.answers

  abbrev Kept : System OrderDb PayDb → System OrderDb PayDb → Type 0
  Kept a b = IsSound b × Grows order a.orders.db b.orders.db

  detail_cases :
      (sn : String) (o : PbHomestayOrder) (d : OrderDb)
      → homestay_order_detail order.conn sn d ≡ ok (some o)
      → (o.id ≡ pos 0)
        ⊎ (payment.conn.text_eq o.sn sn ≡ true)
          × In (o.id, (o.sn, o.order_total_price)) (order_stamps order d)
  unfolding homestay_order_detail to_pb
  detail_cases sn o d answer = elim (Result-cases (find_one_by_sn order.conn sn d)) [
    | inl (r, found) ↦
        let (named, there) = read_order order sn r d found in
        let same : to_pb r ≡ o = ground (arith, found, answer) in
        inr (rw (← same) (ap (λ f. f r.sn sn) one_collation ∙ named, there))
    | inr (inl (e, failed)) ↦ inl (empty_answer e failed)
    | inr (inr failed) ↦ absurd (ground arith)
  ]
    where
      empty_answer : (e : Error) → find_one_by_sn order.conn sn d ≡ err e → o.id ≡ pos 0
      empty_answer not_found failed = let same : no_order ≡ o = ground arith in rw (← same) refl
      empty_answer no_rows_update failed = absurd (ground arith)
      empty_answer (code_error code msg) failed = absurd (ground arith)
      empty_answer (status code msg) failed = absurd (ground arith)
      empty_answer (other text) failed = absurd (ground arith)

  -- The order service goes on, and the payments stay backed.
  moved :
      (c : System OrderDb PayDb) (orders : Order.State OrderDb)
      → IsSound c
      → Next order c.orders orders
      → Kept c (record c { orders = orders })
  moved c orders sound (orderly, grows) = (
    record {
      orderly = orderly;
      backed = IsBacked-more payment _ _ c.payments grows sound.backed;
      known = λ sn o m. elim (sound.known sn o m) [
        | inl empty ↦ inl empty
        | inr (named, there) ↦ inr (named, grows _ there)
      ];
    },
    grows,
  )

  Step-IsSound : (a b : System OrderDb PayDb) → Step order payment carry a b → IsSound a → Kept a b
  Step-IsSound a b (books req user_id sn trade_code number) sound =
      moved a b.orders sound
        (books_Next order carry req user_id sn trade_code a.orders number sound.orderly)
  Step-IsSound a b (asks sn o answer) sound = (
    record {
      orderly = sound.orderly;
      backed = sound.backed;
      known = λ sn' o' m. elim m [
        | inl e ↦
            let same_sn : sn' ≡ sn = ap (λ x. x.0) e in
            let same_o : o' ≡ o = ap (λ x. x.1) e in
            rw (same_sn, same_o)
              (detail_cases sn o a.orders.db
                (remote-ok carry (homestay_order_detail order.conn sn a.orders.db) (some o) answer))
        | inr old ↦ sound.known sn' o' old
      ];
    },
    λ k m. m,
  )
  Step-IsSound a b (pays env req number told) sound = (
    record {
      orderly = sound.orderly;
      backed =
          pays_IsBacked payment (order_stamps order a.orders.db) carry env req a.answers a.payments
            number told sound.known sound.backed;
      known = sound.known;
    },
    λ k m. m,
  )
  Step-IsSound a b (notifies client notification) sound = (
    record {
      orderly = sound.orderly;
      backed =
          notifies_IsBacked payment (order_stamps order a.orders.db) carry client notification
            a.payments sound.backed;
      known = sound.known;
    },
    λ k m. m,
  )
  Step-IsSound a b (consumes m there) sound =
      let ((sn, number, named), _) = sound.backed.announced m there in
      let named' = ap (λ f. f sn m.order_sn) (sym one_collation) ∙ named in
      moved a b.orders sound (
        rests order a.orders b.orders
          (consumes_nothing order carry m a.orders sn number named' sound.orderly) sound.orderly)
  Step-IsSound a b (closes sn minutes there) sound =
      moved a b.orders sound (closes_Next order carry sn a.orders sound.orderly)

  Run-IsSound : (a b : System OrderDb PayDb) → Run order payment carry a b → IsSound a → Kept a b
  Run-IsSound a b ends sound = (sound, λ k m. m)
  Run-IsSound a b (step {b = m} first rest) sound =
      let (sound_m, grows) = Step-IsSound a m first sound in
      let (sound_b, grows') = Run-IsSound m b rest sound_m in
      (sound_b, λ k there. grows' k (grows k there))

  -- On databases as `OrderService` and `PaymentService` ask for, with one collation, start with a sound
  -- system: orders with numbers of `GenSn`, each of which waits for its payment or is cancelled, payments for them
  -- at their prices, and messages only of payments that have succeeded, such as a system where
  -- nothing has happened yet. After any run of bookings, payments, notifications, messages and
  -- tasks, in whatever order and however often they come, and whichever calls of the databases
  -- fail: every payment on record is for an order on record, whose number the collation takes as
  -- equal to the one that the payment names, and its amount is exactly the order's price; and every order of the start is on record with the same number and price.
  pub payments_match_orders :
      (a b : System OrderDb PayDb)
      → Run order payment carry a b
      → IsSound a
      → ((p : ThirdPayment)
          → In p (payment.sql.rows b.payments.db)
          → (o : HomestayOrder) × In o (order.sql.rows b.orders.db)
            × (order.conn.text_eq o.sn p.order_sn ≡ true)
            × (o.order_total_price ≡ p.pay_total))
        × ((o : HomestayOrder)
            → In o (order.sql.rows a.orders.db)
            → (o' : HomestayOrder) × In o' (order.sql.rows b.orders.db)
              × (o'.id ≡ o.id)
              × (o'.sn ≡ o.sn)
              × (o'.order_total_price ≡ o.order_total_price))
  payments_match_orders a b run sound =
      let (sound_b, grows) = Run-IsSound a b run sound in
      (
        λ p there.
            let (i, sn, named, stamped) =
              sound_b.backed.backed p.id (p.sn, p.order_sn, p.pay_total)
                (In-map _ p (payment.sql.rows b.payments.db) there) in
            let (o, on_record, e) = In-of_map _ _ (order.sql.rows b.orders.db) stamped in
            (
              o,
              on_record,
              rw (← ap (λ x. x.1.0) e) (ap (λ f. f sn p.order_sn) (sym one_collation) ∙ named),
              ap (λ x. x.1.1) (sym e),
            ),
        λ o there.
            let (o', on_record, e) =
              In-of_map _ _ (order.sql.rows b.orders.db)
                (grows _ (In-map _ o (order.sql.rows a.orders.db) there)) in
            (
              o',
              on_record,
              ap (λ x. x.0) (sym e),
              ap (λ x. x.1.0) (sym e),
              ap (λ x. x.1.1) (sym e),
            ),
      )

  -- On databases as `OrderService` and `PaymentService` ask for, with one collation, start with a sound
  -- system and let
  -- it run in any such way, with any number of notifications of successful payments. Then no order
  -- has left the two states of an unpaid one, and no task is queued but those that close orders:
  -- since a message carries the payment's number, order-mq never moves an order to the state after
  -- payment, and nobody is notified.
  pub orders_never_paid :
      (a b : System OrderDb PayDb)
      → Run order payment carry a b
      → IsSound a
      → ((o : HomestayOrder)
          → In o (order.sql.rows b.orders.db)
          → (o.trade_state ≡ wait_pay) ⊎ (o.trade_state ≡ cancel))
        × ((task : Task)
            → In task b.orders.enqueued
            → (sn : String) × (minutes : ℕ) × (task ≡ defer_close_homestay_order sn minutes))
  orders_never_paid a b run sound =
      let (sound_b, _) = Run-IsSound a b run sound in
      (sound_b.orderly.unpaid, sound_b.orderly.to_close)
