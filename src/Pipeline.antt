-- ===== src/Pipeline.antt =====
-- The way of a payment's success from the payment service to the order service, through the message
-- that `UpdateTradeState` publishes and order-mq consumes.
use flash_sale_system.Common.{
  ◌≡◌, ◌≢◌, sym, ◌∙◌, ap, inl, inr, List, [], ◌∷◌, ◌++◌, ok, err, Error, not_found, arith, Bool,
}
use flash_sale_system.Store.{Conn}
use flash_sale_system.Store.Sql.{IsSql}
use flash_sale_system.Xerr.{new_err_msg}
use flash_sale_system.Reply.{remote}
use flash_sale_system.Order
use flash_sale_system.Order.Trade
use flash_sale_system.Order.TradeLaws
use flash_sale_system.Payment
use flash_sale_system.Payment.{NotifyMessage}
use flash_sale_system.Payment.Update.{UpdateTradeStateReq, update_trade_state}
use flash_sale_system.Payment.Laws
use flash_sale_system.OrderMq.{exec_service, get_order_trade_state_by_payment_trade_state}

snoc_cancel : {A : Type 0} (xs : List A) (a b : A) → xs ++ a ∷ [] ≡ xs ++ b ∷ [] → a ≡ b
snoc_cancel [] a b h = cc
snoc_cancel (x ∷ xs) a b h = snoc_cancel xs a b (cc)

one_more : {A : Type 0} (xs : List A) (a : A) → xs ≢ xs ++ a ∷ []
one_more [] a h = cc
one_more (x ∷ xs) a h = one_more xs a (cc)

module _ {PayDb OrderDb : Type 0} (payments : Conn PayDb Payment.ThirdPayment)
    (sql : IsSql Payment.payment_table payments) (orders : Conn OrderDb Order.HomestayOrder)
    (marshals : Order.Task → Bool) (carry : Error → Error) where
  -- The message carries the number of the payment record, the `Sn` of the request.
  published_number :
      (req : UpdateTradeStateReq) (s : Payment.State PayDb) (m : NotifyMessage)
      → (update_trade_state payments req s).0 ≡ ok tt
      → (update_trade_state payments req s).1.published ≡ s.published ++ m ∷ []
      → m ≡ record { pay_status = req.pay_status; order_sn = req.sn }
  published_number req s m h e =
      let (p, _, effect) = Laws.update_payment_effect payments sql req s h in
      elim effect [
        | inl (_, same) ↦ absurd (one_more s.published m (sym (ap (λ t. t.published) same) ∙ e))
        | inr paid ↦ snoc_cancel s.published m _ (sym e ∙ paid.message)
      ]

  order_missing :
      (m : NotifyMessage) (s : Order.State OrderDb)
      → m.pay_status ≡ Payment.success
      → Trade.find_one_by_sn orders m.order_sn s.db ≡ err not_found
      → exec_service orders marshals carry m s
        ≡ (err (new_err_msg "update homestay order state fail"), s)
  unfolding exec_service get_order_trade_state_by_payment_trade_state remote
  order_missing m s paid missing =
      let absent =
        TradeLaws.update_of_missing orders marshals
          (record { sn = m.order_sn; trade_state = Order.wait_use }) s missing in
      rw paid (ground (arith, absent))

  -- The message that a successful payment publishes names the payment's own number where the
  -- consumer looks for the order's. Where no order has that number, the consumer fails and changes
  -- nothing in the order service.
  pub paid_order_missed :
      (req : UpdateTradeStateReq) (s : Payment.State PayDb) (m : NotifyMessage)
      (o : Order.State OrderDb)
      → (update_trade_state payments req s).0 ≡ ok tt
      → (update_trade_state payments req s).1.published ≡ s.published ++ m ∷ []
      → req.pay_status ≡ Payment.success
      → Trade.find_one_by_sn orders req.sn o.db ≡ err not_found
      → exec_service orders marshals carry m o
        ≡ (err (new_err_msg "update homestay order state fail"), o)
  paid_order_missed req s m o h e paid missing =
      rw (published_number req s m h e) (order_missing _ o paid missing)
