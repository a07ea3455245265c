-- ===== src/Tests/Runs.antt =====
-- Runs of the services with requests that interleave, and what the table models promise.
use flash_sale_system.Common.{
  ◌≡◌, refl, ◌+◌, ◌≤◌, length, ap, inl, inr, Bool, true, ◌==ℤ◌, ◌+ℤ◌, i64, Option, some, none, List,
  [], ◌∷◌, ℤ, pos, ok, Bool-cases, arith, find,
}
use flash_sale_system.Store.{update_with_version, find_one, next_version}
use flash_sale_system.Store.Keys.{IsKeyed, row_of}
use flash_sale_system.Store.Live.{Answers}
use flash_sale_system.Store.Ranked.{Reaches}
use flash_sale_system.Store.Models.{reading_writes, unread_writes}
use flash_sale_system.Store.Models.Contract.{IsMap}
use flash_sale_system.Store.Models.Refinement.{models_refine-IsMap}
use flash_sale_system.Order.{
  HomestayOrder, order_table, order_table-IsTable, wait_pay, wait_use, cancel,
}
use flash_sale_system.Order.Trade.{
  UpdateTradeStateReq, find_one_by_sn, update_found, change_trade_state, verify_order_trade_state,
}
use flash_sale_system.Order.TradeLaws as TradeLaws
use flash_sale_system.Order.Create.{new_order}
use flash_sale_system.Order.Runs as Orders
use flash_sale_system.Order.Runs.{orders_follow_transitions, trade_rank}
use flash_sale_system.Payment.{ThirdPayment, payment_table}
use flash_sale_system.Payment.Update as Update
use flash_sale_system.Payment.Laws as PaymentLaws
use flash_sale_system.Payment.Runs as Payments
use flash_sale_system.Payment.Messages as Messages
use flash_sale_system.Payment.Messages.{status_changes, messages_follow_changes}
use flash_sale_system.Payment.Runs.{payments_follow_transitions}
use flash_sale_system.Mqueue.CloseOrder.{close_order}
use flash_sale_system.Mqueue.Live.{close_cancels}
use flash_sale_system.Tests.Memory.{memory, memory-IsSql, row_or_not_found}
use flash_sale_system.Tests.Orders.{unpaid, detail, marshals, carry}
use flash_sale_system.Tests.Payments.{waiting, succeeded}

models_refine-IsMap_example :
    IsMap order_table
      (memory order_table)
      order_table-IsTable
      (memory-IsSql order_table)
      (reading_writes order_table (memory order_table))
    × IsMap order_table
        (memory order_table)
        order_table-IsTable
        (memory-IsSql order_table)
        (unread_writes order_table (memory order_table))
models_refine-IsMap_example =
    models_refine-IsMap order_table (memory order_table) order_table-IsTable
      (memory-IsSql order_table)

-- One order that waits for its payment.
abbrev start : Orders.Config (List HomestayOrder)
start = record { service = record { db = unpaid ∷ []; enqueued = [] }; copies = [] }

abbrev pay : UpdateTradeStateReq
pay = record { sn = "HSO1"; trade_state = wait_use }

abbrev close : UpdateTradeStateReq
close = record { sn = "HSO1"; trade_state = cancel }

only-row :
    {Row : Type 0} (p : Row → Bool) (r x : Row) → find p (x ∷ []) ≡ some r → (p r ≡ true) × (r ≡ x)
only-row p r x h = elim (Bool-cases (p x)) [
  | inl passes ↦ ground arith
  | inr fails ↦ absurd (ground arith)
]

unpaid_counted : unpaid.version ≡ pos (trade_rank unpaid.trade_state)
unfolding new_order trade_rank
unpaid_counted = refl

start-IsSound :
    Orders.IsSound
      (memory order_table)
      marshals
      detail
      (memory-IsSql order_table)
      (λ d o h. refl)
      start
start-IsSound = record {
  counted = λ i r there.
      let (_, same) = only-row (λ x. x.id ==ℤ i) r unpaid there in rw same unpaid_counted;
  traced = λ o copy. absurd copy;
}

abbrev both_read : Orders.Config (List HomestayOrder)
both_read = record start { copies = unpaid ∷ unpaid ∷ [] }

abbrev paid : Orders.Config (List HomestayOrder)
paid = record both_read {
  service = (update_found (memory order_table) marshals pay (some unpaid) start.service).1;
}

abbrev closed : Orders.Config (List HomestayOrder)
closed = record paid {
  service = (update_found (memory order_table) marshals close (some unpaid) paid.service).1;
}

unpaid_there : row_of order_table unpaid.id (unpaid ∷ []) ≡ some unpaid
unfolding new_order
unpaid_there = refl

-- The payment and the closing of one order both read it before either writes.
race :
    Orders.Run
      (memory order_table)
      marshals
      detail
      (memory-IsSql order_table)
      (λ d o h. refl)
      start
      closed
race = Orders.step (Orders.reads {c = start} unpaid unpaid_there) (
    Orders.step (Orders.reads {c = record start { copies = unpaid ∷ [] }} unpaid unpaid_there) (
      Orders.step (Orders.updates {c = both_read} pay unpaid (inl refl) (omega arith, omega arith))
        (Orders.step (Orders.updates {c = paid} close unpaid (inl refl) (omega arith, omega arith))
          Orders.ends)))

-- The order stays paid: the closing wrote an old version.
race_won : closed.service.db ≡ paid.service.db
unfolding update_with_version find_one next_version change_trade_state verify_order_trade_state
    new_order i64 ◌+ℤ◌
race_won = refl

orders_follow_transitions_example :
    Orders.IsSound
      (memory order_table)
      marshals
      detail
      (memory-IsSql order_table)
      (λ d o h. refl)
      closed
    × ((i : ℤ) (o : HomestayOrder)
        → row_of order_table i (unpaid ∷ []) ≡ some o
        → (o' : HomestayOrder) × (row_of order_table i closed.service.db ≡ some o')
          × Reaches TradeLaws.Transition o.trade_state o'.trade_state)
orders_follow_transitions_example =
    orders_follow_transitions (memory order_table) marshals detail (memory-IsSql order_table)
      (λ d o h. refl) start closed race start-IsSound

abbrev bill : Payments.Config (List ThirdPayment)
bill = record { service = record { db = waiting ∷ []; published = [] }; copies = [] }

abbrev bill_read : Payments.Config (List ThirdPayment)
bill_read = record bill { copies = waiting ∷ [] }

abbrev settled : Payments.Config (List ThirdPayment)
settled = record bill_read {
  service = (Update.update_found (memory payment_table) succeeded (some waiting) bill.service).1;
}

waiting_counted : waiting.version ≡ pos (Payments.pay_rank waiting.pay_status)
unfolding Payments.pay_rank
waiting_counted = refl

bill-IsSound :
    Payments.IsSound (memory payment_table) (memory-IsSql payment_table) (λ d p h. refl) bill
bill-IsSound = record {
  counted = λ i r there.
      let (_, same) = only-row (λ x. x.id ==ℤ i) r waiting there in rw same waiting_counted;
  traced = λ o copy. absurd copy;
}

settlement :
    Payments.Run (memory payment_table) (memory-IsSql payment_table) (λ d p h. refl) bill settled
settlement =
    Payments.step (Payments.reads {c = bill} waiting refl)
      (Payments.step (Payments.updates {c = bill_read} succeeded waiting (inl refl)) Payments.ends)

payments_follow_transitions_example :
    Payments.IsSound (memory payment_table) (memory-IsSql payment_table) (λ d p h. refl) settled
    × ((i : ℤ) (p : ThirdPayment)
        → row_of payment_table i (waiting ∷ []) ≡ some p
        → (p' : ThirdPayment) × (row_of payment_table i settled.service.db ≡ some p')
          × Reaches PaymentLaws.Transition p.pay_status p'.pay_status)
payments_follow_transitions_example =
    payments_follow_transitions (memory payment_table) (memory-IsSql payment_table) (λ d p h. refl)
      bill settled settlement bill-IsSound

found-some : {Row : Type 0} (o : Option Row) (r : Row) → row_or_not_found o ≡ ok r → o ≡ some r
found-some none r h = cc
found-some (some x) r h = cc

start-IsKeyed : IsKeyed (memory-IsSql order_table) (unpaid ∷ [])
start-IsKeyed = record {
  row_found = λ p r found.
      let (passes, same) = only-row p r unpaid (found-some (find p (unpaid ∷ [])) r found) in
      (passes, rw same unpaid_there);
}

start-Answers : Answers (memory-IsSql order_table) (unpaid ∷ [])
start-Answers = record {
  find_answers = λ p r found. (r, ap row_or_not_found found);
  exec_answers = λ q. (_, refl);
}

unpaid_by_sn : find_one_by_sn (memory order_table) "HSO1" (unpaid ∷ []) ≡ ok unpaid
unfolding find_one_by_sn new_order
unpaid_by_sn = refl

unpaid_waits : unpaid.trade_state ≡ wait_pay
unfolding new_order
unpaid_waits = refl

close_cancels_example :
    let (r, s') = close_order (memory order_table) marshals carry (ok "HSO1") start.service in
    (r ≡ ok tt)
    × (o' : HomestayOrder) × (row_of order_table unpaid.id s'.db ≡ some o')
    × (o'.trade_state ≡ cancel)
close_cancels_example =
    close_cancels (memory order_table) marshals carry (memory-IsSql order_table) start.service
      start-IsKeyed start-Answers (λ d o h. refl) "HSO1" unpaid unpaid_by_sn unpaid_waits

bill-IsCounted :
    Messages.IsCounted (memory payment_table) (memory-IsSql payment_table) (λ d p h. refl) bill
bill-IsCounted = record {
  on_record =
      λ p m. elim m [ inl same ↦ rw same waiting_counted | inr none_such ↦ absurd none_such ];
  copied = λ p m. absurd m;
}

messages_follow_changes_example :
    Messages.IsCounted (memory payment_table) (memory-IsSql payment_table) (λ d p h. refl) settled
    × (length settled.service.published
          + status_changes
              (memory payment_table)
              (memory-IsSql payment_table)
              (λ d p h. refl)
              (waiting ∷ [])
        ≤ 0
          + status_changes
              (memory payment_table)
              (memory-IsSql payment_table)
              (λ d p h. refl)
              settled.service.db)
messages_follow_changes_example =
    messages_follow_changes (memory payment_table) (memory-IsSql payment_table) (λ d p h. refl) bill
      settled settlement bill-IsCounted
