-- ===== src/Tests/Jobs.antt =====
-- The jobs and the payment message on concrete tables.
use flash_sale_system.Common.{
  ◌≡◌, ◌≢◌, refl, ◌⊎◌, ℕ, suc, ◌≤◌, ◌<◌, ◌==◌, Bool, true, false, some, List, [], ◌∷◌, String, ok,
  err, panic, Error, not_found, other,
}
use flash_sale_system.Store.{Conn}
use flash_sale_system.Store as Store
use flash_sale_system.Xerr.{new_err_msg}
use flash_sale_system.Order.{HomestayOrder, order_table, State, Task}
use flash_sale_system.Order.Trade.{find_one_by_sn}
use flash_sale_system.Payment as Payment
use flash_sale_system.Payment.{payment_table, NotifyMessage}
use flash_sale_system.Payment.Update as Update
use flash_sale_system.Payment.Update.{
  update_trade_state, judge, write_trade_state, with_notification,
}
use flash_sale_system.OrderMq.{exec_service}
use flash_sale_system.Mqueue.CloseOrder.{close_order, err_close_order}
use flash_sale_system.Mqueue.Notify.{send_loop}
use flash_sale_system.Mqueue.Laws.{close_only_unpaid, close_unread, send_wx_mini_ends}
use flash_sale_system.Order.Create.{new_order}
use flash_sale_system.Pipeline.{paid_order_missed}
use flash_sale_system.Tests.Memory.{memory, memory-IsSql}
use flash_sale_system.Tests.Orders.{orders, paid}
use flash_sale_system.Tests.Payments.{payments, succeeded, payment_succeeds}

abbrev marshals : Task → Bool
marshals task = true

abbrev carry : Error → Error
carry e = e

-- A connection whose reads fail.
abbrev broken : Conn (List HomestayOrder) HomestayOrder
broken = record (memory order_table) { find_row = λ p d. err (other "connection refused") }

order_paid : find_one_by_sn (memory order_table) "HSO2" orders.db ≡ ok paid
unfolding find_one_by_sn new_order
order_paid = refl

close_only_unpaid_example :
    close_order (memory order_table) marshals carry (ok "HSO2") orders ≡ (ok tt, orders)
close_only_unpaid_example =
    close_only_unpaid (memory order_table) marshals carry "HSO2" orders paid order_paid (λ h. cc)

order_absent : (sn : String) → find_one_by_sn (memory order_table) sn [] ≡ err not_found
unfolding find_one_by_sn
order_absent sn = refl

abbrev no_orders : State (List HomestayOrder)
no_orders = record { db = []; enqueued = [] }

read_fails : find_one_by_sn broken "HSO2" orders.db ≡ err (other "connection refused")
unfolding find_one_by_sn
read_fails = refl

close_unread_example :
    ((other "connection refused" ≡ not_found)
      × (close_order broken marshals carry (ok "HSO2") orders ≡ (err err_close_order, orders)))
    ⊎ ((other "connection refused" ≢ not_found)
        × (close_order broken marshals carry (ok "HSO2") orders ≡ (panic, orders)))
close_unread_example =
    close_unread broken marshals carry "HSO2" orders (other "connection refused") read_fails

-- The third call is the first that succeeds.
abbrev third : ℕ → Bool
third k = k == 2

three_calls : send_loop 7 third 0 0 ≡ some 3
unfolding send_loop
three_calls = refl

send_wx_mini_ends_example :
    (n : ℕ) × (send_loop 7 third 0 0 ≡ some (suc n))
    × (n ≤ 6)
    × ((i : ℕ) → i < n → third i ≡ false)
    × ((third n ≡ true) ⊎ (n ≡ 6))
send_wx_mini_ends_example = send_wx_mini_ends third

abbrev message : NotifyMessage
message = record { pay_status = Payment.success; order_sn = "PMT1" }

message_published :
    (update_trade_state (memory payment_table) succeeded payments).1.published ≡ message ∷ []
unfolding update_trade_state Update.find_one_by_sn judge write_trade_state with_notification
    Store.update_with_version Store.find_one Store.next_version
message_published = refl

paid_order_missed_example :
    exec_service (memory order_table) marshals carry message no_orders
    ≡ (err (new_err_msg "update homestay order state fail"), no_orders)
paid_order_missed_example =
    paid_order_missed (memory payment_table) (memory-IsSql payment_table) (memory order_table)
      marshals carry succeeded payments message no_orders payment_succeeds message_published refl
      (order_absent "PMT1")
