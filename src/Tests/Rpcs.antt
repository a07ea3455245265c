-- ===== src/Tests/Rpcs.antt =====
-- The four RPC services on tables in memory.
use flash_sale_system.Common.{◌≡◌, refl, true, List, [], pos, ok, err, not_found, arith}
use flash_sale_system.Store.{insert_row, find_one}
use flash_sale_system.Xerr.{new_err_msg}
use flash_sale_system.Travel.{Homestay, homestay_table, no_homestay}
use flash_sale_system.Order.{HomestayOrder, order_table, State}
use flash_sale_system.Order.Create.{new_order, create_homestay_order}
use flash_sale_system.Order.Api.{api_create_homestay_order}
use flash_sale_system.Payment as Payment
use flash_sale_system.Payment.{payment_table, ThirdPayment}
use flash_sale_system.Rpc.{
  OrderRpc, PaymentRpc, TravelRpc, UsercenterRpc, order_server, payment_server, travel_server,
  usercenter_server,
}
use flash_sale_system.Rpc.Missing.{detail_at, missing_homestay_booked}
use flash_sale_system.Tests.Memory.{memory, next_id}
use flash_sale_system.Tests.Orders.{two_nights, detail, marshals, orders}
use flash_sale_system.Tests.Users.{Db, store, md5, jwt, carry}

abbrev order_service : OrderRpc (State (List HomestayOrder))
order_service = order_server (memory order_table) marshals detail (λ s. "HSO3") (λ s. "c0de")

abbrev payment_service : PaymentRpc (Payment.State (List ThirdPayment))
payment_service = payment_server (memory payment_table) (pos 0) (λ text n. true) (λ s. "PMT3")

abbrev travel_service : TravelRpc (List Homestay)
travel_service = travel_server (memory homestay_table)

abbrev user_service : UsercenterRpc Db
user_service = usercenter_server store md5 (λ d. "name") (λ d. jwt)

abbrev no_homestays : List Homestay
no_homestays = []

homestay_missing :
    find_one homestay_table (memory homestay_table) two_nights.homestay_id no_homestays
    ≡ err not_found
unfolding find_one
homestay_missing = refl

row_taken :
    (insert_row order_table
      (memory order_table)
      (new_order no_homestay two_nights "HSO3" "c0de")
      orders.db).0
    ≡ ok (record { last_insert_id = next_id; rows_affected = pos 1 })
unfolding insert_row
row_taken = refl

missing_homestay_booked_example :
    (api_create_homestay_order
        (memory order_table)
        marshals
        carry
        (detail_at (memory homestay_table) (memory order_table) marshals carry no_homestays)
        two_nights
        (pos 7)
        "HSO3"
        "c0de"
        orders
      ≡ (err (new_err_msg "homestay no exists"), orders))
    × ((create_homestay_order
          (memory order_table)
          marshals
          (detail_at (memory homestay_table) (memory order_table) marshals carry no_homestays)
          two_nights
          "HSO3"
          "c0de"
          orders).0
        ≡ ok "HSO3")
    × ((create_homestay_order
          (memory order_table)
          marshals
          (detail_at (memory homestay_table) (memory order_table) marshals carry no_homestays)
          two_nights
          "HSO3"
          "c0de"
          orders).1.db
        ≡ (insert_row order_table
            (memory order_table)
            (new_order no_homestay two_nights "HSO3" "c0de")
            orders.db).1)
    × ((new_order no_homestay two_nights "HSO3" "c0de").order_total_price ≡ pos 0)
missing_homestay_booked_example =
    missing_homestay_booked (memory homestay_table) (memory order_table) marshals carry two_nights
      (pos 7) "HSO3" "c0de" no_homestays orders
      (record { last_insert_id = next_id; rows_affected = pos 1 }) homestay_missing (omega arith)
      row_taken
