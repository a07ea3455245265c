-- ===== src/Tests/Orders.antt =====
-- The order service on a table of two orders.
use flash_sale_system.Common.{
  ◌≡◌, ◌≢◌, refl, ◌⊎◌, Bool, true, Option, some, List, [], ◌∷◌, ◌++◌, String, ℤ, pos, ◌<ℤ◌, ◌+◌,
  ◌*◌, ◌+ℤ◌, ◌-ℤ◌, ◌*ℤ◌, i64, Result, ok, err, Error, arith, if◌then◌else◌, ◌↔◌,
}
use flash_sale_system.Order.Query.{to_pb, homestay_order_detail}
use flash_sale_system.Order.Api.{Floats, OrderDetailView, detail_view, user_homestay_order_detail}
use flash_sale_system.Order.ApiLaws.{shown_order_own, user_homestay_order_detail-panic}
use flash_sale_system.Tests.Memory.{next_id}
use flash_sale_system.Payment.Query.{PaymentDetail}
use flash_sale_system.Reply.{remote, logger_interceptor}
use flash_sale_system.Common.{none, not_found, panic}
use flash_sale_system.Travel.{PbHomestay}
use flash_sale_system.Order.{
  HomestayOrder, order_table, State, Task, wait_pay, wait_use, cancel, defer_close_homestay_order,
}
use flash_sale_system.Order.Trade.{
  UpdateTradeStateReq, update_resp, empty_resp, find_one_by_sn, verify_order_trade_state,
  change_trade_state, update_homestay_order_trade_state,
}
use flash_sale_system.Order.TradeLaws.{Transition, verify-Transition, update_without_effect}
use flash_sale_system.Order.TradeEffect.{IsChanged, update_effect}
use flash_sale_system.Order.Create.{
  CreateHomestayOrderReq, close_order_time_minutes, new_order, live_days, homestay_total,
  food_total, create_homestay_order,
}
use flash_sale_system.Order.CreateLaws.{short_stay_free, new_order-total, create_effect, inserted}
use flash_sale_system.Store.{next_version, update_with_version, find_one, insert_row}
use flash_sale_system.Tests.Memory.{memory, memory-IsSql}

abbrev pub loft : PbHomestay
loft = record {
  id = pos 5;
  title = "Loft";
  sub_title = "";
  banner = "a.png,b.png";
  info = "";
  people_num = pos 2;
  homestay_business_id = pos 1;
  user_id = pos 8;
  row_state = pos 1;
  row_type = pos 0;
  food_info = "";
  food_price = pos 1000;
  homestay_price = pos 20000;
  market_homestay_price = pos 30000;
}

abbrev pub two_nights : CreateHomestayOrderReq
two_nights = record {
  homestay_id = pos 5;
  is_food = true;
  live_start_time = pos 1700000000;
  live_end_time = pos 1700172800;
  user_id = pos 7;
  live_people_num = pos 2;
  remark = "";
}

abbrev evening : CreateHomestayOrderReq
evening = record two_nights { live_end_time = pos 1700010000 }

abbrev pub detail : ℤ → Result (Option PbHomestay)
detail i = ok (some loft)

abbrev pub marshals : Task → Bool
marshals task = true

-- An order of two nights with meals, waiting for its payment under id 3, and one that was paid.
abbrev pub unpaid : HomestayOrder
unpaid = record (new_order loft two_nights "HSO1" "c0de") { id = pos 3 }

abbrev pub paid : HomestayOrder
paid = record unpaid { id = pos 4; sn = "HSO2"; trade_state = wait_use }

abbrev pub orders : State (List HomestayOrder)
orders = record { db = unpaid ∷ paid ∷ []; enqueued = [] }

abbrev pay : UpdateTradeStateReq
pay = record { sn = "HSO1"; trade_state = wait_use }

abbrev pay_again : UpdateTradeStateReq
pay_again = record { sn = "HSO2"; trade_state = wait_use }

abbrev cancel_paid : UpdateTradeStateReq
cancel_paid = record { sn = "HSO2"; trade_state = cancel }

-- Two nights at 200 yuan, and two meals of 10 yuan each night.
unpaid_price : unpaid.order_total_price ≡ pos 44000
unfolding new_order live_days homestay_total food_total i64 ◌+ℤ◌ ◌-ℤ◌ ◌*ℤ◌
unpaid_price = refl

verify-Transition_example :
    (verify_order_trade_state wait_use wait_pay ≡ ok tt) ↔ Transition wait_pay wait_use
verify-Transition_example = verify-Transition wait_use wait_pay (omega arith, omega arith)

unpaid_found : find_one_by_sn (memory order_table) "HSO1" orders.db ≡ ok unpaid
unfolding find_one_by_sn new_order
unpaid_found = refl

paid_found : find_one_by_sn (memory order_table) "HSO2" orders.db ≡ ok paid
unfolding find_one_by_sn new_order
paid_found = refl

pay_succeeds :
    (update_homestay_order_trade_state (memory order_table) marshals pay orders).0
    ≡ ok (update_resp (next_version order_table (record unpaid { trade_state = wait_use })))
unfolding update_homestay_order_trade_state change_trade_state find_one_by_sn new_order
    update_with_version find_one next_version verify_order_trade_state
pay_succeeds = refl

update_effect_example :
    (o : HomestayOrder) × (find_one_by_sn (memory order_table) "HSO1" orders.db ≡ ok o)
    × ((o.trade_state ≡ wait_use)
          × ((update_homestay_order_trade_state (memory order_table) marshals pay orders).1
              ≡ orders)
        ⊎ IsChanged
            (memory order_table)
            marshals
            (memory-IsSql order_table)
            o
            wait_use
            orders
            (update_homestay_order_trade_state (memory order_table) marshals pay orders).1)
update_effect_example =
    update_effect (memory order_table) marshals (memory-IsSql order_table) pay orders
      (update_resp (next_version order_table (record unpaid { trade_state = wait_use })))
      (omega arith, omega arith) pay_succeeds

update_without_effect_example :
    ((paid.trade_state ≡ cancel)
      → update_homestay_order_trade_state (memory order_table) marshals cancel_paid orders
        ≡ (ok empty_resp, orders))
    × (paid.trade_state ≢ cancel
        → ¬ Transition paid.trade_state cancel
        → (e : Error) × (update_homestay_order_trade_state
              (memory order_table)
              marshals
              cancel_paid
              orders
            ≡ (err e, orders)))
update_without_effect_example =
    update_without_effect (memory order_table) marshals cancel_paid paid orders
      (omega arith, omega arith) paid_found

evening_short : pos 1700010000 <ℤ pos 1700000000 +ℤ pos 86400
unfolding ◌+ℤ◌
evening_short = omega arith

evening_there : detail evening.homestay_id ≡ ok (some loft)
evening_there = refl

evening_inserted :
    (insert_row order_table (memory order_table) (new_order loft evening "HSO3" "c0de") orders.db).0
    ≡ ok (record { last_insert_id = next_id; rows_affected = pos 1 })
unfolding insert_row
evening_inserted = refl

short_stay_free_example :
    let (r, s') =
      create_homestay_order (memory order_table) marshals detail evening "HSO3" "c0de" orders in
    (r ≡ ok "HSO3")
    × (s'.db
        ≡ orders.db
          ++ inserted
              (memory order_table)
              marshals
              detail
              (memory-IsSql order_table)
              (new_order loft evening "HSO3" "c0de")
              orders.db
            ∷ [])
    × ((new_order loft evening "HSO3" "c0de").order_total_price ≡ pos 0)
short_stay_free_example =
    short_stay_free (memory order_table) marshals detail (memory-IsSql order_table) evening "HSO3"
      "c0de" orders loft (record { last_insert_id = next_id; rows_affected = pos 1 }) (omega arith)
      evening_short evening_there evening_inserted

two_nights_days : live_days two_nights.live_start_time two_nights.live_end_time ≡ 2
unfolding live_days ◌-ℤ◌
two_nights_days = refl

new_order-total_example :
    let days = live_days two_nights.live_start_time two_nights.live_end_time in
    (new_order loft two_nights "HSO1" "c0de").order_total_price
    ≡ pos (20000 * days + (if true then 1000 * 2 * days else 0))
new_order-total_example =
    new_order-total loft two_nights "HSO1" "c0de" 20000 1000 2 refl refl refl
      (omega (arith, two_nights_days))

abbrev new_sn : String
new_sn = "HSO3"

create_succeeds :
    (create_homestay_order (memory order_table) marshals detail two_nights "HSO3" "c0de" orders).0
    ≡ ok "HSO3"
unfolding create_homestay_order insert_row
create_succeeds = refl

create_effect_example :
    let s' =
      (create_homestay_order
        (memory order_table)
        marshals
        detail
        two_nights
        "HSO3"
        "c0de"
        orders).1 in
    (h : PbHomestay) × (detail two_nights.homestay_id ≡ ok (some h))
    × (two_nights.live_start_time <ℤ two_nights.live_end_time)
    × (new_sn ≡ "HSO3")
    × (s'.db
        ≡ orders.db
          ++ inserted
              (memory order_table)
              marshals
              detail
              (memory-IsSql order_table)
              (new_order h two_nights "HSO3" "c0de")
              orders.db
            ∷ [])
    × (s'.enqueued
        ≡ orders.enqueued
          ++ (if marshals (defer_close_homestay_order "HSO3" close_order_time_minutes)
              then defer_close_homestay_order "HSO3" close_order_time_minutes ∷ []
              else []))
create_effect_example =
    create_effect (memory order_table) marshals detail (memory-IsSql order_table) two_nights "HSO3"
      "c0de" orders "HSO3" create_succeeds

-- The paid order as its user is shown it, with prices left in fen and no payment on record.
abbrev pub same_floats : Floats ℤ
same_floats = record { fen2yuan = λ fen. fen; from_int64 = λ n. n }

abbrev shown : OrderDetailView ℤ
shown = detail_view same_floats (to_pb paid)

abbrev no_payments : String → Result (Option PaymentDetail)
no_payments sn = ok none

abbrev lost : String → Result (Option PaymentDetail)
lost sn = err not_found

abbrev pub carry : Error → Error
carry e = e

paid_shown :
    user_homestay_order_detail
      (memory order_table)
      carry
      same_floats
      no_payments
      (pos 7)
      "HSO2"
      orders.db
    ≡ ok (some shown)
unfolding user_homestay_order_detail homestay_order_detail find_one_by_sn remote logger_interceptor
    detail_view to_pb new_order
paid_shown = refl

shown_order_own_example :
    (o : HomestayOrder) × (find_one_by_sn (memory order_table) "HSO2" orders.db ≡ ok o)
    × (o.user_id ≡ pos 7)
    × (shown.sn ≡ o.sn)
shown_order_own_example =
    shown_order_own (memory order_table) carry same_floats no_payments (pos 7) "HSO2" orders.db
      shown (λ h. cc) paid_shown

user_homestay_order_detail-panic_example :
    (user_homestay_order_detail
        (memory order_table)
        carry
        {Float = ℤ}
        same_floats
        lost
        (pos 7)
        "HSO2"
        orders.db
      ≡ panic)
    ↔ ((o : HomestayOrder) × ((find_one_by_sn (memory order_table) "HSO2" orders.db ≡ ok o)
          × (o.user_id ≡ pos 7)
          × (o.trade_state ≢ cancel)
          × (o.trade_state ≢ wait_pay)
          × (((e : Error) × (lost o.sn ≡ err e)) ⊎ (lost o.sn ≡ panic))))
user_homestay_order_detail-panic_example =
    user_homestay_order_detail-panic (memory order_table) carry same_floats lost (pos 7) "HSO2"
      orders.db
