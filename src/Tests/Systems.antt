-- ===== src/Tests/Systems.antt =====
-- A run of the system: an order is booked, paid, announced and closed.
use flash_sale_system.Common.{
  true, ◌≡◌, refl, map, ◌⊎◌, i64, ◌+ℤ◌, ◌-ℤ◌, ◌*ℤ◌, inl, inr, ℕ, Option, some, none, List, [], ◌∷◌,
  String, ℤ, pos, Result, ok, Bool-cases, eq_iff, str_eq, if◌then◌else◌, arith,
}
use flash_sale_system.Store.{insert_row, update_with_version, find_one, next_version}
use flash_sale_system.Store.Ranked.{In}
use flash_sale_system.Tool.{bytes, gen_sn, krand, Draws}
use flash_sale_system.Order.{
  HomestayOrder, order_table, order_table-IsTable, Task, defer_close_homestay_order, wait_pay,
  cancel,
}
use flash_sale_system.Order.Query.{PbHomestayOrder, to_pb, homestay_order_detail}
use flash_sale_system.Order.Create.{
  new_order, create_homestay_order, live_days, homestay_total, food_total,
}
use flash_sale_system.Order.Trade as Trade
use flash_sale_system.Order.Trade.{
  verify_order_trade_state, change_trade_state, find_one_by_sn, update_homestay_order_trade_state,
}
use flash_sale_system.OrderMq.{consume, exec_service, get_order_trade_state_by_payment_trade_state}
use flash_sale_system.Mqueue.CloseOrder.{close_order}
use flash_sale_system.Order.Api.{api_create_homestay_order}
use flash_sale_system.Reply.{remote, logger_interceptor}
use flash_sale_system.Payment.{
  ThirdPayment, payment_table, payment_table-IsTable, NotifyMessage, success,
}
use flash_sale_system.Payment.Update as Update
use flash_sale_system.Payment.Update.{
  create_payment, new_payment, update_trade_state, judge, write_trade_state, with_notification,
}
use flash_sale_system.Payment.Query as PaymentQuery
use flash_sale_system.Payment.Query.{get_payment_by_sn}
use flash_sale_system.Payment.Handler.{third_payment_wx_pay_callback_handler}
use flash_sale_system.Payment.WxPay.{
  Environment, WxPayReq, third_payment_wx_pay, get_pay_homestay_price, create_wx_pre_pay_order,
}
use flash_sale_system.Payment.Callback.{
  Transaction, third_payment_wx_pay_callback, verify_and_update_state,
  get_pay_status_by_wx_pay_trade_state,
}
use flash_sale_system.System.{
  System, OrderService, PaymentService, order_columns, payment_columns, IsOrderSn, IsPaymentSn, Run,
  ends, step, books, asks, pays, notifies, consumes, closes,
}
use flash_sale_system.System.Sound.{IsSound, payments_match_orders, orders_never_paid}
use flash_sale_system.Tests.Memory.{
  any_case, serial, any_case-IsCollation, serial-IsSql, serial-IsStamped,
}
use flash_sale_system.Tests.Orders.{loft, two_nights, detail, marshals, carry}
use flash_sale_system.Tests.Payments.{notice}

abbrev order : OrderService (List HomestayOrder)
order = record {
  conn = serial order_table;
  marshals = marshals;
  homestay_detail = detail;
  sql = serial-IsSql order_table;
  keeps_state = λ d o h. refl;
  collated = any_case-IsCollation;
  stamped = serial-IsStamped order_table order_table-IsTable order_columns;
}

abbrev pub payment : PaymentService (List ThirdPayment)
payment = record {
  conn = serial payment_table;
  sql = serial-IsSql payment_table;
  stamped = serial-IsStamped payment_table payment_table-IsTable payment_columns;
}

abbrev Shop : Type 0
Shop = System (List HomestayOrder) (List ThirdPayment)

abbrev empty : Shop
empty = record {
  orders = record { db = []; enqueued = [] };
  payments = record { db = []; published = [] };
  answers = [];
}

empty-IsSound : IsSound order payment carry refl empty
empty-IsSound = record {
  orderly = record {
    one_stamp = λ i k l m. absurd m;
    numbered = λ i k m. absurd m;
    unpaid = λ o m. absurd m;
    to_close = λ task m. absurd m;
  };
  backed = record {
    one_stamp = λ i k l m. absurd m;
    numbered = λ i k m. absurd m;
    backed = λ i k m. absurd m;
    announced = λ msg m. absurd m;
  };
  known = λ sn o m. absurd m;
}

abbrev order_sn : String
order_sn = "HSO2024010112000011111111"

abbrev payment_sn : String
payment_sn = "PMT2024010112000511111111"

abbrev ones : Draws
ones k max = some 1

order_sn-IsOrderSn : IsOrderSn order_sn
unfolding gen_sn krand
order_sn-IsOrderSn = (bytes "20240101120000", ones, refl)

payment_sn-IsPaymentSn : IsPaymentSn payment_sn
unfolding gen_sn krand
payment_sn-IsPaymentSn = (bytes "20240101120005", ones, refl)

-- The order of two nights is booked, and the payment API asks for it.
abbrev booked : Shop
booked = record empty {
  orders =
      (api_create_homestay_order order.conn marshals carry detail two_nights (pos 7) order_sn "c0de"
        empty.orders).1;
}

abbrev booked_order : PbHomestayOrder
booked_order = to_pb (record (new_order loft two_nights order_sn "c0de") { id = pos 1 })

-- The payer gives the order's number in small letters, and the order is found all the same.
abbrev typed_sn : String
typed_sn = "hso2024010112000011111111"

booked_answer :
    remote carry (homestay_order_detail order.conn typed_sn booked.orders.db)
    ≡ ok (some booked_order)
unfolding remote logger_interceptor homestay_order_detail find_one_by_sn api_create_homestay_order
    create_homestay_order insert_row new_order
booked_answer = refl

abbrev asked : Shop
asked = record booked { answers = (typed_sn, booked_order) ∷ booked.answers }

-- It is paid, with the answer that was had.
abbrev answer_of : String → Result (Option PbHomestayOrder)
answer_of sn = ok (if str_eq sn typed_sn then some booked_order else none)

abbrev at_wechat : Environment
at_wechat = record {
  user_id = pos 7;
  order_detail = answer_of;
  user_auth = λ i. ok (some (record { id = pos 2; auth_key = "openid" }));
  payment_sn = payment_sn;
  zero_time = pos 0;
  client = ok tt;
  prepay = λ req. ok (record {
    nonce_str = "";
    pay_sign = "";
    package_text = "";
    time_stamp = "";
    sign_type = "";
  });
}

abbrev pay_order : WxPayReq
pay_order = record { order_sn = typed_sn; service_type = "homestayOrder" }

answers_had :
    (sn : String) (o : PbHomestayOrder)
    → at_wechat.order_detail sn ≡ ok (some o)
    → In (sn, o) asked.answers
answers_had sn o h = elim (Bool-cases (str_eq sn typed_sn)) [
  | inl same ↦
      let named : sn ≡ typed_sn = ground (arith, eq_iff sn typed_sn) in
      let its : o ≡ booked_order = ground (arith) in inl (rw (named, its) refl)
  | inr another ↦ absurd (ground arith)
]

abbrev started : Shop
started = record asked {
  payments = (third_payment_wx_pay payment.conn carry at_wechat pay_order asked.payments).1;
}

-- WeChat notifies of its success, and order-mq takes the message.
abbrev success_notice : Transaction
success_notice = record notice { out_trade_no = payment_sn }

abbrev noticed : Shop
noticed = record started {
  payments =
      (third_payment_wx_pay_callback_handler payment.conn carry (ok tt) (ok success_notice)
        started.payments).1;
}

abbrev message : NotifyMessage
message = record { pay_status = success; order_sn = payment_sn }

message_published : noticed.payments.published ≡ message ∷ []
unfolding third_payment_wx_pay get_pay_homestay_price create_wx_pre_pay_order create_payment
    insert_row new_payment remote logger_interceptor third_payment_wx_pay_callback_handler
    third_payment_wx_pay_callback verify_and_update_state get_payment_by_sn Update.find_one_by_sn
    PaymentQuery.to_pb get_pay_status_by_wx_pay_trade_state update_trade_state judge
    write_trade_state with_notification update_with_version find_one next_version new_order to_pb
    api_create_homestay_order create_homestay_order live_days homestay_total food_total i64 ◌+ℤ◌
    ◌-ℤ◌ ◌*ℤ◌
message_published = refl

abbrev consumed : Shop
consumed = record noticed {
  orders = (consume order.conn marshals carry (ok message) noticed.orders).1;
}

-- Half an hour later the job closes the order that was paid.
abbrev closed : Shop
closed = record consumed {
  orders = (close_order order.conn marshals carry (ok order_sn) consumed.orders).1;
}

to_close : booked.orders.enqueued ≡ defer_close_homestay_order order_sn 30 ∷ []
unfolding api_create_homestay_order create_homestay_order insert_row
to_close = refl

consumed_orders : consumed.orders ≡ booked.orders
unfolding consume exec_service update_homestay_order_trade_state Trade.find_one_by_sn
    api_create_homestay_order create_homestay_order insert_row
    get_order_trade_state_by_payment_trade_state new_order remote logger_interceptor
consumed_orders = refl

to_close_still : In (defer_close_homestay_order order_sn 30) consumed.orders.enqueued
to_close_still = rw (consumed_orders, to_close) (inl refl)

one_order : Run order payment carry empty closed
one_order = step (books two_nights (pos 7) order_sn "c0de" order_sn-IsOrderSn) (
    step (asks typed_sn booked_order booked_answer) (
      step (pays at_wechat pay_order payment_sn-IsPaymentSn answers_had) (
        step (notifies (ok tt) (ok success_notice)) (
          step (consumes message (rw message_published (inl refl)))
            (step (closes order_sn 30 to_close_still) ends)))))

-- The payment is on record as a success, and the order is cancelled.
paid_and_cancelled :
    (map {B = String × ℤ × ℤ} (λ p. (p.order_sn, p.pay_total, p.pay_status)) closed.payments.db
      ≡ (typed_sn, pos 44000, success) ∷ [])
    × (map {B = String × ℤ × ℤ} (λ o. (o.sn, o.order_total_price, o.trade_state)) closed.orders.db
        ≡ (order_sn, pos 44000, cancel) ∷ [])
unfolding third_payment_wx_pay get_pay_homestay_price create_wx_pre_pay_order create_payment
    insert_row new_payment remote logger_interceptor third_payment_wx_pay_callback_handler
    third_payment_wx_pay_callback verify_and_update_state get_payment_by_sn Update.find_one_by_sn
    PaymentQuery.to_pb get_pay_status_by_wx_pay_trade_state update_trade_state judge
    write_trade_state with_notification update_with_version find_one next_version new_order to_pb
    api_create_homestay_order create_homestay_order live_days homestay_total food_total i64 ◌+ℤ◌
    ◌-ℤ◌ ◌*ℤ◌ consume exec_service update_homestay_order_trade_state Trade.find_one_by_sn
    close_order get_order_trade_state_by_payment_trade_state homestay_order_detail
    verify_order_trade_state change_trade_state
paid_and_cancelled = (refl, refl)

payments_match_orders_example :
    ((p : ThirdPayment)
      → In p closed.payments.db
      → (o : HomestayOrder) × In o closed.orders.db
        × (any_case o.sn p.order_sn ≡ true)
        × (o.order_total_price ≡ p.pay_total))
    × ((o : HomestayOrder)
        → In o empty.orders.db
        → (o' : HomestayOrder) × In o' closed.orders.db
          × (o'.id ≡ o.id)
          × (o'.sn ≡ o.sn)
          × (o'.order_total_price ≡ o.order_total_price))
payments_match_orders_example =
    payments_match_orders order payment carry refl empty closed one_order empty-IsSound

orders_never_paid_example :
    ((o : HomestayOrder)
      → In o closed.orders.db
      → (o.trade_state ≡ wait_pay) ⊎ (o.trade_state ≡ cancel))
    × ((task : Task)
        → In task closed.orders.enqueued
        → (sn : String) × (minutes : ℕ) × (task ≡ defer_close_homestay_order sn minutes))
orders_never_paid_example =
    orders_never_paid order payment carry refl empty closed one_order empty-IsSound
