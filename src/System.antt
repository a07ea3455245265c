-- ===== src/System.antt =====
-- The system of services: the order RPC behind its API (app/order), the payment RPC behind its API
-- (app/payment), order-mq (app/order/cmd/mq) and the job that closes orders (app/mqueue), on the
-- databases of the two RPCs. A step is one request, message or task, run to its end. Messages and tasks
-- are delivered late, in any order, more than once or never, and any call of a database may fail. The
-- answer of the order RPC that a payment is started with may be older than the payment.
pub mod Orders
pub mod Booking
pub mod Closing
pub mod Payments
pub mod Paying
pub mod Notices
pub mod Sound
pub mod Once
pub mod Settled
use flash_sale_system.Common.{◌≡◌, List, ◌∷◌, String, ℤ, ℕ, Option, some, Result, ok, Error, Bool}
use flash_sale_system.Store.{Conn}
use flash_sale_system.Store.Sql.{IsSql, IsCollation}
use flash_sale_system.Store.Ranked.{In}
use flash_sale_system.Store.Stamps.{IsStamped}
use flash_sale_system.Tool.{Draws, bytes, gen_sn, sn_prefix_homestay_order, sn_prefix_third_payment}
use flash_sale_system.Travel.{PbHomestay}
use flash_sale_system.Reply.{remote}
use flash_sale_system.Order as Order
use flash_sale_system.Order.{
  HomestayOrder, order_table, order_table-IsTable, Task, defer_close_homestay_order,
}
use flash_sale_system.Order.Create.{CreateHomestayOrderReq}
use flash_sale_system.Order.Query.{PbHomestayOrder, homestay_order_detail}
use flash_sale_system.Order.Api.{api_create_homestay_order}
use flash_sale_system.Order.Runs.{KeepsState}
use flash_sale_system.OrderMq.{consume}
use flash_sale_system.Mqueue.CloseOrder.{close_order}
use flash_sale_system.Payment as Payment
use flash_sale_system.Payment.{ThirdPayment, payment_table, payment_table-IsTable, NotifyMessage}
use flash_sale_system.Payment.Callback.{Transaction}
use flash_sale_system.Payment.WxPay.{Environment, WxPayReq, third_payment_wx_pay}
use flash_sale_system.Payment.Handler.{third_payment_wx_pay_callback_handler}

-- The numbers that `GenSn` makes of orders and of payments.
abbrev pub IsOrderSn : String → Type 0
IsOrderSn sn =
    (stamp : List ℕ) × (draw : Draws) × (bytes sn ≡ gen_sn sn_prefix_homestay_order stamp draw)

abbrev pub IsPaymentSn : String → Type 0
IsPaymentSn sn =
    (stamp : List ℕ) × (draw : Draws) × (bytes sn ≡ gen_sn sn_prefix_third_payment stamp draw)

-- An order's number and price, and a payment's number, its order's number and its amount.
abbrev pub order_columns : HomestayOrder → String × ℤ
order_columns o = (o.sn, o.order_total_price)

abbrev pub payment_columns : ThirdPayment → String × String × ℤ
payment_columns p = (p.sn, p.order_sn, p.pay_total)

-- What the order RPC runs with, and what the payment RPC does.
pub record OrderService (Db : Type 0) : Type 0 where
  pub conn : Conn Db HomestayOrder
  pub marshals : Task → Bool
  pub homestay_detail : ℤ → Result (Option PbHomestay)
  pub sql : IsSql order_table conn
  pub keeps_state : KeepsState sql
  pub collated : IsCollation conn.text_eq
  pub stamped : IsStamped order_table conn order_table-IsTable sql order_columns

pub record PaymentService (Db : Type 0) : Type 0 where
  pub conn : Conn Db ThirdPayment
  pub sql : IsSql payment_table conn
  pub stamped : IsStamped payment_table conn payment_table-IsTable sql payment_columns

-- The two services' states, with the answers that the payment API has had from the order RPC.
pub record System (OrderDb PayDb : Type 0) : Type 0 where
  pub orders : Order.State OrderDb
  pub payments : Payment.State PayDb
  pub answers : List (String × PbHomestayOrder)

module _ {OrderDb PayDb : Type 0} (order : OrderService OrderDb) (payment : PaymentService PayDb)
    (carry : Error → Error) where
  -- Someone books; the payment API asks for an order; a payment is started, with such an answer if any;
  -- WeChat notifies; order-mq takes a message; the job takes a task.
  pub data Step : System OrderDb PayDb → System OrderDb PayDb → Type 0 where
    books :
        {c : System OrderDb PayDb} (req : CreateHomestayOrderReq) (user_id : ℤ)
        (sn trade_code : String)
        → IsOrderSn sn
        → Step c (record c {
          orders =
              (api_create_homestay_order order.conn order.marshals carry order.homestay_detail req
                user_id sn trade_code c.orders).1;
        })
    asks :
        {c : System OrderDb PayDb} (sn : String) (o : PbHomestayOrder)
        → remote carry (homestay_order_detail order.conn sn c.orders.db) ≡ ok (some o)
        → Step c (record c { answers = (sn, o) ∷ c.answers })
    pays :
        {c : System OrderDb PayDb} (env : Environment) (req : WxPayReq)
        → IsPaymentSn env.payment_sn
        → ((sn : String) (o : PbHomestayOrder)
            → env.order_detail sn ≡ ok (some o)
            → In (sn, o) c.answers)
        → Step c
            (record c { payments = (third_payment_wx_pay payment.conn carry env req c.payments).1 })
    notifies :
        {c : System OrderDb PayDb} (client : Result (Unit {0})) (notification : Result Transaction)
        → Step c (record c {
          payments =
              (third_payment_wx_pay_callback_handler payment.conn carry client notification
                c.payments).1;
        })
    consumes :
        {c : System OrderDb PayDb} (m : NotifyMessage)
        → In m c.payments.published
        → Step c (record c { orders = (consume order.conn order.marshals carry (ok m) c.orders).1 })
    closes :
        {c : System OrderDb PayDb} (sn : String) (minutes : ℕ)
        → In (defer_close_homestay_order sn minutes) c.orders.enqueued
        → Step c
            (record c { orders = (close_order order.conn order.marshals carry (ok sn) c.orders).1 })

  pub data Run : System OrderDb PayDb → System OrderDb PayDb → Type 0 where
    ends : {c : System OrderDb PayDb} → Run c c
    step : {a b c : System OrderDb PayDb} → Step a b → Run b c → Run a c
