-- ===== src/Order/Handler.antt =====
-- The HTTP handlers of the order API (app/order/cmd/api/internal/handler/homestayOrder).
use flash_sale_system.Common.{Bool, Option, List, String, ℤ, Result, Error, Action}
use flash_sale_system.Store.{Conn}
use flash_sale_system.Reply.{Response}
use flash_sale_system.Http.{Parsed, JwtUserId, get_uid_from_ctx, resp_of, handle, handle_read}
use flash_sale_system.Travel.{PbHomestay}
use flash_sale_system.Order.{HomestayOrder, Task, State}
use flash_sale_system.Order.Create.{CreateHomestayOrderReq}
use flash_sale_system.Order.Api.{
  Floats, OrderDetailView, OrderListView, user_homestay_order_detail, api_order_list,
  api_create_homestay_order,
}
use flash_sale_system.Payment.Query.{PaymentDetail}

pub record UserHomestayOrderDetailReq : Type 0 where
  pub sn : String

pub record UserHomestayOrderListReq : Type 0 where
  pub last_id : ℤ
  pub page_size : ℤ
  pub trade_state : ℤ

module _ {Db : Type 0} (conn : Conn Db HomestayOrder) (carry : Error → Error) where
  unfoldable pub create_homestay_order_handler :
      (marshals : Task → Bool)
      → (homestay_detail : ℤ → Result (Option PbHomestay)) → (sn trade_code : String) → JwtUserId
      → Parsed CreateHomestayOrderReq
      → Action (State Db) (Response (Option String))
  create_homestay_order_handler marshals homestay_detail sn trade_code user p = handle p (λ req.
      api_create_homestay_order conn marshals carry homestay_detail req (get_uid_from_ctx user) sn
        trade_code)

  module _ {Float : Type 0} (floats : Floats Float) where
    unfoldable pub user_homestay_order_detail_handler :
        (payment : String → Result (Option PaymentDetail))
        → JwtUserId
        → Parsed UserHomestayOrderDetailReq
        → Db
        → Result (Response (Option (OrderDetailView Float)))
    user_homestay_order_detail_handler payment user p d = handle_read p (λ req.
        user_homestay_order_detail conn carry floats payment (get_uid_from_ctx user) req.sn d)

    unfoldable pub user_homestay_order_list_handler :
        JwtUserId
        → Parsed UserHomestayOrderListReq
        → Db
        → Result (Response (Option (List (OrderListView Float))))
    user_homestay_order_list_handler user p d = handle_read p (λ req. resp_of (
        api_order_list conn carry floats (get_uid_from_ctx user) req.last_id req.page_size
          req.trade_state d))
