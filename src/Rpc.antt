-- ===== src/Rpc.antt =====
-- The gRPC interfaces of the four services: the Go interfaces of app/*/cmd/rpc/{order,payment,travel,
-- usercenter}, the servers of app/*/cmd/rpc/internal/server that implement them by the logic, and the
-- clients that call them. What lies between a client and a server is gRPC, `carry`.
pub mod Missing
use flash_sale_system.Common.{Bool, Option, List, String, ℤ, Result, Error, Action}
use flash_sale_system.Store.{Conn}
use flash_sale_system.Reply.{call}
use flash_sale_system.Travel.{Homestay, PbHomestay}
use flash_sale_system.Travel as Travel
use flash_sale_system.Order as Order
use flash_sale_system.Order.{HomestayOrder, Task}
use flash_sale_system.Order.Create.{CreateHomestayOrderReq}
use flash_sale_system.Order.Create as Create
use flash_sale_system.Order.Query.{PbHomestayOrder, UserHomestayOrderListReq}
use flash_sale_system.Order.Query as OrderQuery
use flash_sale_system.Order.Trade as Trade
use flash_sale_system.Payment as Payment
use flash_sale_system.Payment.{ThirdPayment}
use flash_sale_system.Payment.Update as Update
use flash_sale_system.Payment.Query.{PaymentDetail}
use flash_sale_system.Payment.Query as PaymentQuery
use flash_sale_system.User as User
use flash_sale_system.User.Token.{Jwt, TokenResp}
use flash_sale_system.User.Token as Token
use flash_sale_system.User.Login as Login
use flash_sale_system.User.Register as Register
use flash_sale_system.User.Info.{PbUser, PbUserAuth}
use flash_sale_system.User.Info as Info

-- A call of logic that reads only.
abbrev pub reading : {S D A : Type 0} → (S → D) → (D → Result A) → Action S A
reading db m s = (m (db s), s)

-- `Order` of app/order/cmd/rpc/order/order.go
pub record OrderRpc (S : Type 0) : Type 0 where
  pub create_homestay_order : CreateHomestayOrderReq → Action S String
  pub homestay_order_detail : String → Action S (Option PbHomestayOrder)
  pub update_homestay_order_trade_state :
      Trade.UpdateTradeStateReq → Action S Trade.UpdateTradeStateResp
  pub user_homestay_order_list : UserHomestayOrderListReq → Action S (List PbHomestayOrder)

-- `OrderServer`. The order number and the trade code of a call are what `GenSn` and `Krand` make then.
unfoldable pub order_server :
    {Db : Type 0}
    → Conn Db HomestayOrder
    → (Task → Bool)
    → (homestay_detail : ℤ → Result (Option PbHomestay)) → (sn trade_code : Order.State Db → String)
    → OrderRpc (Order.State Db)
order_server conn marshals homestay_detail sn trade_code = record {
  create_homestay_order = λ req s.
      Create.create_homestay_order conn marshals homestay_detail req (sn s) (trade_code s) s;
  homestay_order_detail =
      λ order_sn. reading (λ s. s.db) (OrderQuery.homestay_order_detail conn order_sn);
  update_homestay_order_trade_state =
      λ req. Trade.update_homestay_order_trade_state conn marshals req;
  user_homestay_order_list =
      λ req. reading (λ s. s.db) (OrderQuery.user_homestay_order_list conn req);
}

-- `NewOrder`
unfoldable pub new_order_client : {S : Type 0} → (Error → Error) → OrderRpc S → OrderRpc S
new_order_client carry server = record {
  create_homestay_order = λ req. call carry (server.create_homestay_order req);
  homestay_order_detail = λ sn. call carry (server.homestay_order_detail sn);
  update_homestay_order_trade_state =
      λ req. call carry (server.update_homestay_order_trade_state req);
  user_homestay_order_list = λ req. call carry (server.user_homestay_order_list req);
}

-- `Payment` of app/payment/cmd/rpc/payment/payment.go
pub record PaymentRpc (S : Type 0) : Type 0 where
  pub create_payment : Update.CreatePaymentReq → Action S String
  pub get_payment_by_sn : String → Action S (Option PaymentDetail)
  pub update_trade_state : Update.UpdateTradeStateReq → Action S (Unit {0})
  pub get_payment_success_refund_by_order_sn : String → Action S (Option PaymentDetail)

unfoldable pub payment_server :
    {Db : Type 0}
    → Conn Db ThirdPayment
    → (zero_time : ℤ) → (text_eq_number : String → ℤ → Bool) → (sn : Payment.State Db → String)
    → PaymentRpc (Payment.State Db)
payment_server conn zero_time text_eq_number sn = record {
  create_payment = λ req s. Update.create_payment conn zero_time req (sn s) s;
  get_payment_by_sn =
      λ payment_sn. reading (λ s. s.db) (PaymentQuery.get_payment_by_sn conn payment_sn);
  update_trade_state = λ req. Update.update_trade_state conn req;
  get_payment_success_refund_by_order_sn = λ order_sn.
      reading (λ s. s.db)
        (PaymentQuery.get_payment_success_refund_by_order_sn conn text_eq_number order_sn);
}

-- `NewPayment`
unfoldable pub new_payment_client : {S : Type 0} → (Error → Error) → PaymentRpc S → PaymentRpc S
new_payment_client carry server = record {
  create_payment = λ req. call carry (server.create_payment req);
  get_payment_by_sn = λ sn. call carry (server.get_payment_by_sn sn);
  update_trade_state = λ req. call carry (server.update_trade_state req);
  get_payment_success_refund_by_order_sn =
      λ order_sn. call carry (server.get_payment_success_refund_by_order_sn order_sn);
}

-- `Travel` of app/travel/cmd/rpc/travel/travel.go
pub record TravelRpc (S : Type 0) : Type 0 where
  pub homestay_detail : ℤ → Action S (Option PbHomestay)

unfoldable pub travel_server : {Db : Type 0} → Conn Db Homestay → TravelRpc Db
travel_server conn = record {
  homestay_detail = λ i. reading (λ d. d) (Travel.homestay_detail conn i);
}

-- `NewTravel`
unfoldable pub new_travel_client : {S : Type 0} → (Error → Error) → TravelRpc S → TravelRpc S
new_travel_client carry server = record {
  homestay_detail = λ i. call carry (server.homestay_detail i);
}

-- `Usercenter` of app/usercenter/cmd/rpc/usercenter/usercenter.go
pub record UsercenterRpc (S : Type 0) : Type 0 where
  pub login : Login.LoginReq → Action S TokenResp
  pub register : Register.RegisterReq → Action S TokenResp
  pub get_user_info : ℤ → Action S (Option PbUser)
  pub get_user_auth_by_auth_key : (auth_key auth_type : String) → Action S (Option PbUserAuth)
  pub get_user_auth_by_user_id : ℤ → String → Action S (Option PbUserAuth)
  pub generate_token : ℤ → Action S TokenResp

unfoldable pub usercenter_server :
    {Db : Type 0}
    → User.Store Db
    → (md5 : String → String) → (random_name : Db → String) → (jwt : Db → Jwt) → UsercenterRpc Db
usercenter_server store md5 random_name jwt = record {
  login = λ req d. (Login.login store.users md5 (jwt d) req d, d);
  register = λ req d. Register.register store md5 (random_name d) (jwt d) req d;
  get_user_info = λ i. reading (λ d. d) (Info.get_user_info store.users i);
  get_user_auth_by_auth_key = λ auth_key auth_type.
      reading (λ d. d) (Info.get_user_auth_by_auth_key store.auths auth_key auth_type);
  get_user_auth_by_user_id = λ user_id auth_type.
      reading (λ d. d) (Info.get_user_auth_by_user_id store.auths user_id auth_type);
  generate_token = λ user_id d. (Token.generate_token (jwt d) user_id, d);
}

-- `NewUsercenter`
unfoldable pub new_usercenter_client :
    {S : Type 0} → (Error → Error) → UsercenterRpc S → UsercenterRpc S
new_usercenter_client carry server = record {
  login = λ req. call carry (server.login req);
  register = λ req. call carry (server.register req);
  get_user_info = λ i. call carry (server.get_user_info i);
  get_user_auth_by_auth_key =
      λ auth_key auth_type. call carry (server.get_user_auth_by_auth_key auth_key auth_type);
  get_user_auth_by_user_id =
      λ user_id auth_type. call carry (server.get_user_auth_by_user_id user_id auth_type);
  generate_token = λ user_id. call carry (server.generate_token user_id);
}
