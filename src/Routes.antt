-- ===== src/Routes.antt =====
-- The routes of the four HTTP APIs (app/*/cmd/api/internal/handler/routes.go). go-zero's server, which
-- finds a request's handler and checks its token, is a parameter.
pub mod Guard
pub mod OrderApi
pub mod SignedIn
use flash_sale_system.Common.{
  ◌≡◌, ◌⊎◌, inl, inr, Bool, true, false, Bool-cases, Option, some, none, List, [], ◌∷◌, ◌++◌, map,
  String, if◌then◌else◌, append, arith,
}
use flash_sale_system.Http.{JwtUserId, no_number, number}
use flash_sale_system.Store.Ranked.{In}
use flash_sale_system.Store.Stamps.{In-append, In-map}
use flash_sale_system.User.Token.{Claims}

pub data HttpMethod : Type 0 where
  method_get method_post : HttpMethod

-- `rest.Route`, and the routes of one `AddRoutes` with its options `WithJwt` and `WithPrefix`. All
-- groups with `WithJwt` name the same secret.
pub record Route (Handler : Type 0) : Type 0 where
  pub method : HttpMethod
  pub path : String
  pub handler : Handler

pub record RouteGroup (Handler : Type 0) : Type 0 where
  pub routes : List (Route Handler)
  pub with_jwt : Bool
  pub with_prefix : String

abbrev post : {Handler : Type 0} → String → Handler → Route Handler
post path handler = record { method = method_post; path = path; handler = handler }

-- The group of the health check, which every API has.
abbrev pub health_group : {Handler : Type 0} → Handler → RouteGroup Handler
health_group handler = record {
  routes = record { method = method_get; path = "/healthz"; handler = handler } ∷ [];
  with_jwt = false;
  with_prefix = "";
}

pub data UserHandler : Type 0 where
  user_health login register detail wx_mini_auth : UserHandler

unfoldable pub user_routes : List (RouteGroup UserHandler)
user_routes =
    health_group user_health
    ∷ record {
      routes = post "/user/login" login ∷ post "/user/register" register ∷ [];
      with_jwt = false;
      with_prefix = "/usercenter/v1";
    }
    ∷ record {
      routes = post "/user/detail" detail ∷ post "/user/wxMiniAuth" wx_mini_auth ∷ [];
      with_jwt = true;
      with_prefix = "/usercenter/v1";
    }
    ∷ []

pub data OrderHandler : Type 0 where
  order_health create_homestay_order user_homestay_order_detail user_homestay_order_list :
      OrderHandler

unfoldable pub order_routes : List (RouteGroup OrderHandler)
order_routes =
    health_group order_health
    ∷ record {
      routes =
          post "/homestayOrder/createHomestayOrder" create_homestay_order
          ∷ post "/homestayOrder/userHomestayOrderDetail" user_homestay_order_detail
          ∷ post "/homestayOrder/userHomestayOrderList" user_homestay_order_list
          ∷ [];
      with_jwt = true;
      with_prefix = "/order/v1";
    }
    ∷ []

pub data PaymentHandler : Type 0 where
  payment_health third_payment_wx_pay_callback third_payment_wx_pay : PaymentHandler

unfoldable pub payment_routes : List (RouteGroup PaymentHandler)
payment_routes =
    health_group payment_health
    ∷ record {
      routes = post "/thirdPayment/thirdPaymentWxPayCallback" third_payment_wx_pay_callback ∷ [];
      with_jwt = false;
      with_prefix = "/payment/v1";
    }
    ∷ record {
      routes = post "/thirdPayment/thirdPaymentWxPay" third_payment_wx_pay ∷ [];
      with_jwt = true;
      with_prefix = "/payment/v1";
    }
    ∷ []

pub data TravelHandler : Type 0 where
  travel_health business_list guess_list homestay_detail homestay_list : TravelHandler
  good_boss homestay_bussiness_detail homestay_bussiness_list comment_list : TravelHandler

unfoldable pub travel_routes : List (RouteGroup TravelHandler)
travel_routes =
    health_group travel_health
    ∷ record {
      routes =
          post "/homestay/businessList" business_list
          ∷ post "/homestay/guessList" guess_list
          ∷ post "/homestay/homestayDetail" homestay_detail
          ∷ post "/homestay/homestayList" homestay_list
          ∷ [];
      with_jwt = false;
      with_prefix = "/travel/v1";
    }
    ∷ record {
      routes =
          post "/homestayBussiness/goodBoss" good_boss
          ∷ post "/homestayBussiness/homestayBussinessDetail" homestay_bussiness_detail
          ∷ post "/homestayBussiness/homestayBussinessList" homestay_bussiness_list
          ∷ [];
      with_jwt = false;
      with_prefix = "/travel/v1";
    }
    ∷ record {
      routes = post "/homestayComment/commentList" comment_list ∷ [];
      with_jwt = false;
      with_prefix = "/travel/v1";
    }
    ∷ []

-- What the server reads of a request to find its handler.
pub record Request : Type 0 where
  pub method : HttpMethod
  pub path : String
  pub authorization : String

-- What the server does with a request: no route, no valid token, or a handler with the user id that
-- stands in its context.
pub data Outcome (Handler : Type 0) : Type 0 where
  no_route unauthorized : Outcome Handler
  handled : Handler → JwtUserId → Outcome Handler

-- What go-zero documents of its server, with `verify` for the check of a token: the handler is that of
-- a route whose method and path with the group's prefix are the request's; with `WithJwt` the token is
-- valid and its user is in the context, and without it there is none.
pub record IsServer (verify : String → Option Claims) {Handler : Type 0}
    (serve : List (RouteGroup Handler) → Request → Outcome Handler) : Type 0 where
  pub serve-handled :
      (groups : List (RouteGroup Handler)) (request : Request) (h : Handler) (user : JwtUserId)
      → serve groups request ≡ handled h user
      → (g : RouteGroup Handler) × (r : Route Handler) × In g groups
        × In r g.routes
        × (r.handler ≡ h)
        × (r.method ≡ request.method)
        × (append g.with_prefix r.path ≡ request.path)
        × ((g.with_jwt ≡ false) × (user ≡ no_number)
            ⊎ (g.with_jwt ≡ true)
              × ((claims : Claims) × (verify request.authorization ≡ some claims)
                  × (user ≡ number (some claims.user_id))))
