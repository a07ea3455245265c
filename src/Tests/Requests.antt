-- ===== src/Tests/Requests.antt =====
-- Requests to the HTTP APIs: a login and a booking.
use flash_sale_system.Common.{
  sym, ◌∙◌, ◌≡◌, ◌≢◌, refl, ◌⊎◌, inl, inr, Bool, ◌&&◌, ◌==ℤ◌, tests, Bool-cases, Option, some, none,
  List, [], String, pos, i64, ◌+ℤ◌, Result, ok, err, Error, other, str_eq, if◌then◌else◌, arith,
}
use flash_sale_system.Store.{insert_row}
use flash_sale_system.Reply.{remote, logger_interceptor}
use flash_sale_system.Http.{no_number, parsed, handle}
use flash_sale_system.Order.{HomestayOrder, order_table, State}
use flash_sale_system.Order.Create as Create
use flash_sale_system.Order.Api.{api_create_homestay_order}
use flash_sale_system.Order.Handler.{create_homestay_order_handler}
use flash_sale_system.Payment.Query.{PaymentDetail}
use flash_sale_system.User as User
use flash_sale_system.User.{find_one_by_mobile}
use flash_sale_system.User.Token.{Claims, Jwt, generate_token, half}
use flash_sale_system.User.Register.{new_user}
use flash_sale_system.User.Login as Login
use flash_sale_system.User.Login.{login_by_mobile}
use flash_sale_system.User.Api.{api_login}
use flash_sale_system.Routes.{
  method_post, Request, Outcome, handled, UserHandler, user_health, login, register, user_routes,
  order_routes,
}
use flash_sale_system.Routes.Guard.{token_for_wechat}
use flash_sale_system.Routes.OrderApi.{OrderBody, order_api, IsBooked, order_of_token}
use flash_sale_system.Routes.SignedIn.{KeepsClaims, signed_in_user_books}
use flash_sale_system.Tests.Memory.{memory, memory-IsSql}
use flash_sale_system.Tests.Orders.{same_floats, two_nights, detail, marshals, carry}
use flash_sale_system.Tests.Users.{store, md5, one_user, ann_token}
use flash_sale_system.Tests.Server.{lookup, lookup-IsServer}

-- One token, which is signed for Ann and verified.
abbrev ann_claims : Claims
ann_claims = record { exp = pos 1600; iat = pos 1000; user_id = pos 1 }

abbrev is_for_ann : Claims → Bool
is_for_ann c = (c.exp ==ℤ pos 1600) && (c.iat ==ℤ pos 1000) && (c.user_id ==ℤ pos 1)

abbrev one_token : Jwt
one_token = record {
  access_expire = pos 600;
  sign = λ claims. if is_for_ann claims then ok "token" else err (other "no key");
  now = pos 1000;
}

abbrev verify : String → Option Claims
verify authorization = if str_eq authorization "token" then some ann_claims else none

one_token-KeepsClaims : KeepsClaims one_token verify
one_token-KeepsClaims claims read token h k = elim (Bool-cases (is_for_ann claims)) [
  | inl hers ↦
      let same : token ≡ "token" = ground (arith, hers, h) in
      let hers' : ann_claims ≡ claims = grind (tests, hers) in
      let its : ann_claims ≡ read = ground (arith, same, k) in sym its ∙ hers'
  | inr not_hers ↦ absurd (ground (arith, not_hers, h))
]

abbrev book : Request
book = record {
  method = method_post;
  path = "/order/v1/homestayOrder/createHomestayOrder";
  authorization = "token";
}

abbrev body : OrderBody
body = record {
  to_create = parsed two_nights;
  to_show = parsed (record { sn = "" });
  to_list = parsed (record { last_id = pos 0; page_size = pos 10; trade_state = pos 0 });
}

abbrev nothing : State (List HomestayOrder)
nothing = record { db = []; enqueued = [] }

abbrev no_payment : String → Result (Option PaymentDetail)
no_payment sn = ok none

abbrev error_text : Error → String
error_text e = "error"

abbrev after_booking : State (List HomestayOrder)
after_booking =
    (order_api (memory order_table) carry marshals detail same_floats no_payment error_text "HSO3"
      "c0de" (lookup verify) book body nothing).1

booking_changes : after_booking ≢ nothing
unfolding order_api order_routes create_homestay_order_handler handle api_create_homestay_order
    Create.create_homestay_order insert_row
booking_changes h = cc

-- The stay of `two_nights` names user 7; it is booked for user 1, whose token it is.
order_of_token_example :
    (claims : Claims) × (verify "token" ≡ some claims)
    × IsBooked
        (memory order_table)
        carry
        marshals
        detail
        same_floats
        no_payment
        error_text
        "HSO3"
        "c0de"
        (memory-IsSql order_table)
        verify
        (lookup verify)
        body
        claims.user_id
        nothing
        after_booking
order_of_token_example =
    order_of_token (memory order_table) carry marshals detail same_floats no_payment error_text
      "HSO3" "c0de" (memory-IsSql order_table) verify (lookup verify) book body nothing
      (lookup-IsServer verify) booking_changes

ann_logs_in :
    api_login carry store md5 "name" one_token "13800000000" "secret" one_user ≡ ok ann_token
unfolding api_login remote logger_interceptor Login.login login_by_mobile find_one_by_mobile
    new_user generate_token half i64 ◌+ℤ◌
ann_logs_in = refl

signed_in_user_books_example :
    (u : User.User) × (find_one_by_mobile store.users "13800000000" one_user ≡ ok u)
    × (md5 "secret" ≡ u.password)
    × IsBooked
        (memory order_table)
        carry
        marshals
        detail
        same_floats
        no_payment
        error_text
        "HSO3"
        "c0de"
        (memory-IsSql order_table)
        verify
        (lookup verify)
        body
        u.id
        nothing
        after_booking
signed_in_user_books_example =
    signed_in_user_books carry store md5 "name" one_token (memory order_table) marshals detail
      same_floats no_payment error_text "HSO3" "c0de" (memory-IsSql order_table) verify
      (lookup verify) "13800000000" "secret" one_user ann_token book body nothing
      one_token-KeepsClaims (lookup-IsServer verify) ann_logs_in refl booking_changes

abbrev log_in : Request
log_in = record { method = method_post; path = "/usercenter/v1/user/login"; authorization = "" }

login_handled :
    ◌≡◌ {A = Outcome UserHandler} (lookup verify user_routes log_in) (handled login no_number)
unfolding user_routes
login_handled = refl

token_for_wechat_example : (login ≡ user_health) ⊎ (login ≡ login) ⊎ (login ≡ register)
token_for_wechat_example =
    token_for_wechat verify (lookup verify) log_in login no_number (lookup-IsServer verify) refl
      login_handled
