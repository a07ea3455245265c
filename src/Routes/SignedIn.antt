-- ===== src/Routes/SignedIn.antt =====
-- From the login to the order: `Login` and `GenerateToken` of the user service
-- (app/usercenter/cmd/rpc/internal/logic), whose token the order API checks.
use flash_sale_system.Common.{
  ◌≡◌, ◌≢◌, sym, ap, ◌∙◌, inl, inr, Bool, Option, some, List, String, ℤ, Result, ok, Error,
  Result-cases, row-cases, Bool-cases, arith, str_eq, eq_iff,
}
use flash_sale_system.Store.{Conn}
use flash_sale_system.Store.Sql.{IsSql}
use flash_sale_system.Xerr.{db_error, new_err_code}
use flash_sale_system.Reply.{remote-ok}
use flash_sale_system.Travel.{PbHomestay}
use flash_sale_system.Order.Api.{Floats}
use flash_sale_system.Order.{HomestayOrder, order_table, Task, State}
use flash_sale_system.Payment.Query.{PaymentDetail}
use flash_sale_system.User.{User, Store, auth_type_system, find_one_by_mobile}
use flash_sale_system.User.Token.{Claims, Jwt, TokenResp, generate_token}
use flash_sale_system.User.Login.{login, login_by_mobile}
use flash_sale_system.User.Laws.{generate_token_claims}
use flash_sale_system.User.Api.{api_login}
use flash_sale_system.Routes.{RouteGroup, Request, Outcome, IsServer, OrderHandler}
use flash_sale_system.Routes.OrderApi.{OrderBody, order_api, IsBooked, order_of_token}

-- What is documented of go-zero's check of a token that was signed under the same secret: if it accepts
-- the token, which it does until the token expires, it returns the claims that were signed.
abbrev pub KeepsClaims : Jwt → (String → Option Claims) → Type 0
KeepsClaims jwt verify =
    (claims read : Claims) (token : String)
    → jwt.sign claims ≡ ok token
    → verify token ≡ some read
    → read ≡ claims

module _ {Db : Type 0} (users : Conn Db User) (md5 : String → String) (jwt : Jwt) where
  login_checked :
      (mobile password : String) (d : Db) (i : ℤ)
      → login_by_mobile users md5 jwt mobile password d ≡ ok i
      → (u : User) × (find_one_by_mobile users mobile d ≡ ok u)
        × (md5 password ≡ u.password)
        × (i ≡ u.id)
  unfolding login_by_mobile
  login_checked mobile password d i h =
      elim (row-cases (new_err_code db_error) (find_one_by_mobile users mobile d)) [
        | inl (u, found) ↦ elim (Bool-cases (str_eq (md5 password) u.password)) [
          | inl same ↦
              (u, found, ground (arith, eq_iff (md5 password) u.password), ground (arith, found))
          | inr differs ↦ absurd (ground (arith, found))
        ]
        | inr unread ↦ absurd (ground (arith, unread))
      ]

  login_token :
      (mobile password : String) (d : Db) (resp : TokenResp)
      → login users md5 jwt
          (record { auth_type = auth_type_system; auth_key = mobile; password = password })
          d
        ≡ ok resp
      → (u : User) × (find_one_by_mobile users mobile d ≡ ok u)
        × (md5 password ≡ u.password)
        × (generate_token jwt u.id ≡ ok resp)
  unfolding login
  login_token mobile password d resp h =
      elim (Result-cases (login_by_mobile users md5 jwt mobile password d)) [
        | inl (i, checked) ↦
            let (u, found, right, its) = login_checked mobile password d i checked in
            elim (Result-cases (generate_token jwt i)) [
              | inl (token, made) ↦ (
                u,
                found,
                right,
                ap (generate_token jwt) (sym its) ∙ ground (arith, made, checked),
              )
              | inr unmade ↦ absurd (ground (arith, checked, unmade))
            ]
        | inr failed ↦ absurd (ground (arith, failed))
      ]

module _ {UserDb OrderDb Float : Type 0} (carry : Error → Error) (store : Store UserDb)
    (md5 : String → String) (random_name : String) (jwt : Jwt) (conn : Conn OrderDb HomestayOrder)
    (marshals : Task → Bool) (homestay_detail : ℤ → Result (Option PbHomestay))
    (floats : Floats Float) (payment : String → Result (Option PaymentDetail))
    (error_ctx : Error → String) (sn trade_code : String) (sql : IsSql order_table conn)
    (verify : String → Option Claims)
    (serve : List (RouteGroup OrderHandler) → Request → Outcome OrderHandler) where
  -- With a server as documented (`IsServer`) that reads the claims of a token as they were signed
  -- (`KeepsClaims`), someone logs in with a telephone number and a password, and sends the token of the response
  -- with a request to the order API. If that request changes the order service, then the number is
  -- that of a user on record, whose password it was, and the table of orders is as before or has
  -- one row more: a new order of this user.
  pub signed_in_user_books :
      (mobile password : String) (users : UserDb) (resp : TokenResp) (request : Request)
      (body : OrderBody) (s : State OrderDb)
      → KeepsClaims jwt verify
      → IsServer verify serve
      → api_login carry store md5 random_name jwt mobile password users ≡ ok resp
      → request.authorization ≡ resp.access_token
      → (order_api conn carry marshals homestay_detail floats payment error_ctx sn trade_code serve
          request body s).1
        ≢ s
      → (u : User) × (find_one_by_mobile store.users mobile users ≡ ok u)
        × (md5 password ≡ u.password)
        × IsBooked conn carry marshals homestay_detail floats payment error_ctx sn trade_code sql
            verify serve body u.id s
            (order_api conn carry marshals homestay_detail floats payment error_ctx sn trade_code
              serve request body s).1
  unfolding api_login
  signed_in_user_books mobile password users resp request body s keeps server entered sent changed =
      let (u, found, right, made) =
        login_token store.users md5 jwt mobile password users resp
          (remote-ok carry _ resp entered) in
      let (signed, _, _) = generate_token_claims jwt u.id resp made in
      let (claims, known, booked) =
        order_of_token conn carry marshals homestay_detail floats payment error_ctx sn trade_code
          sql verify serve request body s server changed in
      let same : claims.user_id ≡ u.id =
        ap (λ c. c.user_id) (keeps _ claims resp.access_token signed (rw (← sent) known)) in
      (u, found, right, rw same at booked)
