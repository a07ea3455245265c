-- ===== src/Routes/Guard.antt =====
-- Which handlers of the HTTP APIs (app/*/cmd/api/internal/handler/routes.go) a request without a valid
-- token reaches.
use flash_sale_system.Common.{
  ◌≡◌, sym, ap, ◌∙◌, ◌⊎◌, inl, inr, false, Bool-cases, Option, some, none, List, [], ◌∷◌, ◌++◌, map,
  String, if◌then◌else◌, arith,
}
use flash_sale_system.Http.{JwtUserId, no_number, number}
use flash_sale_system.Store.Ranked.{In}
use flash_sale_system.Store.Stamps.{In-append, In-map}
use flash_sale_system.User.Token.{Claims}
use flash_sale_system.Routes.{
  RouteGroup, Route, Request, Outcome, handled, IsServer, UserHandler, user_health, login, register,
  user_routes,
}

-- The handlers of the groups without `WithJwt`.
abbrev pub open_handlers : {Handler : Type 0} → List (RouteGroup Handler) → List Handler
open_handlers [] = []
open_handlers (g ∷ groups) =
    let rest = open_handlers groups in
    if g.with_jwt then rest else map (λ r. r.handler) g.routes ++ rest

In-right : {A : Type 0} (x : A) (xs ys : List A) → In x ys → In x (xs ++ ys)
In-right x [] ys m = m
In-right x (y ∷ xs) ys m = inr (In-right x xs ys m)

open_listed :
    {Handler : Type 0} (groups : List (RouteGroup Handler)) (g : RouteGroup Handler)
    (r : Route Handler)
    → In g groups
    → In r g.routes
    → g.with_jwt ≡ false
    → In r.handler (open_handlers groups)
open_listed [] g r m there open_group = elim m [ ]
open_listed (x ∷ groups) g r (inl same) there open_group =
    let its : x.with_jwt ≡ false = ap (λ y. y.with_jwt) (sym same) ∙ open_group in
    let listed : In r x.routes = rw (← same) there in
    rw its (
      In-append r.handler (map (λ y. y.handler) x.routes) (open_handlers groups)
        (In-map (λ y. y.handler) r x.routes listed))
open_listed (x ∷ groups) g r (inr m) there open_group =
    let listed = open_listed groups g r m there open_group in
    elim (Bool-cases x.with_jwt) [
      | inl closed ↦ rw closed listed
      | inr unguarded ↦
          rw unguarded
            (In-right r.handler (map (λ y. y.handler) x.routes) (open_handlers groups) listed)
    ]

-- A handler runs without a user, and then it is of a group without `WithJwt`; or for the user of a
-- valid token.
pub handled_for :
    {Handler : Type 0} (verify : String → Option Claims)
    (serve : List (RouteGroup Handler) → Request → Outcome Handler)
    (groups : List (RouteGroup Handler)) (request : Request) (h : Handler) (user : JwtUserId)
    → IsServer verify serve
    → serve groups request ≡ handled h user
    → (In h (open_handlers groups) × (user ≡ no_number))
      ⊎ ((claims : Claims) × (verify request.authorization ≡ some claims)
          × (user ≡ number (some claims.user_id)))
handled_for verify serve groups request h user server e =
    let (g, r, group, route, its, method, path, check) =
      server.serve-handled groups request h user e in
    elim check [
      | inl (open_group, nobody) ↦
          inl (rw (← its) (open_listed groups g r group route open_group), nobody)
      | inr (closed, known) ↦ inr known
    ]

-- With a server as documented (`IsServer`), a request to the user API whose token is not valid
-- reaches no handler but the health check, the login and the registration: not the sign-in with
-- WeChat, which makes a user's first token.
pub token_for_wechat :
    (verify : String → Option Claims)
    (serve : List (RouteGroup UserHandler) → Request → Outcome UserHandler) (request : Request)
    (h : UserHandler) (user : JwtUserId)
    → IsServer verify serve
    → verify request.authorization ≡ none
    → serve user_routes request ≡ handled h user
    → (h ≡ user_health) ⊎ (h ≡ login) ⊎ (h ≡ register)
unfolding user_routes
token_for_wechat verify serve request h user server unknown e =
    elim (handled_for verify serve user_routes request h user server e) [
      | inl (listed, nobody) ↦ ground (arith, listed)
      | inr (claims, known, its) ↦ absurd (ground arith)
    ]
