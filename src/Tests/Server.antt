-- ===== src/Tests/Server.antt =====
-- A server for the tests, which looks a request's route up in the list and checks its token.
use flash_sale_system.Common.{
  ◌≡◌, refl, ◌⊎◌, inl, inr, Bool, true, false, ◌&&◌, Bool-cases, Option, some, none, List, [], ◌∷◌,
  String, append, str_eq, eq_iff, if◌then◌else◌, arith,
}
use flash_sale_system.Http.{JwtUserId, no_number, number}
use flash_sale_system.Store.Ranked.{In}
use flash_sale_system.User.Token.{Claims}
use flash_sale_system.Routes.{
  HttpMethod, method_get, method_post, Route, RouteGroup, Request, Outcome, no_route, unauthorized,
  handled, IsServer,
}

abbrev same_method : HttpMethod → HttpMethod → Bool
same_method method_get method_get = true
same_method method_post method_post = true
same_method method_get method_post = false
same_method method_post method_get = false

same_method→≡ : (a b : HttpMethod) → same_method a b ≡ true → a ≡ b
same_method→≡ method_get method_get h = refl
same_method→≡ method_post method_post h = refl
same_method→≡ method_get method_post h = absurd (ground arith)
same_method→≡ method_post method_get h = absurd (ground arith)

-- Whether a route is a request's.
abbrev matches : {H : Type 0} → String → Request → Route H → Bool
matches prefix request r =
    same_method r.method request.method && str_eq (append prefix r.path) request.path

abbrev IsChecked : (String → Option Claims) → Bool → String → JwtUserId → Type 0
IsChecked verify with_jwt authorization user =
    (with_jwt ≡ false) × (user ≡ no_number)
    ⊎ (with_jwt ≡ true)
      × ((claims : Claims) × (verify authorization ≡ some claims)
          × (user ≡ number (some claims.user_id)))

module _ {H : Type 0} (verify : String → Option Claims) where
  -- The route's handler with the user of the group's check.
  abbrev checked : Bool → Option Claims → H → Outcome H
  checked false claims h = handled h no_number
  checked true none h = unauthorized
  checked true (some claims) h = handled h (number (some claims.user_id))

  abbrev route_in : Bool → String → List (Route H) → Request → Outcome H → Outcome H
  route_in with_jwt prefix [] request next = next
  route_in with_jwt prefix (r ∷ routes) request next =
      let rest = route_in with_jwt prefix routes request next in
      if matches prefix request r
      then checked with_jwt (verify request.authorization) r.handler
      else rest

  abbrev pub lookup : List (RouteGroup H) → Request → Outcome H
  lookup [] request = no_route
  lookup (g ∷ groups) request =
      let rest = lookup groups request in route_in g.with_jwt g.with_prefix g.routes request rest

  checked-IsChecked :
      (b : Bool) (authorization : String) (o : Option Claims) (h h' : H) (user : JwtUserId)
      → verify authorization ≡ o
      → checked b o h ≡ handled h' user
      → (h ≡ h') × IsChecked verify b authorization user
  checked-IsChecked false authorization o h h' user known e =
      (ground arith, inl (refl, ground arith))
  checked-IsChecked true authorization none h h' user known e = absurd (ground arith)
  checked-IsChecked true authorization (some c) h h' user known e =
      (ground arith, inr (refl, (c, known, ground arith)))

  found_route :
      (b : Bool) (prefix : String) (routes : List (Route H)) (request : Request) (next : Outcome H)
      (h : H) (user : JwtUserId)
      → route_in b prefix routes request next ≡ handled h user
      → (next ≡ handled h user)
        ⊎ ((r : Route H) × In r routes
            × (r.handler ≡ h)
            × (r.method ≡ request.method)
            × (append prefix r.path ≡ request.path)
            × IsChecked verify b request.authorization user)
  found_route b prefix [] request next h user e = inl e
  found_route b prefix (r ∷ routes) request next h user e =
      elim (Bool-cases (matches prefix request r)) [
        | inl its ↦
            let here : checked b (verify request.authorization) r.handler ≡ handled h user =
              ground (arith, its, e) in
            let (same, check) =
              checked-IsChecked b request.authorization (verify request.authorization) r.handler h
                user refl here in
            inr (
              r,
              inl refl,
              same,
              same_method→≡ r.method request.method (ground (arith, its)),
              ground (arith, its, eq_iff (append prefix r.path) request.path),
              check,
            )
        | inr differs ↦
            elim (found_route b prefix routes request next h user (ground (arith, differs, e))) [
              | inl later ↦ inl later
              | inr (r', m, same, method, path, check) ↦ inr (r', inr m, same, method, path, check)
            ]
      ]

  looked_up :
      (groups : List (RouteGroup H)) (request : Request) (h : H) (user : JwtUserId)
      → lookup groups request ≡ handled h user
      → (g : RouteGroup H) × (r : Route H) × In g groups
        × In r g.routes
        × (r.handler ≡ h)
        × (r.method ≡ request.method)
        × (append g.with_prefix r.path ≡ request.path)
        × IsChecked verify g.with_jwt request.authorization user
  looked_up [] request h user e = absurd (ground arith)
  looked_up (g ∷ groups) request h user e =
      elim (found_route g.with_jwt g.with_prefix g.routes request (lookup groups request) h user
        e) [
          | inl later ↦
              let (g', r, m, there, same, method, path, check) =
                looked_up groups request h user later in
              (g', r, inr m, there, same, method, path, check)
          | inr (r, there, same, method, path, check) ↦
              (g, r, inl refl, there, same, method, path, check)
        ]

  pub lookup-IsServer : IsServer verify lookup
  lookup-IsServer = record { serve-handled = looked_up }
