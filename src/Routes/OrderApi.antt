-- ===== src/Routes/OrderApi.antt =====
-- The order API as its server runs it: the routes and handlers that `RegisterHandlers` of
-- app/order/cmd/api/internal/handler/routes.go joins.
use flash_sale_system.Common.{
  ◌≡◌, ◌≢◌, refl, ap, ◌∙◌, ◌⊎◌, inl, inr, Bool, Option, some, none, List, [], ◌∷◌, ◌++◌, String, ℤ,
  pos, ◌==ℤ◌, Result, ok, err, panic, Error, Action, Result-cases, Bool-cases, arith, leb_ℤ,
}
use flash_sale_system.Store.{Conn, insert_row}
use flash_sale_system.Store.Sql.{IsSql}
use flash_sale_system.Store.Keys.{insert_rows, inserted_row}
use flash_sale_system.Reply.{Response}
use flash_sale_system.Http.{
  Parsed, parsed, refused, JwtUserId, get_uid_from_ctx, handle, health_check_handler,
}
use flash_sale_system.Travel.{PbHomestay}
use flash_sale_system.Order.{HomestayOrder, order_table, order_table-IsTable, Task, State}
use flash_sale_system.Order.Create.{CreateHomestayOrderReq, new_order}
use flash_sale_system.Order.Create as Create
use flash_sale_system.Order.Api.{Floats, OrderDetailView, OrderListView, api_create_homestay_order}
use flash_sale_system.Order.Handler.{
  UserHomestayOrderDetailReq, UserHomestayOrderListReq, create_homestay_order_handler,
  user_homestay_order_detail_handler, user_homestay_order_list_handler,
}
use flash_sale_system.Payment.Query.{PaymentDetail}
use flash_sale_system.User.Token.{Claims}
use flash_sale_system.Routes.{
  RouteGroup, Request, Outcome, handled, no_route, unauthorized, IsServer, OrderHandler,
  order_health, create_homestay_order, user_homestay_order_detail, user_homestay_order_list,
  order_routes,
}
use flash_sale_system.Routes.Guard.{handled_for}

-- What `httpx.Parse` makes of the request, by the type that a handler asks for.
pub record OrderBody : Type 0 where
  pub to_create : Parsed CreateHomestayOrderReq
  pub to_show : Parsed UserHomestayOrderDetailReq
  pub to_list : Parsed UserHomestayOrderListReq

-- The answer: go-zero's own where no handler runs, or that of a handler.
pub data Answer (Float : Type 0) : Type 0 where
  status_404 status_401 : Answer Float
  health : String → Answer Float
  created : Response (Option String) → Answer Float
  shown : Response (Option (OrderDetailView Float)) → Answer Float
  listed : Response (Option (List (OrderListView Float))) → Answer Float

abbrev pub answered : {A B : Type 0} → (A → B) → Result A → Result B
answered f (ok a) = ok (f a)
answered f (err e) = err e
answered f panic = panic

Parsed-cases :
    {Req : Type 0} (p : Parsed Req)
    → ((text : String) × (p ≡ refused text)) ⊎ ((req : Req) × (p ≡ parsed req))
Parsed-cases (refused text) = inl (text, refl)
Parsed-cases (parsed req) = inr (req, refl)

Outcome-cases :
    {Handler : Type 0} (o : Outcome Handler)
    → (o ≡ no_route)
      ⊎ (o ≡ unauthorized)
      ⊎ ((h : Handler) × (user : JwtUserId) × (o ≡ handled h user))
Outcome-cases no_route = inl refl
Outcome-cases unauthorized = inr (inl refl)
Outcome-cases (handled h user) = inr (inr (h, user, refl))

module _ {Db Float : Type 0} (conn : Conn Db HomestayOrder) (carry : Error → Error)
    (marshals : Task → Bool) (homestay_detail : ℤ → Result (Option PbHomestay))
    (floats : Floats Float) (payment : String → Result (Option PaymentDetail))
    (error_ctx : Error → String) (sn trade_code : String) where
  abbrev pub run_handler : OrderHandler → JwtUserId → OrderBody → Action (State Db) (Answer Float)
  run_handler order_health user body s =
      (answered health (health_check_handler error_ctx (λ text. text)), s)
  run_handler create_homestay_order user body s =
      let (r, s') =
        create_homestay_order_handler conn carry marshals homestay_detail sn trade_code user
          body.to_create s in
      (answered created r, s')
  run_handler user_homestay_order_detail user body s = (
    answered shown
        (user_homestay_order_detail_handler conn carry floats payment user body.to_show s.db),
    s,
  )
  run_handler user_homestay_order_list user body s = (
    answered listed (user_homestay_order_list_handler conn carry floats user body.to_list s.db),
    s,
  )

  abbrev pub answer_for : Outcome OrderHandler → OrderBody → Action (State Db) (Answer Float)
  answer_for no_route body s = (ok status_404, s)
  answer_for unauthorized body s = (ok status_401, s)
  answer_for (handled h user) body s = run_handler h user body s

  unfoldable pub order_api :
      (serve : List (RouteGroup OrderHandler) → Request → Outcome OrderHandler)
      → Request
      → OrderBody
      → Action (State Db) (Answer Float)
  order_api serve request body s = answer_for (serve order_routes request) body s

  -- What a creation through the API does: nothing, or it inserts the user's order of the homestay that
  -- the travel service found.
  api_create_effect :
      (req : CreateHomestayOrderReq) (user_id : ℤ) (s : State Db)
      → let s' =
          (api_create_homestay_order conn marshals carry homestay_detail req user_id sn trade_code
            s).1 in
        (s' ≡ s)
        ⊎ ((h : PbHomestay) × (homestay_detail req.homestay_id ≡ ok (some h))
            × (s'.db
                ≡ (insert_row order_table conn
                    (new_order h (record req { user_id = user_id }) sn trade_code)
                    s.db).1))
  unfolding api_create_homestay_order Create.create_homestay_order
  api_create_effect req user_id s = elim (Result-cases (homestay_detail req.homestay_id)) [
    | inl (none, nil) ↦ inl (ground arith)
    | inl (some h, found) ↦ elim (Bool-cases (h.id ==ℤ pos 0)) [
      | inl absent ↦ inl (ground arith)
      | inr there ↦ elim (Bool-cases (leb_ℤ req.live_end_time req.live_start_time)) [
        | inl short ↦ inl (ground arith)
        | inr night ↦
            let row = new_order h (record req { user_id = user_id }) sn trade_code in
            elim (Result-cases (insert_row order_table conn row s.db).0) [
              | inl done ↦ inr (h, found, ground arith)
              | inr failed ↦ inr (h, found, ground arith)
            ]
      ]
    ]
    | inr failed ↦ inl (ground arith)
  ]

  module _ (sql : IsSql order_table conn) (verify : String → Option Claims)
      (serve : List (RouteGroup OrderHandler) → Request → Outcome OrderHandler) where
    -- What a request leaves of the table of orders that has created an order of `user_id`, or tried to.
    pub record IsBooked (body : OrderBody) (user_id : ℤ) (s s' : State Db) : Type 0 where
      pub req : CreateHomestayOrderReq
      pub h : PbHomestay
      pub asked : body.to_create ≡ parsed req
      pub found : homestay_detail req.homestay_id ≡ ok (some h)
      pub rows :
          (sql.rows s'.db ≡ sql.rows s.db)
          ⊎ (sql.rows s'.db
              ≡ sql.rows s.db
                ++ inserted_row order_table conn order_table-IsTable sql
                    (new_order h (record req { user_id = user_id }) sn trade_code)
                    s.db
                  ∷ [])

    create_IsBooked :
        (user : JwtUserId) (body : OrderBody) (s : State Db)
        → (run_handler create_homestay_order user body s).1 ≢ s
        → IsBooked body (get_uid_from_ctx user) s (run_handler create_homestay_order user body s).1
    unfolding create_homestay_order_handler handle
    create_IsBooked user body s changed = elim (Parsed-cases body.to_create) [
      | inl (text, e) ↦ absurd (changed (rw e refl))
      | inr (req, e) ↦
          let row : PbHomestay → HomestayOrder =
            λ h. new_order h (record req { user_id = get_uid_from_ctx user }) sn trade_code in
          elim (api_create_effect req (get_uid_from_ctx user) s) [
            | inl same ↦ absurd (changed (rw e same))
            | inr (h, found, run) ↦ record {
              req = req;
              h = h;
              asked = e;
              found = found;
              rows =
                  rw e (elim (insert_rows order_table conn order_table-IsTable sql (row h) s.db) [
                    | inl same ↦ inl (ap sql.rows run ∙ same)
                    | inr grown ↦ inr (ap sql.rows run ∙ grown)
                  ]);
            }
          ]
    ]

    changed_creates :
        (h : OrderHandler) (user : JwtUserId) (body : OrderBody) (s : State Db)
        → (run_handler h user body s).1 ≢ s
        → h ≡ create_homestay_order
    changed_creates order_health user body s changed = absurd (changed refl)
    changed_creates create_homestay_order user body s changed = refl
    changed_creates user_homestay_order_detail user body s changed = absurd (changed refl)
    changed_creates user_homestay_order_list user body s changed = absurd (changed refl)

    handler_IsBooked :
        (request : Request) (h : OrderHandler) (user : JwtUserId) (body : OrderBody) (s : State Db)
        → IsServer verify serve
        → serve order_routes request ≡ handled h user
        → (run_handler h user body s).1 ≢ s
        → (claims : Claims) × (verify request.authorization ≡ some claims)
          × IsBooked body claims.user_id s (run_handler h user body s).1
    unfolding order_routes get_uid_from_ctx
    handler_IsBooked request h user body s server e changed =
        let creates = changed_creates h user body s changed in
        elim (handled_for verify serve order_routes request h user server e) [
          | inl (member, nobody) ↦ absurd (ground (arith, creates, member))
          | inr (claims, known, its) ↦
              let booked = create_IsBooked user body s (rw creates at changed) in
              (claims, known, rw (creates, its) (rw its at booked))
        ]

    -- With a server as documented (`IsServer`), a request to the order API that changes the order
    -- service has a valid token and asks for the creation of an order; the table of orders is as
    -- before, or has one row more: the new order of the homestay that was asked for, and of the
    -- token's user, whatever user the request names.
    pub order_of_token :
        (request : Request) (body : OrderBody) (s : State Db)
        → IsServer verify serve
        → (order_api serve request body s).1 ≢ s
        → (claims : Claims) × (verify request.authorization ≡ some claims)
          × IsBooked body claims.user_id s (order_api serve request body s).1
    unfolding order_api
    order_of_token request body s server changed =
        elim (Outcome-cases (serve order_routes request)) [
          | inl e ↦ absurd (changed (rw e refl))
          | inr (inl e) ↦ absurd (changed (rw e refl))
          | inr (inr (h, user, e)) ↦
              rw e (handler_IsBooked request h user body s server e (rw e at changed))
        ]
