-- ===== src/System/Booking.antt =====
-- A booking in the system: `CreateHomestayOrder` of the order RPC, behind the API
-- (app/order/cmd/api/internal/logic/homestayOrder/createHomestayOrderLogic.go).
use flash_sale_system.Common.{
  ◌≡◌, ◌⊎◌, inl, inr, List, [], ◌∷◌, ◌++◌, String, ℤ, pos, ◌==ℤ◌, some, none, Error, if◌then◌else◌,
  Result-cases, Bool-cases, arith, leb_ℤ,
}
use flash_sale_system.Store.{insert_row}
use flash_sale_system.Store.Ranked.{In}
use flash_sale_system.Store.Stamps.{In-of_append}
use flash_sale_system.Order.{order_table, Task, State, defer_close_homestay_order}
use flash_sale_system.Order.Create.{
  CreateHomestayOrderReq, new_order, create_homestay_order, close_order_time_minutes,
}
use flash_sale_system.Order.Api.{api_create_homestay_order}
use flash_sale_system.Order.Runs as Runs
use flash_sale_system.System.{IsOrderSn, OrderService}
use flash_sale_system.System.Orders.{IsOrderly, IsClosing, Next, rests, insert_Next, with_tasks}

module _ {Db : Type 0} (service : OrderService Db) (carry : Error → Error) where
  open service use {conn, marshals, homestay_detail, sql}

  module _ (req : CreateHomestayOrderReq) (sn trade_code : String) (s : State Db) where
    abbrev close_later : List Task
    close_later =
        let task = defer_close_homestay_order sn close_order_time_minutes in
        if marshals task then task ∷ [] else []

    close_later-IsClosing : (task : Task) → In task close_later → IsClosing service task
    close_later-IsClosing task m =
        elim (Bool-cases (marshals (defer_close_homestay_order sn close_order_time_minutes))) [
          | inl able ↦ elim (rw able at m) [
            | inl e ↦ (sn, close_order_time_minutes, e)
            | inr none_such ↦ absurd none_such
          ]
          | inr unable ↦ absurd (rw unable at m)
        ]

    create_enqueued :
        let s' = (create_homestay_order conn marshals homestay_detail req sn trade_code s).1 in
        (s'.enqueued ≡ s.enqueued) ⊎ (s'.enqueued ≡ s.enqueued ++ close_later)
    unfolding create_homestay_order
    create_enqueued = elim (Result-cases (homestay_detail req.homestay_id)) [
      | inl (none, nil) ↦ inl (ground arith)
      | inl (some h, found) ↦ elim (Bool-cases (leb_ℤ req.live_end_time req.live_start_time)) [
        | inl short ↦ inl (ground arith)
        | inr night ↦
            elim (Result-cases
              (insert_row order_table conn (new_order h req sn trade_code) s.db).0) [
                | inl done ↦ inr (ground arith)
                | inr failed ↦ inl (ground arith)
              ]
      ]
      | inr failed ↦ inl (ground arith)
    ]

    create_Next :
        IsOrderSn sn
        → IsOrderly service s
        → Next service s (create_homestay_order conn marshals homestay_detail req sn trade_code s).1
    create_Next number inv =
        elim (Runs.create_database conn marshals homestay_detail sql service.keeps_state req sn
          trade_code s) [
            | inl same ↦ with_tasks service s s' s.db same closing (inv, λ k m. m)
            | inr (h, run) ↦
                with_tasks service s s' _ run closing
                  (insert_Next service h req sn trade_code s number inv)
          ]
      where
        s' : State Db
        s' = (create_homestay_order conn marshals homestay_detail req sn trade_code s).1

        closing : (task : Task) → In task s'.enqueued → IsClosing service task
        closing task m = elim create_enqueued [
          | inl same ↦ inv.to_close task (rw same at m)
          | inr more ↦ elim (In-of_append task s.enqueued close_later (rw more at m)) [
            | inl old ↦ inv.to_close task old
            | inr new ↦ close_later-IsClosing task new
          ]
        ]

  -- Through the API.
  pub books_Next :
      (req : CreateHomestayOrderReq) (user_id : ℤ) (sn trade_code : String) (s : State Db)
      → IsOrderSn sn
      → IsOrderly service s
      → Next service s
          (api_create_homestay_order conn marshals carry homestay_detail req user_id sn trade_code
            s).1
  unfolding api_create_homestay_order
  books_Next req user_id sn trade_code s number inv =
      elim (Result-cases (homestay_detail req.homestay_id)) [
        | inl (none, nil) ↦ rests service s _ (ground arith) inv
        | inl (some h, found) ↦ elim (Bool-cases (h.id ==ℤ pos 0)) [
          | inl absent ↦ rests service s _ (ground arith) inv
          | inr there ↦
              let called =
                create_Next (record req { user_id = user_id }) sn trade_code s number inv in
              rw (found, there) called
        ]
        | inr failed ↦ rests service s _ (ground arith) inv
      ]
