-- ===== src/Order/CreateLaws.antt =====
-- What `CreateHomestayOrder` inserts, queues and charges.
use flash_sale_system.Common.{
  leb_ℤ, false, tests, ◌≡◌, refl, inl, inr, ◌+◌, ◌*◌, ◌<◌, ◌≤◌, ℕ, Bool, Option, some, [], ◌∷◌,
  ◌++◌, String, ℤ, pos, ◌<ℤ◌, ◌+ℤ◌, ◌-ℤ◌, ◌*ℤ◌, i64, i64_in_range, Result, ok, if◌then◌else◌, arith,
  Result-cases, Option-cases, Bool-cases,
}
use flash_sale_system.Store.{Conn, SqlResult, Statement, insert_row, del_state_no}
use flash_sale_system.Store.Sql.{IsSql}
use flash_sale_system.Travel.{PbHomestay}
use flash_sale_system.Order.{HomestayOrder, order_table, Task, State, defer_close_homestay_order}
use flash_sale_system.Order.Create.{
  CreateHomestayOrderReq, close_order_time_minutes, live_days, homestay_total, food_total,
  new_order, create_homestay_order,
}

pos-mul : (a b : ℕ) → pos a *ℤ pos b ≡ pos (a * b)
unfolding ◌*ℤ◌
pos-mul a b = ground arith

pos-add : (a b : ℕ) → pos a +ℤ pos b ≡ pos (a + b)
unfolding ◌+ℤ◌
pos-add a b = ground arith

live_days_short :
    (start end : ℤ) → start <ℤ end → end <ℤ start +ℤ pos 86400 → live_days start end ≡ 0
unfolding live_days ◌+ℤ◌ ◌-ℤ◌
live_days_short start end h k = ground arith

homestay_total_zero : (h : PbHomestay) → homestay_total h 0 ≡ pos 0
unfolding homestay_total i64 ◌*ℤ◌
homestay_total_zero h = ground arith

food_total_zero : (h : PbHomestay) (req : CreateHomestayOrderReq) → food_total h req 0 ≡ pos 0
unfolding food_total i64 ◌*ℤ◌
food_total_zero h req = ground arith

short_stay_total :
    (h : PbHomestay) (req : CreateHomestayOrderReq) (sn trade_code : String)
    → req.live_start_time <ℤ req.live_end_time
    → req.live_end_time <ℤ req.live_start_time +ℤ pos 86400
    → (new_order h req sn trade_code).order_total_price ≡ pos 0
unfolding new_order i64 ◌+ℤ◌
short_stay_total h req sn trade_code later short =
    let no_night = live_days_short req.live_start_time req.live_end_time later short in
    rw (no_night, homestay_total_zero h, food_total_zero h req) refl

homestay_total_pos :
    (h : PbHomestay) (price days : ℕ)
    → h.homestay_price ≡ pos price
    → price * days < 9223372036854775808
    → homestay_total h days ≡ pos (price * days)
unfolding homestay_total
homestay_total_pos h price days hp bound =
    rw (hp, pos-mul price days) (i64_in_range (pos (price * days)) bound)

meals_pos :
    (food guests days : ℕ)
    → food * guests < 9223372036854775808
    → food * guests * days < 9223372036854775808
    → i64 (i64 (pos food *ℤ pos guests) *ℤ pos days) ≡ pos (food * guests * days)
meals_pos food guests days b c =
    rw (pos-mul food guests, i64_in_range (pos (food * guests)) b, pos-mul (food * guests) days)
      (i64_in_range (pos (food * guests * days)) c)

food_total_pos :
    (h : PbHomestay) (req : CreateHomestayOrderReq) (food guests days : ℕ)
    → h.food_price ≡ pos food
    → req.live_people_num ≡ pos guests
    → food * guests < 9223372036854775808
    → food * guests * days < 9223372036854775808
    → food_total h req days ≡ pos (if req.is_food then food * guests * days else 0)
unfolding food_total
food_total_pos h req food guests days hf hg b c = elim (Bool-cases req.is_food) [
  | inl meals ↦ rw (meals, hf, hg) (meals_pos food guests days b c)
  | inr none_asked ↦ rw none_asked refl
]

-- With prices and guests that are not negative, and the meals of a night, the nights' price and the
-- meals' price together below 2 ^ 63, the order's total is exactly the nights times the price, and
-- with meals also the nights times the guests times the price of a meal.
pub new_order-total :
    (h : PbHomestay) (req : CreateHomestayOrderReq) (sn trade_code : String) (price food guests : ℕ)
    → h.homestay_price ≡ pos price
    → h.food_price ≡ pos food
    → req.live_people_num ≡ pos guests
    → let days = live_days req.live_start_time req.live_end_time in
      food * guests + price * days + food * guests * days < 9223372036854775808
      → (new_order h req sn trade_code).order_total_price
        ≡ pos (price * days + (if req.is_food then food * guests * days else 0))
unfolding new_order
new_order-total h req sn trade_code price food guests hp hf hg bound =
    let days = live_days req.live_start_time req.live_end_time in
    let meals : ℕ = if req.is_food then food * guests * days else 0 in
    let few : meals ≤ food * guests * days = ground arith in
    rw
      (
        homestay_total_pos h price days hp (omega arith),
        food_total_pos h req food guests days hf hg (omega arith) (omega arith),
        pos-add (price * days) meals,
      )
      (i64_in_range (pos (price * days + meals)) (omega arith))

module _ {Db : Type 0} (conn : Conn Db HomestayOrder) (marshals : Task → Bool)
    (homestay_detail : ℤ → Result (Option PbHomestay)) (sql : IsSql order_table conn) where
  -- The row of a new order, as the table keeps it.
  abbrev pub inserted : HomestayOrder → Db → HomestayOrder
  inserted o d =
      sql.column d (record o { id = sql.auto_id d; delete_time = pos 0; del_state = del_state_no })

  insert_statement : HomestayOrder → Statement HomestayOrder
  insert_statement o = Statement.insert (record o { delete_time = pos 0; del_state = del_state_no })

  -- A request that succeeds was for a homestay that the travel service found and a stay that ends
  -- after it starts; it has added exactly the row of `new_order` to the table, returns its number,
  -- and has queued the job that closes this order after half an hour, provided that its payload can
  -- be marshalled.
  pub create_effect :
      (req : CreateHomestayOrderReq) (sn trade_code : String) (s : State Db) (r : String)
      → (create_homestay_order conn marshals homestay_detail req sn trade_code s).0 ≡ ok r
      → let s' = (create_homestay_order conn marshals homestay_detail req sn trade_code s).1 in
        (h : PbHomestay) × (homestay_detail req.homestay_id ≡ ok (some h))
        × (req.live_start_time <ℤ req.live_end_time)
        × (r ≡ sn)
        × (sql.rows s'.db ≡ sql.rows s.db ++ inserted (new_order h req sn trade_code) s.db ∷ [])
        × (s'.enqueued
            ≡ s.enqueued
              ++ (if marshals (defer_close_homestay_order sn close_order_time_minutes)
                  then defer_close_homestay_order sn close_order_time_minutes ∷ []
                  else []))
  unfolding create_homestay_order insert_row insert_statement
  create_effect req sn trade_code s r h = elim (Result-cases (homestay_detail req.homestay_id)) [
    | inl (found, e) ↦ elim (Option-cases found) [
      | inl nil ↦ absurd (ground arith)
      | inr (home, f) ↦
          let q = insert_statement (new_order home req sn trade_code) in
          elim (Result-cases (conn.exec q s.db).0) [
            | inl (res, done) ↦
                let after_insert = sql.exec_done q s.db res done in
                (home, ground arith, ground arith, ground arith, ground arith, ground arith)
            | inr failed ↦ absurd (ground arith)
          ]
    ]
    | inr failed ↦ absurd (ground arith)
  ]

  -- A stay that is shorter than a day is booked for nothing, whatever the prices are: where the
  -- travel service finds the homestay and the insert succeeds, the request passes the test "Stay at
  -- least one night" and returns the order's number, and the table has one row more, that of an
  -- order whose total is 0.
  pub short_stay_free :
      (req : CreateHomestayOrderReq) (sn trade_code : String) (s : State Db) (h : PbHomestay)
      (res : SqlResult)
      → req.live_start_time <ℤ req.live_end_time
      → req.live_end_time <ℤ req.live_start_time +ℤ pos 86400
      → homestay_detail req.homestay_id ≡ ok (some h)
      → (insert_row order_table conn (new_order h req sn trade_code) s.db).0 ≡ ok res
      → let (r, s') = create_homestay_order conn marshals homestay_detail req sn trade_code s in
        (r ≡ ok sn)
        × (sql.rows s'.db ≡ sql.rows s.db ++ inserted (new_order h req sn trade_code) s.db ∷ [])
        × ((new_order h req sn trade_code).order_total_price ≡ pos 0)
  unfolding create_homestay_order
  short_stay_free req sn trade_code s h res later short found done =
      let passes : leb_ℤ req.live_end_time req.live_start_time ≡ false = grind tests in
      let booked : (create_homestay_order conn marshals homestay_detail req sn trade_code s).0
          ≡ ok sn =
        ground (arith, passes, found, done) in
      let (h', found', _, _, row, _) = create_effect req sn trade_code s sn booked in
      let same : h' ≡ h = ground (arith, found, found') in
      (booked, rw (← same) row, short_stay_total h req sn trade_code later short)
