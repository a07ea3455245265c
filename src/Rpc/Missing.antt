-- ===== src/Rpc/Missing.antt =====
-- A booking of a homestay that is not on record: the travel RPC's answer
-- (app/travel/cmd/rpc/internal/logic/homestayDetailLogic.go) as the order API and the order RPC read it
-- (createHomestayOrderLogic.go of both).
use flash_sale_system.Common.{
  ◌≡◌, Bool, false, Option, some, String, ℤ, pos, leb_ℤ, ◌<ℤ◌, i64, ◌*ℤ◌, ◌+ℤ◌, Result, ok, err,
  Error, not_found, arith,
}
use flash_sale_system.Store.{Conn, SqlResult, insert_row, find_one}
use flash_sale_system.Xerr.{new_err_msg}
use flash_sale_system.Reply.{remote}
use flash_sale_system.Travel.{Homestay, PbHomestay, homestay_table, no_homestay}
use flash_sale_system.Travel as Travel
use flash_sale_system.Order.{HomestayOrder, order_table, Task, State}
use flash_sale_system.Order.Create.{
  CreateHomestayOrderReq, new_order, homestay_total, food_total, create_homestay_order,
}
use flash_sale_system.Order.Api.{api_create_homestay_order}
use flash_sale_system.Rpc.{travel_server, new_travel_client}

module _ {TravelDb Db : Type 0} (homestays : Conn TravelDb Homestay) (conn : Conn Db HomestayOrder)
    (marshals : Task → Bool) (carry : Error → Error) where
  -- The answer of the travel RPC, as its clients have it.
  abbrev pub detail_at : TravelDb → ℤ → Result (Option PbHomestay)
  detail_at d i = ((new_travel_client carry (travel_server homestays)).homestay_detail i d).0

  missing_answer :
      (i : ℤ) (d : TravelDb)
      → find_one homestay_table homestays i d ≡ err not_found
      → detail_at d i ≡ ok (some no_homestay)
  unfolding new_travel_client travel_server Travel.homestay_detail remote
  missing_answer i d missing = ground (arith, missing)

  free :
      (req : CreateHomestayOrderReq) (sn trade_code : String)
      → (new_order no_homestay req sn trade_code).order_total_price ≡ pos 0
  unfolding new_order homestay_total food_total i64 ◌*ℤ◌ ◌+ℤ◌
  free req sn trade_code = ground arith

  -- Where the travel service has no homestay of the number that is asked for, the order API refuses
  -- the booking and changes nothing. The order RPC does not: a stay that ends after it starts is
  -- booked whenever the database takes the row, at the price 0.
  pub missing_homestay_booked :
      (req : CreateHomestayOrderReq) (user_id : ℤ) (sn trade_code : String) (d : TravelDb)
      (s : State Db) (res : SqlResult)
      → find_one homestay_table homestays req.homestay_id d ≡ err not_found
      → req.live_start_time <ℤ req.live_end_time
      → (insert_row order_table conn (new_order no_homestay req sn trade_code) s.db).0 ≡ ok res
      → (api_create_homestay_order conn marshals carry (detail_at d) req user_id sn trade_code s
          ≡ (err (new_err_msg "homestay no exists"), s))
        × ((create_homestay_order conn marshals (detail_at d) req sn trade_code s).0 ≡ ok sn)
        × ((create_homestay_order conn marshals (detail_at d) req sn trade_code s).1.db
            ≡ (insert_row order_table conn (new_order no_homestay req sn trade_code) s.db).1)
        × ((new_order no_homestay req sn trade_code).order_total_price ≡ pos 0)
  unfolding api_create_homestay_order create_homestay_order
  missing_homestay_booked req user_id sn trade_code d s res missing ordered inserted =
      let answer = missing_answer req.homestay_id d missing in
      let long : leb_ℤ req.live_end_time req.live_start_time ≡ false = ground arith in
      (
        ground (arith, answer),
        ground (arith, answer, long),
        ground (arith, answer, long),
        free req sn trade_code,
      )
