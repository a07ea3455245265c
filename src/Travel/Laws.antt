-- ===== src/Travel/Laws.antt =====
-- What the list of homestays does with a homestay that does not exist.
use flash_sale_system.Common.{
  ◌≡◌, ◌≢◌, inl, inr, List, [], ◌∷◌, ◌++◌, ℤ, Result, ok, err, panic, Error, not_found, arith,
  Result-cases,
}
use flash_sale_system.Store.{Conn, find_one}
use flash_sale_system.Travel.{Homestay, homestay_table}
use flash_sale_system.Travel.Api.{item_view, reduce_views}

module _ {Db Yuan : Type 0} (homestays : Conn Db Homestay) (fen2yuan : ℤ → Yuan) where
  pub item_view-ne-err : (r : Result Homestay) (e : Error) → item_view homestays fen2yuan r ≢ err e
  item_view-ne-err (ok h) e c = cc
  item_view-ne-err (err Error.not_found) e c = cc
  item_view-ne-err (err (Error.code_error code msg)) e c = cc
  item_view-ne-err (err (Error.status code msg)) e c = cc
  item_view-ne-err (err Error.no_rows_update) e c = cc
  item_view-ne-err (err (Error.other text)) e c = cc
  item_view-ne-err panic e c = cc

  -- If one of the activities names a homestay that is not found, the list panics, wherever its item
  -- comes among those of the other activities.
  pub missing_homestay_panics :
      (before : List ℤ) (i : ℤ) (behind : List ℤ) (d : Db)
      → find_one homestay_table homestays i d ≡ err not_found
      → reduce_views homestays fen2yuan (before ++ i ∷ behind) d ≡ panic
  unfolding reduce_views
  missing_homestay_panics [] i behind d missing = ground arith
  missing_homestay_panics (j ∷ before) i behind d missing =
      let rest = missing_homestay_panics before i behind d missing in
      elim (Result-cases (item_view homestays fen2yuan (find_one homestay_table homestays j d))) [
        | inl (v, e) ↦ ground arith
        | inr (inl (e, h)) ↦ absurd (item_view-ne-err (find_one homestay_table homestays j d) e h)
        | inr (inr h) ↦ ground arith
      ]
