-- ===== src/Order/ApiLaws.antt =====
-- What the order API shows to a user.
use flash_sale_system.Common.{
  ◌⊎◌, ◌↔◌, tests, not, ◌&&◌, ◌==ℤ◌, Bool-cases, ◌≡◌, ◌≢◌, refl, sym, ◌∙◌, inl, inr, Option, some,
  none, String, ℤ, pos, Result, ok, err, panic, Error, not_found, arith, Result-cases,
}
use flash_sale_system.Store.{Conn}
use flash_sale_system.Reply.{remote}
use flash_sale_system.Order.{HomestayOrder, cancel, wait_pay}
use flash_sale_system.Order.Trade.{find_one_by_sn}
use flash_sale_system.Order.Query.{homestay_order_detail, to_pb, PbHomestayOrder, no_order}
use flash_sale_system.Order.Api.{
  Floats, OrderDetailView, detail_view, with_payment, detail_of, user_homestay_order_detail,
}
use flash_sale_system.Payment.Query.{PaymentDetail}

with_payment-sn :
    {Float : Type 0} (v w : OrderDetailView Float) (r : Result (Option PaymentDetail))
    → with_payment v r ≡ ok (some w)
    → w.sn ≡ v.sn
with_payment-sn v w (ok none) h = cc
with_payment-sn v w (ok (some p)) h = ground arith
with_payment-sn v w (err e) h = cc
with_payment-sn v w panic h = cc

module _ {Db Float : Type 0} (conn : Conn Db HomestayOrder) (carry : Error → Error)
    (floats : Floats Float) (payment : String → Result (Option PaymentDetail)) where
  detail_of-own :
      (user_id : ℤ) (o : PbHomestayOrder) (v : OrderDetailView Float)
      → detail_of conn carry floats payment user_id (some o) ≡ ok (some v)
      → (o.user_id ≡ user_id) × (v.sn ≡ o.sn)
  unfolding detail_view
  detail_of-own user_id o v h =
      (ground arith, ground (arith, with_payment-sn (detail_view floats o) v (payment o.sn)))

  detail_of_found :
      (user_id : ℤ) (sn : String) (d : Db) (o : HomestayOrder)
      → find_one_by_sn conn sn d ≡ ok o
      → user_homestay_order_detail conn carry floats payment user_id sn d
        ≡ detail_of conn carry floats payment user_id (some (to_pb o))
  unfolding user_homestay_order_detail homestay_order_detail remote
  detail_of_found user_id sn d o found = rw (found, user_homestay_order_detail) refl

  detail_of_missing :
      (user_id : ℤ) (sn : String) (d : Db)
      → find_one_by_sn conn sn d ≡ err not_found
      → user_homestay_order_detail conn carry floats payment user_id sn d
        ≡ detail_of conn carry floats payment user_id (some no_order)
  unfolding user_homestay_order_detail homestay_order_detail remote
  detail_of_missing user_id sn d missing = rw (missing, user_homestay_order_detail) refl

  detail_of_failed :
      (user_id : ℤ) (sn : String) (d : Db) (e : Error) (v : OrderDetailView Float)
      → find_one_by_sn conn sn d ≡ err e
      → e ≢ not_found
      → user_homestay_order_detail conn carry floats payment user_id sn d ≢ ok (some v)
  unfolding user_homestay_order_detail homestay_order_detail remote
  detail_of_failed user_id sn d e v failed other_error h = ground arith

  detail_of_panicked :
      (user_id : ℤ) (sn : String) (d : Db) (v : OrderDetailView Float)
      → find_one_by_sn conn sn d ≡ panic
      → user_homestay_order_detail conn carry floats payment user_id sn d ≢ ok (some v)
  unfolding user_homestay_order_detail homestay_order_detail remote
  detail_of_panicked user_id sn d v panicked h = ground arith

  -- A signed-in user (one whose id is not 0) is shown an order only if it is on record under the
  -- number asked for, and it is the user's own.
  pub shown_order_own :
      (user_id : ℤ) (sn : String) (d : Db) (v : OrderDetailView Float)
      → user_id ≢ pos 0
      → user_homestay_order_detail conn carry floats payment user_id sn d ≡ ok (some v)
      → (o : HomestayOrder) × (find_one_by_sn conn sn d ≡ ok o)
        × (o.user_id ≡ user_id)
        × (v.sn ≡ o.sn)
  unfolding to_pb
  shown_order_own user_id sn d v signed_in h = elim (Result-cases (find_one_by_sn conn sn d)) [
    | inl (o, found) ↦
        let (own, same) =
          detail_of-own user_id (to_pb o) v (sym (detail_of_found user_id sn d o found) ∙ h) in
        (o, found, own, same)
    | inr (inl (Error.not_found, missing)) ↦ absurd (
        signed_in (
          sym
            (detail_of-own user_id no_order v
              (sym (detail_of_missing user_id sn d missing) ∙ h)).0))
    | inr (inl (e, failed)) ↦
        absurd (detail_of_failed user_id sn d e v failed (λ same. ground arith) h)
    | inr (inr panicked) ↦ absurd (detail_of_panicked user_id sn d v panicked h)
  ]

  -- The order was found and the call of the payment RPC has failed.
  abbrev pub IsPaymentLost : ℤ → String → Db → HomestayOrder → Type 0
  IsPaymentLost user_id sn d o =
      (find_one_by_sn conn sn d ≡ ok o)
      × (o.user_id ≡ user_id)
      × (o.trade_state ≢ cancel)
      × (o.trade_state ≢ wait_pay)
      × (((e : Error) × (payment o.sn ≡ err e)) ⊎ (payment o.sn ≡ panic))

  panics_for :
      (user_id : ℤ) (sn : String) (d : Db) (o : HomestayOrder)
      → find_one_by_sn conn sn d ≡ ok o
      → detail_of conn carry floats payment user_id (some (to_pb o)) ≡ panic
      → IsPaymentLost user_id sn d o
  unfolding to_pb
  panics_for user_id sn d o found h = elim (Bool-cases (o.user_id ==ℤ user_id)) [
    | inr another ↦ absurd (ground arith)
    | inl own ↦
        elim (Bool-cases (not (o.trade_state ==ℤ cancel) && not (o.trade_state ==ℤ wait_pay))) [
          | inr unpaid ↦ absurd (ground arith)
          | inl paid ↦ elim (Result-cases (payment o.sn)) [
            | inl (none, none_such) ↦ absurd (ground arith)
            | inl (some p, told) ↦ absurd (ground arith)
            | inr (inl (e, failed)) ↦
                (found, grind tests, grind tests, grind tests, inl (e, failed))
            | inr (inr failed) ↦ (found, grind tests, grind tests, grind tests, inr failed)
          ]
        ]
  ]

  no_order-ne-panic :
      (user_id : ℤ) → detail_of conn carry floats payment user_id (some no_order) ≢ panic
  no_order-ne-panic user_id h = ground arith

  unread-ne-panic :
      (user_id : ℤ) (sn : String) (d : Db) (e : Error)
      → (find_one_by_sn conn sn d ≡ err e) × (e ≢ not_found) ⊎ (find_one_by_sn conn sn d ≡ panic)
      → user_homestay_order_detail conn carry floats payment user_id sn d ≢ panic
  unfolding user_homestay_order_detail homestay_order_detail remote
  unread-ne-panic user_id sn d e (inl failed) h = ground arith
  unread-ne-panic user_id sn d e (inr failed) h = ground arith

  -- The request for an order panics in one case only, and always in that case: the order is found
  -- under its number, is the user's own and neither cancelled nor waiting for its payment, and the
  -- call for its payment fails. That error is only logged, then a field of a nil response is read.
  -- Whatever else fails is answered.
  pub user_homestay_order_detail-panic :
      (user_id : ℤ) (sn : String) (d : Db)
      → (user_homestay_order_detail conn carry floats payment user_id sn d ≡ panic)
        ↔ ((o : HomestayOrder) × IsPaymentLost user_id sn d o)
  unfolding to_pb
  user_homestay_order_detail-panic user_id sn d = (
    λ h. elim (Result-cases (find_one_by_sn conn sn d)) [
      | inl (o, found) ↦
          (o, panics_for user_id sn d o found (sym (detail_of_found user_id sn d o found) ∙ h))
      | inr (inl (Error.not_found, missing)) ↦
          absurd (no_order-ne-panic user_id (sym (detail_of_missing user_id sn d missing) ∙ h))
      | inr (inl (e, failed)) ↦
          absurd (unread-ne-panic user_id sn d e (inl (failed, λ same. ground arith)) h)
      | inr (inr failed) ↦ absurd (unread-ne-panic user_id sn d not_found (inr failed) h)
    ],
    λ (o, (found, own, active, paid, lost)).
        detail_of_found user_id sn d o found
        ∙ elim lost [ inl (e, failed) ↦ ground arith | inr failed ↦ ground arith ],
  )
