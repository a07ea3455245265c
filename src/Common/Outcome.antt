-- ===== src/Common/Outcome.antt =====
-- What a Go function of the services returns: a value, an error, or a run-time panic; and an
-- action, which also changes a state.
use Prim.Native.Nat.{ℕ}
use Prim.Native.String.{String}
use mathlib.Core.Path.{◌≡◌, refl}
use mathlib.Core.Logic.{◌⊎◌, inl, inr}
use mathlib.Core.Bool.{Bool}
use mathlib.Core.Option.{Option, none, some}
use flash_sale_system.Common.Tests.{if◌then◌else◌}

-- The root of a Go error chain, what `errors.Cause` finds; the texts that `errors.Wrapf` adds
-- are only logged and are left out.
--   code_error: `*xerr.CodeError`; status: a gRPC status; not_found: `sqlx.ErrNotFound`;
--   no_rows_update: `ErrNoRowsUpdate`; other: any other error, by its text.
pub data Error : Type 0 where
  code_error status : ℕ → String → Error
  not_found no_rows_update : Error
  other : String → Error

pub data Result (A : Type 0) : Type 0 where
  ok : A → Result A
  err : Error → Result A
  panic : Result A

abbrev pub Action : Type 0 → Type 0 → Type 0
Action S A = S → Result A × S

module _ {S A : Type 0} where
  abbrev pub pure : A → Action S A
  pure a s = (ok a, s)

  abbrev pub raise : Error → Action S A
  raise e s = (err e, s)

  abbrev pub panics : Action S A
  panics s = (panic, s)

  -- A call that has returned, as a step of an action.
  abbrev pub returned : Result A → Action S A
  returned r s = (r, s)

infixl 5 ◌>>=◌ ◌>>◌
abbrev pub ◌>>=◌ : {S A B : Type 0} → Action S A → (A → Action S B) → Action S B
◌>>=◌ m f s =
    let (r, s') = m s in elim r [ ok a ↦ f a s' | err e ↦ (err e, s') | panic ↦ (panic, s') ]

abbrev pub ◌>>◌ : {S A B : Type 0} → Action S A → Action S B → Action S B
m >> k = m >>= λ _. k

-- `if c { return nil, e }`
abbrev pub raise_if : {S : Type 0} → Bool → Error → Action S (Unit {0})
raise_if c e s = (if c then err e else ok tt, s)

-- `if err != nil { return nil, errors.Wrapf(e, ...) }`
abbrev pub wrap : {S A : Type 0} → Error → Action S A → Action S A
wrap e m s = let (r, s') = m s in (elim r [ ok a ↦ ok a | err _ ↦ err e | panic ↦ panic ], s')

-- `s + t` of texts
abbrev pub append : String → String → String
append String.[] t = t
append (String.◌∷◌ c s) t = String.◌∷◌ c (append s t)

pub Result-cases :
    {A : Type 0} (r : Result A) → ((a : A) × (r ≡ ok a)) ⊎ ((e : Error) × (r ≡ err e)) ⊎ (r ≡ panic)
Result-cases (ok a) = inl (a, refl)
Result-cases (err e) = inr (inl (e, refl))
Result-cases panic = inr (inr refl)

-- A query of one row, as the logic reads it: a missing row is `nil`, and any other error another one.
pub row-cases :
    {A : Type 0} (e : Error) (r : Result A)
    → let read : Result (Option A) = elim r [
      | ok a ↦ ok (some a)
      | err x ↦ elim x [ not_found ↦ ok none | _ ↦ err e ]
      | panic ↦ panic
    ] in
      ((a : A) × (r ≡ ok a)) ⊎ (read ≡ ok none) ⊎ (read ≡ err e) ⊎ (read ≡ panic)
row-cases e (ok a) = inl (a, refl)
row-cases e (err not_found) = inr (inl refl)
row-cases e (err no_rows_update) = inr (inr (inl refl))
row-cases e (err (code_error code msg)) = inr (inr (inl refl))
row-cases e (err (status code msg)) = inr (inr (inl refl))
row-cases e (err (other text)) = inr (inr (inl refl))
row-cases e panic = inr (inr (inr refl))
