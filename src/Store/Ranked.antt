-- ===== src/Store/Ranked.antt =====
-- Machines whose steps are counted.
use flash_sale_system.Common.{
  ◌≡◌, ◌⊎◌, inl, inr, ap, ◌∙◌, ℕ, suc, ◌≤◌, List, [], ◌∷◌, ℤ, pos, i64, i64_in_range, ◌+ℤ◌, arith,
}

abbrev pub In : {A : Type 0} → A → List A → Type 0
In x [] = ⊥
In x (y ∷ ys) = (x ≡ y) ⊎ In x ys

-- The steps of a machine, each of which raises the rank; ranks end at 2.
pub record IsRanked (Step : ℤ → ℤ → Type 0) (rank : ℤ → ℕ) : Type 0 where
  pub rank-step : (a b : ℤ) → Step a b → rank b ≡ suc (rank a)
  pub rank-le : (a : ℤ) → rank a ≤ 2

-- One step, or none.
abbrev pub Moves : (ℤ → ℤ → Type 0) → ℤ → ℤ → Type 0
Moves Step a b = (a ≡ b) ⊎ Step a b

-- Any number of steps.
pub data Reaches (Step : ℤ → ℤ → Type 0) : ℤ → ℤ → Type 0 where
  stays : {a : ℤ} → Reaches Step a a
  goes : {a b c : ℤ} → Step a b → Reaches Step b c → Reaches Step a c

pub Reaches-move :
    {Step : ℤ → ℤ → Type 0} (a b c : ℤ) → Moves Step a b → Reaches Step b c → Reaches Step a c
Reaches-move {Step} a b c (inl e) r = rw e r
Reaches-move a b c (inr s) r = goes s r

pub i64-suc : (n : ℕ) → n ≤ 2 → i64 (pos n +ℤ pos 1) ≡ pos (suc n)
unfolding ◌+ℤ◌
i64-suc n h =
    let sum : pos n +ℤ pos 1 ≡ pos (suc n) = ground arith in
    ap i64 sum ∙ i64_in_range (pos (suc n)) (ground arith)
