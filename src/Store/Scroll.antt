-- ===== src/Store/Scroll.antt =====
-- Going through the pages of a list whose next page is asked for by the id of the last row seen, as the
-- callers of `FindPageListByIdDESC` (homestayOrderModel_gen.go) do.
use mathlib.Core.List.{append_assoc}
use flash_sale_system.Common.{
  ◌≡◌, refl, sym, ap, ◌∙◌, List, [], ◌∷◌, ◌++◌, take, length, ℕ, zero, suc, ◌+◌, ◌<◌, ℤ, Result, ok,
  err, panic, arith,
}

abbrev last_of : {A : Type 0} → A → List A → A
last_of r [] = r
last_of r (s ∷ rows) = last_of s rows

-- One page after the other, from behind the id `last`, until one is empty.
abbrev pub scroll : {A : Type 0} → (ℤ → Result (List A)) → (A → ℤ) → ℕ → ℤ → Result (List A)
scroll page id zero last = ok []
scroll page id (suc fuel) last = elim (page last) [
  | ok l ↦ elim l [
    | [] ↦ ok []
    | r ∷ rows ↦ elim (scroll page id fuel (id (last_of r rows))) [
      | ok more ↦ ok ((r ∷ rows) ++ more)
      | err e ↦ err e
      | panic ↦ panic
    ]
  ]
  | err e ↦ err e
  | panic ↦ panic
]

-- A list as a page and what is behind it.
page_split :
    {A : Type 0} (n : ℕ) (l : List A)
    → (zs : List A) × (l ≡ take n l ++ zs) × (length zs + length (take n l) ≡ length l)
page_split zero l = (l, refl, omega arith)
page_split (suc n) [] = ([], refl, refl)
page_split (suc n) (x ∷ l) =
    let (zs, e, long) = page_split n l in (zs, ap (λ k. x ∷ k) e, omega (arith, long))

-- The last row of a page, with those before it.
last_split :
    {A : Type 0} (r : A) (rows zs : List A)
    → (pre : List A) × ((r ∷ rows) ++ zs ≡ pre ++ last_of r rows ∷ zs)
last_split r [] zs = ([], refl)
last_split r (s ∷ rows) zs = let (pre, e) = last_split s rows zs in (r ∷ pre, ap (λ k. r ∷ k) e)

module _ {A : Type 0} (page : ℤ → Result (List A)) (id : A → ℤ) (m : ℕ) (all : List A)
    (next : (xs : List A) (z : A) (zs : List A)
      → all ≡ xs ++ z ∷ zs
      → page (id z) ≡ ok (take (suc m) zs)) where
  scroll_rest :
      (fuel : ℕ) (last : ℤ) (xs ys : List A)
      → all ≡ xs ++ ys
      → page last ≡ ok (take (suc m) ys)
      → length ys < fuel
      → scroll page id fuel last ≡ ok ys
  scroll_rest zero last xs ys split here enough = absurd (omega (arith, enough))
  scroll_rest (suc fuel) last xs [] split here enough = rw (here, scroll) refl
  scroll_rest (suc fuel) last xs (y ∷ l) split here enough =
      let (zs, e, long) = page_split m l in
      let (pre, e') = last_split y (take m l) zs in
      let parts : y ∷ l ≡ (y ∷ take m l) ++ zs = ap (λ k. y ∷ k) e in
      let behind =
        next (xs ++ pre) (last_of y (take m l)) zs
          (split ∙ ap (λ k. xs ++ k) (parts ∙ e') ∙ sym (append_assoc xs pre _)) in
      let rest =
        scroll_rest fuel (id (last_of y (take m l))) (xs ++ y ∷ take m l) zs
          (split ∙ ap (λ k. xs ++ k) parts ∙ sym (append_assoc xs (y ∷ take m l) zs)) behind
          (omega (arith, long, enough)) in
      rw (here, rest, scroll) (ap ok (sym parts))

  -- If each page holds the rows behind the last one seen, the pages together hold all rows, in their
  -- order and each once, and the reading ends.
  pub scroll_lem :
      (fuel : ℕ) (last : ℤ)
      → page last ≡ ok (take (suc m) all)
      → length all < fuel
      → scroll page id fuel last ≡ ok all
  scroll_lem fuel last here enough = scroll_rest fuel last [] all refl here enough
