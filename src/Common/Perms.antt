-- ===== src/Common/Perms.antt =====
-- Lists up to the order of their members.
use mathlib.Core.Path.{◌≡◌, ap, sym}
use mathlib.Core.Logic.{∥∥₁_elim, ∥∥₁_prop}
use mathlib.Core.List.Perm
use mathlib.Core.List.{List, ◌∷◌, ◌++◌, flat_map, append_assoc, Perm, Permᴰ, perm_append_comm}

perm_of_eq : {A : Type 0} (xs ys : List A) → xs ≡ ys → Perm xs ys
perm_of_eq xs ys e = rw e (Perm.refl ys)

append_swap_front : {A : Type 0} (xs ys zs : List A) → Perm (xs ++ (ys ++ zs)) (ys ++ (xs ++ zs))
append_swap_front xs ys zs = Perm.trans (perm_of_eq _ _ (sym (append_assoc xs ys zs))) (
    Perm.trans (Perm.append_right zs (perm_append_comm xs ys))
      (perm_of_eq _ _ (append_assoc ys xs zs)))

flat_map-Permᴰ :
    {A B : Type 0} (f : A → List B) (xs ys : List A)
    → Permᴰ xs ys
    → Perm (flat_map f xs) (flat_map f ys)
unfolding flat_map
flat_map-Permᴰ f xs ys Permᴰ.nil = Perm.nil
flat_map-Permᴰ f (a ∷ xs) (b ∷ ys) (Permᴰ.cons e p) =
    Perm.append (perm_of_eq (f a) (f b) (ap f e)) (flat_map-Permᴰ f xs ys p)
flat_map-Permᴰ f _ _ (Permᴰ.swap {a' = c} {b' = d} {l = zs} e g) =
    rw (e, g) (append_swap_front (f d) (f c) (flat_map f zs))
flat_map-Permᴰ f xs zs (Permᴰ.trans {l₂ = ys} p q) =
    Perm.trans (flat_map-Permᴰ f xs ys p) (flat_map-Permᴰ f ys zs q)

pub flat_map-Perm :
    {A B : Type 0} (f : A → List B) (xs ys : List A)
    → Perm xs ys
    → Perm (flat_map f xs) (flat_map f ys)
flat_map-Perm f xs ys p = ∥∥₁_elim p ∥∥₁_prop (flat_map-Permᴰ f xs ys)
