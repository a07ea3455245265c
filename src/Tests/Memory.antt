-- ===== src/Tests/Memory.antt =====
-- A database for the tests: a list of rows, on which every statement is run and no call fails.
use flash_sale_system.Common.{
  String, leb, ◌-◌, ◌==◌, false, ◌&&◌, if◌then◌else◌, str_eq, ◌∙◌, ◌≡◌, ◌≢◌, refl, ap, sym, ℕ, List,
  filter, find, take, length, Option, some, none, Result, ok, err, panic, Error, not_found, ℤ, pos,
  pos_part, suc, ◌+◌, ◌≤◌, [], ◌∷◌, Bool, true, inl, inr, Bool-cases, arith,
}
use flash_sale_system.Tool.{bytes}
use flash_sale_system.Store.Sql.{IsCollation, IsCapital}
use flash_sale_system.Store.{Table, Conn}
use flash_sale_system.Store.Sql.{IsSql, IsTable, after, affected}
use flash_sale_system.Store.Ranked.{In}
use flash_sale_system.Store.Stamps.{IsStamped, In-map, In-of_map}

abbrev pub next_id : ℤ
next_id = pos 9

abbrev pub row_or_not_found : {Row : Type 0} → Option Row → Result Row
row_or_not_found (some r) = ok r
row_or_not_found none = err not_found

abbrev page_of : {Row : Type 0} → Option ℕ → List Row → List Row
page_of none rows = rows
page_of (some n) rows = take n rows

abbrev pub memory : {Row : Type 0} → Table Row → Conn (List Row) Row
memory t = record {
  exec = λ q d. (
    ok (record { last_insert_id = next_id; rows_affected = pos (affected q d) }),
    after t (λ r. r) next_id q d,
  );
  find_row = λ p d. row_or_not_found (find p d);
  find_rows = λ q d. ok (page_of q.limit (filter q.condition d));
  find_count = λ p field d. ok (pos (length (filter p d)));
  text_eq = str_eq;
}

pub ok-injective : {A : Type 0} (a b : A) → ◌≡◌ {A = Result A} (ok a) (ok b) → a ≡ b
ok-injective a b h = cc

pub ok-ne-err : {A : Type 0} (a : A) (e : Error) → ◌≢◌ {A = Result A} (ok a) (err e)
ok-ne-err a e h = cc

pub ok-ne-panic : {A : Type 0} (a : A) → ◌≢◌ {A = Result A} (ok a) panic
ok-ne-panic a h = cc

abbrev pub memory-IsSql : {Row : Type 0} (t : Table Row) → IsSql t (memory t)
memory-IsSql t = record {
  rows = λ d. d;
  column = λ d r. r;
  auto_id = λ d. next_id;
  id-column = λ d r. refl;
  version-column = λ d r. refl;
  del_state-column = λ d r. refl;
  exec_done = λ q d res h. (refl, λ renews. sym (ap (λ r. r.rows_affected) (ok-injective _ res h)));
  exec_failed = λ q d e h. absurd (ok-ne-err _ e h);
  exec_panicked = λ q d h. absurd (ok-ne-panic _ h);
}

-- Texts that are equal but for the case of their letters.
abbrev upper : ℕ → ℕ
upper c = if leb 97 c && leb c 122 then c - 32 else c

abbrev same_weights : List ℕ → List ℕ → Bool
same_weights [] [] = true
same_weights [] (y ∷ ys) = false
same_weights (x ∷ xs) [] = false
same_weights (x ∷ xs) (y ∷ ys) = (upper x == upper y) && same_weights xs ys

same_weights_sym : (xs ys : List ℕ) → same_weights xs ys ≡ true → same_weights ys xs ≡ true
same_weights_sym [] [] h = refl
same_weights_sym [] (y ∷ ys) h = absurd (ground arith)
same_weights_sym (x ∷ xs) [] h = absurd (ground arith)
same_weights_sym (x ∷ xs) (y ∷ ys) h =
    let rest = same_weights_sym xs ys (ground arith) in ground (arith, rest)

same_weights_trans :
    (xs ys zs : List ℕ)
    → same_weights xs ys ≡ true
    → same_weights ys zs ≡ true
    → same_weights xs zs ≡ true
same_weights_trans [] [] zs h k = k
same_weights_trans [] (y ∷ ys) zs h k = absurd (ground arith)
same_weights_trans (x ∷ xs) [] zs h k = absurd (ground arith)
same_weights_trans (x ∷ xs) (y ∷ ys) [] h k = absurd (ground arith)
same_weights_trans (x ∷ xs) (y ∷ ys) (z ∷ zs) h k =
    let rest = same_weights_trans xs ys zs (ground arith) (ground arith) in ground (arith, rest)

first_weights :
    (x y : ℕ) (xs ys : List ℕ)
    → same_weights (x ∷ xs) (y ∷ ys) ≡ true
    → IsCapital x
    → IsCapital y
    → x ≡ y
first_weights x y xs ys h cap_x cap_y = ground arith

abbrev pub any_case : String → String → Bool
any_case a b = same_weights (bytes a) (bytes b)

pub any_case-IsCollation : IsCollation any_case
any_case-IsCollation = record {
  symmetric = λ a b h. same_weights_sym (bytes a) (bytes b) h;
  transitive = λ a b c h k. same_weights_trans (bytes a) (bytes b) (bytes c) h k;
  first_capital = λ a b x y xs ys h bytes_a bytes_b cap_x cap_y.
      first_weights x y xs ys
        (ap (λ l. same_weights l (y ∷ ys)) (sym bytes_a)
          ∙ ap (λ l. same_weights (bytes a) l) (sym bytes_b)
          ∙ h)
        cap_x cap_y;
}

-- The database with new ids, as a column with AUTO_INCREMENT gives them, and with this collation.
abbrev pub id_sum : {Row : Type 0} → Table Row → List Row → ℕ
id_sum t [] = 0
id_sum t (r ∷ rows) = pos_part (t.id r) + id_sum t rows

abbrev pub serial : {Row : Type 0} → Table Row → Conn (List Row) Row
serial t = record (memory t) {
  text_eq = any_case;
  exec = λ q d. (
    ok (record { last_insert_id = pos (suc (id_sum t d)); rows_affected = pos (affected q d) }),
    after t (λ r. r) (pos (suc (id_sum t d))) q d,
  );
}

abbrev pub serial-IsSql : {Row : Type 0} (t : Table Row) → IsSql t (serial t)
serial-IsSql t = record {
  rows = λ d. d;
  column = λ d r. r;
  auto_id = λ d. pos (suc (id_sum t d));
  id-column = λ d r. refl;
  version-column = λ d r. refl;
  del_state-column = λ d r. refl;
  exec_done = λ q d res h. (refl, λ renews. sym (ap (λ r. r.rows_affected) (ok-injective _ res h)));
  exec_failed = λ q d e h. absurd (ok-ne-err _ e h);
  exec_panicked = λ q d h. absurd (ok-ne-panic _ h);
}

find-In :
    {Row : Type 0} (p : Row → Bool) (r : Row) (rows : List Row)
    → row_or_not_found (find p rows) ≡ ok r
    → (p r ≡ true) × In r rows
find-In p r [] h = absurd (ground arith)
find-In p r (x ∷ rows) h = elim (Bool-cases (p x)) [
  | inl passes ↦ let same : r ≡ x = ground arith in (rw same passes, inl same)
  | inr fails ↦ let (passes, m) = find-In p r rows (ground arith) in (passes, inr m)
]

id_sum-In :
    {Row : Type 0} (t : Table Row) (r : Row) (rows : List Row)
    → In r rows
    → pos_part (t.id r) ≤ id_sum t rows
id_sum-In t r [] m = elim m [ ]
id_sum-In t r (x ∷ rows) (inl e) = rw e (omega arith)
id_sum-In t r (x ∷ rows) (inr m) = omega (arith, id_sum-In t r rows m)

pub serial-IsStamped :
    {Row K : Type 0} (t : Table Row) (tab : IsTable t) (columns : Row → K)
    → IsStamped t (serial t) tab (serial-IsSql t) columns
serial-IsStamped t tab columns = record {
  columns-column = λ d r. refl;
  row_stamped = λ p r d h.
      let (passes, m) = find-In p r d h in (passes, In-map (λ x. (t.id x, columns x)) r d m);
  id_fresh = λ d k m.
      let (r, there, e) = In-of_map (λ x. (t.id x, columns x)) _ d m in
      let below = id_sum-In t r d there in
      let same : pos (suc (id_sum t d)) ≡ t.id r = ap (λ x. x.0) e in
      absurd (omega (arith, below, ap pos_part same));
}
