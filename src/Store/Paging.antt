-- ===== src/Store/Paging.antt =====
-- The pages of `FindPageListByIdDESC` (homestayOrderModel_gen.go), keyed by the last id seen.
use mathlib.Core.List.{Perm}
use flash_sale_system.Common.{
  Bool, ◌≡◌, refl, ◌&&◌, ◌≤ℤ◌, some, List, [], ◌∷◌, ◌++◌, ℕ, ℤ, pos, ltb_ℤ, ◌<ℤ◌, to_word, ok,
  filter, take, All, arith, ap, fun_ext, ◌∙◌,
}
use flash_sale_system.Store.{Table, Conn, id_desc, is_live, is_below, find_page_list_by_id_desc}
use flash_sale_system.Store.Sql.{IsSql}

module _ {Row : Type 0} (id : Row → ℤ) where
  -- Each row's id is above those of the rows after it.
  abbrev pub IsDescending : List Row → Type 0
  IsDescending [] = Unit
  IsDescending (r ∷ rows) = All (λ s. id s <ℤ id r) rows × IsDescending rows

-- An ordered and limited query of MySQL: `listing d` is the whole table by falling id.
pub record IsOrdered {Db Row : Type 0} {t : Table Row} {conn : Conn Db Row} (sql : IsSql t conn)
    : Type 0 where
  pub listing : Db → List Row
  pub listing_rows : (d : Db) → Perm (listing d) (sql.rows d)
  pub listing-IsDescending : (d : Db) → IsDescending t.id (listing d)
  pub page :
      (p : Row → Bool) (n : ℕ) (d : Db) (l : List Row)
      → conn.find_rows (record { condition = p; order_by = id_desc; offset = 0; limit = some n }) d
        ≡ ok l
      → l ≡ take n (filter p (listing d))

All-filter :
    {Row : Type 0} (P : Row → Type 0) (p : Row → Bool) (rows : List Row)
    → All P rows
    → All P (filter p rows)
All-filter P p [] h = tt
All-filter P p (r ∷ rows) h = ground (arith, All-filter P p rows h.1)

IsDescending-filter :
    {Row : Type 0} (id : Row → ℤ) (p : Row → Bool) (rows : List Row)
    → IsDescending id rows
    → IsDescending id (filter p rows)
IsDescending-filter id p [] h = tt
IsDescending-filter id p (r ∷ rows) h =
    ground (arith, All-filter (λ s. id s <ℤ id r) p rows h.0, IsDescending-filter id p rows h.1)

filter-filter :
    {Row : Type 0} (p q both : Row → Bool)
    → ((r : Row) → both r ≡ (p r && q r))
    → (rows : List Row) → filter both rows ≡ filter q (filter p rows)
filter-filter p q both h [] = refl
filter-filter p q both h (r ∷ rows) = ground (arith, h r, filter-filter p q both h rows)

pub All-middle :
    {Row : Type 0} (P : Row → Type 0) (xs : List Row) (x : Row) (ys : List Row)
    → All P (xs ++ x ∷ ys)
    → P x
All-middle P [] x ys h = h.0
All-middle P (y ∷ xs) x ys h = All-middle P xs x ys h.1

filter_below-All :
    {Row : Type 0} (id : Row → ℤ) (i : ℤ) (rows : List Row)
    → All (λ s. id s <ℤ i) rows
    → filter (λ r. ltb_ℤ (id r) i) rows ≡ rows
filter_below-All id i [] h = refl
filter_below-All id i (r ∷ rows) h = ground (arith, filter_below-All id i rows h.1)

-- Of a descending list, the rows below a member are those behind it.
filter_below :
    {Row : Type 0} (id : Row → ℤ) (xs : List Row) (x : Row) (ys : List Row)
    → IsDescending id (xs ++ x ∷ ys)
    → filter (λ r. ltb_ℤ (id r) (id x)) (xs ++ x ∷ ys) ≡ ys
filter_below id [] x ys h = ground (arith, filter_below-All id (id x) ys h.0)
filter_below id (y ∷ xs) x ys h =
    ground (arith, All-middle (λ s. id s <ℤ id y) xs x ys h.0, filter_below id xs x ys h.1)

module _ {Db Row : Type 0} (t : Table Row) (conn : Conn Db Row) (sql : IsSql t conn)
    (ordered : IsOrdered sql) where
  -- The rows that a list of pages goes through: those that are not deleted and meet the condition.
  abbrev pub visible : (Row → Bool) → Db → List Row
  visible condition d = filter (λ r. condition r && is_live t r) (ordered.listing d)

  -- The page that is asked for with the id of a visible row `x`, a positive one, holds the next
  -- `page_size` visible rows behind `x` in the order of falling ids: it repeats none and skips none.
  pub page_after :
      (condition : Row → Bool) (page_size : ℤ) (d : Db) (xs : List Row) (x : Row) (ys l : List Row)
      → visible condition d ≡ xs ++ x ∷ ys
      → pos 0 <ℤ t.id x
      → find_page_list_by_id_desc t conn condition (t.id x) page_size d ≡ ok l
      → l ≡ take (to_word page_size) ys
  unfolding find_page_list_by_id_desc
  page_after condition page_size d xs x ys l split positive h =
      ordered.page (is_below t condition (t.id x)) (to_word page_size) d l h
      ∙ ap (take (to_word page_size)) (
          behind
          ∙ ap (filter (λ r. ltb_ℤ (t.id r) (t.id x))) split
          ∙ filter_below t.id xs x ys (rw split at descending))
    where
      behind :
          filter (is_below t condition (t.id x)) (ordered.listing d)
          ≡ filter (λ r. ltb_ℤ (t.id r) (t.id x)) (visible condition d)
      behind =
          filter-filter (λ r. condition r && is_live t r) (λ r. ltb_ℤ (t.id r) (t.id x))
            (is_below t condition (t.id x)) (λ r. ground arith) (ordered.listing d)

      descending : IsDescending t.id (visible condition d)
      descending =
          IsDescending-filter t.id (λ r. condition r && is_live t r) (ordered.listing d)
            (ordered.listing-IsDescending d)

  -- Without a last id (0 or less) the page is the first `page_size` visible rows.
  pub page_first :
      (condition : Row → Bool) (last page_size : ℤ) (d : Db) (l : List Row)
      → last ≤ℤ pos 0
      → find_page_list_by_id_desc t conn condition last page_size d ≡ ok l
      → l ≡ take (to_word page_size) (visible condition d)
  unfolding find_page_list_by_id_desc
  page_first condition last page_size d l h e =
      ordered.page (is_below t condition last) (to_word page_size) d l e
      ∙ ap (λ p. take (to_word page_size) (filter p (ordered.listing d))) no_bound
    where
      no_bound : is_below t condition last ≡ (λ r. condition r && is_live t r)
      no_bound = fun_ext (λ r. ground arith)
