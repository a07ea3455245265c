-- ===== src/Store/Tally.antt =====
-- The changes behind the rows of a table, counted: what the writes of the generated models
-- (app/payment/model/thirdPaymentModel_gen.go, and its like) do to the sum of the rows' ranks, where a
-- row's version is the number of changes behind it.
use flash_sale_system.Common.{
  Bool, true, ◌≡◌, refl, sym, ap, ◌∙◌, inl, inr, ℕ, suc, ◌+◌, ◌≤◌, ◌<◌, List, [], ◌∷◌, ◌++◌, map,
  count, ℤ, pos, tests, i64, ◌+ℤ◌, pos_part, ok, if◌then◌else◌, Bool-cases, arith,
}
use flash_sale_system.Store.{Table, Conn, is_current, update_with_version, insert_row}
use flash_sale_system.Store.Sql.{IsTable, IsSql}
use flash_sale_system.Store.Version.{written, update_with_version_done}
use flash_sale_system.Store.Keys.{update_rows, inserted_row, insert_rows, version-written}
use flash_sale_system.Store.Ranked.{In, IsRanked, i64-suc}
use flash_sale_system.Store.Stamps.{updated_row, new_row}

-- The sum of a measure over a list.
abbrev pub total : {A : Type 0} → (A → ℕ) → List A → ℕ
total f [] = 0
total f (x ∷ xs) = f x + total f xs

pub total-write :
    {A : Type 0} (measure : A → ℕ) (p : A → Bool) (f : A → A) (rows : List A)
    → ((r : A) → In r rows → p r ≡ true → measure (f r) ≡ suc (measure r))
    → total measure (map (λ r. if p r then f r else r) rows) ≡ total measure rows + count p rows
total-write measure p f [] one_more = refl
total-write measure p f (r ∷ rows) one_more =
    let rest = total-write measure p f rows (λ x m. one_more x (inr m)) in
    elim (Bool-cases (p r)) [
      | inl passes ↦ ground (arith, rest, one_more r (inl refl) passes)
      | inr fails ↦ ground (arith, rest)
    ]

pub total-snoc :
    {A : Type 0} (measure : A → ℕ) (rows : List A) (r : A)
    → total measure (rows ++ r ∷ []) ≡ total measure rows + measure r
total-snoc measure [] r = omega arith
total-snoc measure (x ∷ rows) r = omega (arith, total-snoc measure rows r)

module _ {Db Row : Type 0} (t : Table Row) (conn : Conn Db Row) (tab : IsTable t)
    (sql : IsSql t conn) (state : Row → ℤ) {Step : ℤ → ℤ → Type 0} {rank : ℤ → ℕ}
    (ranked : IsRanked Step rank)
    (kept : (new : Row) (d : Db) (r : Row) (a : ℤ)
      → Step a (state new)
      → state (written t conn tab sql new d r) ≡ state new) where
  -- The version of a row counts the changes behind its state.
  abbrev pub AreCounted : List Row → Type 0
  AreCounted rows = (r : Row) → In r rows → t.version r ≡ pos (rank (state r))

  abbrev pub changes : Db → ℕ
  changes d = total (λ r. rank (state r)) (sql.rows d)

  module _ (d : Db) (o new : Row) (counted : AreCounted (sql.rows d))
      (copied : t.version o ≡ pos (rank (state o))) (go : Step (state o) (state new))
      (same_version : t.version new ≡ t.version o) where
    written_rank : (r : Row) → rank (state (written t conn tab sql new d r)) ≡ suc (rank (state o))
    written_rank r = ap rank (kept new d r (state o) go) ∙ ranked.rank-step (state o) (state new) go

    current_rank :
        (r : Row)
        → In r (sql.rows d)
        → is_current t new r ≡ true
        → rank (state (written t conn tab sql new d r)) ≡ suc (rank (state r))
    current_rank r m current =
        let own : t.version r ≡ t.version new = grind tests in
        let same : pos (rank (state r)) ≡ pos (rank (state o)) =
          sym (counted r m) ∙ own ∙ same_version ∙ copied in
        written_rank r ∙ ap (λ v. suc (pos_part v)) (sym same)

    pub written_counted :
        (r : Row)
        → t.version (written t conn tab sql new d r)
          ≡ pos (rank (state (written t conn tab sql new d r)))
    written_counted r =
        version-written t conn tab sql new d r
        ∙ ap (λ v. i64 (v +ℤ pos 1)) (same_version ∙ copied)
        ∙ i64-suc (rank (state o)) (ranked.rank-le (state o))
        ∙ ap pos (sym (written_rank r))

    -- `UpdateWithVersion` of a copy in a state that a step leads to: the rows stay counted, no change
    -- is undone, and a write that succeeds is a change.
    pub write_AreCounted :
        AreCounted (sql.rows (update_with_version t conn new d).1)
        × (changes d ≤ changes (update_with_version t conn new d).1)
        × ((update_with_version t conn new d).0 ≡ ok tt
            → changes d < changes (update_with_version t conn new d).1)
    write_AreCounted =
        let more =
          total-write (λ r. rank (state r)) (is_current t new) (written t conn tab sql new d)
            (sql.rows d) current_rank in
        (
          λ x m. elim (updated_row t conn tab sql new x d m) [
            | inl old ↦ counted x old
            | inr (r, e) ↦ rw e (written_counted r)
          ],
          elim (update_rows t conn tab sql new d) [
            | inl same ↦ rw same (omega arith)
            | inr run ↦ rw (run, more) (omega arith)
          ],
          λ done.
              let (run, some_row) = update_with_version_done t conn tab sql new d done in
              rw (run, more) (omega (arith, some_row)),
        )

  -- `Insert` of a row of version 0 in a state of rank 0.
  pub insert_AreCounted :
      (r : Row) (d : Db)
      → AreCounted (sql.rows d)
      → t.version (inserted_row t conn tab sql r d) ≡ pos 0
      → rank (state (inserted_row t conn tab sql r d)) ≡ 0
      → AreCounted (sql.rows (insert_row t conn r d).1)
        × (changes d ≤ changes (insert_row t conn r d).1)
  insert_AreCounted r d counted version_0 rank_0 = (
    λ x m. elim (new_row t conn tab sql r x d m) [
      | inl old ↦ counted x old
      | inr e ↦ rw e (version_0 ∙ ap pos (sym rank_0))
    ],
    elim (insert_rows t conn tab sql r d) [
      | inl same ↦ rw same (omega arith)
      | inr grown ↦ rw grown (
          omega (
            arith,
            total-snoc (λ x. rank (state x)) (sql.rows d) (inserted_row t conn tab sql r d),
          ))
    ],
  )
