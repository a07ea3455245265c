-- ===== src/Store/Keys.antt =====
-- The view of a table as a map from ids to rows, which forgets their order, and what the writes of
-- the generated models do to it.
use flash_sale_system.Common.{
  Bool, true, ◌≡◌, refl, sym, ap, ◌∙◌, ◌⊎◌, inl, inr, Option, none, some, List, [], ◌∷◌, ◌++◌, map,
  find, ℤ, pos, ◌&&◌, ◌==ℤ◌, tests, i64, ◌+ℤ◌, ok, Result-cases, if◌then◌else◌, arith,
}
use flash_sale_system.Store.{
  Table, Statement, Conn, is_current, is_live, next_version, update_with_version, insert_row,
  del_state_no,
}
use flash_sale_system.Store.Sql.{IsTable, IsSql}
use flash_sale_system.Store.Version.{written}

abbrev pub row_of : {Row : Type 0} → Table Row → ℤ → List Row → Option Row
row_of t i rows = find (λ r. t.id r ==ℤ i) rows

-- `id` is the primary key of a database: a query of one row returns the row of its id, as the table holds it. So a
-- row that the cache holds is as good as the table's.
pub record IsKeyed {Db Row : Type 0} {t : Table Row} {conn : Conn Db Row} (sql : IsSql t conn)
    (d : Db) : Type 0 where
  pub row_found :
      (p : Row → Bool) (r : Row)
      → conn.find_row p d ≡ ok r
      → (p r ≡ true) × (row_of t (t.id r) (sql.rows d) ≡ some r)

-- A write of the rows that pass a test, as the map sees it.
abbrev pub rewrite : {Row : Type 0} → (Row → Bool) → (Row → Row) → Option Row → Option Row
rewrite p f none = none
rewrite p f (some r) = some (if p r then f r else r)

pub row_of-map :
    {Row : Type 0} (t : Table Row) (p : Row → Bool) (f : Row → Row) (i : ℤ)
    → ((r : Row) → t.id (f r) ≡ t.id r)
    → (rows : List Row)
    → row_of t i (map (λ r. if p r then f r else r) rows) ≡ rewrite p f (row_of t i rows)
row_of-map t p f i same [] = refl
row_of-map t p f i same (r ∷ rows) = ground (arith, same r, row_of-map t p f i same rows)

pub row_of-append :
    {Row : Type 0} (t : Table Row) (i : ℤ) (rows : List Row) (new : Row)
    → row_of t i (rows ++ new ∷ []) ≡ elim (row_of t i rows) [
      | some r ↦ some r
      | none ↦ if t.id new ==ℤ i then some new else none
    ]
row_of-append t i [] new = ground arith
row_of-append t i (r ∷ rows) new = ground (arith, row_of-append t i rows new)

pub row_of-id :
    {Row : Type 0} (t : Table Row) (i : ℤ) (rows : List Row) (r : Row)
    → row_of t i rows ≡ some r
    → t.id r ≡ i
row_of-id t i [] r h = cc
row_of-id t i (x ∷ rows) r h = grind (tests, row_of-id t i rows r)

module _ {Db Row : Type 0} (t : Table Row) (conn : Conn Db Row) (tab : IsTable t)
    (sql : IsSql t conn) where
  pub id-written : (new : Row) (d : Db) (r : Row) → t.id (written t conn tab sql new d r) ≡ t.id r
  id-written new d r =
      sql.id-column d (t.assign (next_version t new) r) ∙ tab.id-assign (next_version t new) r

  pub version-written :
      (new : Row) (d : Db) (r : Row)
      → t.version (written t conn tab sql new d r) ≡ i64 (t.version new +ℤ pos 1)
  unfolding next_version
  version-written new d r =
      sql.version-column d (t.assign (next_version t new) r)
      ∙ tab.version-assign (next_version t new) r
      ∙ tab.version-with_version (i64 (t.version new +ℤ pos 1)) new

  -- Whatever `UpdateWithVersion` returns, the table is as it was, or the rows with the caller's id
  -- and version have been written.
  pub update_rows :
      (new : Row) (d : Db)
      → (sql.rows (update_with_version t conn new d).1 ≡ sql.rows d)
        ⊎ (sql.rows (update_with_version t conn new d).1
            ≡ map
                (λ r. if is_current t new r then written t conn tab sql new d r else r)
                (sql.rows d))
  unfolding update_with_version
  update_rows new d =
      elim (Result-cases (conn.find_row (λ r. (t.id r ==ℤ t.id new) && is_live t r) d)) [
        | inl (r, found) ↦
            let q = Statement.update (is_current t new) (next_version t new) in
            elim (Result-cases (conn.exec q d).0) [
              | inl (res, e) ↦ inr (ground (arith, sql.exec_done q d res e))
              | inr (inl (x, e)) ↦ elim (sql.exec_failed q d x e) [
                | inl same ↦ inl (ground arith)
                | inr run ↦ inr (ground arith)
              ]
              | inr (inr e) ↦ elim (sql.exec_panicked q d e) [
                | inl same ↦ inl (ground arith)
                | inr run ↦ inr (ground arith)
              ]
            ]
        | inr failed ↦ inl (ground arith)
      ]

  -- As the map sees it: `UpdateWithVersion` leaves every row but the caller's alone, and that one too
  -- unless it still has the caller's version.
  pub update_lookup :
      (new : Row) (d : Db) (i : ℤ)
      → let after_update = row_of t i (sql.rows (update_with_version t conn new d).1) in
        (after_update ≡ row_of t i (sql.rows d))
        ⊎ (after_update
            ≡ rewrite (is_current t new) (written t conn tab sql new d) (row_of t i (sql.rows d)))
  update_lookup new d i = elim (update_rows new d) [
    | inl same ↦ inl (ap (row_of t i) same)
    | inr run ↦ inr (
        ap (row_of t i) run
        ∙ row_of-map t (is_current t new) (written t conn tab sql new d) i (id-written new d)
            (sql.rows d))
  ]

  -- The row that `Insert` leaves of the caller's.
  abbrev pub inserted_row : Row → Db → Row
  inserted_row r d =
      sql.column d
        (t.with_id (sql.auto_id d) (t.with_del_state del_state_no (t.with_delete_time (pos 0) r)))

  pub insert_rows :
      (r : Row) (d : Db)
      → (sql.rows (insert_row t conn r d).1 ≡ sql.rows d)
        ⊎ (sql.rows (insert_row t conn r d).1 ≡ sql.rows d ++ inserted_row r d ∷ [])
  unfolding insert_row
  insert_rows r d =
      let q = Statement.insert (t.with_del_state del_state_no (t.with_delete_time (pos 0) r)) in
      elim (Result-cases (conn.exec q d).0) [
        | inl (res, e) ↦ inr (ground (arith, sql.exec_done q d res e))
        | inr (inl (x, e)) ↦ sql.exec_failed q d x e
        | inr (inr e) ↦ sql.exec_panicked q d e
      ]

  -- As the map sees it: `Insert` leaves every row that is there alone, and a row that is there
  -- afterwards was there before or is the new one.
  pub insert_lookup :
      (r : Row) (d : Db) (i : ℤ)
      → let before = row_of t i (sql.rows d) in
        let after_insert = row_of t i (sql.rows (insert_row t conn r d).1) in
        ((x : Row) → before ≡ some x → after_insert ≡ some x)
        × ((x : Row) → after_insert ≡ some x → (before ≡ some x) ⊎ (x ≡ inserted_row r d))
  insert_lookup r d i = elim (insert_rows r d) [
    | inl same ↦ let e = ap (row_of t i) same in ((λ x h. e ∙ h), (λ x h. inl (sym e ∙ h)))
    | inr run ↦
        let e = ap (row_of t i) run ∙ row_of-append t i (sql.rows d) (inserted_row r d) in
        ((λ x h. ground arith), (λ x h. ground arith))
  ]
