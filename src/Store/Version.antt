-- ===== src/Store/Version.antt =====
-- The optimistic lock of `UpdateWithVersion` (homestayOrderModel_gen.go).
use flash_sale_system.Common.{
  Bool, ◌≡◌, ◌≢◌, inl, inr, true, false, ◌&&◌, List, [], ◌∷◌, map, ◌<◌, pos, i64, ◌+ℤ◌, ◌==ℤ◌,
  fun_ext, tests, Result-cases, i64-suc_ne, ok, err, Error, count, if◌then◌else◌, arith, refl,
}
use flash_sale_system.Store.{
  Table, SqlResult, Statement, Conn, is_live, is_current, next_version, update_with_version,
}
use flash_sale_system.Store.Sql.{IsTable, IsSql, Renews}

map_unchanged :
    {Row : Type 0} (p : Row → Bool) (f : Row → Row) (rows : List Row)
    → count p rows ≡ 0
    → map (λ r. if p r then f r else r) rows ≡ rows
map_unchanged p f [] h = refl
map_unchanged p f (r ∷ rows) h = ground (arith, map_unchanged p f rows)

-- A row that the write turned into one that fails the test is not counted again.
count-map_write :
    {Row : Type 0} (p : Row → Bool) (f : Row → Row)
    → ((r : Row) → p r ≡ true → p (f r) ≡ false)
    → (rows : List Row) → count p (map (λ r. if p r then f r else r) rows) ≡ 0
count-map_write p f h [] = refl
count-map_write p f h (r ∷ rows) = ground (arith, h r, count-map_write p f h rows)

module _ {Db Row : Type 0} (t : Table Row) (conn : Conn Db Row) (tab : IsTable t)
    (sql : IsSql t conn) where
  -- The row that the statement of `update_with_version t conn new` leaves of a current one.
  abbrev pub written : Row → Db → Row → Row
  written new d r = sql.column d (t.assign (next_version t new) r)

  pub update_statement : Row → Statement Row
  update_statement new = Statement.update (is_current t new) (next_version t new)

  next_version-Renews : (new : Row) → Renews t (update_statement new)
  unfolding update_statement next_version
  next_version-Renews new r current same = absurd (
      grind (
        tests,
        tab.version-with_version (i64 (t.version new +ℤ pos 1)) new,
        i64-suc_ne (t.version new),
      ))

  -- What the statement of `UpdateWithVersion` does, with the number of rows that it has changed.
  pub exec_counted :
      (new : Row) (d : Db) (result : SqlResult)
      → (conn.exec (Statement.update (is_current t new) (next_version t new)) d).0 ≡ ok result
      → (sql.rows (conn.exec (Statement.update (is_current t new) (next_version t new)) d).1
          ≡ map (λ r. if is_current t new r then written new d r else r) (sql.rows d))
        × (result.rows_affected ≡ pos (count (is_current t new) (sql.rows d)))
  unfolding update_statement
  exec_counted new d result h =
      let (run, counted) = sql.exec_done (update_statement new) d result h in
      (run, counted (next_version-Renews new))

  -- When `UpdateWithVersion` succeeds, some row had the caller's id and version; all such rows now
  -- hold the caller's columns, and every other row is as it was.
  pub update_with_version_done :
      (new : Row) (d : Db)
      → (update_with_version t conn new d).0 ≡ ok tt
      → (sql.rows (update_with_version t conn new d).1
          ≡ map (λ r. if is_current t new r then written new d r else r) (sql.rows d))
        × (0 < count (is_current t new) (sql.rows d))
  unfolding update_with_version update_statement
  update_with_version_done new d h = elim (Result-cases (conn.exec (update_statement new) d).0) [
    | inl (res, e) ↦ ground (arith, exec_counted new d res e)
    | inr failed ↦ ground arith
  ]

  -- `ErrNoRowsUpdate` leaves the table as it was, provided that the connection itself does not
  -- return that error.
  pub update_with_version_no_rows :
      (new : Row) (d : Db)
      → conn.find_row (λ r. (t.id r ==ℤ t.id new) && is_live t r) d ≢ err Error.no_rows_update
      → (conn.exec (update_statement new) d).0 ≢ err Error.no_rows_update
      → (update_with_version t conn new d).0 ≡ err Error.no_rows_update
      → sql.rows (update_with_version t conn new d).1 ≡ sql.rows d
  unfolding update_with_version update_statement
  update_with_version_no_rows new d n m h =
      elim (Result-cases (conn.exec (update_statement new) d).0) [
        | inl (res, e) ↦ ground (
          arith,
          exec_counted new d res e,
          map_unchanged (is_current t new) (written new d) (sql.rows d),
        )
        | inr failed ↦ ground arith
      ]

  written_stale :
      (new : Row) (d : Db) (r : Row)
      → is_current t new r ≡ true
      → is_current t new (written new d r) ≡ false
  unfolding next_version
  written_stale new d r h = grind (
    tests,
    sql.version-column d (t.assign (next_version t new) r),
    tab.version-assign (next_version t new) r,
    tab.version-with_version (i64 (t.version new +ℤ pos 1)) new,
    i64-suc_ne (t.version new),
  )

  -- Of two writers that read the same version of a row, the second cannot succeed right after
  -- the first did, whatever columns the two write.
  pub second_writer_refused :
      (first second : Row) (d : Db)
      → t.id second ≡ t.id first
      → t.version second ≡ t.version first
      → (update_with_version t conn first d).0 ≡ ok tt
      → (update_with_version t conn second (update_with_version t conn first d).1).0 ≢ ok tt
  second_writer_refused first second d same_id same_version h h' =
      let (rows_after, _) = update_with_version_done first d h in
      let (_, current) =
        update_with_version_done second (update_with_version t conn first d).1 h' in
      let same : is_current t second ≡ is_current t first =
        fun_ext (λ r. rw (same_id, same_version)) in
      let moved = rw (same, rows_after) at current in
      absurd (
        omega (
          arith,
          moved,
          count-map_write (is_current t first) (written first d) (written_stale first d)
              (sql.rows d),
        ))
