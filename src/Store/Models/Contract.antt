-- ===== src/Store/Models/Contract.antt =====
-- What a service may rely on in a table model: the table is a map from ids to rows, and each write
-- that succeeds is one operation on that map.
use flash_sale_system.Common.{
  Bool, false, not, ◌≡◌, ap, ◌∙◌, inl, inr, ◌<◌, Option, none, some, List, [], ◌∷◌, filter, find,
  count, ℤ, ◌==ℤ◌, tests, ok, Result-cases, if◌then◌else◌, arith,
}
use flash_sale_system.Store.{
  Table, Statement, SqlResult, Conn, is_current, is_live, next_version, insert_row, find_one,
  update_row, update_with_version, delete_row,
}
use flash_sale_system.Store.Sql.{IsTable, IsSql}
use flash_sale_system.Store.Version.{exec_counted, written, update_with_version_done}
use flash_sale_system.Store.Deletion.{marked, current_marked}
use flash_sale_system.Store.Keys.{
  row_of, rewrite, row_of-map, row_of-append, id-written, inserted_row,
}
use flash_sale_system.Store.Models.{TableWrites, update_with_version_unread, delete_unread}

find-filter :
    {Row : Type 0} (id : Row → ℤ) (i j : ℤ) (rows : List Row)
    → find (λ r. id r ==ℤ j) (filter (λ r. not (id r ==ℤ i)) rows)
      ≡ (if j ==ℤ i then none else find (λ r. id r ==ℤ j) rows)
find-filter id i j [] = ground arith
find-filter id i j (r ∷ rows) = grind (tests, find-filter id i j rows)

module _ {Db Row : Type 0} (t : Table Row) (conn : Conn Db Row) (tab : IsTable t)
    (sql : IsSql t conn) where
  -- The table as a map.
  abbrev pub view : Db → ℤ → Option Row
  view d i = row_of t i (sql.rows d)

  pub record IsMap (w : TableWrites Db Row) : Type 0 where
    pub inserts :
        (r : Row) (d : Db) (res : SqlResult)
        → (w.insert r d).0 ≡ ok res
        → (i : ℤ)
        → view (w.insert r d).1 i ≡ elim (view d i) [
          | some x ↦ some x
          | none ↦
              let new = inserted_row t conn tab sql r d in if t.id new ==ℤ i then some new else none
        ]
    pub updates :
        (new : Row) (d : Db) (res : SqlResult)
        → (w.update new d).0 ≡ ok res
        → (i : ℤ)
        → view (w.update new d).1 i
          ≡ rewrite (λ r. t.id r ==ℤ t.id new) (λ r. sql.column d (t.assign new r)) (view d i)
    pub swaps :
        (new : Row) (d : Db)
        → (w.update_with_version new d).0 ≡ ok tt
        → (0 < count (is_current t new) (sql.rows d))
          × ((i : ℤ)
              → view (w.update_with_version new d).1 i
                ≡ rewrite (is_current t new) (written t conn tab sql new d) (view d i))
    pub hides :
        (now : ℤ) (r : Row) (d : Db)
        → (w.delete_soft now r d).0 ≡ ok tt
        → (0 < count (is_current t r) (sql.rows d))
          × ((i : ℤ)
              → view (w.delete_soft now r d).1 i
                ≡ rewrite
                    (is_current t r)
                    (written t conn tab sql (marked t conn tab sql now r) d)
                    (view d i))
          × ((x : Row)
              → is_live t (written t conn tab sql (marked t conn tab sql now r) d x) ≡ false)
    pub removes :
        (i : ℤ) (d : Db)
        → (w.delete i d).0 ≡ ok tt
        → (j : ℤ) → view (w.delete i d).1 j ≡ (if j ==ℤ i then none else view d j)

  pub exec_update :
      (p : Row → Bool) (new : Row) (d : Db) (res : SqlResult)
      → (conn.exec (Statement.update p new) d).0 ≡ ok res
      → (i : ℤ)
      → view (conn.exec (Statement.update p new) d).1 i
        ≡ rewrite p (λ r. sql.column d (t.assign new r)) (view d i)
  exec_update p new d res h i =
      ap (row_of t i) (sql.exec_done (Statement.update p new) d res h).0
      ∙ row_of-map t p (λ r. sql.column d (t.assign new r)) i
          (λ r. sql.id-column d (t.assign new r) ∙ tab.id-assign new r) (sql.rows d)

  pub exec_delete :
      (i : ℤ) (d : Db) (res : SqlResult)
      → (conn.exec (Statement.delete (λ r. t.id r ==ℤ i)) d).0 ≡ ok res
      → (j : ℤ)
      → view (conn.exec (Statement.delete (λ r. t.id r ==ℤ i)) d).1 j
        ≡ (if j ==ℤ i then none else view d j)
  exec_delete i d res h j =
      ap (row_of t j) (sql.exec_done (Statement.delete (λ r. t.id r ==ℤ i)) d res h).0
      ∙ find-filter t.id i j (sql.rows d)

  pub insert_maps :
      (r : Row) (d : Db) (res : SqlResult)
      → (insert_row t conn r d).0 ≡ ok res
      → (i : ℤ)
      → view (insert_row t conn r d).1 i ≡ elim (view d i) [
        | some x ↦ some x
        | none ↦
            let new = inserted_row t conn tab sql r d in if t.id new ==ℤ i then some new else none
      ]
  unfolding insert_row
  insert_maps r d res h i =
      ap (row_of t i) (sql.exec_done _ d res h).0
      ∙ row_of-append t i (sql.rows d) (inserted_row t conn tab sql r d)

  -- A write that read its row first, when it succeeds, is the statement that it runs.
  pub update_runs :
      (new : Row) (d : Db) (res : SqlResult)
      → (update_row t conn new d).0 ≡ ok res
      → update_row t conn new d ≡ conn.exec (Statement.update (λ r. t.id r ==ℤ t.id new) new) d
  unfolding update_row
  update_runs new d res h = elim (Result-cases (find_one t conn (t.id new) d)) [
    | inl (r, found) ↦ ground arith
    | inr failed ↦ absurd (ground arith)
  ]

  pub delete_runs :
      (i : ℤ) (d : Db)
      → (delete_row t conn i d).0 ≡ ok tt
      → (res : SqlResult) × ((conn.exec (Statement.delete (λ r. t.id r ==ℤ i)) d).0 ≡ ok res)
        × ((delete_row t conn i d).1 ≡ (conn.exec (Statement.delete (λ r. t.id r ==ℤ i)) d).1)
  unfolding delete_row
  delete_runs i d h = elim (Result-cases (find_one t conn i d)) [
    | inl (r, found) ↦ elim (Result-cases (conn.exec (Statement.delete (λ r. t.id r ==ℤ i)) d).0) [
      | inl (res, done) ↦ (res, done, ground arith)
      | inr failed ↦ absurd (ground arith)
    ]
    | inr failed ↦ absurd (ground arith)
  ]

  pub delete_unread_runs :
      (i : ℤ) (d : Db)
      → (delete_unread t conn i d).0 ≡ ok tt
      → (res : SqlResult) × ((conn.exec (Statement.delete (λ r. t.id r ==ℤ i)) d).0 ≡ ok res)
        × ((delete_unread t conn i d).1 ≡ (conn.exec (Statement.delete (λ r. t.id r ==ℤ i)) d).1)
  unfolding delete_unread
  delete_unread_runs i d h =
      elim (Result-cases (conn.exec (Statement.delete (λ r. t.id r ==ℤ i)) d).0) [
        | inl (res, done) ↦ (res, done, ground arith)
        | inr failed ↦ absurd (ground arith)
      ]

  abbrev Swapped : Row → Db → Db → Type 0
  Swapped new d d' =
      (0 < count (is_current t new) (sql.rows d))
      × ((i : ℤ) → view d' i ≡ rewrite (is_current t new) (written t conn tab sql new d) (view d i))

  pub swap_reading :
      (new : Row) (d : Db)
      → (update_with_version t conn new d).0 ≡ ok tt
      → Swapped new d (update_with_version t conn new d).1
  swap_reading new d h =
      let (rows, current) = update_with_version_done t conn tab sql new d h in
      (
        current,
        λ i.
            ap (row_of t i) rows
            ∙ row_of-map t (is_current t new) (written t conn tab sql new d) i
                (id-written t conn tab sql new d) (sql.rows d),
      )

  pub swap_unread :
      (new : Row) (d : Db)
      → (update_with_version_unread t conn new d).0 ≡ ok tt
      → Swapped new d (update_with_version_unread t conn new d).1
  unfolding update_with_version_unread
  swap_unread new d h =
      let q = Statement.update (is_current t new) (next_version t new) in
      elim (Result-cases (conn.exec q d).0) [
        | inl (res, done) ↦
            let run : (update_with_version_unread t conn new d).1 ≡ (conn.exec q d).1 =
              ground arith in
            (
              ground (arith, exec_counted t conn tab sql new d res done),
              λ i.
                  ap (λ d'. view d' i) run
                  ∙ exec_update (is_current t new) (next_version t new) d res done i,
            )
        | inr failed ↦ absurd (ground arith)
      ]

  -- The marked row has the id and the version of the caller's.
  pub swap_marked :
      (now : ℤ) (r : Row) (d d' : Db)
      → Swapped (marked t conn tab sql now r) d d'
      → (0 < count (is_current t r) (sql.rows d))
        × ((i : ℤ)
            → view d' i
              ≡ rewrite
                  (is_current t r)
                  (written t conn tab sql (marked t conn tab sql now r) d)
                  (view d i))
  swap_marked now r d d' (current, moved) =
      let same = current_marked t conn tab sql now r in
      (
        omega (arith, current, ap (λ p. count p (sql.rows d)) same),
        λ i.
            moved i
            ∙ ap
                (λ p. rewrite p (written t conn tab sql (marked t conn tab sql now r) d) (view d i))
                same,
      )
