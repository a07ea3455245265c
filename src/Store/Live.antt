-- ===== src/Store/Live.antt =====
-- Progress: what the generated models do while the database answers.
use flash_sale_system.Common.{
  Bool, true, ◌&&◌, ◌≡◌, ap, ◌∙◌, ◌<◌, some, List, [], ◌∷◌, find, count, ◌==ℤ◌, ≡→==ℤ, tests, ok,
  arith,
}
use flash_sale_system.Store.{
  Table, Statement, SqlResult, Conn, is_current, is_live, next_version, update_with_version,
}
use flash_sale_system.Store.Sql.{IsTable, IsSql}
use flash_sale_system.Store.Version.{exec_counted, written}
use flash_sale_system.Store.Keys.{row_of, row_of-map, row_of-id, rewrite, id-written}

-- A database answers: a statement is run, and a query of one row finds a row if there is one.
pub record Answers {Db Row : Type 0} {t : Table Row} {conn : Conn Db Row} (sql : IsSql t conn)
    (d : Db) : Type 0 where
  pub find_answers :
      (p : Row → Bool) (r : Row)
      → find p (sql.rows d) ≡ some r
      → (r' : Row) × (conn.find_row p d ≡ ok r')
  pub exec_answers : (q : Statement Row) → (res : SqlResult) × ((conn.exec q d).0 ≡ ok res)

find-and :
    {Row : Type 0} (p q : Row → Bool) (rows : List Row) (r : Row)
    → find p rows ≡ some r
    → q r ≡ true
    → find (λ x. p x && q x) rows ≡ some r
find-and p q [] r h k = cc
find-and p q (x ∷ rows) r h k = ground (arith, find-and p q rows r)

count-find :
    {Row : Type 0} (p : Row → Bool) (rows : List Row) (r : Row)
    → find p rows ≡ some r
    → 0 < count p rows
count-find p [] r h = cc
count-find p (x ∷ rows) r h = ground (arith, count-find p rows r)

module _ {Db Row : Type 0} (t : Table Row) (conn : Conn Db Row) (tab : IsTable t)
    (sql : IsSql t conn) (d : Db) (answers : Answers sql d) where
  -- `UpdateWithVersion` of a row that is there, not deleted and of the caller's version succeeds, and
  -- writes that row.
  pub update_succeeds :
      (new : Row) (r : Row)
      → row_of t (t.id new) (sql.rows d) ≡ some r
      → t.version r ≡ t.version new
      → is_live t r ≡ true
      → ((update_with_version t conn new d).0 ≡ ok tt)
        × (row_of t (t.id new) (sql.rows (update_with_version t conn new d).1)
            ≡ some (written t conn tab sql new d r))
  unfolding update_with_version
  update_succeeds new r there same_version live =
      let test : (t.version r ==ℤ t.version new) ≡ true =
        ≡→==ℤ (t.version r) (t.version new) same_version in
      let (x, found) =
        answers.find_answers _ r
          (find-and (λ x. t.id x ==ℤ t.id new) (is_live t) (sql.rows d) r there live) in
      let current : find (is_current t new) (sql.rows d) ≡ some r =
        find-and (λ x. t.id x ==ℤ t.id new) (λ x. t.version x ==ℤ t.version new) (sql.rows d) r
          there test in
      let some_row = count-find (is_current t new) (sql.rows d) r current in
      let q = Statement.update (is_current t new) (next_version t new) in
      let (res, run) = answers.exec_answers q in
      let done = exec_counted t conn tab sql new d res run in
      let moved : (update_with_version t conn new d).1 ≡ (conn.exec q d).1 = ground arith in
      let is_it : is_current t new r ≡ true =
        grind (tests, row_of-id t (t.id new) (sql.rows d) r there) in
      (
        ground arith,
        ap (λ d'. row_of t (t.id new) (sql.rows d')) moved
            ∙ ap (row_of t (t.id new)) done.0
            ∙ row_of-map t (is_current t new) (written t conn tab sql new d) (t.id new)
                (id-written t conn tab sql new d) (sql.rows d)
            ∙ ap (rewrite (is_current t new) (written t conn tab sql new d)) there
            ∙ ground arith,
      )
