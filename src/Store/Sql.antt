-- ===== src/Store/Sql.antt =====
-- What the development asks of MySQL behind `CachedConn`. The statements of Store.antt are run on a
-- list of rows; column types and `ON UPDATE` columns may change what is kept of a written row, but
-- not its `id`, `version` and `del_state`.
use flash_sale_system.Common.{
  ◌≡◌, ◌≢◌, ◌⊎◌, ◌≤◌, Bool, true, String, not, List, [], ◌∷◌, ◌++◌, map, ℕ, ℤ, pos, ok, err, panic,
  Error, count, filter, if◌then◌else◌,
}
use flash_sale_system.Tool.{bytes}
use flash_sale_system.Store.{Table, Statement, insert, update, delete, SqlResult, Conn}

module _ {Row : Type 0} (t : Table Row) (column : Row → Row) (auto_id : ℤ) where
  -- The rows after a statement; `column r` is what the columns keep of `r`, and an inserted row
  -- gets the next id.
  abbrev pub after : Statement Row → List Row → List Row
  after (insert r) rows = rows ++ column (t.with_id auto_id r) ∷ []
  after (update p new) rows = map (λ r. if p r then column (t.assign new r) else r) rows
  after (delete p) rows = filter (λ r. not (p r)) rows

abbrev pub affected : {Row : Type 0} → Statement Row → List Row → ℕ
affected (insert r) rows = 1
affected (update p new) rows = count p rows
affected (delete p) rows = count p rows

-- MySQL counts the rows that an update changes. Where it gives every row that it selects another
-- version, those are all that it selects.
abbrev pub Renews : {Row : Type 0} → Table Row → Statement Row → Type 0
Renews t (insert r) = Unit {0}
Renews {Row} t (update p new) = (r : Row) → p r ≡ true → t.version r ≢ t.version new
Renews t (delete p) = Unit {0}

-- Reading a column after it was written.
pub record IsTable {Row : Type 0} (t : Table Row) : Type 0 where
  pub id-assign : (new old : Row) → t.id (t.assign new old) ≡ t.id old
  pub version-assign : (new old : Row) → t.version (t.assign new old) ≡ t.version new
  pub del_state-assign : (new old : Row) → t.del_state (t.assign new old) ≡ t.del_state new
  pub id-with_version : (v : ℤ) (r : Row) → t.id (t.with_version v r) ≡ t.id r
  pub version-with_version : (v : ℤ) (r : Row) → t.version (t.with_version v r) ≡ v
  pub del_state-with_version : (v : ℤ) (r : Row) → t.del_state (t.with_version v r) ≡ t.del_state r
  pub id-with_del_state : (v : ℤ) (r : Row) → t.id (t.with_del_state v r) ≡ t.id r
  pub version-with_del_state : (v : ℤ) (r : Row) → t.version (t.with_del_state v r) ≡ t.version r
  pub del_state-with_del_state : (v : ℤ) (r : Row) → t.del_state (t.with_del_state v r) ≡ v
  pub id-with_delete_time : (v : ℤ) (r : Row) → t.id (t.with_delete_time v r) ≡ t.id r
  pub version-with_delete_time :
      (v : ℤ) (r : Row) → t.version (t.with_delete_time v r) ≡ t.version r
  pub del_state-with_delete_time :
      (v : ℤ) (r : Row) → t.del_state (t.with_delete_time v r) ≡ t.del_state r

abbrev pub IsCapital : ℕ → Type 0
IsCapital c = (65 ≤ c) × (c ≤ 90)

-- What MySQL documents of a collation such as utf8mb4_general_ci: it compares texts by the weights of
-- their letters, and capitals of the Latin alphabet have different weights.
pub record IsCollation (text_eq : String → String → Bool) : Type 0 where
  pub symmetric : (a b : String) → text_eq a b ≡ true → text_eq b a ≡ true
  pub transitive : (a b c : String) → text_eq a b ≡ true → text_eq b c ≡ true → text_eq a c ≡ true
  pub first_capital :
      (a b : String) (x y : ℕ) (xs ys : List ℕ)
      → text_eq a b ≡ true
      → bytes a ≡ x ∷ xs
      → bytes b ≡ y ∷ ys
      → IsCapital x
      → IsCapital y
      → x ≡ y

-- A statement that succeeds has been run, and one that fails or panics has been run or not: the error
-- may be that of the cache, after the write.
pub record IsSql {Db Row : Type 0} (t : Table Row) (conn : Conn Db Row) : Type 0 where
  pub rows : Db → List Row
  pub column : Db → Row → Row
  pub auto_id : Db → ℤ
  pub id-column : (d : Db) (r : Row) → t.id (column d r) ≡ t.id r
  pub version-column : (d : Db) (r : Row) → t.version (column d r) ≡ t.version r
  pub del_state-column : (d : Db) (r : Row) → t.del_state (column d r) ≡ t.del_state r
  pub exec_done :
      (q : Statement Row) (d : Db) (result : SqlResult)
      → (conn.exec q d).0 ≡ ok result
      → (rows (conn.exec q d).1 ≡ after t (column d) (auto_id d) q (rows d))
        × (Renews t q → result.rows_affected ≡ pos (affected q (rows d)))
  pub exec_failed :
      (q : Statement Row) (d : Db) (e : Error)
      → (conn.exec q d).0 ≡ err e
      → (rows (conn.exec q d).1 ≡ rows d)
        ⊎ (rows (conn.exec q d).1 ≡ after t (column d) (auto_id d) q (rows d))
  pub exec_panicked :
      (q : Statement Row) (d : Db)
      → (conn.exec q d).0 ≡ panic
      → (rows (conn.exec q d).1 ≡ rows d)
        ⊎ (rows (conn.exec q d).1 ≡ after t (column d) (auto_id d) q (rows d))
