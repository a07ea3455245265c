-- ===== src/Store.antt =====
-- The generated table models, `app/order/model/homestayOrderModel_gen.go` above all: the other
-- tables' models have the same text with other columns, so the row type is a parameter; those of a
-- table without a second unique key do not read a row before they write it (Store/Models.antt).
-- `CachedConn` (go-zero's connection to MySQL with a cache before it) and the tables behind it are
-- not part of the repository: they are a parameter, and Store/Sql.antt says what is asked of it.
pub mod Sql
pub mod Version
pub mod Keys
pub mod Live
pub mod Models
pub mod Ranked
pub mod Machine
pub mod Deletion
pub mod Paging
pub mod Scroll
pub mod Stamps
pub mod Tally
use flash_sale_system.Common.{
  ℕ, Bool, true, ◌&&◌, Option, none, some, List, String, ℤ, pos, ◌+ℤ◌, ◌-ℤ◌, ◌*ℤ◌, ltb_ℤ, ◌==ℤ◌,
  i64, to_word, if◌then◌else◌, Result, ok, err, panic, Error, Action, pure, returned, ◌>>=◌, ◌>>◌,
  raise_if, wrap, str_eq,
}

-- The columns that every generated model names, and the write of all columns but `id`,
-- `create_time` and `update_time`. A `time.Time` is its Unix seconds.
pub record Table (Row : Type 0) : Type 0 where
  pub id : Row → ℤ
  pub version : Row → ℤ
  pub del_state : Row → ℤ
  pub with_id : ℤ → Row → Row
  pub with_version : ℤ → Row → Row
  pub with_del_state : ℤ → Row → Row
  pub with_delete_time : ℤ → Row → Row
  pub assign : Row → Row → Row

-- The statements of the generated code. A `where` clause is the test that it makes of a row.
pub data Statement (Row : Type 0) : Type 0 where
  insert : Row → Statement Row
  update : (Row → Bool) → Row → Statement Row
  delete : (Row → Bool) → Statement Row

-- `sql.Result`
pub record SqlResult : Type 0 where
  pub last_insert_id : ℤ
  pub rows_affected : ℤ

pub data OrderBy : Type 0 where
  id_desc id_asc : OrderBy
  clause : String → OrderBy

-- A `squirrel.SelectBuilder` with the columns of the table; no `limit` is `none`.
pub record Select (Row : Type 0) : Type 0 where
  pub condition : Row → Bool
  pub order_by : OrderBy
  pub offset : ℕ
  pub limit : Option ℕ

-- `sqlc.CachedConn`. What `exec` leaves is the new state of the database and its cache, in the
-- error case too. `find_row` is a query of one row behind a cache key, `find_rows` and
-- `find_count` are queries that pass the cache by. `text_eq` is the `=` of a `where` clause on a text
-- column, which the collation of the column decides: that of this schema (deploy/sql),
-- utf8mb4_general_ci, takes letters of either case as equal.
pub record Conn (Db Row : Type 0) : Type 0 where
  pub exec : Statement Row → Action Db SqlResult
  pub find_row : (Row → Bool) → Db → Result Row
  pub find_rows : Select Row → Db → Result (List Row)
  pub find_count : (Row → Bool) → String → Db → Result ℤ
  pub text_eq : String → String → Bool

abbrev pub del_state_no : ℤ
del_state_no = pos 0

abbrev pub del_state_yes : ℤ
del_state_yes = pos 1

-- `SelectBuilder()`: all rows
abbrev pub select_builder : {Row : Type 0} → Row → Bool
select_builder r = true

-- `if orderBy == "" { "id DESC" } else { orderBy }`
abbrev pub order_or_default : String → OrderBy
order_or_default s = if str_eq s "" then id_desc else clause s

-- `(page - 1) * pageSize` in int64, with a page below 1 read as 1
unfoldable pub page_offset : ℤ → ℤ → ℤ
page_offset page page_size =
    i64 (i64 ((if ltb_ℤ page (pos 1) then pos 1 else page) -ℤ pos 1) *ℤ page_size)

module _ {Row : Type 0} (t : Table Row) where
  open t use {id, version, del_state, with_version}

  -- `del_state = ?` with DelStateNo
  abbrev pub is_live : Row → Bool
  is_live r = del_state r ==ℤ del_state_no

  -- `where ... id < ? and del_state = ?`, the comparison only for a positive id
  abbrev pub is_below : (Row → Bool) → ℤ → Row → Bool
  is_below condition pre_min_id r =
      (if ltb_ℤ (pos 0) pre_min_id then condition r && ltb_ℤ (id r) pre_min_id else condition r)
      && is_live r

  abbrev pub is_above : (Row → Bool) → ℤ → Row → Bool
  is_above condition pre_max_id r =
      (if ltb_ℤ (pos 0) pre_max_id then condition r && ltb_ℤ pre_max_id (id r) else condition r)
      && is_live r

  -- The row that `UpdateWithVersion` writes, which is also what its caller holds afterwards.
  unfoldable pub next_version : Row → Row
  next_version new = with_version (i64 (version new +ℤ pos 1)) new

  -- `where id = ? and version = ?`
  abbrev pub is_current : Row → Row → Bool
  is_current new r = (id r ==ℤ id new) && (version r ==ℤ version new)

module _ {Db Row : Type 0} (t : Table Row) (conn : Conn Db Row) where
  open t use {id, with_del_state, with_delete_time}

  -- It is the caller's row that is marked; the marks go into the statement.
  unfoldable pub insert_row : Row → Action Db SqlResult
  insert_row r =
      conn.exec (Statement.insert (with_del_state del_state_no (with_delete_time (pos 0) r)))

  unfoldable pub find_one : ℤ → Db → Result Row
  find_one i = conn.find_row (λ r. (id r ==ℤ i) && is_live t r)

  -- `Update`, keyed by `id` alone
  unfoldable pub update_row : Row → Action Db SqlResult
  unfolding find_one
  update_row new d =
      (do returned (find_one (id new) d); conn.exec (Statement.update (λ r. id r ==ℤ id new) new)) d

  unfoldable pub update_with_version : Row → Action Db (Unit {0})
  unfolding find_one next_version
  update_with_version new d =
      (do
        returned (find_one (id new) d)
        sql_result ← conn.exec (Statement.update (is_current t new) (next_version t new))
        raise_if (sql_result.rows_affected ==ℤ pos 0) Error.no_rows_update)
        d

  -- `now` is the time of the call.
  unfoldable pub delete_soft : ℤ → Row → Action Db (Unit {0})
  delete_soft now r =
      wrap (Error.other "delete soft failed ")
        (update_with_version (with_delete_time now (with_del_state del_state_yes r)))

  unfoldable pub delete_row : ℤ → Action Db (Unit {0})
  unfolding find_one
  delete_row i d =
      (do returned (find_one i d); conn.exec (Statement.delete (λ r. id r ==ℤ i)); pure tt) d

  unfoldable pub find_count : (Row → Bool) → String → Db → Result ℤ
  find_count condition field d =
      if str_eq field ""
      then err (Error.other "FindCount Least One Field")
      else conn.find_count (λ r. condition r && is_live t r) field d

  unfoldable pub find_all : (Row → Bool) → String → Db → Result (List Row)
  find_all condition order = conn.find_rows (record {
    condition = λ r. condition r && is_live t r;
    order_by = order_or_default order;
    offset = 0;
    limit = none;
  })

  unfoldable pub find_page_list_by_page : (Row → Bool) → ℤ → ℤ → String → Db → Result (List Row)
  unfolding page_offset
  find_page_list_by_page condition page page_size order = conn.find_rows (record {
    condition = λ r. condition r && is_live t r;
    order_by = order_or_default order;
    offset = to_word (page_offset page page_size);
    limit = some (to_word page_size);
  })

  -- The count is returned with an error of the page too.
  unfoldable pub find_page_list_by_page_with_total :
      (Row → Bool) → ℤ → ℤ → String → Db → Result (List Row) × ℤ
  unfolding find_count find_page_list_by_page
  find_page_list_by_page_with_total condition page page_size order d =
      elim (find_count condition "id" d) [
        | ok total ↦ (find_page_list_by_page condition page page_size order d, total)
        | err e ↦ (err e, pos 0)
        | panic ↦ (panic, pos 0)
      ]

  unfoldable pub find_page_list_by_id_desc : (Row → Bool) → ℤ → ℤ → Db → Result (List Row)
  find_page_list_by_id_desc condition pre_min_id page_size = conn.find_rows (record {
    condition = is_below t condition pre_min_id;
    order_by = id_desc;
    offset = 0;
    limit = some (to_word page_size);
  })

  unfoldable pub find_page_list_by_id_asc : (Row → Bool) → ℤ → ℤ → Db → Result (List Row)
  find_page_list_by_id_asc condition pre_max_id page_size = conn.find_rows (record {
    condition = is_above t condition pre_max_id;
    order_by = id_asc;
    offset = 0;
    limit = some (to_word page_size);
  })
