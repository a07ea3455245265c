-- ===== src/Store/Models.antt =====
-- The interfaces that goctl generates for the table models, such as `homestayOrderModel`, as a half
-- that writes and a half that reads, and their two implementations. A model of a table with a second
-- unique key reads the row before it writes it, for the cache key of what the row held; that of a
-- table with `id` alone (homestayModel_gen.go) does not.
pub mod Contract
pub mod Refinement
use flash_sale_system.Common.{
  Bool, ◌&&◌, ℤ, pos, List, String, ◌==ℤ◌, Result, err, Error, str_eq, if◌then◌else◌, Action, pure,
  ◌>>=◌, ◌>>◌, raise_if, wrap,
}
use flash_sale_system.Store.{
  is_live, Table, Statement, SqlResult, Conn, is_current, next_version, insert_row, find_one,
  update_row, update_with_version, delete_soft, delete_row, del_state_yes, find_count, find_all,
  find_page_list_by_page, find_page_list_by_page_with_total, find_page_list_by_id_desc,
  find_page_list_by_id_asc,
}

pub record TableWrites (Db Row : Type 0) : Type 0 where
  pub insert : Row → Action Db SqlResult
  pub update : Row → Action Db SqlResult
  pub update_with_version : Row → Action Db (Unit {0})
  pub delete_soft : ℤ → Row → Action Db (Unit {0})
  pub delete : ℤ → Action Db (Unit {0})

pub record TableReads (Db Row : Type 0) : Type 0 where
  pub find_one : ℤ → Db → Result Row
  pub find_count : (Row → Bool) → String → Db → Result ℤ
  pub find_all : (Row → Bool) → String → Db → Result (List Row)
  pub find_page_list_by_page : (Row → Bool) → ℤ → ℤ → String → Db → Result (List Row)
  pub find_page_list_by_page_with_total : (Row → Bool) → ℤ → ℤ → String → Db → Result (List Row) × ℤ
  pub find_page_list_by_id_desc : (Row → Bool) → ℤ → ℤ → Db → Result (List Row)
  pub find_page_list_by_id_asc : (Row → Bool) → ℤ → ℤ → Db → Result (List Row)

module _ {Db Row : Type 0} (t : Table Row) (conn : Conn Db Row) where
  open t use {id, with_del_state, with_delete_time}

  -- `Update`, `UpdateWithVersion`, `DeleteSoft` and `Delete` of a model that reads no row first
  unfoldable pub update_unread : Row → Action Db SqlResult
  update_unread new = conn.exec (Statement.update (λ r. id r ==ℤ id new) new)

  unfoldable pub update_with_version_unread : Row → Action Db (Unit {0})
  unfolding next_version
  update_with_version_unread new = do
    sql_result ← conn.exec (Statement.update (is_current t new) (next_version t new))
    raise_if (sql_result.rows_affected ==ℤ pos 0) Error.no_rows_update

  unfoldable pub delete_soft_unread : ℤ → Row → Action Db (Unit {0})
  delete_soft_unread now r =
      wrap (Error.other "delete soft failed ")
        (update_with_version_unread (with_delete_time now (with_del_state del_state_yes r)))

  unfoldable pub delete_unread : ℤ → Action Db (Unit {0})
  delete_unread i = do conn.exec (Statement.delete (λ r. id r ==ℤ i)); pure tt

  -- `FindSum`: `sum` runs the query of the sum of a column, a float64, over the rows that pass a test.
  unfoldable pub find_sum :
      {Real : Type 0}
      → (sum : (Row → Bool) → String → Db → Result Real) → (Row → Bool)
      → String
      → Db
      → Result Real
  find_sum sum condition field d =
      if str_eq field ""
      then err (Error.other "FindSum Least One Field")
      else sum (λ r. condition r && is_live t r) field d

  abbrev pub reading_writes : TableWrites Db Row
  reading_writes = record {
    insert = insert_row t conn;
    update = update_row t conn;
    update_with_version = update_with_version t conn;
    delete_soft = delete_soft t conn;
    delete = delete_row t conn;
  }

  abbrev pub unread_writes : TableWrites Db Row
  unread_writes = record {
    insert = insert_row t conn;
    update = update_unread;
    update_with_version = update_with_version_unread;
    delete_soft = delete_soft_unread;
    delete = delete_unread;
  }

  abbrev pub table_reads : TableReads Db Row
  table_reads = record {
    find_one = find_one t conn;
    find_count = find_count t conn;
    find_all = find_all t conn;
    find_page_list_by_page = find_page_list_by_page t conn;
    find_page_list_by_page_with_total = find_page_list_by_page_with_total t conn;
    find_page_list_by_id_desc = find_page_list_by_id_desc t conn;
    find_page_list_by_id_asc = find_page_list_by_id_asc t conn;
  }
