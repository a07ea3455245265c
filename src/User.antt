-- ===== src/User.antt =====
-- The user service's records: `User` and `UserAuth` of app/usercenter/model, and its two tables in
-- one database.
pub mod Token
pub mod Login
pub mod Register
pub mod Info
pub mod Api
pub mod SignIn
pub mod Laws
pub mod Handler
use flash_sale_system.Common.{
  ◌≡◌, refl, ◌⊎◌, Bool, ◌&&◌, String, ℤ, pos, ◌==ℤ◌, Result, ok, err, panic, Error, not_found,
  Action, Option, none, some, str_eq,
}
use flash_sale_system.Store.Models.{
  TableWrites, TableReads, reading_writes, unread_writes, table_reads,
}
use flash_sale_system.Store.{Table, Conn, is_live}

pub record User : Type 0 where
  pub id : ℤ
  pub create_time : ℤ
  pub update_time : ℤ
  pub delete_time : ℤ
  pub del_state : ℤ
  pub version : ℤ
  pub mobile : String
  pub password : String
  pub nickname : String
  pub sex : ℤ
  pub avatar : String
  pub info : String

abbrev pub user_table : Table User
user_table = record {
  id = λ r. r.id;
  version = λ r. r.version;
  del_state = λ r. r.del_state;
  with_id = λ v r. record r { id = v };
  with_version = λ v r. record r { version = v };
  with_del_state = λ v r. record r { del_state = v };
  with_delete_time = λ v r. record r { delete_time = v };
  assign = λ new old. record new {
    id = old.id;
    create_time = old.create_time;
    update_time = old.update_time;
  };
}

pub record UserAuth : Type 0 where
  pub id : ℤ
  pub create_time : ℤ
  pub update_time : ℤ
  pub delete_time : ℤ
  pub del_state : ℤ
  pub version : ℤ
  pub user_id : ℤ
  pub auth_key : String
  pub auth_type : String

abbrev pub user_auth_table : Table UserAuth
user_auth_table = record {
  id = λ r. r.id;
  version = λ r. r.version;
  del_state = λ r. r.del_state;
  with_id = λ v r. record r { id = v };
  with_version = λ v r. record r { version = v };
  with_del_state = λ v r. record r { del_state = v };
  with_delete_time = λ v r. record r { delete_time = v };
  assign = λ new old. record new {
    id = old.id;
    create_time = old.create_time;
    update_time = old.update_time;
  };
}

abbrev pub auth_type_system : String
auth_type_system = "system"

abbrev pub auth_type_small_wx : String
auth_type_small_wx = "wxMini"

-- The connections of the two models, and `TransactCtx`, with the id that the body leaves in a variable.
pub record Store (Db : Type 0) : Type 0 where
  pub users : Conn Db User
  pub auths : Conn Db UserAuth
  pub transact : Action Db ℤ → Action Db ℤ

module _ {Db : Type 0} where
  -- `FindOneByMobile`
  unfoldable pub find_one_by_mobile : Conn Db User → String → Db → Result User
  find_one_by_mobile conn mobile =
      conn.find_row (λ r. conn.text_eq r.mobile mobile && is_live user_table r)

  unfoldable pub find_one_by_auth_type_auth_key :
      Conn Db UserAuth → (auth_type auth_key : String) → Db → Result UserAuth
  find_one_by_auth_type_auth_key conn auth_type auth_key = conn.find_row (λ r.
      conn.text_eq r.auth_type auth_type
      && conn.text_eq r.auth_key auth_key
      && is_live user_auth_table r)

  unfoldable pub find_one_by_user_id_auth_type :
      Conn Db UserAuth → ℤ → String → Db → Result UserAuth
  find_one_by_user_id_auth_type conn user_id auth_type = conn.find_row (λ r.
      (r.user_id ==ℤ user_id) && conn.text_eq r.auth_type auth_type && is_live user_auth_table r)

-- A query as the logic reads it: `nil` for a missing row, and `e` for any other error.
abbrev pub row_or_nil : {Row : Type 0} → Error → Result Row → Result (Option Row)
row_or_nil e (ok r) = ok (some r)
row_or_nil e (err x) = elim x [ not_found ↦ ok none | _ ↦ err e ]
row_or_nil e panic = panic

-- The generated model of the table, in its two halves.
abbrev pub user_writes : {Db : Type 0} → Conn Db User → TableWrites Db User
user_writes conn = reading_writes user_table conn

abbrev pub user_reads : {Db : Type 0} → Conn Db User → TableReads Db User
user_reads conn = table_reads user_table conn

-- The generated model of the table, in its two halves.
abbrev pub user_auth_writes : {Db : Type 0} → Conn Db UserAuth → TableWrites Db UserAuth
user_auth_writes conn = reading_writes user_auth_table conn

abbrev pub user_auth_reads : {Db : Type 0} → Conn Db UserAuth → TableReads Db UserAuth
user_auth_reads conn = table_reads user_auth_table conn
