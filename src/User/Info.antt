-- ===== src/User/Info.antt =====
-- The reads of the user RPC: getUserInfoLogic.go, getUserAuthByAuthKeyLogic.go and
-- getUserAuthByUserIdLogic.go of app/usercenter/cmd/rpc/internal/logic.
use flash_sale_system.Common.{Option, none, some, String, ℤ, pos, Result, ok, err, panic}
use flash_sale_system.Store.{Conn, find_one}
use flash_sale_system.Xerr.{db_error, new_err_code, new_err_msg}
use flash_sale_system.User.{
  User, UserAuth, user_table, row_or_nil, find_one_by_auth_type_auth_key,
  find_one_by_user_id_auth_type,
}
use flash_sale_system.User.Login.{err_user_no_exists}

-- `usercenter.User`
pub record PbUser : Type 0 where
  pub id : ℤ
  pub mobile : String
  pub nickname : String
  pub sex : ℤ
  pub avatar : String
  pub info : String

-- `usercenter.UserAuth`
pub record PbUserAuth : Type 0 where
  pub id : ℤ
  pub user_id : ℤ
  pub auth_type : String
  pub auth_key : String

abbrev pub no_user_auth : PbUserAuth
no_user_auth = record { id = pos 0; user_id = pos 0; auth_type = ""; auth_key = "" }

abbrev pub to_pb : User → PbUser
to_pb u = record {
  id = u.id;
  mobile = u.mobile;
  nickname = u.nickname;
  sex = u.sex;
  avatar = u.avatar;
  info = u.info;
}

-- `copier.Copy`, which copies nothing from a nil pointer.
abbrev pub auth_to_pb : Option UserAuth → PbUserAuth
auth_to_pb none = no_user_auth
auth_to_pb (some a) = record {
  id = a.id;
  user_id = a.user_id;
  auth_type = a.auth_type;
  auth_key = a.auth_key;
}

module _ {Db : Type 0} where
  unfoldable pub get_user_info : Conn Db User → ℤ → Db → Result (Option PbUser)
  get_user_info conn i d =
      elim (row_or_nil (new_err_code db_error) (find_one user_table conn i d)) [
        | ok found ↦ elim found [ some u ↦ ok (some (to_pb u)) | none ↦ err err_user_no_exists ]
        | err e ↦ err e
        | panic ↦ panic
      ]

  unfoldable pub get_user_auth_by_auth_key :
      Conn Db UserAuth → (auth_key auth_type : String) → Db → Result (Option PbUserAuth)
  get_user_auth_by_auth_key conn auth_key auth_type d =
      elim (row_or_nil (new_err_msg "get user auth  fail")
        (find_one_by_auth_type_auth_key conn auth_type auth_key d)) [
          | ok found ↦ ok (some (auth_to_pb found))
          | err e ↦ err e
          | panic ↦ panic
        ]

  unfoldable pub get_user_auth_by_user_id :
      Conn Db UserAuth → ℤ → String → Db → Result (Option PbUserAuth)
  get_user_auth_by_user_id conn user_id auth_type d =
      elim (row_or_nil (new_err_msg "get user auth  fail")
        (find_one_by_user_id_auth_type conn user_id auth_type d)) [
          | ok found ↦ ok (some (auth_to_pb found))
          | err e ↦ err e
          | panic ↦ panic
        ]
