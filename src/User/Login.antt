-- ===== src/User/Login.antt =====
-- `Login` (app/usercenter/cmd/rpc/internal/logic/loginLogic.go). `md5` is pkg/tool's `Md5ByString`.
use flash_sale_system.Common.{
  not, Option, none, some, String, ℤ, Result, ok, err, panic, Error, if◌then◌else◌, str_eq,
}
use flash_sale_system.Store.{Conn}
use flash_sale_system.Xerr.{server_common_error, db_error, new_err_code, new_err_msg}
use flash_sale_system.User.{User, auth_type_system, find_one_by_mobile, row_or_nil}
use flash_sale_system.User.Token.{Jwt, TokenResp, generate_token, err_generate_token}

abbrev pub err_user_no_exists : Error
err_user_no_exists = new_err_msg "用户不存在"

abbrev pub err_username_pwd : Error
err_username_pwd = new_err_msg "账号或密码不正确"

pub record LoginReq : Type 0 where
  pub auth_type : String
  pub auth_key : String
  pub password : String

-- The user that was found, against the password.
abbrev pub check_password : (String → String) → String → Option User → Result ℤ
check_password md5 password none = err err_user_no_exists
check_password md5 password (some u) =
    if not (str_eq (md5 password) u.password) then err err_username_pwd else ok u.id

-- An error of the token is reported as `ErrGenerateTokenError`.
abbrev pub token_for : Jwt → ℤ → Result TokenResp
token_for jwt user_id = elim (generate_token jwt user_id) [
  | ok t ↦ ok t
  | err _ ↦ err err_generate_token
  | panic ↦ panic
]

module _ {Db : Type 0} (users : Conn Db User) (md5 : String → String) (jwt : Jwt) where
  unfoldable pub login_by_mobile : (mobile password : String) → Db → Result ℤ
  login_by_mobile mobile password d =
      elim (row_or_nil (new_err_code db_error) (find_one_by_mobile users mobile d)) [
        | ok found ↦ check_password md5 password found
        | err e ↦ err e
        | panic ↦ panic
      ]

  unfoldable pub login : LoginReq → Db → Result TokenResp
  unfolding login_by_mobile
  login req d =
      if str_eq req.auth_type auth_type_system
      then (elim (login_by_mobile req.auth_key req.password d) [
        | ok user_id ↦ token_for jwt user_id
        | err e ↦ err e
        | panic ↦ panic
      ])
      else err (new_err_code server_common_error)
