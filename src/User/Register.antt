-- ===== src/User/Register.antt =====
-- `Register` (app/usercenter/cmd/rpc/internal/logic/registerLogic.go).
use flash_sale_system.Common.{
  not, Option, none, some, String, ℤ, pos, Error, Action, pure, raise, returned, wrap, ◌>>=◌, ◌>>◌,
  if◌then◌else◌, str_eq,
}
use flash_sale_system.Store.{insert_row}
use flash_sale_system.Xerr.{db_error, new_err_code, new_err_msg}
use flash_sale_system.User.{
  User, UserAuth, user_table, user_auth_table, Store, find_one_by_mobile, row_or_nil,
}
use flash_sale_system.User.Token.{Jwt, TokenResp}
use flash_sale_system.User.Login.{token_for}

abbrev pub err_user_already_register : Error
err_user_already_register = new_err_msg "user has been registered"

pub record RegisterReq : Type 0 where
  pub mobile : String
  pub nickname : String
  pub password : String
  pub auth_key : String
  pub auth_type : String

-- The user that is inserted; `random_name` is what `Krand` returns.
unfoldable pub new_user : (md5 : String → String) → (random_name : String) → RegisterReq → User
new_user md5 random_name req = record {
  id = pos 0;
  create_time = pos 0;
  update_time = pos 0;
  delete_time = pos 0;
  del_state = pos 0;
  version = pos 0;
  mobile = req.mobile;
  password = if not (str_eq req.password "") then md5 req.password else "";
  nickname = if str_eq req.nickname "" then random_name else "";
  sex = pos 0;
  avatar = "";
  info = "";
}

unfoldable pub new_user_auth : RegisterReq → ℤ → UserAuth
new_user_auth req user_id = record {
  id = pos 0;
  create_time = pos 0;
  update_time = pos 0;
  delete_time = pos 0;
  del_state = pos 0;
  version = pos 0;
  user_id = user_id;
  auth_key = req.auth_key;
  auth_type = req.auth_type;
}

module _ {Db : Type 0} (store : Store Db) (md5 : String → String) (random_name : String)
    (jwt : Jwt) where
  -- The body of the transaction: both rows, and the id of the user.
  unfoldable pub insert_user : RegisterReq → Action Db ℤ
  insert_user req = do
    inserted ←
        wrap (new_err_code db_error)
          (insert_row user_table store.users (new_user md5 random_name req))
    wrap (new_err_code db_error)
        (insert_row user_auth_table store.auths (new_user_auth req inserted.last_insert_id))
    pure inserted.last_insert_id

  abbrev pub register_new : RegisterReq → Option User → Action Db TokenResp
  register_new req (some _) = raise err_user_already_register
  register_new req none = do
    user_id ← store.transact (insert_user req)
    returned (token_for jwt user_id)

  unfoldable pub register : RegisterReq → Action Db TokenResp
  register req d =
      (do
        found ←
            returned
              (row_or_nil (new_err_code db_error) (find_one_by_mobile store.users req.mobile d))
        register_new req found)
        d
