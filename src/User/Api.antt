-- ===== src/User/Api.antt =====
-- The user API (app/usercenter/cmd/api/internal/logic/user): registerLogic.go, loginLogic.go,
-- detailLogic.go and wxMiniAuthLogic.go. WeChat's library is an argument.
use flash_sale_system.Common.{
  ℕ, zero, suc, append, not, ◌||◌, Option, none, some, String, ℤ, pos, ◌==ℤ◌, Result, Error, Action,
  raise_if, panics, returned, wrap, ◌>>=◌, ◌>>◌, if◌then◌else◌, str_eq,
}
use flash_sale_system.Xerr.{new_err_msg}
use flash_sale_system.Reply.{remote}
use flash_sale_system.Reply.{call}
use flash_sale_system.User.{Store, auth_type_system, auth_type_small_wx}
use flash_sale_system.User.Token.{Jwt, TokenResp, generate_token}
use flash_sale_system.User.Login.{login}
use flash_sale_system.User.Register.{register}
use flash_sale_system.User.Info.{PbUser, PbUserAuth, get_user_info, get_user_auth_by_auth_key}

abbrev pub err_wx_mini_auth_fail : Error
err_wx_mini_auth_fail = new_err_msg "wechat mini auth fail"

-- What `Code2Session` returns, as far as it is read.
pub record AuthResult : Type 0 where
  pub err_code : ℤ
  pub openid : String
  pub session_key : String

-- `s[k:]` of an ASCII text; `none` where the bounds are wrong and Go panics.
unfoldable pub slice_from : ℕ → String → Option String
slice_from zero s = some s
slice_from (suc k) String.[] = none
slice_from (suc k) (String.◌∷◌ c s) = slice_from k s

module _ {Db : Type 0} (carry : Error → Error) (store : Store Db) (md5 : String → String)
    (random_name : String) (jwt : Jwt) where
  unfoldable pub api_register : (mobile password : String) → Action Db TokenResp
  api_register mobile password = call carry (
      register store md5 random_name jwt (record {
        mobile = mobile;
        nickname = "";
        password = password;
        auth_key = mobile;
        auth_type = auth_type_system;
      }))

  unfoldable pub api_login : (mobile password : String) → Db → Result TokenResp
  api_login mobile password d = remote carry (
      login store.users md5 jwt
        (record { auth_type = auth_type_system; auth_key = mobile; password = password }) d)

  -- `user_id` is that of the token.
  unfoldable pub api_detail : (user_id : ℤ) → Db → Result (Option PbUser)
  api_detail user_id d = remote carry (get_user_info store.users user_id d)

  -- Step 3: a known open id logs in, an unknown one registers with the telephone number.
  abbrev pub register_wx : (openid mobile : String) → Option String → Action Db TokenResp
  register_wx openid mobile none = panics
  register_wx openid mobile (some tail) = wrap err_wx_mini_auth_fail (
      call carry (
        register store md5 random_name jwt (record {
          mobile = mobile;
          nickname = append "flashsale" tail;
          password = "";
          auth_key = openid;
          auth_type = auth_type_small_wx;
        })))

  abbrev pub bind_or_login : (openid mobile : String) → Option PbUserAuth → Action Db TokenResp
  bind_or_login openid mobile none = register_wx openid mobile (slice_from 7 mobile)
  bind_or_login openid mobile (some a) =
      if a.id ==ℤ pos 0
      then register_wx openid mobile (slice_from 7 mobile)
      else wrap err_wx_mini_auth_fail (returned (remote carry (generate_token jwt a.user_id)))

  -- `session` is the answer of `Code2Session`, and `decrypt` takes the telephone number from the
  -- request under a session key.
  unfoldable pub wx_mini_auth :
      (session : Result AuthResult) → (decrypt : String → Result String) → Action Db TokenResp
  wx_mini_auth session decrypt d =
      (do
        auth ← wrap err_wx_mini_auth_fail (returned session)
        raise_if (not (auth.err_code ==ℤ pos 0) || str_eq auth.openid "") err_wx_mini_auth_fail
        mobile ← wrap err_wx_mini_auth_fail (returned (decrypt auth.session_key))
        found ← wrap err_wx_mini_auth_fail (
            returned (
              remote carry
                (get_user_auth_by_auth_key store.auths auth.openid auth_type_small_wx d)))
        bind_or_login auth.openid mobile found)
        d
