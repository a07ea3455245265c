-- ===== src/User/Handler.antt =====
-- The HTTP handlers of the user API (app/usercenter/cmd/api/internal/handler/user).
use flash_sale_system.Common.{Option, String, Result, Error, Action}
use flash_sale_system.Reply.{Response}
use flash_sale_system.Http.{Parsed, JwtUserId, get_uid_from_ctx, handle, handle_read, resp_of}
use flash_sale_system.User.{Store}
use flash_sale_system.User.Token.{Jwt, TokenResp}
use flash_sale_system.User.Info.{PbUser}
use flash_sale_system.User.Api.{AuthResult, api_register, api_login, api_detail, wx_mini_auth}

pub record LoginReq : Type 0 where
  pub mobile : String
  pub password : String

pub record RegisterReq : Type 0 where
  pub mobile : String
  pub password : String

-- `UserInfoReq` has no fields.
pub data UserInfoReq : Type 0 where
  user_info_req : UserInfoReq

pub record WxMiniAuthReq : Type 0 where
  pub code : String
  pub iv : String
  pub encrypted_data : String

module _ {Db : Type 0} (carry : Error → Error) (store : Store Db) (md5 : String → String)
    (random_name : String) (jwt : Jwt) where
  unfoldable pub register_handler : Parsed RegisterReq → Action Db (Response (Option TokenResp))
  register_handler p =
      handle p (λ req. api_register carry store md5 random_name jwt req.mobile req.password)

  unfoldable pub login_handler : Parsed LoginReq → Db → Result (Response (Option TokenResp))
  login_handler p d =
      handle_read p
        (λ req. resp_of (api_login carry store md5 random_name jwt req.mobile req.password d))

  unfoldable pub detail_handler :
      JwtUserId → Parsed UserInfoReq → Db → Result (Response (Option (Option PbUser)))
  detail_handler user p d =
      handle_read p
        (λ req. resp_of (api_detail carry store md5 random_name jwt (get_uid_from_ctx user) d))

  -- `session` is `Code2Session` of a code, and `decrypt` reads the telephone number of the encrypted
  -- data under a session key.
  unfoldable pub wx_mini_auth_handler :
      (session : String → Result AuthResult)
      → (decrypt : (session_key encrypted_data iv : String) → Result String) → Parsed WxMiniAuthReq
      → Action Db (Response (Option TokenResp))
  wx_mini_auth_handler session decrypt p = handle p (λ req.
      wx_mini_auth carry store md5 random_name jwt (session req.code)
        (λ key. decrypt key req.encrypted_data req.iv))
