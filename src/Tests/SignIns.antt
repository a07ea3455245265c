-- ===== src/Tests/SignIns.antt =====
-- A sign-in with WeChat of a new user.
use flash_sale_system.Common.{
  ◌≡◌, ◌≢◌, ◌⊎◌, refl, i64, ◌+ℤ◌, Option, some, String, pos, Result, ok, Error,
}
use flash_sale_system.Reply.{remote, logger_interceptor}
use flash_sale_system.Store.{insert_row}
use flash_sale_system.User.{auth_type_small_wx, find_one_by_mobile, find_one_by_auth_type_auth_key}
use flash_sale_system.User.Token.{generate_token, half}
use flash_sale_system.User.Register.{register, insert_user, new_user}
use flash_sale_system.User.Info.{PbUserAuth, get_user_auth_by_auth_key}
use flash_sale_system.User.Api.{AuthResult, slice_from, wx_mini_auth}
use flash_sale_system.User.SignIn.{IsSignedIn, IsSignedUp, sign_in_effect}
use flash_sale_system.Tests.Users.{store, md5, jwt, one_user, ann_token}

abbrev carry : Error → Error
carry e = e

abbrev session : Result AuthResult
session = ok (record { err_code = pos 0; openid = "wx9"; session_key = "k" })

abbrev decrypt : String → Result String
decrypt key = ok "13900000000"

signed_up : (wx_mini_auth carry store md5 "name" jwt session decrypt one_user).0 ≡ ok ann_token
unfolding wx_mini_auth slice_from register insert_user new_user get_user_auth_by_auth_key
    find_one_by_mobile find_one_by_auth_type_auth_key generate_token half i64 ◌+ℤ◌ remote
    logger_interceptor insert_row
signed_up = refl

sign_in_effect_example :
    let d' = (wx_mini_auth carry store md5 "name" jwt session decrypt one_user).1 in
    (auth : AuthResult) × (mobile : String) × (found : Option PbUserAuth) × (session ≡ ok auth)
    × (auth.err_code ≡ pos 0)
    × (auth.openid ≢ "")
    × (decrypt auth.session_key ≡ ok mobile)
    × (get_user_auth_by_auth_key store.auths auth.openid auth_type_small_wx one_user ≡ ok found)
    × (((a : PbUserAuth) × (found ≡ some a)
          × IsSignedIn carry store md5 "name" jwt a one_user ann_token d')
        ⊎ ((a : PbUserAuth) → found ≡ some a → a.id ≡ pos 0)
          × IsSignedUp carry store md5 "name" jwt auth.openid mobile one_user ann_token d')
sign_in_effect_example =
    sign_in_effect carry store md5 "name" jwt session decrypt one_user ann_token signed_up
