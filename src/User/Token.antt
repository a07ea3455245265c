-- ===== src/User/Token.antt =====
-- `GenerateToken` (app/usercenter/cmd/rpc/internal/logic/generateTokenLogic.go). The signature of the
-- claims is an argument.
use flash_sale_system.Common.{
  suc, ◌/◌, String, ℤ, pos, negsuc, ◌+ℤ◌, ◌-ℤ◌, i64, Result, ok, err, panic, Error,
}
use flash_sale_system.Xerr.{new_err_msg}

abbrev pub err_generate_token : Error
err_generate_token = new_err_msg "生成token失败"

pub record Claims : Type 0 where
  pub exp : ℤ
  pub iat : ℤ
  pub user_id : ℤ

pub record TokenResp : Type 0 where
  pub access_token : String
  pub access_expire : ℤ
  pub refresh_after : ℤ

-- `JwtAuth`, the signature under its secret, and the time of the call.
pub record Jwt : Type 0 where
  pub access_expire : ℤ
  pub sign : Claims → Result String
  pub now : ℤ

-- Go's `x / 2`
unfoldable pub half : ℤ → ℤ
half (pos n) = pos (n / 2)
half (negsuc n) = pos 0 -ℤ pos (suc n / 2)

unfoldable pub get_jwt_token : Jwt → (iat seconds user_id : ℤ) → Result String
get_jwt_token jwt iat seconds user_id =
    jwt.sign (record { exp = i64 (iat +ℤ seconds); iat = iat; user_id = user_id })

unfoldable pub generate_token : Jwt → ℤ → Result TokenResp
unfolding get_jwt_token half
generate_token jwt user_id = elim (get_jwt_token jwt jwt.now jwt.access_expire user_id) [
  | ok token ↦ ok (record {
    access_token = token;
    access_expire = i64 (jwt.now +ℤ jwt.access_expire);
    refresh_after = i64 (jwt.now +ℤ half jwt.access_expire);
  })
  | err _ ↦ err err_generate_token
  | panic ↦ panic
]
