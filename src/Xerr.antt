-- ===== src/Xerr.antt =====
-- The error codes of pkg/xerr: errCode.go, errMsg.go and errors.go.
use flash_sale_system.Common.{
  ℕ, String, Bool, true, false, Option, some, none, ◌==◌, if◌then◌else◌, Error, code_error,
}

abbrev pub ok_code : ℕ
ok_code = 200

abbrev pub server_common_error : ℕ
server_common_error = 100001

abbrev pub reuqest_param_error : ℕ
reuqest_param_error = 100002

abbrev pub token_expire_error : ℕ
token_expire_error = 100003

abbrev pub token_generate_error : ℕ
token_generate_error = 100004

abbrev pub db_error : ℕ
db_error = 100005

abbrev pub db_update_affected_zero_error : ℕ
db_update_affected_zero_error = 100006

-- The map `message`, filled by `init`.
unfoldable pub message : ℕ → Option String
message code =
    if code == ok_code
    then some "SUCCESS"
    else if code == server_common_error
    then some "服务器开小差啦,稍后再来试一试"
    else if code == reuqest_param_error
    then some "参数错误"
    else if code == token_expire_error
    then some "token失效，请重新登陆"
    else if code == token_generate_error
    then some "生成token失败"
    else if code == db_error
    then some "数据库繁忙,请稍后再试"
    else if code == db_update_affected_zero_error
    then some "更新数据影响行数为0"
    else none

unfoldable pub map_err_msg : ℕ → String
unfolding message
map_err_msg code = elim (message code) [ some msg ↦ msg | none ↦ "服务器开小差啦,稍后再来试一试" ]

unfoldable pub is_code_err : ℕ → Bool
unfolding message
is_code_err code = elim (message code) [ some msg ↦ true | none ↦ false ]

abbrev pub new_err_code_msg : ℕ → String → Error
new_err_code_msg code msg = code_error code msg

unfoldable pub new_err_code : ℕ → Error
unfolding map_err_msg
new_err_code code = code_error code (map_err_msg code)

abbrev pub new_err_msg : String → Error
new_err_msg msg = code_error server_common_error msg
