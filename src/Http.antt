-- ===== src/Http.antt =====
-- What the handlers of the HTTP APIs share (app/*/cmd/api/internal/handler): `httpx.Parse`, whose
-- outcome is an argument, the replies of pkg/result, the user of the token (pkg/ctxdata), the
-- optional check of a token (pkg/middleware), and the health check. A handler's panic is left to the
-- server, which is not here.
use flash_sale_system.Common.{
  append, ℤ, pos, String, Option, none, some, Result, ok, err, panic, Error, Action, if◌then◌else◌,
  str_eq,
}
use flash_sale_system.Xerr.{reuqest_param_error, map_err_msg}
use flash_sale_system.Reply.{Response, failure, http_result}

-- What `httpx.Parse` makes of a request: the request, or the text of its error.
pub data Parsed (Req : Type 0) : Type 0 where
  parsed : Req → Parsed Req
  refused : String → Parsed Req

-- What stands in a request's context under `CtxKeyJwtUserId`: no `json.Number`, or one with what its
-- `Int64` returns.
pub data JwtUserId : Type 0 where
  no_number : JwtUserId
  number : Option ℤ → JwtUserId

unfoldable pub get_uid_from_ctx : JwtUserId → ℤ
get_uid_from_ctx no_number = pos 0
get_uid_from_ctx (number none) = pos 0
get_uid_from_ctx (number (some uid)) = uid

-- `ParamErrorResult`
unfoldable pub param_error_result : {A : Type 0} → String → Response A
param_error_result text =
    failure 400 reuqest_param_error (append (append (map_err_msg reuqest_param_error) " ,") text)

-- `result.HttpResult(r, w, resp, err)`, where `resp` is a pointer, nil beside an error.
unfoldable pub reply : {A : Type 0} → Result (Option A) → Result (Response (Option A))
reply (ok resp) = ok (http_result resp none)
reply (err e) = ok (http_result none (some e))
reply panic = panic

abbrev pub resp_of : {A : Type 0} → Result A → Result (Option A)
resp_of (ok a) = ok (some a)
resp_of (err e) = err e
resp_of panic = panic

-- The body that the handlers share, for logic that reads and for logic that changes the state.
unfoldable pub handle_read :
    {Req A : Type 0} → Parsed Req → (Req → Result (Option A)) → Result (Response (Option A))
handle_read (refused text) logic = ok (param_error_result text)
handle_read (parsed req) logic = reply (logic req)

unfoldable pub handle :
    {S Req A : Type 0} → Parsed Req → (Req → Action S A) → Action S (Response (Option A))
handle (refused text) logic s = (ok (param_error_result text), s)
handle (parsed req) logic s = let (r, s') = logic req s in (reply (resp_of r), s')

-- `CommonJwtAuthMiddleware.Handle`: `authorize` is go-zero's check under the secret, and
-- `authorization` the request's header.
unfoldable pub common_jwt_auth :
    {Handler : Type 0}
    → (authorize : Handler → Handler) → (authorization : String) → Handler
    → Handler
common_jwt_auth authorize authorization next =
    if str_eq authorization "" then next else authorize next

-- `HealthCheck`, and its handler, with go-zero's two replies as arguments.
abbrev pub health_check : Result String
health_check = ok "ok"

unfoldable pub health_check_handler :
    {Reply : Type 0} → (error_ctx : Error → Reply) → (ok_json_ctx : String → Reply) → Result Reply
health_check_handler error_ctx ok_json_ctx = elim health_check [
  | ok status ↦ ok (ok_json_ctx status)
  | err e ↦ ok (error_ctx e)
  | panic ↦ panic
]
