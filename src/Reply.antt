-- ===== src/Reply.antt =====
-- How an error reaches a client: the interceptor of the RPC servers
-- (pkg/interceptor/rpcserver/loggerInterceptor.go), gRPC, and the HTTP replies of pkg/result.
-- gRPC itself is a parameter; logging is left out.
use flash_sale_system.Common.{
  ℕ, ◌≤◌, String, ◌≡◌, Option, some, none, if◌then◌else◌, Action, Error, code_error, status,
  not_found, no_rows_update, other, Result, ok, err, panic, arith,
}
use flash_sale_system.Xerr.{server_common_error, is_code_err}

-- `LoggerInterceptor`: a `CodeError` becomes a gRPC status with its code and message.
unfoldable pub logger_interceptor : {A : Type 0} → Result A → Result A
logger_interceptor (err (code_error code msg)) = err (status code msg)
logger_interceptor (err e) = err e
logger_interceptor (ok a) = ok a
logger_interceptor panic = panic

-- `ResponseSuccessBean` and `ResponseErrorBean`, each with the HTTP status beside it.
pub data Response (A : Type 0) : Type 0 where
  success : (http_status code : ℕ) → String → A → Response A
  failure : (http_status code : ℕ) → String → Response A

abbrev pub busy_message : String
busy_message = "服务器开小差啦，稍后再来试一试"

-- The code and the message that a client is shown of an error: the body that `HttpResult`,
-- `AuthHttpResult` and `JobResult` share.
unfoldable pub shown : Error → ℕ × String
shown (code_error code msg) = (code, msg)
shown (status code msg) =
    if is_code_err code then (code, msg) else (server_common_error, busy_message)
shown e = (server_common_error, busy_message)

-- `HttpResult`: the value, or the error with 400.
unfoldable pub http_result : {A : Type 0} → A → Option Error → Response A
unfolding shown
http_result a none = success 200 200 "OK" a
http_result a (some e) = failure 400 (shown e).0 (shown e).1

-- `AuthHttpResult`: the value, or the error with 401.
unfoldable pub auth_http_result : {A : Type 0} → A → Option Error → Response A
unfolding shown
auth_http_result a none = success 200 200 "OK" a
auth_http_result a (some e) = failure 401 (shown e).0 (shown e).1

-- What `JobResult` logs.
unfoldable pub job_result : Option Error → Option (ℕ × String)
unfolding shown
job_result none = none
job_result (some e) = some (shown e)

-- The error that the server of go-zero turns a recovered panic into. Which status the client has of
-- it is up to `carry`, as for all errors of libraries.
abbrev pub recovered : Error
recovered = other "panic"

-- What gRPC documents of an error that a server returns: a status comes to the client as it is, any
-- other error as one with a code of gRPC's own, the numbers up to 16; that of an error that the
-- library does not know is 2, `Unknown`.
pub record IsGrpc (carry : Error → Error) : Type 0 where
  pub carry-status : (code : ℕ) (msg : String) → carry (status code msg) ≡ status code msg
  pub carry-not_found : (msg : String) × (carry not_found ≡ status 2 msg)
  pub carry-no_rows_update : (msg : String) × (carry no_rows_update ≡ status 2 msg)
  pub carry-other :
      (text : String)
      → (code : ℕ) × (msg : String) × (code ≤ 16) × (carry (other text) ≡ status code msg)

-- What an RPC server's logic returned, as its client has it: a panic of the server is an error there.
unfoldable pub remote : {A : Type 0} → (Error → Error) → Result A → Result A
unfolding logger_interceptor
remote carry r = elim (logger_interceptor r) [
  | ok a ↦ ok a
  | err e ↦ err (carry e)
  | panic ↦ err (carry recovered)
]

pub remote-ok :
    {A : Type 0} (carry : Error → Error) (r : Result A) (a : A) → remote carry r ≡ ok a → r ≡ ok a
unfolding remote
remote-ok carry (ok x) a h = ground arith
remote-ok carry (err (code_error code msg)) a h = absurd (ground arith)
remote-ok carry (err (status code msg)) a h = absurd (ground arith)
remote-ok carry (err not_found) a h = absurd (ground arith)
remote-ok carry (err no_rows_update) a h = absurd (ground arith)
remote-ok carry (err (other text)) a h = absurd (ground arith)
remote-ok carry panic a h = absurd (ground arith)

-- A call of an RPC, with its error as the client has it.
abbrev pub call : {S A : Type 0} → (Error → Error) → Action S A → Action S A
call carry m s = let (r, s') = m s in (remote carry r, s')
