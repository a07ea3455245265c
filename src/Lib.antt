-- ===== src/Lib.antt =====
-- Verification of the flash sale system: the booking of homestays, from registration and login over
-- the order and its payment to the jobs that follow.
--
-- The program is a set of go-zero services. HTTP APIs (app/*/cmd/api) call gRPC services
-- (app/*/cmd/rpc), each of which keeps its tables in MySQL behind a cache, by generated models
-- (app/*/model). The order RPC hands tasks to asynq, which app/mqueue/cmd/job runs; the payment RPC
-- publishes messages to kafka, which app/order/cmd/mq consumes and turns into calls of the order RPC.
--
-- The model has a function for each operation of a service. One that changes state is an `Action`: it
-- takes the state and returns a result and the state afterwards, in the error case too. A result is a
-- value, the root of a Go error chain, or a run-time panic. An int64 is a whole number that `i64` wraps
-- where the code calculates; a time is its Unix seconds; a price is in fen.
--
-- - Common: results and actions (Outcome), whole numbers and int64 (Int), lists, Boolean tests.
-- - Store: the generated table models, app/order/model/homestayOrderModel_gen.go and its like, for any
--   row type. The connection (`sqlc.CachedConn`) is a parameter; Store/Sql says what is asked of MySQL
--   behind it. Store/Version is about the optimistic lock, Store/Deletion about deleted
--   rows, Store/Paging about pages by id, Store/Scroll about reading one after the other, Store/Keys about
--   the table as a map from ids to rows, and Store/Live about a database that answers. Store/Models has the generated interface and its two
--   implementations, which homestayModel_gen.go and its like show beside that of the orders; each
--   table's model is an instance (`homestay_order_writes`, `homestay_order_reads`, and so on).
--   Store/Ranked, Store/Machine and Store/Tally are about a state column behind the optimistic lock,
--   whichever way the requests that read and write it interleave.
-- - Xerr, Reply: pkg/xerr, pkg/result and pkg/interceptor/rpcserver.
-- - Tool: pkg/tool/krand.go, pkg/tool/placeholders.go and pkg/uniqueid; Tool/Encryption is
--   pkg/tool/encryption.go and Tool/Coin pkg/tool/coinconvert.go.
-- - Order: app/order/model, and the order RPC and API: Trade (updateHomestayOrderTradeStateLogic.go),
--   Create (createHomestayOrderLogic.go), Query (homestayOrderDetailLogic.go and
--   userHomestayOrderListLogic.go), Api (app/order/cmd/api). TradeLaws, TradeEffect, CreateLaws
--   and ApiLaws hold the proofs; Runs has the service with its requests interleaved, Live what it does
--   while the database answers, Listing the pages of a user's orders, and Handler the HTTP handlers. The state is the database and the
--   tasks that were handed to asynq.
-- - Payment: app/payment/model, and the payment RPC and API: Update (createPaymentLogic.go and
--   updateTradeStateLogic.go), Query, Callback and WxPay (app/payment/cmd/api). Laws and CallbackLaws
--   hold the proofs; Runs has its requests interleaved, Handler and HandlerLaws are about the HTTP
--   handlers, and Messages about the messages of a run. The state is the database and the messages
--   that were published.
-- - GenModel: deploy/script/mysql/genModel.
-- - OrderMq: app/order/cmd/mq. Pipeline joins it to the payment RPC and the order RPC.
-- - Mqueue: app/mqueue/cmd/job: CloseOrder (closeOrder.go), Notify (paySuccessNotifyUser.go) and
--   Register (routes.go, settleRecord.go and app/mqueue/cmd/scheduler); Live is about the closing of an
--   order while the database answers.
-- - User: app/usercenter: Token, Login, Register, Info, Api, Handler, and the proofs in Laws and,
--   about WeChat, SignIn.
-- - Travel: app/travel, its RPC and its API: Api (homestay), Business (homestayBussiness and
--   homestayComment) and Handler, with the proofs in Laws and, about what the workers of a map and
--   reduce leave, in Pipes.
-- - System: the services together, on the databases of the order RPC and the payment RPC: its state,
--   its steps and its runs. System/Orders, Booking and Closing are about the steps that reach the order
--   RPC, System/Payments, Paying and Notices about those that reach the payment RPC, and System/Sound
--   about both. System/Settled is about the writes of the payment RPC and System/Once about the messages
--   behind them, while requests interleave. Store/Stamps is about the columns of a table that stay as
--   they were inserted.
-- - Http: what the HTTP handlers share, pkg/ctxdata, pkg/middleware and the health checks.
-- - Rpc: the interfaces of the four gRPC services, with their servers (app/*/cmd/rpc/internal/server)
--   and clients (app/*/cmd/rpc/order/order.go and its like). Rpc/Missing is about a booking across
--   three services.
-- - Routes: routes.go of the four APIs (app/*/cmd/api/internal/handler). Routes/Guard is about the
--   handlers that a request without a token reaches, Routes/OrderApi about the order API as its server
--   runs it, and Routes/SignedIn about the way from the login to an order.
-- - Tests: an in-memory database, and the theorems at concrete requests.
--
-- The only loop on fuel is that of `SendWxMini` (`send_loop`). It gets 7, as many rounds as the code
-- can make; that this is enough is a part of the theorem about it.
--
-- Parameters, since their code is not here: the connection to MySQL, its comparison of texts by a
-- collation (`text_eq`) and its transactions, gRPC between a server and its client with the statuses that
-- errors and recovered panics of the server become (`carry`), go-zero's HTTP server (`serve`), asynq's and kafka's acceptance of what they are given (only logged
-- by the code, so not kept), WeChat's libraries, MD5 sums, the signature of tokens, decimals and
-- floating point, random draws, and the clock. `copier.Copy` copies the fields of equal names; it is written
-- out field by field.
--
-- A run of a service is a list of steps. A step is a read of a row, or all that a request does from
-- its decision on, in which the only statement is the one of `UpdateWithVersion` or `Insert`; so the
-- steps of different requests may stand in any order.
--
-- In a run of the whole system a step is one request, message or task, run to its end; but the answer
-- of the order RPC that a payment is started with may be older than the payment. A message and a task
-- may come at any time after it was handed over, more than once or never. A row that the cache returns
-- may be out of date there, in all columns but its id and those that never change.
--
-- Not modelled: the cache's key formats (CachedConn's), asynq's server, the wiring of configuration,
-- generated gRPC code, crypto/md5 and the decimal library, deployment and documents.
pub mod Common
pub mod Store
pub mod Xerr
pub mod Reply
pub mod Tool
pub mod Travel
pub mod Order
pub mod Payment
pub mod OrderMq
pub mod Mqueue
pub mod User
pub mod Pipeline
pub mod GenModel
pub mod Http
pub mod System
pub mod Rpc
pub mod Routes
pub mod Tests
