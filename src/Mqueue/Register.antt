-- ===== src/Mqueue/Register.antt =====
-- The jobs that are registered with asynq (app/mqueue/cmd/job/internal/logic/routes.go and
-- settleRecord.go), their names (app/mqueue/cmd/job/jobtype/jobtype.go), and the schedule of
-- app/mqueue/cmd/scheduler.
use flash_sale_system.Common.{List, [], ◌∷◌, String, Result, ok}

abbrev pub schedule_settle_record : String
schedule_settle_record = "schedule:settle_record:settle"

abbrev pub defer_close_type : String
defer_close_type = "defer:homestay_order:close"

abbrev pub msg_pay_success_type : String
msg_pay_success_type = "msg:pay_success:notify_user"

-- The handlers: `SettleRecordHandler`, `CloseHomestayOrderHandler`, `PaySuccessNotifyUserHandler`.
pub data JobHandler : Type 0 where
  settle_record_handler close_homestay_order_handler pay_success_notify_user_handler : JobHandler

-- `Register`
abbrev pub registered_jobs : List (String × JobHandler)
registered_jobs =
    (schedule_settle_record, settle_record_handler)
    ∷ (defer_close_type, close_homestay_order_handler)
    ∷ (msg_pay_success_type, pay_success_notify_user_handler)
    ∷ []

-- `SettleRecordHandler.ProcessTask`
abbrev pub settle_record : Result (Unit {0})
settle_record = ok tt

-- `settleRecordScheduler`: the schedule and the name of its task.
abbrev pub settle_record_scheduler : String × String
settle_record_scheduler = ("*/1 * * * *", schedule_settle_record)
