-- ===== src/Order.antt =====
-- The order service's records: `HomestayOrder` of app/order/model/homestayOrderModel_gen.go, the
-- constants of app/order/model/vars.go, and the tasks that the service hands to asynq.
pub mod Trade
pub mod TradeLaws
pub mod TradeEffect
pub mod Create
pub mod Query
pub mod Api
pub mod CreateLaws
pub mod ApiLaws
pub mod Runs
pub mod Live
pub mod Handler
pub mod Listing
use flash_sale_system.Common.{
  ◌≡◌, refl, List, [], ◌∷◌, ◌++◌, String, ℕ, ℤ, pos, negsuc, Bool, Result, ok, Action,
  if◌then◌else◌,
}
use flash_sale_system.Store.{Table}
use flash_sale_system.Store.Models.{
  TableWrites, TableReads, reading_writes, unread_writes, table_reads,
}
use flash_sale_system.Store.{Conn}
use flash_sale_system.Store.Sql.{IsTable}

pub record HomestayOrder : Type 0 where
  pub id : ℤ
  pub create_time : ℤ
  pub update_time : ℤ
  pub delete_time : ℤ
  pub del_state : ℤ
  pub version : ℤ
  pub sn : String
  pub user_id : ℤ
  pub homestay_id : ℤ
  pub title : String
  pub sub_title : String
  pub cover : String
  pub info : String
  pub people_num : ℤ
  pub row_type : ℤ
  pub need_food : ℤ
  pub food_info : String
  pub food_price : ℤ
  pub homestay_price : ℤ
  pub market_homestay_price : ℤ
  pub homestay_business_id : ℤ
  pub homestay_user_id : ℤ
  pub live_start_date : ℤ
  pub live_end_date : ℤ
  pub live_people_num : ℤ
  pub trade_state : ℤ
  pub trade_code : String
  pub remark : String
  pub order_total_price : ℤ
  pub food_total_price : ℤ
  pub homestay_total_price : ℤ

abbrev pub order_table : Table HomestayOrder
order_table = record {
  id = λ r. r.id;
  version = λ r. r.version;
  del_state = λ r. r.del_state;
  with_id = λ v r. record r { id = v };
  with_version = λ v r. record r { version = v };
  with_del_state = λ v r. record r { del_state = v };
  with_delete_time = λ v r. record r { delete_time = v };
  assign = λ new old. record new {
    id = old.id;
    create_time = old.create_time;
    update_time = old.update_time;
  };
}

abbrev pub cancel : ℤ
cancel = negsuc 0

abbrev pub wait_pay : ℤ
wait_pay = pos 0

abbrev pub wait_use : ℤ
wait_use = pos 1

abbrev pub used : ℤ
used = pos 2

abbrev pub refund : ℤ
refund = pos 3

abbrev pub expire : ℤ
expire = pos 4

abbrev pub need_food_no : ℤ
need_food_no = pos 0

abbrev pub need_food_yes : ℤ
need_food_yes = pos 1

-- The tasks of app/mqueue/cmd/job/jobtype, with their payloads; a deferred one has its delay in
-- minutes.
pub data Task : Type 0 where
  defer_close_homestay_order : String → ℕ → Task
  msg_pay_success_notify_user : HomestayOrder → Task

-- What the order RPC changes: the database, and the tasks that it has handed to `Enqueue`. Whether
-- asynq took a task is only logged, so it is not kept.
pub record State (Db : Type 0) : Type 0 where
  pub db : Db
  pub enqueued : List Task

abbrev pub on_db : {Db A : Type 0} → Action Db A → Action (State Db) A
on_db m s = let (r, d) = m s.db in (r, record s { db = d })

-- `json.Marshal` and `Enqueue`; a payload that cannot be marshalled is only logged.
abbrev pub enqueue : {Db : Type 0} → (Task → Bool) → Task → Action (State Db) (Unit {0})
enqueue marshals task s =
    (ok tt, record s { enqueued = s.enqueued ++ (if marshals task then task ∷ [] else []) })

-- The columns of an order read back what was written.
pub order_table-IsTable : IsTable order_table
order_table-IsTable = record {
  id-assign = λ new old. refl;
  version-assign = λ new old. refl;
  del_state-assign = λ new old. refl;
  id-with_version = λ v r. refl;
  version-with_version = λ v r. refl;
  del_state-with_version = λ v r. refl;
  id-with_del_state = λ v r. refl;
  version-with_del_state = λ v r. refl;
  del_state-with_del_state = λ v r. refl;
  id-with_delete_time = λ v r. refl;
  version-with_delete_time = λ v r. refl;
  del_state-with_delete_time = λ v r. refl;
}

-- The generated model of the table, in its two halves.
abbrev pub homestay_order_writes :
    {Db : Type 0} → Conn Db HomestayOrder → TableWrites Db HomestayOrder
homestay_order_writes conn = reading_writes order_table conn

abbrev pub homestay_order_reads :
    {Db : Type 0} → Conn Db HomestayOrder → TableReads Db HomestayOrder
homestay_order_reads conn = table_reads order_table conn
