-- ===== src/Payment.antt =====
-- The payment service's records: `ThirdPayment` of app/payment/model/thirdPaymentModel_gen.go, the
-- constants of app/payment/model/vars.go, and the message of pkg/kqueue.
pub mod Update
pub mod Laws
pub mod Runs
pub mod Messages
pub mod Query
pub mod Callback
pub mod CallbackLaws
pub mod WxPay
pub mod Handler
pub mod HandlerLaws
use flash_sale_system.Common.{◌≡◌, refl, List, [], ◌∷◌, String, ℤ, pos, negsuc, Result, Action}
use flash_sale_system.Store.{Table}
use flash_sale_system.Store.Models.{
  TableWrites, TableReads, reading_writes, unread_writes, table_reads,
}
use flash_sale_system.Store.{Conn}
use flash_sale_system.Store.Sql.{IsTable}

pub record ThirdPayment : Type 0 where
  pub id : ℤ
  pub sn : String
  pub create_time : ℤ
  pub update_time : ℤ
  pub delete_time : ℤ
  pub del_state : ℤ
  pub version : ℤ
  pub user_id : ℤ
  pub pay_mode : String
  pub trade_type : String
  pub trade_state : String
  pub pay_total : ℤ
  pub transaction_id : String
  pub trade_state_desc : String
  pub order_sn : String
  pub service_type : String
  pub pay_status : ℤ
  pub pay_time : ℤ

abbrev pub payment_table : Table ThirdPayment
payment_table = record {
  id = λ r. r.id;
  version = λ r. r.version;
  del_state = λ r. r.del_state;
  with_id = λ v r. record r { id = v };
  with_version = λ v r. record r { version = v };
  with_del_state = λ v r. record r { del_state = v };
  with_delete_time = λ v r. record r { delete_time = v };
  assign = λ new old. record new {
    id = old.id;
    create_time = old.create_time;
    update_time = old.update_time;
  };
}

abbrev pub service_type_homestay_order : String
service_type_homestay_order = "homestayOrder"

abbrev pub pay_model_wechat_pay : String
pay_model_wechat_pay = "WECHAT_PAY"

-- `ThirdPaymentPayTradeState…`
abbrev pub fail : ℤ
fail = negsuc 0

abbrev pub wait : ℤ
wait = pos 0

abbrev pub success : ℤ
success = pos 1

abbrev pub refund : ℤ
refund = pos 2

-- `ThirdPaymentUpdatePayStatusNotifyMessage`
pub record NotifyMessage : Type 0 where
  pub pay_status : ℤ
  pub order_sn : String

-- What the payment RPC changes: the database, and the messages that it has pushed to kafka. Whether
-- kafka took a message is only logged, so it is not kept.
pub record State (Db : Type 0) : Type 0 where
  pub db : Db
  pub published : List NotifyMessage

abbrev pub on_db : {Db A : Type 0} → Action Db A → Action (State Db) A
on_db m s = let (r, d) = m s.db in (r, record s { db = d })

-- The columns of a payment read back what was written.
pub payment_table-IsTable : IsTable payment_table
payment_table-IsTable = record {
  id-assign = λ new old. refl;
  version-assign = λ new old. refl;
  del_state-assign = λ new old. refl;
  id-with_version = λ v r. refl;
  version-with_version = λ v r. refl;
  del_state-with_version = λ v r. refl;
  id-with_del_state = λ v r. refl;
  version-with_del_state = λ v r. refl;
  del_state-with_del_state = λ v r. refl;
  id-with_delete_time = λ v r. refl;
  version-with_delete_time = λ v r. refl;
  del_state-with_delete_time = λ v r. refl;
}

-- The generated model of the table, in its two halves.
abbrev pub third_payment_writes : {Db : Type 0} → Conn Db ThirdPayment → TableWrites Db ThirdPayment
third_payment_writes conn = reading_writes payment_table conn

abbrev pub third_payment_reads : {Db : Type 0} → Conn Db ThirdPayment → TableReads Db ThirdPayment
third_payment_reads conn = table_reads payment_table conn
