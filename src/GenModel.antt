-- ===== src/GenModel.antt =====
-- The models of deploy/script/mysql/genModel, the folder that goctl writes to: the orders' and the
-- payments', the same text as in app/order/model and app/payment/model.
use flash_sale_system.Store.{Conn}
use flash_sale_system.Store.Models.{TableWrites, TableReads, reading_writes, table_reads}
use flash_sale_system.Order.{HomestayOrder, order_table}
use flash_sale_system.Payment.{ThirdPayment, payment_table}

abbrev pub generated_order_writes :
    {Db : Type 0} → Conn Db HomestayOrder → TableWrites Db HomestayOrder
generated_order_writes conn = reading_writes order_table conn

abbrev pub generated_order_reads :
    {Db : Type 0} → Conn Db HomestayOrder → TableReads Db HomestayOrder
generated_order_reads conn = table_reads order_table conn

abbrev pub generated_payment_writes :
    {Db : Type 0} → Conn Db ThirdPayment → TableWrites Db ThirdPayment
generated_payment_writes conn = reading_writes payment_table conn

abbrev pub generated_payment_reads :
    {Db : Type 0} → Conn Db ThirdPayment → TableReads Db ThirdPayment
generated_payment_reads conn = table_reads payment_table conn
