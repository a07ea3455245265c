-- ===== src/Tests/Payments.antt =====
-- The payment service on a table of two payments, and its message at the order service.
use flash_sale_system.Common.{◌≡◌, ◌↔◌, ◌≢◌, refl, ◌⊎◌, List, [], ◌∷◌, pos, ok, Error}
use flash_sale_system.Payment.{ThirdPayment, payment_table, State, fail, success, wait, refund}
use flash_sale_system.Payment.Update.{
  proceed, answer_at_once, UpdateTradeStateReq, find_one_by_sn, update_trade_state, judge,
  with_notification, write_trade_state,
}
use flash_sale_system.Payment.Laws.{judge-Transition, IsPaid, Transition, update_payment_effect}
use flash_sale_system.Payment.Query.{get_payment_by_sn, to_pb}
use flash_sale_system.Payment.Callback.{
  Transaction, verify_and_update_state, get_pay_status_by_wx_pay_trade_state,
}
use flash_sale_system.Payment.CallbackLaws.{callback_changes}
use flash_sale_system.Reply.{remote, logger_interceptor}
use flash_sale_system.Store.{update_with_version, find_one, next_version}
use flash_sale_system.Tests.Memory.{memory, memory-IsSql}

abbrev pub waiting : ThirdPayment
waiting = record {
  id = pos 1;
  sn = "PMT1";
  create_time = pos 0;
  update_time = pos 0;
  delete_time = pos 0;
  del_state = pos 0;
  version = pos 0;
  user_id = pos 7;
  pay_mode = "WECHAT_PAY";
  trade_type = "";
  trade_state = "";
  pay_total = pos 44000;
  transaction_id = "";
  trade_state_desc = "";
  order_sn = "HSO1";
  service_type = "homestayOrder";
  pay_status = wait;
  pay_time = pos 0;
}

abbrev pub done : ThirdPayment
done = record waiting { id = pos 2; sn = "PMT2"; pay_status = success }

abbrev pub payments : State (List ThirdPayment)
payments = record { db = waiting ∷ done ∷ []; published = [] }

abbrev carry : Error → Error
carry e = e

abbrev pub succeeded : UpdateTradeStateReq
succeeded = record {
  sn = "PMT1";
  trade_state = "SUCCESS";
  transaction_id = "42";
  trade_type = "JSAPI";
  trade_state_desc = "";
  pay_status = success;
  pay_time = pos 0;
}

abbrev pub notice : Transaction
notice = record {
  out_trade_no = "PMT1";
  trade_state = "SUCCESS";
  transaction_id = "42";
  trade_type = "JSAPI";
  trade_state_desc = "";
  payer_total = pos 44000;
}

waiting_found : find_one_by_sn (memory payment_table) "PMT1" payments.db ≡ ok waiting
unfolding find_one_by_sn
waiting_found = refl

pub payment_succeeds : (update_trade_state (memory payment_table) succeeded payments).0 ≡ ok tt
unfolding update_trade_state find_one_by_sn judge write_trade_state with_notification
    update_with_version find_one next_version
payment_succeeds = refl

update_payment_effect_example :
    (p : ThirdPayment) × (find_one_by_sn (memory payment_table) "PMT1" payments.db ≡ ok p)
    × ((p.pay_status ≢ wait)
          × ((update_trade_state (memory payment_table) succeeded payments).1 ≡ payments)
        ⊎ IsPaid
            (memory payment_table)
            (memory-IsSql payment_table)
            p
            succeeded
            payments
            (update_trade_state (memory payment_table) succeeded payments).1)
update_payment_effect_example =
    update_payment_effect (memory payment_table) (memory-IsSql payment_table) succeeded payments
      payment_succeeds

notice_changes : (verify_and_update_state (memory payment_table) carry notice payments).1 ≢ payments
unfolding verify_and_update_state get_payment_by_sn remote logger_interceptor to_pb
    get_pay_status_by_wx_pay_trade_state update_trade_state find_one_by_sn judge write_trade_state
    with_notification update_with_version find_one next_version
notice_changes h = cc

callback_changes_example :
    (p : ThirdPayment) × (find_one_by_sn (memory payment_table) "PMT1" payments.db ≡ ok p)
    × (p.pay_total ≡ pos 44000)
    × (p.pay_status ≡ wait)
    × (notice.trade_state ≡ "SUCCESS")
callback_changes_example =
    callback_changes (memory payment_table) carry notice payments notice_changes

judge-Transition_example :
    ((judge refund success ≡ ok proceed) ↔ Transition success refund)
    × ((judge refund success ≡ ok answer_at_once)
        ↔ (((refund ≡ success) ⊎ (refund ≡ fail)) × (success ≢ wait)))
judge-Transition_example = judge-Transition refund success
