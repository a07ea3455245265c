-- ===== src/Tests/Races.antt =====
-- A payment whose success is notified twice at once.
use flash_sale_system.Common.{◌≡◌, refl, inl, some, List, [], ◌∷◌, pos, ◌+ℤ◌, i64, arith, ◌≤◌}
use flash_sale_system.Store.{update_with_version, insert_row, next_version}
use flash_sale_system.Store.Tally.{total}
use flash_sale_system.Payment.{ThirdPayment}
use flash_sale_system.Payment.Update.{
  CreatePaymentReq, create_payment, new_payment, update_found, judge, write_trade_state,
  with_notification,
}
use flash_sale_system.Payment.Runs.{Config}
use flash_sale_system.System.Settled.{tells}
use flash_sale_system.System.Once as Once
use flash_sale_system.System.Once.{IsTold, told_at_most_once}
use flash_sale_system.Tests.Payments.{succeeded}
use flash_sale_system.Tests.Systems.{payment}

abbrev Payments : Type 0
Payments = Config (List ThirdPayment)

abbrev none_yet : Payments
none_yet = record { service = record { db = []; published = [] }; copies = [] }

none_yet-IsTold : IsTold payment (λ d p h. refl) none_yet
none_yet-IsTold = record {
  one_stamp = λ i k l m. absurd m;
  counted = λ p m. absurd m;
  copied = λ p m. absurd m;
  once = λ sn. omega arith;
}

abbrev wanted : CreatePaymentReq
wanted = record {
  user_id = pos 7;
  pay_model = "WECHAT_PAY";
  pay_total = pos 44000;
  order_sn = "HSO1";
  service_type = "homestayOrder";
}

abbrev created : Payments
created = record none_yet {
  service = (create_payment payment.conn (pos 0) wanted "PMT1" none_yet.service).1;
}

abbrev the_payment : ThirdPayment
the_payment = record (new_payment (pos 0) wanted "PMT1") { id = pos 1 }

abbrev both_read : Payments
both_read = record created { copies = the_payment ∷ the_payment ∷ [] }

abbrev told : Payments
told = record both_read {
  service = (update_found payment.conn succeeded (some the_payment) both_read.service).1;
}

abbrev told_again : Payments
told_again = record told {
  service = (update_found payment.conn succeeded (some the_payment) told.service).1;
}

race : Once.Run payment (λ d p h. refl) none_yet told_again
unfolding create_payment new_payment insert_row
race = Once.step (Once.creates {c = none_yet} (pos 0) wanted "PMT1") (
    Once.step (Once.reads {c = created} the_payment refl) (
      Once.step (Once.reads {c = record created { copies = the_payment ∷ [] }} the_payment refl) (
        Once.step (Once.updates {c = both_read} succeeded the_payment (inl refl) refl)
          (Once.step (Once.updates {c = told} succeeded the_payment (inl refl) refl) Once.ends))))

-- The first message is told.
first_told : total (tells "PMT1") told.service.published ≡ 1
unfolding create_payment new_payment insert_row write_trade_state update_with_version judge
    with_notification next_version i64 ◌+ℤ◌
first_told = refl

told_at_most_once_example : total (tells "PMT1") told_again.service.published ≤ 1
unfolding create_payment new_payment insert_row write_trade_state update_with_version judge
    with_notification next_version i64 ◌+ℤ◌
told_at_most_once_example =
    told_at_most_once payment (λ d p h. refl) none_yet told_again race none_yet-IsTold "PMT1"
      (omega arith)
