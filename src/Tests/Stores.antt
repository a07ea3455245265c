-- ===== src/Tests/Stores.antt =====
-- The table model on a table of three orders.
use mathlib.Core.List.Perm
use flash_sale_system.Common.{
  str_eq, ◌≡◌, ◌≢◌, refl, inl, ◌<◌, Bool, true, ◌&&◌, ◌==ℤ◌, List, [], ◌∷◌, ◌++◌, map, count, pos,
  to_word, Result, ok, err, Error, other, if◌then◌else◌, arith,
}
use flash_sale_system.Store.{
  Select, Conn, is_live, is_current, next_version, update_with_version, find_one,
  find_page_list_by_id_desc,
}
use flash_sale_system.Common.{false}
use flash_sale_system.Store.{delete_soft}
use flash_sale_system.Store.Deletion.{delete_soft_done}
use flash_sale_system.Store.Sql.{IsSql}
use flash_sale_system.Store.Version.{written, second_writer_refused}
use flash_sale_system.Store.Paging.{IsOrdered, visible}
use flash_sale_system.Store.Scroll.{scroll}
use flash_sale_system.Order.Listing.{listed, every_order_shown}
use flash_sale_system.Order.Query.{
  UserHomestayOrderListReq, list_condition, to_pb, user_homestay_order_list,
}
use flash_sale_system.Order.{HomestayOrder, order_table, order_table-IsTable, refund, used}
use flash_sale_system.Order.Create.{new_order}
use flash_sale_system.Tests.Memory.{memory, memory-IsSql}
use flash_sale_system.Tests.Orders.{paid, orders}

abbrev refunded : HomestayOrder
refunded = record paid { trade_state = refund }

abbrev used_up : HomestayOrder
used_up = record paid { trade_state = used }

-- A copy of an order that was read before another writer was there.
abbrev stale : HomestayOrder
stale = record paid { version = pos 6 }

refund_done : (update_with_version order_table (memory order_table) refunded orders.db).0 ≡ ok tt
unfolding update_with_version find_one next_version new_order
refund_done = refl

stale_refused :
    (update_with_version order_table (memory order_table) stale orders.db).0
    ≡ err Error.no_rows_update
unfolding update_with_version find_one next_version new_order
stale_refused = refl

stale_found :
    (memory order_table).find_row (λ r. (r.id ==ℤ stale.id) && is_live order_table r) orders.db
    ≢ err Error.no_rows_update
unfolding new_order
stale_found h = cc

second_writer_refused_example :
    (update_with_version order_table
      (memory order_table)
      used_up
      (update_with_version order_table (memory order_table) refunded orders.db).1).0
    ≢ ok tt
second_writer_refused_example =
    second_writer_refused order_table (memory order_table) order_table-IsTable
      (memory-IsSql order_table) refunded used_up orders.db refl refl refund_done

-- A database that nothing is written to, with its rows by falling id.
abbrev listing : List HomestayOrder
listing = record paid { id = pos 8 } ∷ record paid { id = pos 6 } ∷ record paid { id = pos 2 } ∷ []

abbrev frozen : Conn (Unit {0}) HomestayOrder
frozen = record {
  exec = λ q d. (err (other "read only"), d);
  find_row = λ p d. (memory order_table).find_row p listing;
  find_rows = λ q d. (memory order_table).find_rows q listing;
  find_count = λ p f d. (memory order_table).find_count p f listing;
  text_eq = str_eq;
}

err-ne-ok : {A : Type 0} (e : Error) (a : A) → ◌≢◌ {A = Result A} (err e) (ok a)
err-ne-ok e a h = cc

ok-injective : {A : Type 0} (a b : A) → ◌≡◌ {A = Result A} (ok a) (ok b) → b ≡ a
ok-injective a b h = cc

abbrev frozen-IsSql : IsSql order_table frozen
frozen-IsSql = record {
  rows = λ d. listing;
  column = λ d r. r;
  auto_id = λ d. pos 9;
  id-column = λ d r. refl;
  version-column = λ d r. refl;
  del_state-column = λ d r. refl;
  exec_done = λ q d res h. absurd (err-ne-ok _ res h);
  exec_failed = λ q d e h. inl refl;
  exec_panicked = λ q d h. inl refl;
}

abbrev frozen-IsOrdered : IsOrdered frozen-IsSql
frozen-IsOrdered = record {
  listing = λ d. listing;
  listing_rows = λ d. Perm.refl listing;
  listing-IsDescending = λ d. ((omega arith, (omega arith, tt)), ((omega arith, tt), (tt, tt)));
  page = λ p n d l h. ok-injective _ l h;
}

frozen_answers :
    (q : Select HomestayOrder) (d : Unit) → (l : List HomestayOrder) × (frozen.find_rows q d ≡ ok l)
frozen_answers q d = (_, refl)

abbrev all : HomestayOrder → Bool
all r = true

abbrev page_2 : List HomestayOrder
page_2 = record paid { id = pos 6 } ∷ record paid { id = pos 2 } ∷ []

page_2_found : find_page_list_by_id_desc order_table frozen all (pos 8) (pos 2) tt ≡ ok page_2
unfolding find_page_list_by_id_desc new_order to_word
page_2_found = refl

all-visible : visible order_table frozen frozen-IsSql frozen-IsOrdered all tt ≡ [] ++ listing
unfolding new_order
all-visible = refl

abbrev all_of_user : UserHomestayOrderListReq
all_of_user = record {
  last_id = pos 0;
  page_size = pos 2;
  user_id = paid.user_id;
  trader_state = pos 99;
}

listed_all : listed frozen frozen-IsSql frozen-IsOrdered frozen_answers all_of_user tt ≡ listing
unfolding list_condition new_order
listed_all = refl

every_order_shown_example :
    scroll
      (λ last. user_homestay_order_list frozen (record all_of_user { last_id = last }) tt)
      (λ o. o.id)
      4
      (pos 0)
    ≡ ok (map to_pb (listed frozen frozen-IsSql frozen-IsOrdered frozen_answers all_of_user tt))
unfolding list_condition new_order to_word
every_order_shown_example =
    every_order_shown frozen frozen-IsSql frozen-IsOrdered frozen_answers all_of_user tt 4
      (omega arith) (omega arith, (omega arith, (omega arith, tt))) (omega arith)

page_1_found :
    find_page_list_by_id_desc order_table frozen all (pos 0) (pos 1) tt
    ≡ ok (record paid { id = pos 8 } ∷ [])
unfolding find_page_list_by_id_desc new_order to_word
page_1_found = refl

paid_deleted : (delete_soft order_table (memory order_table) (pos 99) paid orders.db).0 ≡ ok tt
unfolding delete_soft update_with_version find_one next_version new_order
paid_deleted = refl

delete_soft_done_example :
    ((delete_soft order_table (memory order_table) (pos 99) paid orders.db).1
      ≡ map
          (λ x.
            if is_current order_table paid x
            then written order_table
                (memory order_table)
                order_table-IsTable
                (memory-IsSql order_table)
                (record paid { del_state = pos 1; delete_time = pos 99 })
                orders.db
                x
            else x)
          orders.db)
    × (0 < count (is_current order_table paid) orders.db)
    × ((x : HomestayOrder)
        → is_live order_table (
            written order_table
              (memory order_table)
              order_table-IsTable
              (memory-IsSql order_table)
              (record paid { del_state = pos 1; delete_time = pos 99 })
              orders.db
              x)
          ≡ false)
delete_soft_done_example =
    delete_soft_done order_table (memory order_table) order_table-IsTable (memory-IsSql order_table)
      (pos 99) paid orders.db paid_deleted
