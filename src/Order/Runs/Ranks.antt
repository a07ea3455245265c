-- ===== src/Order/Runs/Ranks.antt =====
-- How far an order has come: the number of changes behind each trade state.
use flash_sale_system.Common.{◌≡◌, refl, ℕ, suc, ◌≤◌, ℤ, ◌==ℤ◌, ◌||◌, if◌then◌else◌, arith}
use flash_sale_system.Store.{Conn}
use flash_sale_system.Store.Sql.{IsSql}
use flash_sale_system.Store.Ranked.{IsRanked}
use flash_sale_system.Order.{HomestayOrder, order_table, cancel, wait_pay, wait_use}
use flash_sale_system.Order.TradeLaws.{
  Transition, cancels, pays, uses, refunds, expires, IsTradeState,
}

-- How many changes led to a state.
unfoldable pub trade_rank : ℤ → ℕ
trade_rank s = if s ==ℤ wait_pay then 0 else if (s ==ℤ cancel) || (s ==ℤ wait_use) then 1 else 2

trade_rank-step : (a b : ℤ) → Transition a b → trade_rank b ≡ suc (trade_rank a)
unfolding trade_rank
trade_rank-step a b cancels = refl
trade_rank-step a b pays = refl
trade_rank-step a b uses = refl
trade_rank-step a b refunds = refl
trade_rank-step a b expires = refl

trade_rank-le : (a : ℤ) → trade_rank a ≤ 2
unfolding trade_rank
trade_rank-le a = ground arith

pub trade_ranked : IsRanked Transition trade_rank
trade_ranked = record { rank-step = trade_rank-step; rank-le = trade_rank-le }

pub target_known : (a b : ℤ) → Transition a b → IsTradeState b
target_known a b cancels = omega arith
target_known a b pays = omega arith
target_known a b uses = omega arith
target_known a b refunds = omega arith
target_known a b expires = omega arith

-- The column `trade_state` keeps the states that the constants name.
abbrev pub KeepsState :
    {Db : Type 0} {conn : Conn Db HomestayOrder} → IsSql order_table conn → Type 0
KeepsState {Db} sql =
    (d : Db) (o : HomestayOrder)
    → IsTradeState o.trade_state
    → (sql.column d o).trade_state ≡ o.trade_state
