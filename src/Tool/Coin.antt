-- ===== src/Tool/Coin.antt =====
-- pkg/tool/coinconvert.go: prices in fen and in yuan. The decimals of github.com/shopspring/decimal and
-- float64 are parameters.
use flash_sale_system.Common.{ℕ, ℤ, pos}

-- The calls of the library, and Go's conversion of a float64 to an int64.
pub record Decimal (D Float : Type 0) : Type 0 where
  pub new_from_int : ℤ → D
  pub new_from_float : Float → D
  pub div : D → D → D
  pub mul : D → D → D
  pub truncate : D → ℕ → D
  pub float64 : D → Float
  pub to_int64 : Float → ℤ

module _ {D Float : Type 0} (decimal : Decimal D Float) where
  open decimal use {new_from_int, new_from_float, div, mul, truncate, float64, to_int64}

  abbrev pub one_hundred_decimal : D
  one_hundred_decimal = new_from_int (pos 100)

  unfoldable pub fen2yuan : ℤ → Float
  fen2yuan fen = float64 (truncate (div (new_from_int fen) one_hundred_decimal) 2)

  unfoldable pub yuan2fen : Float → ℤ
  yuan2fen yuan = to_int64 (float64 (truncate (mul (new_from_float yuan) one_hundred_decimal) 0))
