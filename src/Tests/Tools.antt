-- ===== src/Tests/Tools.antt =====
-- The tools at concrete texts and prices.
use flash_sale_system.Common.{◌≡◌, refl, ℕ, zero, suc, ◌*◌, ◌/◌, [], ◌∷◌, pos, pos_part}
use flash_sale_system.Tool.Encryption.{hex}
use flash_sale_system.Tool.Coin.{Decimal, fen2yuan, yuan2fen}

hex_of_byte : hex (171 ∷ 5 ∷ []) ≡ 97 ∷ 98 ∷ 48 ∷ 53 ∷ []
unfolding hex
hex_of_byte = refl

-- Decimals and floats as hundredths.
abbrev truncated : ℕ → ℕ → ℕ
truncated d zero = d / 100 * 100
truncated d (suc places) = d

abbrev hundredths : Decimal ℕ ℕ
hundredths = record {
  new_from_int = λ z. pos_part z * 100;
  new_from_float = λ f. f;
  div = λ a b. a * 100 / b;
  mul = λ a b. a * b / 100;
  truncate = truncated;
  float64 = λ d. d;
  to_int64 = λ f. pos (f / 100);
}

fen_read_back : yuan2fen hundredths (fen2yuan hundredths (pos 19999)) ≡ pos 19999
unfolding fen2yuan yuan2fen
fen_read_back = refl
