-- ===== src/Tool/Encryption.antt =====
-- pkg/tool/encryption.go: the text of an MD5 sum. The sum itself, of crypto/md5, is a parameter.
use flash_sale_system.Common.{
  ◌≡◌, refl, ap, ◌↔◌, ◌⊎◌, ℕ, ◌+◌, ◌*◌, ◌/◌, ◌%◌, ◌≤◌, ◌<◌, ltb, List, [], ◌∷◌, length, All,
  if◌then◌else◌, arith,
}

-- A digit of `%x`, and the two digits of each byte.
abbrev pub hex_digit : ℕ → ℕ
hex_digit n = if ltb n 10 then 48 + n else 87 + n

unfoldable pub hex : List ℕ → List ℕ
hex [] = []
hex (b ∷ bs) = hex_digit (b / 16) ∷ hex_digit (b % 16) ∷ hex bs

-- What crypto/md5 documents of a sum: 16 bytes.
pub record IsDigest (sum : List ℕ → List ℕ) : Type 0 where
  pub length-sum : (text : List ℕ) → length (sum text) ≡ 16
  pub sum-bytes : (text : List ℕ) → All (λ b. b < 256) (sum text)

-- A Go string is its bytes. Writing to a hash never fails, so `Md5ByString` does not panic.
unfoldable pub md5_by_string : (sum : List ℕ → List ℕ) → List ℕ → List ℕ
md5_by_string sum str = hex (sum str)

unfoldable pub md5_by_bytes : (sum : List ℕ → List ℕ) → List ℕ → List ℕ
md5_by_bytes sum b = hex (sum b)

abbrev pub IsHexDigit : ℕ → Type 0
IsHexDigit c = ((48 ≤ c) × (c < 58)) ⊎ ((97 ≤ c) × (c < 103))

hex_digit-injective : (m n : ℕ) → m < 16 → n < 16 → hex_digit m ≡ hex_digit n → m ≡ n
hex_digit-injective m n hm hn e = ground arith

hex_digit-IsHexDigit : (n : ℕ) → n < 16 → IsHexDigit (hex_digit n)
hex_digit-IsHexDigit n h = ground arith

byte_parts : (a b : ℕ) → a / 16 ≡ b / 16 → a % 16 ≡ b % 16 → a ≡ b
byte_parts a b h l = omega (arith, h, l)

length-hex : (bs : List ℕ) → length (hex bs) ≡ 2 * length bs
unfolding hex
length-hex [] = refl
length-hex (b ∷ bs) = omega (arith, length-hex bs)

hex-IsHexDigit : (bs : List ℕ) → All (λ b. b < 256) bs → All IsHexDigit (hex bs)
unfolding hex
hex-IsHexDigit [] small = tt
hex-IsHexDigit (b ∷ bs) (h, small) = (
  hex_digit-IsHexDigit (b / 16) (omega arith),
  (hex_digit-IsHexDigit (b % 16) (omega arith), hex-IsHexDigit bs small),
)

hex-injective :
    (xs bs : List ℕ) → All (λ b. b < 256) xs → All (λ b. b < 256) bs → hex xs ≡ hex bs → xs ≡ bs
unfolding hex
hex-injective [] [] ha hb e = refl
hex-injective [] (b ∷ bs) ha hb e = cc
hex-injective (a ∷ xs) [] ha hb e = cc
hex-injective (a ∷ xs) (b ∷ bs) (a_lt, ha) (b_lt, hb) e =
    let high : hex_digit (a / 16) ≡ hex_digit (b / 16) = cc in
    let low : hex_digit (a % 16) ≡ hex_digit (b % 16) = cc in
    let rest : hex xs ≡ hex bs = cc in
    let same =
      byte_parts a b (hex_digit-injective (a / 16) (b / 16) (omega arith) (omega arith) high)
        (hex_digit-injective (a % 16) (b % 16) (omega arith) (omega arith) low) in
    rw (same, hex-injective xs bs ha hb rest) refl

-- The text of an MD5 sum has 32 hexadecimal digits, and the texts of two strings are the same exactly
-- when their sums are.
pub md5_by_string-digits :
    (sum : List ℕ → List ℕ) (s t : List ℕ)
    → IsDigest sum
    → (length (md5_by_string sum s) ≡ 32)
      × All IsHexDigit (md5_by_string sum s)
      × ((md5_by_string sum s ≡ md5_by_string sum t) ↔ (sum s ≡ sum t))
unfolding md5_by_string
md5_by_string-digits sum s t digest = (
  omega (arith, length-hex (sum s), digest.length-sum s),
  hex-IsHexDigit (sum s) (digest.sum-bytes s),
  (hex-injective (sum s) (sum t) (digest.sum-bytes s) (digest.sum-bytes t), ap hex),
)
