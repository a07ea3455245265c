-- ===== src/Tool.antt =====
-- pkg/tool (krand.go, placeholders.go) and pkg/uniqueid (sn.go, uniqueid.go). Texts that the code builds byte by
-- byte are lists of bytes.
pub mod Encryption
pub mod Coin
use Prim.Native.Char.{code}
use flash_sale_system.Common.{
  ℕ, zero, suc, ◌+◌, ◌-◌, ◌*◌, ◌%◌, ◌≤◌, ◌<◌, ◌≡◌, refl, Bool, true, false, Option, some, none,
  List, [], ◌∷◌, ◌++◌, String, length, count, All, ltb, ◌==◌, if◌then◌else◌, arith, Option-cases,
  inl, inr, ◌⊎◌, ℤ, pos, Result, ok, err, panic,
}

-- `InPlaceholders`; the loop of `n - 1` rounds, with a negative `n` read as 0.
placeholder_rounds : ℕ → List ℕ
placeholder_rounds zero = []
placeholder_rounds (suc k) = b'?' ∷ b',' ∷ placeholder_rounds k

unfoldable pub in_placeholders : ℕ → List ℕ
unfolding placeholder_rounds
in_placeholders n = placeholder_rounds (n - 1) ++ (if ltb 0 n then b'?' ∷ [] else [])

abbrev pub rand_kind_num : ℕ
rand_kind_num = 0

abbrev pub rand_kind_lower : ℕ
rand_kind_lower = 1

abbrev pub rand_kind_upper : ℕ
rand_kind_upper = 2

abbrev pub rand_kind_all : ℕ
rand_kind_all = 3

-- `kinds`: how many bytes a kind has, and the first of them.
abbrev pub scope : ℕ → ℕ
scope kind = if kind == 0 then 10 else 26

abbrev pub base : ℕ → ℕ
base kind = if kind == 0 then 48 else if kind == 1 then 97 else 65

-- The k-th call of `rand.Int(rand.Reader, max)`; `none` is its error.
abbrev pub Draws : Type 0
Draws = ℕ → ℕ → Option ℕ

-- What crypto/rand documents: a draw is below its bound.
abbrev pub IsUniform : Draws → Type 0
IsUniform draw = (k max n : ℕ) → draw k max ≡ some n → n < max

abbrev or_zero : Option ℕ → ℕ
or_zero none = 0
or_zero (some n) = n

-- The rounds left of `Krand`'s loop. A round makes two draws if every kind is allowed, and one if not.
krand_rounds : ℕ → Bool → ℕ → Draws → ℕ → List ℕ
krand_rounds zero is_all kind draw k = []
krand_rounds (suc size) is_all kind draw k =
    let kind' = if is_all then or_zero (draw k 3) else kind in
    let k' = if is_all then suc k else k in
    (base kind' + or_zero (draw k' (scope kind'))) % 256
    ∷ krand_rounds size is_all kind' draw (suc k')

-- `Krand`, for a kind that is not negative.
unfoldable pub krand : ℕ → ℕ → Draws → List ℕ
unfolding krand_rounds
krand size kind draw = krand_rounds size (ltb 2 kind) kind draw 0

abbrev pub IsDigit : ℕ → Type 0
IsDigit c = (48 ≤ c) × (c < 58)

abbrev pub IsAlnum : ℕ → Type 0
IsAlnum c = IsDigit c ⊎ ((97 ≤ c) × (c < 123)) ⊎ ((65 ≤ c) × (c < 91))

length-krand_rounds :
    (size : ℕ) (is_all : Bool) (kind : ℕ) (draw : Draws) (k : ℕ)
    → length (krand_rounds size is_all kind draw k) ≡ size
unfolding krand_rounds
length-krand_rounds zero is_all kind draw k = refl
length-krand_rounds (suc size) is_all kind draw k =
    let kind' = if is_all then or_zero (draw k 3) else kind in
    let k' = if is_all then suc k else k in
    omega (arith, length-krand_rounds size is_all kind' draw (suc k'))

IsDigit-byte : (draw : Draws) (k : ℕ) → IsUniform draw → IsDigit ((48 + or_zero (draw k 10)) % 256)
IsDigit-byte draw k u = elim (Option-cases (draw k 10)) [
  | inl e ↦ rw e (omega arith)
  | inr (n, e) ↦ let n_lt = u k 10 n e in rw e (omega arith)
]

krand_rounds-IsDigit :
    (size : ℕ) (draw : Draws) (k : ℕ)
    → IsUniform draw
    → All IsDigit (krand_rounds size false 0 draw k)
unfolding krand_rounds
krand_rounds-IsDigit zero draw k u = tt
krand_rounds-IsDigit (suc size) draw k u =
    (IsDigit-byte draw k u, krand_rounds-IsDigit size draw (suc k) u)

IsAlnum-byte :
    (draw : Draws) (k kind : ℕ)
    → IsUniform draw
    → kind < 3
    → IsAlnum ((base kind + or_zero (draw k (scope kind))) % 256)
IsAlnum-byte draw k kind u h = elim (Option-cases (draw k (scope kind))) [
  | inl e ↦ rw e (ground arith)
  | inr (n, e) ↦ let n_lt = u k (scope kind) n e in rw e (ground arith)
]

kind_drawn : (draw : Draws) (k : ℕ) → IsUniform draw → or_zero (draw k 3) < 3
kind_drawn draw k u = elim (Option-cases (draw k 3)) [
  | inl e ↦ rw e (omega arith)
  | inr (n, e) ↦ rw e (u k 3 n e)
]

krand_rounds-IsAlnum :
    (size kind : ℕ) (draw : Draws) (k : ℕ)
    → IsUniform draw
    → All IsAlnum (krand_rounds size true kind draw k)
unfolding krand_rounds
krand_rounds-IsAlnum zero kind draw k u = tt
krand_rounds-IsAlnum (suc size) kind draw k u = (
  IsAlnum-byte draw (suc k) (or_zero (draw k 3)) u (kind_drawn draw k u),
  krand_rounds-IsAlnum size (or_zero (draw k 3)) draw (suc (suc k)) u,
)

-- `Krand` returns as many bytes as it is asked for, digits if the kind is KC_RAND_KIND_NUM, and
-- digits and letters if it is KC_RAND_KIND_ALL, also where a draw fails.
pub krand-bytes :
    (size : ℕ) (draw : Draws)
    → IsUniform draw
    → (length (krand size rand_kind_num draw) ≡ size)
      × All IsDigit (krand size rand_kind_num draw)
      × (length (krand size rand_kind_all draw) ≡ size)
      × All IsAlnum (krand size rand_kind_all draw)
unfolding krand
krand-bytes size draw u = (
  length-krand_rounds size false 0 draw 0,
  krand_rounds-IsDigit size draw 0 u,
  length-krand_rounds size true 3 draw 0,
  krand_rounds-IsAlnum size 3 draw 0 u,
)

placeholder_rounds_lem :
    (k : ℕ)
    → (count (λ c. c == b'?') (placeholder_rounds k ++ b'?' ∷ []) ≡ suc k)
      × (length (placeholder_rounds k ++ b'?' ∷ []) ≡ k + suc k)
unfolding placeholder_rounds
placeholder_rounds_lem zero = (refl, refl)
placeholder_rounds_lem (suc k) = omega (arith, placeholder_rounds_lem k)

-- `InPlaceholders(n)` has n question marks, and with the commas between them 2 n - 1 bytes.
pub in_placeholders-count :
    (n : ℕ)
    → (count (λ c. c == b'?') (in_placeholders n) ≡ n) × (length (in_placeholders n) ≡ 2 * n - 1)
unfolding in_placeholders
in_placeholders-count zero = (refl, refl)
in_placeholders-count (suc n) =
    let pred_suc : suc n - 1 ≡ n = omega arith in
    rw pred_suc (ground (arith, placeholder_rounds_lem n))

-- The bytes of an ASCII text.
abbrev pub bytes : String → List ℕ
bytes String.[] = []
bytes (String.◌∷◌ c s) = code c ∷ bytes s

abbrev pub sn_prefix_homestay_order : List ℕ
sn_prefix_homestay_order = bytes "HSO"

abbrev pub sn_prefix_third_payment : List ℕ
sn_prefix_third_payment = bytes "PMT"

-- `GenSn`; `stamp` is the time of the call, formatted by "20060102150405".
unfoldable pub gen_sn : List ℕ → List ℕ → Draws → List ℕ
gen_sn prefix stamp draw = prefix ++ stamp ++ krand 8 rand_kind_num draw

-- The largest int64.
abbrev pub max_int64 : ℕ
max_int64 = 9223372036854775807

-- `GenId`; `next` is what sonyflake's `NextID` returns, a uint64 or an error.
unfoldable pub gen_id : (next : Result ℕ) → Result ℤ
gen_id (ok id) = if ltb max_int64 id then panic else ok (pos id)
gen_id (err e) = panic
gen_id panic = panic
