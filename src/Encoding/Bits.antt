-- ===== src/Encoding/Bits.antt =====
-- The bit operations of the length octets as arithmetic.
use Prim.Native.Nat.{bit_and, bit_or, digits, bit_or-bitwise, max}
use notation_go.Prelude.{
  ℕ, zero, suc, ◌+◌, ◌*◌, ◌/◌, ◌%◌, ◌≤◌, ◌<◌, ◌≡◌, refl, Bool, true, ◌&&◌, ◌==◌, ==_iff, arith,
}

all_below : ℕ → (ℕ → Bool) → Bool
all_below zero p = true
all_below (suc n) p = p n && all_below n p

all_below→ : (n : ℕ) (p : ℕ → Bool) (x : ℕ) → all_below n p ≡ true → x < n → p x ≡ true
unfolding all_below
all_below→ zero p x h lt = absurd (omega arith)
all_below→ (suc n) p x h lt = ground (arith, all_below→ n p x)

low_seven_table : all_below 256 (λ b. bit_and b 0x7f == b % 128) ≡ true
unfolding all_below
low_seven_table = refl

pub low_seven : (b : ℕ) → b < 256 → bit_and b 0x7f ≡ b % 128
low_seven b h = (==_iff _ _).0 (all_below→ 256 _ b low_seven_table h)

-- Setting the top bit of a small number adds 128.
top_bit_table : all_below 128 (λ n. bit_or 0x80 n == 128 + n) ≡ true
unfolding all_below
top_bit_table = refl

pub with_top_bit : (n : ℕ) → n < 128 → bit_or 0x80 n ≡ 128 + n
with_top_bit n h = (==_iff _ _).0 (all_below→ 128 _ n top_bit_table h)

-- The digits of `or`, with any count of rounds that is large enough.
abbrev or_digits : ℕ → ℕ → ℕ → ℕ
or_digits n a b = digits (λ b. b) max n a b

or_digits_rounds : (k j a b : ℕ) → a ≤ k → a ≤ j → or_digits k a b ≡ or_digits j a b
or_digits_rounds zero zero a b lo hi = refl
or_digits_rounds zero (suc j) zero b lo hi = refl
or_digits_rounds zero (suc j) (suc a) b lo hi = absurd (omega arith)
or_digits_rounds (suc k) zero zero b lo hi = refl
or_digits_rounds (suc k) zero (suc a) b lo hi = absurd (omega arith)
or_digits_rounds (suc k) (suc j) zero b lo hi = refl
or_digits_rounds (suc k) (suc j) (suc a) b lo hi =
    omega (arith, or_digits_rounds k j (suc a / 2) (b / 2) (omega arith) (omega arith))

bit_or-half : (a b : ℕ) → bit_or a b ≡ bit_or (a / 2) (b / 2) * 2 + max (a % 2) (b % 2)
bit_or-half zero b = omega (arith, bit_or-bitwise 0 b, bit_or-bitwise 0 (b / 2))
bit_or-half (suc a) b = omega (
  arith,
  bit_or-bitwise (suc a) b,
  bit_or-bitwise (suc a / 2) (b / 2),
  or_digits_rounds a (suc a / 2) (suc a / 2) (b / 2) (omega arith) (omega arith),
)

bit_or-zero_below : (k a : ℕ) → a ≤ k → bit_or a 0 ≡ a
bit_or-zero_below k zero h = refl
bit_or-zero_below zero (suc a) h = absurd (omega arith)
bit_or-zero_below (suc k) (suc a) h =
    omega (arith, bit_or-half (suc a) 0, bit_or-zero_below k (suc a / 2) (omega arith))

-- One digit of a number that was shifted.
bit_or-double : (a b : ℕ) → bit_or (a * 2) b ≡ bit_or a (b / 2) * 2 + b % 2
bit_or-double a b =
    let half : a * 2 / 2 ≡ a = omega arith in rw (bit_or-half (a * 2) b, half) (omega arith)

bit_or-quad : (a b : ℕ) → bit_or (a * 4) b ≡ bit_or a (b / 4) * 4 + b % 4
bit_or-quad a b =
    let split : a * 4 ≡ a * 2 * 2 = omega arith in
    let quarter : b / 2 / 2 ≡ b / 4 = omega arith in
    rw (split, bit_or-double (a * 2) b, bit_or-double a (b / 2), quarter) (omega arith)

bit_or-sixteen : (a b : ℕ) → bit_or (a * 16) b ≡ bit_or a (b / 16) * 16 + b % 16
bit_or-sixteen a b =
    let split : a * 16 ≡ a * 4 * 4 = omega arith in
    let part : b / 4 / 4 ≡ b / 16 = omega arith in
    rw (split, bit_or-quad (a * 4) b, bit_or-quad a (b / 4), part) (omega arith)

-- A byte joined to a number that was shifted by eight bits.
pub join_byte : (a b : ℕ) → b < 256 → bit_or (a * 256) b ≡ a * 256 + b
join_byte a b h =
    let split : a * 256 ≡ a * 16 * 16 = omega arith in
    let part : b / 16 / 16 ≡ 0 = omega arith in
    rw
      (
        split,
        bit_or-sixteen (a * 16) b,
        bit_or-sixteen a (b / 16),
        part,
        bit_or-zero_below a a (omega arith),
      )
      (omega arith)
