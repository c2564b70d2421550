-- ===== src/Prelude/Integers.antt =====
-- Signed integers on the native numbers, and the 64 bits of Go's `int` and `time.Duration`.
use Prim.Native.Nat.{ℕ, suc, ◌+◌, ◌-◌, ◌*◌, ◌%◌, ◌<◌}
use mathlib.Core.Path.{◌≡◌}
use mathlib.Core.Bool.{Bool, true, false}
use mathlib.Core.Logic.{◌↔◌}
use native.Mathlib.Omega.{arith}
use notation_go.Prelude.Tests.{ltb, ◌==◌, if◌then◌else◌}

-- `negsuc n` stands for -1 - n.
pub data ℤ : Type 0 where
  pos : ℕ → ℤ
  negsuc : ℕ → ℤ

-- The numbers above and below zero that a sum adds up.
abbrev pub above : ℤ → ℕ
above (pos n) = n
above (negsuc n) = 0

abbrev pub below : ℤ → ℕ
below (pos n) = 0
below (negsuc n) = suc n

abbrev pub difference : ℕ → ℕ → ℤ
difference up down = if ltb up down then negsuc (down - up - 1) else pos (up - down)

infixl 65 ◌+ℤ◌
unfoldable pub ◌+ℤ◌ : ℤ → ℤ → ℤ
x +ℤ y = difference (above x + above y) (below x + below y)

-- The product with a constant of the program, which is a number.
infixl 70 ◌*ℤ◌
unfoldable pub ◌*ℤ◌ : ℤ → ℕ → ℤ
x *ℤ k = difference (above x * k) (below x * k)

-- `big.Int.Cmp(...) == 0`
unfoldable pub same_int : ℤ → ℤ → Bool
same_int (pos m) (pos n) = m == n
same_int (negsuc m) (negsuc n) = m == n
same_int _ _ = false

-- `<`
unfoldable pub less : ℤ → ℤ → Bool
less x y = ltb (above x + below y) (above y + below x)

abbrev words : ℕ
words = 18446744073709551616

abbrev half_words : ℕ
half_words = 9223372036854775808

-- The 64-bit integer with these bits.
unfoldable signed_word : ℕ → ℤ
signed_word r = if ltb r half_words then pos r else negsuc (words - r - 1)

-- The integer that 64 bits keep of an integer: those of -1 - n are the complement of those of n.
unfoldable pub wrap : ℤ → ℤ
unfolding signed_word
wrap (pos n) = signed_word (n % words)
wrap (negsuc n) = signed_word (words - 1 - n % words)

pub wrap-small : (n : ℕ) → n < half_words → wrap (pos n) ≡ pos n
unfolding wrap signed_word
wrap-small n h = ground arith

pub same_int_iff : (x y : ℤ) → (same_int x y ≡ true) ↔ (x ≡ y)
unfolding same_int
same_int_iff x y = ground arith
