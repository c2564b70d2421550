-- ===== src/Verification/Scopes/Patterns.antt =====
-- Regular expressions as the package `regexp` reads them, for the constructs that the two patterns
-- of verification/helpers.go use, and a matcher by derivatives.
use notation_go.Prelude.{ℕ, Bool, true, false, ◌&&◌, ◌||◌, List, [], ◌∷◌, leb, if◌then◌else◌}

-- `symbol` is a class of characters, given by its ranges.
pub data Regex : Type 0 where
  void eps : Regex
  symbol : List (ℕ × ℕ) → Regex
  cat alt : Regex → Regex → Regex
  star : Regex → Regex

abbrev pub plus : Regex → Regex
plus r = cat r (star r)

abbrev pub opt : Regex → Regex
opt r = alt r eps

unfoldable pub in_class : ℕ → List (ℕ × ℕ) → Bool
in_class c [] = false
in_class c ((lo, hi) ∷ ranges) = (leb lo c && leb c hi) || in_class c ranges

unfoldable pub nullable : Regex → Bool
nullable void = false
nullable eps = true
nullable (symbol k) = false
nullable (cat r q) = nullable r && nullable q
nullable (alt r q) = nullable r || nullable q
nullable (star r) = true

-- What is left to match after the character `c`.
unfoldable pub deriv : ℕ → Regex → Regex
deriv c void = void
deriv c eps = void
deriv c (symbol k) = if in_class c k then eps else void
deriv c (cat r q) =
    let first = cat (deriv c r) q in if nullable r then alt first (deriv c q) else first
deriv c (alt r q) = alt (deriv c r) (deriv c q)
deriv c (star r) = cat (deriv c r) (star r)

unfoldable pub matches : Regex → List ℕ → Bool
unfolding deriv nullable in_class
matches r [] = nullable r
matches r (c ∷ s) = matches (deriv c r) s
