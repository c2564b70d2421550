-- ===== src/Prelude/Texts.antt =====
-- What the program uses of the package `strings`, on texts as sequences of characters.
use Prim.Native.Nat.{ℕ}
use Prim.Native.Char.{Char, char, code}
use Prim.Native.String.{String, ◌++◌ as str_append}
use mathlib.Core.Path.{◌≡◌}
use mathlib.Core.Logic.{◌⊎◌}
use mathlib.Core.Option.{Option, none, some}
use mathlib.Core.List.{List, [], ◌∷◌}
use notation_go.Prelude.Tests.{◌==◌, if◌then◌else◌}

-- `i := strings.Index(s, sep)` for a separator of one ASCII character, with the slices `s[:i]` and
-- `s[i+1:]`; `none` is an index below zero.
unfoldable pub cut : ℕ → String → Option (String × String)
cut sep String.[] = none
cut sep (String.◌∷◌ c s) =
    let rest = cut sep s in
    if code c == sep
    then some ("", s)
    else elim rest [ none ↦ none | some (a, b) ↦ some (String.◌∷◌ c a, b) ]

-- The same with `strings.LastIndex`.
unfoldable pub cut_last : ℕ → String → Option (String × String)
cut_last sep String.[] = none
cut_last sep (String.◌∷◌ c s) = elim (cut_last sep s) [
  | some (a, b) ↦ some (String.◌∷◌ c a, b)
  | none ↦ if code c == sep then some ("", s) else none
]

-- Membership of a text in a list, as a type.
abbrev pub IsElem : String → List String → Type 0
IsElem v [] = ⊥
IsElem v (x ∷ xs) = (x ≡ v) ⊎ IsElem v xs

unfoldable pub push_char : Char → List String → List String
push_char c [] = String.◌∷◌ c "" ∷ []
push_char c (part ∷ parts) = String.◌∷◌ c part ∷ parts

-- `strings.Split(s, sep)` for the same separators.
unfoldable pub split : ℕ → String → List String
unfolding push_char
split sep String.[] = "" ∷ []
split sep (String.◌∷◌ c s) =
    let rest = split sep s in if code c == sep then "" ∷ rest else push_char c rest

abbrev pub dot : Char
dot = char 46 tt

-- `strings.Join(parts, sep)`, for the same separators.
abbrev pub join : Char → List String → String
join sep [] = ""
join sep (a ∷ []) = a
join sep (a ∷ b ∷ parts) = str_append a (String.◌∷◌ sep (join sep (b ∷ parts)))
