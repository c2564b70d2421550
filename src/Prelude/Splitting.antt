-- ===== src/Prelude/Splitting.antt =====
-- Splitting and joining at one character.
use Prim.Native.Nat.{◌+◌, ◌<◌}
use Prim.Native.Char.{Char, code}
use Prim.Native.String.{String, ◌++◌ as str_append}
use Prim.Native.String.append
use mathlib.Core.Path.{◌≡◌, refl, sym, ap, ◌∙◌}
use mathlib.Core.Logic.{inl, inr}
use mathlib.Core.Bool.{Bool, true, false}
use mathlib.Core.List.{List, [], ◌∷◌, ◌++◌}
use text.Mathlib.TextEquality.{Char-path}
use native.Mathlib.Omega.{arith}
use notation_go.Prelude.Tests.{◌==◌, if◌then◌else◌, Bool-cases, ==_iff}
use notation_go.Prelude.Lists.{length, length-append}
use notation_go.Prelude.Texts.{split, push_char, join}

push_char-append :
    (c : Char) (xs ys : List String) → 0 < length xs → push_char c (xs ++ ys) ≡ push_char c xs ++ ys
unfolding push_char
push_char-append c [] ys h = absurd (omega arith)
push_char-append c (x ∷ xs) ys h = refl

length-push_char :
    (c : Char) (xs : List String) → 0 < length xs → length (push_char c xs) ≡ length xs
unfolding push_char
length-push_char c [] h = absurd (omega arith)
length-push_char c (x ∷ xs) h = refl

push_char-single : (c : Char) (a : String) → push_char c (a ∷ []) ≡ String.◌∷◌ c a ∷ []
unfolding push_char
push_char-single c a = refl

if-append :
    (b : Bool) (xs ys zs : List String)
    → (if b then xs ++ zs else ys ++ zs) ≡ (if b then xs else ys) ++ zs
if-append true xs ys zs = refl
if-append false xs ys zs = refl

module _ (sep : Char) where
  pub length-split : (a : String) → 0 < length (split (code sep) a)
  unfolding split
  length-split String.[] = omega arith
  length-split (String.◌∷◌ c a) =
      ground (arith, length-split a, length-push_char c (split (code sep) a))

  pub split-str_append :
      (a b : String)
      → split (code sep) (str_append a (String.◌∷◌ sep b))
        ≡ split (code sep) a ++ split (code sep) b
  unfolding split
  split-str_append String.[] b =
      rw (append.nil (String.◌∷◌ sep b)) (ground (arith, ==_iff (code sep) (code sep)))
  split-str_append (String.◌∷◌ c a) b =
      rw
        (
          append.cons c a (String.◌∷◌ sep b),
          split-str_append a b,
          push_char-append c (split (code sep) a) (split (code sep) b) (length-split a),
        )
        (if-append (code c == code sep) _ _ _)

  -- A text without the separator is split into itself.
  join-push_char :
      (c : Char) (xs : List String)
      → 0 < length xs
      → join sep (push_char c xs) ≡ String.◌∷◌ c (join sep xs)
  unfolding push_char
  join-push_char c [] h = absurd (omega arith)
  join-push_char c (x ∷ []) h = refl
  join-push_char c (x ∷ y ∷ xs) h = append.cons c x (String.◌∷◌ sep (join sep (y ∷ xs)))

  join-cons :
      (a : String) (xs : List String)
      → 0 < length xs
      → join sep (a ∷ xs) ≡ str_append a (String.◌∷◌ sep (join sep xs))
  join-cons a [] h = absurd (omega arith)
  join-cons a (x ∷ xs) h = refl

  pub split-single : (a : String) → length (split (code sep) a) ≡ 1 → split (code sep) a ≡ a ∷ []
  unfolding split
  split-single String.[] h = refl
  split-single (String.◌∷◌ c a) h = elim (Bool-cases (code c == code sep)) [
    | inl y ↦ absurd (ground (arith, length-split a))
    | inr n ↦
        let same =
          split-single a
            (ground (arith, length-split a, length-push_char c (split (code sep) a))) in
        rw (n, same) (push_char-single c a)
  ]

  -- None of three texts has the separator, if they are split again into three once they are joined.
  pub split-join :
      (a b c : String)
      → length (split (code sep) (join sep (a ∷ b ∷ c ∷ []))) ≡ 3
      → (split (code sep) a ≡ a ∷ [])
        × (split (code sep) b ≡ b ∷ [])
        × (split (code sep) c ≡ c ∷ [])
  split-join a b c h =
      let shape =
        split-str_append a (join sep (b ∷ c ∷ []))
        ∙ ap (λ l. split (code sep) a ++ l) (split-str_append b c) in
      let total : length (split (code sep) a)
            + (length (split (code sep) b) + length (split (code sep) c))
          ≡ 3 =
        sym (
          length-append (split (code sep) a) _
          ∙ ap (λ n. length (split (code sep) a) + n)
              (length-append (split (code sep) b) (split (code sep) c)))
        ∙ (sym (ap length shape) ∙ h) in
      let sa =
        split-single a (omega (arith, length-split a, length-split b, length-split c, total)) in
      let sb =
        split-single b (omega (arith, length-split a, length-split b, length-split c, total)) in
      let sc =
        split-single c (omega (arith, length-split a, length-split b, length-split c, total)) in
      (sa, sb, sc)

  pub join-split : (a : String) → join sep (split (code sep) a) ≡ a
  unfolding split
  join-split String.[] = refl
  join-split (String.◌∷◌ c a) = elim (Bool-cases (code c == code sep)) [
    | inl y ↦
        let same = Char-path c sep ((==_iff (code c) (code sep)).0 y) in
        rw y (
          join-cons "" (split (code sep) a) (length-split a)
          ∙ append.nil (String.◌∷◌ sep (join sep (split (code sep) a)))
          ∙ rw (sym same) (ap (λ s. String.◌∷◌ c s) (rw same (join-split a))))
    | inr n ↦ rw n (
        join-push_char c (split (code sep) a) (length-split a)
        ∙ ap (λ s. String.◌∷◌ c s) (join-split a))
  ]

  -- Then they are what the text is split into.
  pub split-join-eq :
      (a b c : String)
      → length (split (code sep) (join sep (a ∷ b ∷ c ∷ []))) ≡ 3
      → split (code sep) (join sep (a ∷ b ∷ c ∷ [])) ≡ a ∷ b ∷ c ∷ []
  split-join-eq a b c h =
      let (sa, sb, sc) = split-join a b c h in
      split-str_append a (join sep (b ∷ c ∷ []))
      ∙ ap (λ l. split (code sep) a ++ l) (split-str_append b c)
      ∙ rw (sa, sb, sc) refl
