-- ===== src/Encoding/Takes.antt =====
-- What a parser of this package does with a reader: it takes a number of the available bytes, or it
-- fails without running out of fuel.
use notation_go.Prelude.{
  ℕ, ◌+◌, ◌-◌, ◌≤◌, ◌≡◌, refl, ◌≢◌, length, length-drop, arith, ap, ◌∙◌, Bool, true, false,
  if◌then◌else◌,
}
use notation_go.Encoding.Reader.{
  Reader, ReadError, Result, ok, err, eof, out_of_fuel, ◌>>=◌, end_early,
}
use notation_go.Encoding.Reader.Laws.{available, advance, available-advance, advance-advance}

abbrev pub room : Reader → ℕ
room r = length (available r)

pub room-advance : (k : ℕ) (r : Reader) → room (advance k r) ≡ room r - k
room-advance k r = ap length (available-advance k r) ∙ length-drop k (available r)

-- The value and the number of bytes taken satisfy `P`; the error is `io.EOF` only if `E` holds.
pub data Takes {A : Type 0} (P : A → ℕ → Type 0) (E : Type 0) (r : Reader)
    : Result (A × Reader) → Type 0 where
  took :
      {a : A} {r' : Reader} (k : ℕ)
      → r' ≡ advance k r
      → k ≤ room r
      → P a k
      → Takes P E r (ok (a, r'))
  failed : {e : ReadError} → e ≢ out_of_fuel → (e ≡ eof → E) → Takes P E r (err e)

after_taking :
    {B : Type 0} {Q : B → ℕ → Type 0} {E : Type 0} {r r' : Reader} {x : Result (B × Reader)} (k : ℕ)
    → k ≤ room r
    → r' ≡ advance k r
    → Takes (λ b j. Q b (k + j)) ⊥ r' x
    → Takes Q E r x
after_taking {r = r} k h e (took j e' h' q) =
    took (k + j) (e' ∙ ap (advance j) e ∙ advance-advance k j r)
      (omega (arith, room-advance k r, ap room e)) q
after_taking k h e (failed n h') = failed n (λ z. absurd (h' z))

module _ {A : Type 0} {P : A → ℕ → Type 0} {E : Type 0} {r : Reader} where
  pub Takes-map :
      {Q : A → ℕ → Type 0} {m : Result (A × Reader)}
      → Takes P E r m
      → ((a : A) (k : ℕ) → P a k → Q a k)
      → Takes Q E r m
  Takes-map (took {a} k e h p) f = took k e h (f a k p)
  Takes-map (failed n h) f = failed n h

  -- A parser, and another one from where the first one stopped.
  pub Takes-bind :
      {B : Type 0} {Q : B → ℕ → Type 0} {m : Result (A × Reader)}
      (f : A × Reader → Result (B × Reader))
      → Takes P E r m
      → ((a : A) (r' : Reader) (k : ℕ)
          → k ≤ room r
          → r' ≡ advance k r
          → P a k
          → Takes (λ b j. Q b (k + j)) ⊥ r' (f (a, r')))
      → Takes Q E r (m >>= f)
  Takes-bind f (took {a} {r'} k e h p) step = after_taking k h e (step a r' k h e p)
  Takes-bind f (failed n h) step = failed n h

  pub Takes-if :
      (b : Bool) {x y : Result (A × Reader)}
      → (b ≡ true → Takes P E r x)
      → (b ≡ false → Takes P E r y)
      → Takes P E r (if b then x else y)
  Takes-if true hx hy = hx refl
  Takes-if false hx hy = hy refl

  pub Takes-end_early : {m : Result (A × Reader)} → Takes P E r m → Takes P ⊥ r (end_early m)
  Takes-end_early (took k e h p) = took k e h p
  Takes-end_early (failed {e = out_of_fuel} n h) = absurd (n refl)
  Takes-end_early (failed {e = eof} n h) = failed (λ z. cc) (λ z. cc)
  Takes-end_early (failed {e = _} n h) = failed (λ z. cc) (λ z. cc)
