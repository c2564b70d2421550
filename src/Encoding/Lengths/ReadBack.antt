-- ===== src/Encoding/Lengths/ReadBack.antt =====
-- `decodeIdentifier` on octets that form an identifier.
use Prim.Native.Nat.{bit_and}
use notation_go.Prelude.{
  ℕ, zero, suc, ◌≤◌, ◌≡◌, refl, ap, ◌∙◌, ◌⊎◌, inl, inr, true, false, List, [], ◌∷◌, ◌++◌, length,
  drop, ◌==◌, arith, append_assoc,
}
use notation_go.Encoding.Reader.{Reader, ok}
use notation_go.Encoding.Reader.Laws.{
  available, advance, advance-advance, available-advance, read_byte-cons,
}
use notation_go.Encoding.Lengths.{read_tag, decode_identifier}
use notation_go.Encoding.Lengths.RoundTrip.{read_inner-cons, one_add}

-- The octets of a high tag number, as this package delimits them: the first octet with bit 8 set is
-- the last one.
abbrev pub IsTag : List ℕ → Type 0
IsTag [] = ⊥
IsTag (b ∷ tag) =
    ((bit_and b 0x80 == 0 ≡ true) × IsTag tag) ⊎ ((bit_and b 0x80 == 0 ≡ false) × (tag ≡ []))

abbrev pub IsIdentifier : List ℕ → Type 0
IsIdentifier [] = ⊥
IsIdentifier (b ∷ tag) =
    ((bit_and b 0x1f == 0x1f ≡ true) × IsTag tag) ⊎ ((bit_and b 0x1f == 0x1f ≡ false) × (tag ≡ []))

next :
    (r : Reader) (b : ℕ) (bs rest : List ℕ)
    → available r ≡ b ∷ (bs ++ rest)
    → available (advance 1 r) ≡ bs ++ rest
next r b bs rest h = available-advance 1 r ∙ ap (drop 1) h

advance-suc : (k : ℕ) (r : Reader) → advance k (advance 1 r) ≡ advance (suc k) r
advance-suc k r = advance-advance 1 k r ∙ ap (λ m. advance m r) (one_add k)

read_tag-append :
    (fuel : ℕ) (identifier tag rest : List ℕ) (r : Reader)
    → IsTag tag
    → length tag ≤ fuel
    → available r ≡ tag ++ rest
    → read_tag fuel identifier r ≡ ok (identifier ++ tag, advance (length tag) r)
unfolding read_tag
read_tag-append fuel identifier [] rest r t n h = absurd t
read_tag-append zero identifier (b ∷ tag) rest r t n h = absurd (omega arith)
read_tag-append (suc fuel) identifier (b ∷ tag) rest r (inl (more, t)) n h =
    rw (read_inner-cons r b (tag ++ rest) h, more)
      (read_tag-append fuel (identifier ++ b ∷ []) tag rest (advance 1 r) t (omega arith)
          (next r b tag rest h)
        ∙ rw (append_assoc identifier (b ∷ []) tag, advance-suc (length tag) r) refl)
read_tag-append (suc fuel) identifier (b ∷ tag) rest r (inr (last, e)) n h =
    rw (read_inner-cons r b (tag ++ rest) h, last, e) refl

-- `decodeIdentifier` reads back an identifier, and nothing of what follows.
pub decode_identifier-append :
    (fuel : ℕ) (identifier rest : List ℕ) (r : Reader)
    → IsIdentifier identifier
    → length identifier ≤ suc fuel
    → available r ≡ identifier ++ rest
    → decode_identifier fuel r ≡ ok (identifier, advance (length identifier) r)
unfolding decode_identifier
decode_identifier-append fuel [] rest r t n h = absurd t
decode_identifier-append fuel (b ∷ tag) rest r (inl (high, t)) n h =
    rw (read_byte-cons r b (tag ++ rest) h, high)
      (read_tag-append fuel (b ∷ []) tag rest (advance 1 r) t (omega arith) (next r b tag rest h)
        ∙ ap (λ m. ok (b ∷ tag, m)) (advance-suc (length tag) r))
decode_identifier-append fuel (b ∷ tag) rest r (inr (low, e)) n h =
    rw (read_byte-cons r b (tag ++ rest) h, low, e) refl
