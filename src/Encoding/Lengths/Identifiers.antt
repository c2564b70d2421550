-- ===== src/Encoding/Lengths/Identifiers.antt =====
-- `decodeIdentifier`, by the bytes that it takes.
use Prim.Native.Nat.{bit_and}
use notation_go.Prelude.{
  ℕ, zero, suc, ◌+◌, ◌≤◌, ◌<◌, ◌≡◌, refl, sym, List, [], ◌∷◌, ◌++◌, length, length-append, ◌==◌,
  arith, ap, List-cases, inl, inr,
}
use notation_go.Encoding.Reader.{Reader, read_byte}
use notation_go.Encoding.Reader.Laws.{available, advance_zero, read_byte-nil, read_byte-cons}
use notation_go.Encoding.Takes.{
  room, room-advance, Takes, took, failed, Takes-bind, Takes-if, Takes-map, Takes-end_early,
}
use notation_go.Encoding.Lengths.{read_inner, read_tag, decode_identifier}

-- `ReadByte` takes one byte, and reports the end only where there is none.
pub read_byte-Takes : (r : Reader) → Takes (λ _ k. k ≡ 1) (available r ≡ []) r (read_byte r)
read_byte-Takes r = elim (List-cases (available r)) [
  | inl e ↦ rw (read_byte-nil r e) (failed (λ z. cc) (λ _. e))
  | inr (b, bs, e) ↦ rw (read_byte-cons r b bs e) (took 1 refl (omega (arith, ap length e)) refl)
]

-- The octets taken are added to the identifier.
read_tag-Takes :
    (fuel : ℕ) (identifier : List ℕ) (r : Reader)
    → room r < fuel
    → Takes (λ t k. length t ≡ length identifier + k) ⊥ r (read_tag fuel identifier r)
unfolding read_tag read_inner
read_tag-Takes zero identifier r h = absurd (omega arith)
read_tag-Takes (suc fuel) identifier r h =
    Takes-bind _ (Takes-end_early (read_byte-Takes r)) (λ b r' k le e one.
      let left : room r' < fuel = omega (arith, room-advance k r, ap room e) in
      let longer : length (identifier ++ b ∷ []) ≡ length identifier + 1 =
        length-append identifier (b ∷ []) in
      Takes-if (bit_and b 0x80 == 0)
        (λ _. Takes-map (read_tag-Takes fuel (identifier ++ b ∷ []) r' left) (λ t j p. omega arith))
        (λ _. took 0 (sym (advance_zero r')) (omega arith) (omega arith)))

-- `decodeIdentifier` takes as many bytes as the identifier has, at least one; it reports the end of the
-- input only where there is no byte at all.
pub decode_identifier-Takes :
    (fuel : ℕ) (r : Reader)
    → room r ≤ fuel
    → Takes (λ t k. (1 ≤ k) × (length t ≡ k)) (available r ≡ []) r (decode_identifier fuel r)
unfolding decode_identifier
decode_identifier-Takes fuel r h = Takes-bind _ (read_byte-Takes r) (λ b r' k le e one.
    Takes-if (bit_and b 0x1f == 0x1f)
      (λ _.
        Takes-map (read_tag-Takes fuel (b ∷ []) r' (omega (arith, room-advance k r, ap room e)))
          (λ t j p. (omega arith, omega arith)))
      (λ _. took 0 (sym (advance_zero r')) (omega arith) (omega arith, omega arith)))
