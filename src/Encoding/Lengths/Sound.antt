-- ===== src/Encoding/Lengths/Sound.antt =====
-- `decodeLength` on any input.
use Prim.Native.Nat.{bit_or}
use native.Mathlib.Nat.{pow-le-pow_right}
use notation_go.Prelude.{
  lt→ltb, List-cases, ℕ, zero, suc, ◌+◌, ◌*◌, ◌%◌, ◌^◌, ◌≤◌, ◌<◌, ◌≡◌, refl, List, [], ◌∷◌, ◌++◌,
  length, take, drop, length-take, take-append-drop, ltb, ◌==◌, arith, false, ap, ◌∙◌, sym,
  Bool-cases, inl, inr, All,
}
use notation_go.Encoding.Bits.{low_seven}
use notation_go.Encoding.Reader.{Reader, ok, err, early_eof, unsupported_length}
use notation_go.Encoding.Reader.Laws.{available, advance}
use notation_go.Encoding.Takes.{room, room-advance, Takes, took, failed}
use notation_go.Encoding.Lengths.{read_octets, decode_length, encode_length}
use notation_go.Encoding.Lengths.Octets.{
  LengthForm, write_short, short, one, two, three, four, encode_length-LengthForm,
}
use notation_go.Encoding.Lengths.RoundTrip.{
  IsByte, octet_value, read_inner-cons, read_inner-nil, read_long, grow,
}

pub All-take : (k : ℕ) (xs : List ℕ) → All IsByte xs → All IsByte (take k xs)
All-take zero xs h = tt
All-take (suc k) [] h = tt
All-take (suc k) (x ∷ xs) (h, hs) = (h, All-take k xs hs)

pub All-drop : (k : ℕ) (xs : List ℕ) → All IsByte xs → All IsByte (drop k xs)
All-drop zero xs h = h
All-drop (suc k) [] h = tt
All-drop (suc k) (x ∷ xs) (h, hs) = All-drop k xs hs

-- A number that `k` octets do not hold takes more of them.
at_least : (k m n : ℕ) → n < 256 ^ m → 256 ^ k ≤ n → k < m
at_least k m n h low = elim (Bool-cases (ltb k m)) [
  | inl a ↦ ground arith
  | inr a ↦
      let le : m ≤ k = ground arith in
      absurd (omega (arith, pow-le-pow_right {n = 256} (omega arith) {i = m} {j = k} le))
]

-- A length that `m` octets hold is written in at most as many, after the one that counts them.
length-LengthForm-le :
    (m n : ℕ) (l : List ℕ) → 1 ≤ m → n < 256 ^ m → LengthForm n l → length l ≤ suc m
length-LengthForm-le m n l lo h (short a) = omega arith
length-LengthForm-le m n l lo h (one a b) = omega arith
length-LengthForm-le m n l lo h (two a b) = omega (arith, at_least 1 m n h a)
length-LengthForm-le m n l lo h (three a b) = omega (arith, at_least 2 m n h a)
length-LengthForm-le m n l lo h (four a b) = omega (arith, at_least 3 m n h a)

zero_add : (m : ℕ) → 0 + m ≡ m
zero_add m = omega arith

add_nothing : (j : ℕ) → j + 0 ≡ j
add_nothing j = omega arith

add_suc : (j k : ℕ) → j + suc k ≡ suc j + k
add_suc j k = omega arith

-- The bound of the octets' number, in the four sizes.
octet_value-lt :
    (n j : ℕ) (bs : List ℕ) → All IsByte bs → n < 256 ^ j → octet_value n bs < 256 ^ (j + length bs)
octet_value-lt n j [] h k = rw (add_nothing j) k
octet_value-lt n j (b ∷ bs) (h, hs) k =
    rw (add_suc j (length bs)) (octet_value-lt (n * 256 + b) (suc j) bs hs (grow n b j h k))

-- What a decoded length is: below 2 ^ 32, and not longer when written in DER.
abbrev pub IsLength : ℕ → ℕ → Type 0
IsLength n k = (1 ≤ k) × (n < 4294967296) × (length (encode_length n) ≤ k)

read_octets-short : (i n : ℕ) (r : Reader) → room r < i → read_octets i n r ≡ err early_eof
unfolding read_octets
read_octets-short zero n r h = absurd (omega arith)
read_octets-short (suc i) n r h = elim (List-cases (available r)) [
  | inl e ↦ rw (read_inner-nil r e)
  | inr (b, bs, e) ↦ rw (read_inner-cons r b bs e) (
      read_octets-short i (bit_or (n * 2 ^ 8 % 2 ^ 64) b) (advance 1 r)
        (omega (arith, room-advance 1 r, ap length e)))
]

module _ (r : Reader) where
  decode_length_empty : available r ≡ [] → decode_length r ≡ err early_eof
  unfolding decode_length
  decode_length_empty e = rw (read_inner-nil r e)

  module _ (b : ℕ) (bs : List ℕ) (e : available r ≡ b ∷ bs) where
    decode_length_short : b < 128 → decode_length r ≡ ok (b, advance 1 r)
    unfolding decode_length
    decode_length_short h = rw (read_inner-cons r b bs e, lt→ltb b 128 h)

    decode_length_indefinite : b ≡ 128 → decode_length r ≡ err unsupported_length
    unfolding decode_length
    decode_length_indefinite h = rw (read_inner-cons r b bs e, h)

    not_short : 128 < b → ltb b 0x80 ≡ false
    not_short lo = ground arith

    definite : 128 < b → b == 0x80 ≡ false
    definite lo = ground arith

    decode_length_wide : 128 < b → b < 256 → 4 < b % 128 → decode_length r ≡ err unsupported_length
    unfolding decode_length
    decode_length_wide lo hi many = rw (
      read_inner-cons r b bs e,
      not_short lo,
      definite lo,
      low_seven b hi,
      lt→ltb 4 (b % 128) many,
    )

    decode_length_cut :
        128 < b → b < 256 → b % 128 ≤ 4 → length bs < b % 128 → decode_length r ≡ err early_eof
    unfolding decode_length
    decode_length_cut lo hi few cut =
        let fits : ltb 4 (b % 128) ≡ false = ground arith in
        let left : room (advance 1 r) < b % 128 = omega (arith, room-advance 1 r, ap length e) in
        rw (
          read_inner-cons r b bs e,
          not_short lo,
          definite lo,
          low_seven b hi,
          fits,
          read_octets-short (b % 128) 0 (advance 1 r) left,
        )

    decode_length_long :
        All IsByte bs
        → 128 < b
        → b < 256
        → b % 128 ≤ 4
        → b % 128 ≤ length bs
        → Takes IsLength ⊥ r (decode_length r)
    decode_length_long bytes lo hi few enough =
        let m = b % 128 in
        let octets = take m bs in
        let n = octet_value 0 octets in
        let long : length octets ≡ m = omega (arith, length-take m bs) in
        let bound : n < 256 ^ m =
          rw (zero_add (length octets), long) at
            (octet_value-lt 0 0 octets (All-take m bs bytes) (omega arith)) in
        let small : n < 4294967296 =
          omega (arith, pow-le-pow_right {n = 256} (omega arith) {i = m} {j = 4} few) in
        let whole : available r ≡ b ∷ (octets ++ drop m bs) =
          e ∙ ap (λ l. b ∷ l) (sym (take-append-drop m bs)) in
        rw
          (read_long b n m octets (drop m bs) r whole lo hi refl few long (All-take m bs bytes) refl
            small)
          (took (suc m) refl (omega (arith, ap length e)) (
            omega arith,
            small,
            length-LengthForm-le m n (encode_length n) (omega arith) bound
                (encode_length-LengthForm n small),
          ))

    decode_length-octet : All IsByte (b ∷ bs) → Takes IsLength ⊥ r (decode_length r)
    decode_length-octet (hb, hbs) = elim (Bool-cases (ltb b 128)) [
      | inl a ↦ rw (decode_length_short (ground arith)) (
          took 1 refl (omega (arith, ap length e)) (
            omega arith,
            let lo : b < 128 = ground arith in omega arith,
            rw (write_short b (ground arith)) (omega arith),
          ))
      | inr a ↦ elim (Bool-cases (b == 128)) [
        | inl i ↦ rw (decode_length_indefinite (ground arith)) (failed (λ z. cc) (λ z. cc))
        | inr d ↦
            let lo : 128 < b = ground arith in
            elim (Bool-cases (ltb 4 (b % 128))) [
              | inl many ↦ rw (decode_length_wide lo hb (ground arith)) (failed (λ z. cc) (λ z. cc))
              | inr few ↦
                  let few' : b % 128 ≤ 4 = ground arith in
                  elim (Bool-cases (ltb (length bs) (b % 128))) [
                    | inl short_input ↦
                        rw (decode_length_cut lo hb few' (ground arith))
                          (failed (λ z. cc) (λ z. cc))
                    | inr enough ↦ decode_length_long hbs lo hb few' (ground arith)
                  ]
            ]
      ]
    ]

  -- Whatever the bytes, `decodeLength` reads a length below 2 ^ 32, or fails with an error that is not
  -- `io.EOF`. In DER that length takes no more octets than were read.
  pub decode_length-Takes : All IsByte (available r) → Takes IsLength ⊥ r (decode_length r)
  decode_length-Takes h = elim (List-cases (available r)) [
    | inl e ↦ rw (decode_length_empty e) (failed (λ z. cc) (λ z. cc))
    | inr (b, bs, e) ↦ decode_length-octet b bs e (rw e at h)
  ]
