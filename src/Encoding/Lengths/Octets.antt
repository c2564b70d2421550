-- ===== src/Encoding/Lengths/Octets.antt =====
-- The length octets that `encodeLength` writes for a length of at most 32 bits.
use Prim.Native.Nat.{bit_or}
use notation_go.Prelude.{
  ℕ, suc, ◌+◌, ◌-◌, ◌/◌, ◌%◌, ◌≤◌, ◌<◌, ◌≡◌, refl, List, [], ◌∷◌, length, ltb, ◌==◌, if◌then◌else◌,
  arith, false, ap, ◌∙◌, Bool-cases, inl, inr,
}
use notation_go.Encoding.Lengths.{shift_out, encoded_length_size, length_octets, encode_length}

-- The shortest definite forms, by the size of the length: the length itself in one octet, or the
-- number of octets that follow and the length in these octets, the highest first.
pub data LengthForm (n : ℕ) : List ℕ → Type 0 where
  short : n < 128 → LengthForm n (n ∷ [])
  one : 128 ≤ n → n < 256 → LengthForm n (129 ∷ n ∷ [])
  two : 256 ≤ n → n < 65536 → LengthForm n (130 ∷ (n / 256) ∷ (n % 256) ∷ [])
  three :
      65536 ≤ n → n < 16777216 → LengthForm n (131 ∷ (n / 65536) ∷ (n / 256 % 256) ∷ (n % 256) ∷ [])
  four :
      16777216 ≤ n
      → n < 4294967296
      → LengthForm n (132 ∷ (n / 16777216) ∷ (n / 65536 % 256) ∷ (n / 256 % 256) ∷ (n % 256) ∷ [])

shift_out_lem :
    (rounds n s : ℕ)
    → shift_out (suc rounds) n s ≡ (if n == 0 then s else shift_out rounds (n / 256) (s + 1))
unfolding shift_out
shift_out_lem rounds n s = refl

size_two : (n : ℕ) → 128 ≤ n → n < 256 → encoded_length_size n ≡ 2
unfolding encoded_length_size
size_two n h k = ground arith

size_five : (n : ℕ) → 16777216 ≤ n → n < 4294967296 → encoded_length_size n ≡ 5
unfolding encoded_length_size
size_five n h k = ground arith

size_three : (n : ℕ) → 256 ≤ n → n < 65536 → encoded_length_size n ≡ 3
unfolding encoded_length_size
size_three n h k = ground arith

size_four : (n : ℕ) → 65536 ≤ n → n < 16777216 → encoded_length_size n ≡ 4
unfolding encoded_length_size
size_four n h k = ground arith

-- `encodeLength` writes the form of the length.
pub write_short : (n : ℕ) → n < 128 → encode_length n ≡ n ∷ []
unfolding encode_length
write_short n h = ground arith

long_test : (n : ℕ) → 128 ≤ n → ltb n 0x80 ≡ false
long_test n h = ground arith

write_long :
    (n size : ℕ)
    → 128 ≤ n
    → encoded_length_size n ≡ size
    → encode_length n ≡ bit_or 0x80 ((size - 1) % 256) ∷ length_octets (size - 1) n
unfolding encode_length
write_long n size h e =
    rw (long_test n h) (ap (λ s. bit_or 0x80 ((s - 1) % 256) ∷ length_octets (s - 1) n) e)

write_one : (n : ℕ) → 128 ≤ n → n < 256 → encode_length n ≡ 129 ∷ n ∷ []
unfolding length_octets
write_one n h k = write_long n 2 h (size_two n h k) ∙ ground arith

write_two : (n : ℕ) → 256 ≤ n → n < 65536 → encode_length n ≡ 130 ∷ (n / 256) ∷ (n % 256) ∷ []
unfolding length_octets
write_two n h k = write_long n 3 (omega arith) (size_three n h k) ∙ ground arith

write_three :
    (n : ℕ)
    → 65536 ≤ n
    → n < 16777216
    → encode_length n ≡ 131 ∷ (n / 65536) ∷ (n / 256 % 256) ∷ (n % 256) ∷ []
unfolding length_octets
write_three n h k = write_long n 4 (omega arith) (size_four n h k) ∙ ground arith

write_four :
    (n : ℕ)
    → 16777216 ≤ n
    → n < 4294967296
    → encode_length n ≡ 132 ∷ (n / 16777216) ∷ (n / 65536 % 256) ∷ (n / 256 % 256) ∷ (n % 256) ∷ []
unfolding length_octets
write_four n h k = write_long n 5 (omega arith) (size_five n h k) ∙ ground arith

-- encodeLength writes every length of at most 32 bits in the shortest definite form: below 128 as one
-- octet, else as the number of octets that the length needs, with bit 8 set, and these octets, the
-- highest first.
pub encode_length-LengthForm : (n : ℕ) → n < 4294967296 → LengthForm n (encode_length n)
encode_length-LengthForm n h = elim (Bool-cases (ltb n 128)) [
  | inl a ↦ let a' : n < 128 = ground arith in rw (write_short n a') (short a')
  | inr a ↦ elim (Bool-cases (ltb n 256)) [
    | inl b ↦
        let lo : 128 ≤ n = ground arith in
        let hi : n < 256 = ground arith in rw (write_one n lo hi) (one lo hi)
    | inr b ↦ elim (Bool-cases (ltb n 65536)) [
      | inl c ↦
          let lo : 256 ≤ n = ground arith in
          let hi : n < 65536 = ground arith in rw (write_two n lo hi) (two lo hi)
      | inr c ↦ elim (Bool-cases (ltb n 16777216)) [
        | inl d ↦
            let lo : 65536 ≤ n = ground arith in
            let hi : n < 16777216 = ground arith in rw (write_three n lo hi) (three lo hi)
        | inr d ↦ let lo : 16777216 ≤ n = ground arith in rw (write_four n lo h) (four lo h)
      ]
    ]
  ]
]

size-LengthForm : (n : ℕ) (l : List ℕ) → LengthForm n l → length l ≡ encoded_length_size n
unfolding encoded_length_size
size-LengthForm n l (short h) = ground arith
size-LengthForm n l (one h k) = ground arith
size-LengthForm n l (two h k) = ground arith
size-LengthForm n l (three h k) = ground arith
size-LengthForm n l (four h k) = ground arith

-- `encodedLengthSize` is the number of octets that `encodeLength` writes.
pub length-encode_length :
    (n : ℕ) → n < 4294967296 → length (encode_length n) ≡ encoded_length_size n
length-encode_length n h = size-LengthForm n (encode_length n) (encode_length-LengthForm n h)
