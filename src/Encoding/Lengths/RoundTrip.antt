-- ===== src/Encoding/Lengths/RoundTrip.antt =====
-- `decodeLength` against the bytes that are available.
use Prim.Native.Nat.{bit_and, bit_or}
use native.Mathlib.Nat.{pow-suc}
use notation_go.Prelude.{
  lt→ltb, ℕ, zero, suc, ◌+◌, ◌*◌, ◌/◌, ◌%◌, ◌^◌, ◌≤◌, ◌<◌, ◌≡◌, refl, List, [], ◌∷◌, ◌++◌, length,
  drop, ltb, leb, ◌==◌, arith, false, ap, ◌∙◌, sym, All,
}
use notation_go.Encoding.Bits.{low_seven, join_byte}
use notation_go.Encoding.Reader.{Reader, ok, err, early_eof}
use notation_go.Encoding.Reader.Laws.{
  available, advance, advance_zero, available-advance, advance-advance, read_byte-nil,
  read_byte-cons,
}
use notation_go.Encoding.Lengths.{read_inner, read_octets, decode_length, encode_length}
use notation_go.Encoding.Lengths.Octets.{
  LengthForm, short, one, two, three, four, encode_length-LengthForm,
}

abbrev pub IsByte : ℕ → Type 0
IsByte b = b < 256

-- The number of the octets `bs`, the highest first, behind `n`.
abbrev pub octet_value : ℕ → List ℕ → ℕ
octet_value n [] = n
octet_value n (b ∷ bs) = octet_value (n * 256 + b) bs

pub read_inner-cons :
    (r : Reader) (b : ℕ) (bs : List ℕ) → available r ≡ b ∷ bs → read_inner r ≡ ok (b, advance 1 r)
unfolding read_inner
read_inner-cons r b bs h = rw (read_byte-cons r b bs h)

pub read_inner-nil : (r : Reader) → available r ≡ [] → read_inner r ≡ err early_eof
unfolding read_inner
read_inner-nil r h = rw (read_byte-nil r h)

pub one_add : (i : ℕ) → 1 + i ≡ suc i
one_add i = omega arith

power_bound : (j : ℕ) → j ≤ 3 → 256 ^ j ≤ 16777216
power_bound zero h = omega arith
power_bound (suc zero) h = omega arith
power_bound (suc (suc zero)) h = omega arith
power_bound (suc (suc (suc zero))) h = omega arith
power_bound (suc (suc (suc (suc j)))) h = absurd (omega arith)

no_overflow : (n j : ℕ) → j ≤ 3 → n < 256 ^ j → n * 2 ^ 8 % 2 ^ 64 ≡ n * 256
no_overflow n j h k = omega (arith, power_bound j h)

pub grow : (n b j : ℕ) → b < 256 → n < 256 ^ j → n * 256 + b < 256 ^ suc j
grow n b j h k = rw (pow-suc 256 j) (omega arith)

-- The loop over `i` octets, where they are there.
read_octets-ok :
    (i j n : ℕ) (r : Reader) (bs rest : List ℕ)
    → available r ≡ bs ++ rest
    → length bs ≡ i
    → All IsByte bs
    → i + j ≤ 4
    → n < 256 ^ j
    → read_octets i n r ≡ ok (octet_value n bs, advance i r)
unfolding read_octets
read_octets-ok zero j n r [] rest h l b m k = ap (λ x. ok (n, x)) (sym (advance_zero r))
read_octets-ok zero j n r (b ∷ bs) rest h l bb m k = absurd (omega arith)
read_octets-ok (suc i) j n r [] rest h l b m k = absurd (omega arith)
read_octets-ok (suc i) j n r (b ∷ bs) rest h l (hb, hbs) m k =
    let next : available (advance 1 r) ≡ bs ++ rest = available-advance 1 r ∙ ap (drop 1) h in
    let joined : bit_or (n * 2 ^ 8 % 2 ^ 64) b ≡ n * 256 + b =
      rw (no_overflow n j (omega arith) k) (join_byte n b hb) in
    rw (read_inner-cons r b (bs ++ rest) h, joined)
      (read_octets-ok i (suc j) (n * 256 + b) (advance 1 r) bs rest next (omega arith) hbs
          (omega arith) (grow n b j hb k)
        ∙ ap (λ x. ok (octet_value (n * 256 + b) bs, x))
            (advance-advance 1 i r ∙ ap (λ m. advance m r) (one_add i)))

-- The octets of the long form, behind the octet `b` that counts them.
pub read_long :
    (b n m : ℕ) (bs rest : List ℕ) (r : Reader)
    → available r ≡ b ∷ (bs ++ rest)
    → 128 < b
    → b < 256
    → b % 128 ≡ m
    → m ≤ 4
    → length bs ≡ m
    → All IsByte bs
    → octet_value 0 bs ≡ n
    → n < 4294967296
    → decode_length r ≡ ok (n, advance (suc m) r)
unfolding decode_length
read_long b n m bs rest r h lo hi low few long bytes val small =
    let next : available (advance 1 r) ≡ bs ++ rest = available-advance 1 r ∙ ap (drop 1) h in
    let count : bit_and b 0x7f ≡ m = low_seven b hi ∙ low in
    let not_short : ltb b 0x80 ≡ false = ground arith in
    let definite : b == 0x80 ≡ false = ground arith in
    let fits : ltb 4 m ≡ false = ground arith in
    let sign : leb (2 ^ 63) n ≡ false = ground arith in
    rw
      (
        read_inner-cons r b (bs ++ rest) h,
        not_short,
        definite,
        count,
        fits,
        read_octets-ok m 0 0 (advance 1 r) bs rest next long bytes (omega arith) (omega arith),
        val,
        sign,
      )
      (ap (λ x. ok (n, x)) (advance-advance 1 m r ∙ ap (λ k. advance k r) (one_add m)))

read_form :
    (n : ℕ) (l rest : List ℕ) (r : Reader)
    → LengthForm n l
    → available r ≡ l ++ rest
    → decode_length r ≡ ok (n, advance (length l) r)
read_form n l rest r (short a) h =
    unfold decode_length in rw (read_inner-cons r n rest h, lt→ltb n 128 a)
read_form n l rest r (one a b) h =
    read_long 129 n 1 (n ∷ []) rest r h (omega arith) (omega arith) refl (omega arith) refl
      (omega arith) (omega arith) (omega arith)
read_form n l rest r (two a b) h =
    read_long 130 n 2 (n / 256 ∷ n % 256 ∷ []) rest r h (omega arith) (omega arith) refl
      (omega arith) refl (omega arith) (omega arith) (omega arith)
read_form n l rest r (three a b) h =
    read_long 131 n 3 (n / 65536 ∷ n / 256 % 256 ∷ n % 256 ∷ []) rest r h (omega arith)
      (omega arith) refl (omega arith) refl (omega arith) (omega arith) (omega arith)
read_form n l rest r (four a b) h =
    read_long 132 n 4 (n / 16777216 ∷ n / 65536 % 256 ∷ n / 256 % 256 ∷ n % 256 ∷ []) rest r h
      (omega arith) (omega arith) refl (omega arith) refl (omega arith) (omega arith) (omega arith)

-- `decodeLength` reads back what `encodeLength` wrote, for lengths of at most 32 bits, and takes
-- nothing of what follows.
pub decode_length-encode_length :
    (n : ℕ) (rest : List ℕ) (r : Reader)
    → n < 4294967296
    → available r ≡ encode_length n ++ rest
    → decode_length r ≡ ok (n, advance (length (encode_length n)) r)
decode_length-encode_length n rest r small h =
    read_form n (encode_length n) rest r (encode_length-LengthForm n small) h
