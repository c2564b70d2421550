-- ===== src/Encoding/Lengths/Monotone.antt =====
-- A smaller length is not longer when written.
use notation_go.Prelude.{ℕ, ◌≤◌, ◌<◌, ◌≡◌, List, length, ltb, if◌then◌else◌, arith}
use notation_go.Encoding.Lengths.{encode_length}
use notation_go.Encoding.Lengths.Octets.{
  LengthForm, short, one, two, three, four, encode_length-LengthForm,
}

abbrev octets : ℕ → ℕ
octets n =
    if ltb n 128
    then 1
    else if ltb n 256
    then 2
    else if ltb n 65536
    then 3
    else if ltb n 16777216
    then 4
    else 5

length-octets : (n : ℕ) (l : List ℕ) → LengthForm n l → length l ≡ octets n
length-octets n l (short a) = ground arith
length-octets n l (one a b) = ground arith
length-octets n l (two a b) = ground arith
length-octets n l (three a b) = ground arith
length-octets n l (four a b) = ground arith

octets_mono : (n m : ℕ) → n ≤ m → octets n ≤ octets m
octets_mono n m h = ground arith

pub length-encode_length_mono :
    (n m : ℕ) → n ≤ m → m < 4294967296 → length (encode_length n) ≤ length (encode_length m)
length-encode_length_mono n m h small = omega (
  arith,
  octets_mono n m h,
  length-octets n (encode_length n) (encode_length-LengthForm n (omega arith)),
  length-octets m (encode_length m) (encode_length-LengthForm m small),
)
