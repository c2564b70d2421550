-- ===== src/Encoding/Lengths.antt =====
-- internal/encoding/asn1/common.go: identifier and length octets. `int` has 64 bits.
pub mod RoundTrip
pub mod Octets
pub mod Sound
pub mod ReadBack
pub mod Monotone
pub mod Identifiers
use Prim.Native.Nat.{bit_and, bit_or}
use notation_go.Prelude.{
  ℕ, zero, suc, ◌+◌, ◌-◌, ◌*◌, ◌/◌, ◌%◌, ◌^◌, Bool, List, [], ◌∷◌, ◌++◌, length, ltb, leb, ◌==◌,
  if◌then◌else◌,
}
use notation_go.Encoding.Reader.{
  Reader, ReadError, Result, ok, err, eof, unexpected_eof, early_eof, unsupported_length,
  expect_constructed, expect_primitive, cannot_unread, out_of_fuel, ◌>>=◌, end_early, read_byte,
}

-- `isPrimitive`
unfoldable pub is_primitive : ℕ → Bool
is_primitive identifier = bit_and identifier 0x20 == 0

-- `for ; length > 0; lengthSize++ { length >>= 8 }`: eight rounds empty 64 bits.
unfoldable pub shift_out : ℕ → ℕ → ℕ → ℕ
shift_out zero n length_size = length_size
shift_out (suc rounds) n length_size =
    let rest = shift_out rounds (n / 2 ^ 8) (length_size + 1) in
    if n == 0 then length_size else rest

-- `encodedLengthSize`
unfoldable pub encoded_length_size : ℕ → ℕ
unfolding shift_out
encoded_length_size n = if ltb n 0x80 then 1 else shift_out 8 n 1

-- The loop of `encodeLength`, down from `i`.
unfoldable pub length_octets : ℕ → ℕ → List ℕ
length_octets zero n = []
length_octets (suc i) n = (n / 2 ^ (8 * i) % 256) ∷ length_octets i n

-- `encodeLength`, as the bytes that it writes.
unfoldable pub encode_length : ℕ → List ℕ
encode_length n =
    if ltb n 0x80
    then (n % 256) ∷ []
    else bit_or 0x80 ((encoded_length_size n - 1) % 256)
      ∷ length_octets (encoded_length_size n - 1) n

-- Where a missing byte is an early end of the input.
unfoldable pub read_inner : Reader → Result (ℕ × Reader)
read_inner r = end_early (read_byte r)

-- The loop of `decodeIdentifier` over a high tag number. It ends at the first octet with bit 8 set.
unfoldable pub read_tag : ℕ → List ℕ → Reader → Result (List ℕ × Reader)
unfolding read_inner
read_tag zero identifier r = err out_of_fuel
read_tag (suc fuel) identifier r = do
  (b, r') ← read_inner r
  let more = read_tag fuel (identifier ++ b ∷ []) r' in
      if bit_and b 0x80 == 0 then more else ok (identifier ++ b ∷ [], r')

-- `decodeIdentifier`
unfoldable pub decode_identifier : ℕ → Reader → Result (List ℕ × Reader)
unfolding read_tag
decode_identifier fuel r = do
  (b, r') ← read_byte r
  if bit_and b 0x1f == 0x1f then read_tag fuel (b ∷ []) r' else ok (b ∷ [], r')

-- `for i := 0; i < n; i++ { length = (length << 8) | int(b) }`
unfoldable pub read_octets : ℕ → ℕ → Reader → Result (ℕ × Reader)
unfolding read_inner
read_octets zero n r = ok (n, r)
read_octets (suc i) n r = do
  (b, r') ← read_inner r
  read_octets i (bit_or (n * 2 ^ 8 % 2 ^ 64) b) r'

-- The last test: a length with the sign bit of `int` is refused.
abbrev check_sign : ℕ × Reader → Result (ℕ × Reader)
check_sign (n, r) = if leb (2 ^ 63) n then err unsupported_length else ok (n, r)

-- The long form, for the octet `b`.
unfoldable pub decode_long : ℕ → Reader → Result (ℕ × Reader)
unfolding read_octets
decode_long b r =
    if ltb 4 (bit_and b 0x7f)
    then err unsupported_length
    else read_octets (bit_and b 0x7f) 0 r >>= check_sign

-- `decodeLength`
unfoldable pub decode_length : Reader → Result (ℕ × Reader)
unfolding decode_long
decode_length r = do
  (b, r') ← read_inner r
  if ltb b 0x80 then ok (b, r') else if b == 0x80 then err unsupported_length else decode_long b r'
