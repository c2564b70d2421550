-- ===== src/Encoding/Decoding.antt =====
-- internal/encoding/asn1/asn1.go, primitive.go and constructed.go: `Decode` and `ConvertToDER`.
-- The depth of the calls is bounded by fuel.
pub mod Sizes
pub mod Sound
pub mod Canonical
pub mod RoundTrip
use notation_go.Prelude.{ℕ, zero, suc, ◌+◌, ◌*◌, Bool, false, List, [], ◌∷◌, length, if◌then◌else◌}
use notation_go.Encoding.Reader.{
  Reader, source, Result, ok, err, eof, expect_constructed, expect_primitive, out_of_fuel, ◌>>=◌,
  end_early, read_byte, unread_byte, read_full, limit, wrapped,
}
use notation_go.Encoding.Lengths.{is_primitive, decode_identifier, decode_length}
use notation_go.Encoding.Values.{
  Value, Values, primitive, constructed, nil, append, encode, encoded_len,
}

-- `isPrimitive(identifier[0])`; an identifier has a first octet.
unfoldable pub starts_primitive : List ℕ → Bool
starts_primitive [] = false
starts_primitive (b ∷ tag) = is_primitive b

unfoldable pub read_content : ℕ → Reader → Result (List ℕ × Reader)
read_content n r = end_early (read_full n r)

-- `DecodePrimitive`
unfoldable pub decode_primitive : ℕ → Reader → Result (Value × Reader)
unfolding starts_primitive read_content
decode_primitive fuel r = do
  (identifier, r₁) ← decode_identifier fuel r
  if starts_primitive identifier
      then (do
        (n, r₂) ← decode_length r₁
        (content, r₃) ← read_content n r₂
        ok (primitive identifier content, r₃))
      else err expect_primitive

unfoldable mutual
  -- `Decode`
  pub decode : ℕ → Reader → Result (Value × Reader)
  decode zero r = err out_of_fuel
  decode (suc fuel) r = do
    (peeked, r₁) ← read_byte r
    r₂ ← unread_byte r₁
    let inner = decode_constructed fuel r₂ in
        if is_primitive peeked then decode_primitive fuel r₂ else inner

  -- `DecodeConstructed`
  pub decode_constructed : ℕ → Reader → Result (Value × Reader)
  decode_constructed zero r = err out_of_fuel
  decode_constructed (suc fuel) r = do
    (identifier, r₁) ← decode_identifier fuel r
    if starts_primitive identifier then err expect_constructed else (do
      (expected, r₂) ← decode_length r₁
      (members, n, r₃) ← decode_members fuel (limit expected r₂) nil 0
      ok (constructed identifier n members, wrapped r₃))

  -- The loop over the members, which `io.EOF` ends.
  pub decode_members : ℕ → Reader → Values → ℕ → Result (Values × ℕ × Reader)
  decode_members zero r members n = err out_of_fuel
  decode_members (suc fuel) r members n = elim (decode fuel r) [
    | ok (v, r') ↦ decode_members fuel r' (append members v) (n + encoded_len v)
    | err eof ↦ ok (members, n, r)
    | err e ↦ err e
  ]

-- `ConvertToDER`, and the fuel that it is given.
abbrev pub fuel_for : List ℕ → ℕ
fuel_for ber = 3 * length ber + 1

unfoldable pub convert_to_der : List ℕ → Result (List ℕ)
convert_to_der ber = do (v, _) ← decode (fuel_for ber) (source [] ber); ok (encode v)
