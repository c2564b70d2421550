-- ===== src/Encoding/Tests.antt =====
-- Runs and witnesses of the package `internal/encoding/asn1`.
use notation_go.Prelude.{◌+◌, ◌*◌, ◌≤◌, inr, ◌≡◌, refl, ◌++◌, [], ◌∷◌, length, arith}
use notation_go.Encoding.Reader.{
  source, limited, ok, err, unexpected_eof, unread_byte, read, read_full, read_byte,
}
use notation_go.Encoding.Reader.Laws.{available, advance, unread_byte-read_byte}
use notation_go.Encoding.Lengths.{
  encode_length, decode_length, encoded_length_size, length_octets, is_primitive, decode_identifier,
}
use notation_go.Encoding.Lengths.Octets.{LengthForm, encode_length-LengthForm}
use notation_go.Encoding.Lengths.RoundTrip.{decode_length-encode_length}
use notation_go.Encoding.Lengths.Sound.{IsLength, decode_length-Takes}
use notation_go.Encoding.Takes.{Takes}
use notation_go.Encoding.Decoding.Sizes.{IsDecoded}
use notation_go.Encoding.Decoding.Sound.{IsShortened, decode-Takes, convert_to_der-IsShortened}
use notation_go.Encoding.Decoding.RoundTrip.{decode-encode, convert_to_der-encode}
use notation_go.Encoding.Decoding.Canonical.{
  IsCanonical, canonical_primitive, canonical_constructed, canonical_nil, canonical_cons,
}
use notation_go.Encoding.Decoding.{convert_to_der, decode, starts_primitive, decode_primitive}
use notation_go.Encoding.Values.{
  Value, primitive, constructed, nil, cons, encode, encoded_len, append,
}

-- A definite length in more octets than it needs, and an indefinite one.
der_runs :
    (convert_to_der (0x30 ∷ 0x81 ∷ 0x03 ∷ 0x02 ∷ 0x01 ∷ 0x07 ∷ [])
      ≡ ok (0x30 ∷ 0x03 ∷ 0x02 ∷ 0x01 ∷ 0x07 ∷ []))
    × (convert_to_der (0x02 ∷ 0x02 ∷ 0x07 ∷ []) ≡ err unexpected_eof)
unfolding convert_to_der decode read_byte unread_byte is_primitive decode_identifier
    starts_primitive decode_length decode_primitive read_full read encode encode_length encoded_len
    encoded_length_size append
der_runs = (refl, refl)

written : 0x82 ∷ 0x01 ∷ 0x2c ∷ 0x05 ∷ [] ≡ encode_length 300 ++ 0x05 ∷ []
unfolding encode_length encoded_length_size length_octets
written = refl

decode_length-encode_length_example :
    decode_length (source [] (0x82 ∷ 0x01 ∷ 0x2c ∷ 0x05 ∷ []))
    ≡ ok (300, advance (length (encode_length 300)) (source [] (0x82 ∷ 0x01 ∷ 0x2c ∷ 0x05 ∷ [])))
decode_length-encode_length_example =
    decode_length-encode_length 300 (0x05 ∷ []) (source [] (0x82 ∷ 0x01 ∷ 0x2c ∷ 0x05 ∷ []))
      (omega arith) written

decode_length-Takes_example :
    Takes IsLength ⊥ (source [] (0x81 ∷ 0x05 ∷ [])) (decode_length (source [] (0x81 ∷ 0x05 ∷ [])))
decode_length-Takes_example =
    decode_length-Takes (source [] (0x81 ∷ 0x05 ∷ [])) (omega arith, (omega arith, tt))

encode_length-LengthForm_example : LengthForm 70000 (encode_length 70000)
encode_length-LengthForm_example = encode_length-LengthForm 70000 (omega arith)

read_run :
    read_byte (limited 2 (source [] (1 ∷ 2 ∷ 3 ∷ [])))
    ≡ ok (1, limited 1 (source (1 ∷ []) (2 ∷ 3 ∷ [])))
unfolding read_byte
read_run = refl

unread_byte-read_byte_example :
    unread_byte (limited 1 (source (1 ∷ []) (2 ∷ 3 ∷ [])))
    ≡ ok (limited 2 (source [] (1 ∷ 2 ∷ 3 ∷ [])))
unread_byte-read_byte_example =
    unread_byte-read_byte (limited 2 (source [] (1 ∷ 2 ∷ 3 ∷ [])))
      (limited 1 (source (1 ∷ []) (2 ∷ 3 ∷ []))) 1 read_run

decode-Takes_example :
    Takes IsDecoded
      (available (source [] (0x30 ∷ 0x02 ∷ 0x05 ∷ 0x00 ∷ [])) ≡ [])
      (source [] (0x30 ∷ 0x02 ∷ 0x05 ∷ 0x00 ∷ []))
      (decode 13 (source [] (0x30 ∷ 0x02 ∷ 0x05 ∷ 0x00 ∷ [])))
decode-Takes_example =
    decode-Takes 13 (source [] (0x30 ∷ 0x02 ∷ 0x05 ∷ 0x00 ∷ [])) (omega arith)
      (omega arith, (omega arith, (omega arith, (omega arith, tt))))

convert_to_der-IsShortened_example :
    IsShortened (0x02 ∷ 0x81 ∷ 0x01 ∷ 0x07 ∷ []) (convert_to_der (0x02 ∷ 0x81 ∷ 0x01 ∷ 0x07 ∷ []))
convert_to_der-IsShortened_example =
    convert_to_der-IsShortened (0x02 ∷ 0x81 ∷ 0x01 ∷ 0x07 ∷ [])
      (omega arith, (omega arith, (omega arith, (omega arith, tt))))

abbrev sample_value : Value
sample_value = constructed (0x30 ∷ []) 3 (cons (primitive (0x02 ∷ []) (7 ∷ [])) nil)

sample_value-IsCanonical : IsCanonical sample_value
unfolding starts_primitive is_primitive encode encode_length
sample_value-IsCanonical = canonical_constructed (inr (refl, refl)) refl refl (omega arith) (
    canonical_cons
      (canonical_primitive {identifier = 0x02 ∷ []} {content = 7 ∷ []} (inr (refl, refl)) refl
        (omega arith))
      canonical_nil)

sample_bytes : 0x30 ∷ 0x03 ∷ 0x02 ∷ 0x01 ∷ 0x07 ∷ 0x09 ∷ [] ≡ encode sample_value ++ 0x09 ∷ []
unfolding encode encode_length
sample_bytes = refl

room_for : 3 * length (encode sample_value) + 1 ≤ 20
unfolding encode encode_length
room_for = omega arith

decode-encode_example :
    decode 20 (source [] (0x30 ∷ 0x03 ∷ 0x02 ∷ 0x01 ∷ 0x07 ∷ 0x09 ∷ []))
    ≡ ok (
      sample_value,
      advance
          (length (encode sample_value))
          (source [] (0x30 ∷ 0x03 ∷ 0x02 ∷ 0x01 ∷ 0x07 ∷ 0x09 ∷ [])),
    )
decode-encode_example =
    decode-encode 20 sample_value (0x09 ∷ [])
      (source [] (0x30 ∷ 0x03 ∷ 0x02 ∷ 0x01 ∷ 0x07 ∷ 0x09 ∷ [])) sample_value-IsCanonical room_for
      sample_bytes

convert_to_der-encode_example : convert_to_der (encode sample_value) ≡ ok (encode sample_value)
convert_to_der-encode_example = convert_to_der-encode sample_value sample_value-IsCanonical
