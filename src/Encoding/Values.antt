-- ===== src/Encoding/Values.antt =====
-- internal/encoding/asn1/primitive.go and constructed.go: values, and their encoding in DER. The
-- writer is a `bytes.Buffer`, whose writes do not fail: `encode` is what is written.
use notation_go.Prelude.{ℕ, ◌+◌, List, [], ◌++◌, length}
use notation_go.Encoding.Lengths.{encode_length, encoded_length_size}

mutual
  pub data Value : Type 0 where
    primitive : List ℕ → List ℕ → Value
    constructed : List ℕ → ℕ → Values → Value

  pub data Values : Type 0 where
    nil : Values
    cons : Value → Values → Values

-- `append(members, value)`
unfoldable pub append : Values → Value → Values
append nil v = cons v nil
append (cons w vs) v = cons w (append vs v)

-- `Encode`
unfoldable mutual
  pub encode : Value → List ℕ
  encode (primitive identifier content) = identifier ++ (encode_length (length content) ++ content)
  encode (constructed identifier n members) =
      identifier ++ (encode_length n ++ encode_values members)

  pub encode_values : Values → List ℕ
  encode_values nil = []
  encode_values (cons v vs) = encode v ++ encode_values vs

-- `EncodedLen`
unfoldable pub encoded_len : Value → ℕ
encoded_len (primitive identifier content) =
    length identifier + encoded_length_size (length content) + length content
encoded_len (constructed identifier n members) = length identifier + encoded_length_size n + n
