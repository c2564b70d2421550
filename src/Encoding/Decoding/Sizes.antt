-- ===== src/Encoding/Decoding/Sizes.antt =====
-- The sizes of decoded values.
use notation_go.Prelude.{
  Bool-cases, ltb, ℕ, ◌+◌, ◌≤◌, ◌<◌, ◌≡◌, refl, List, [], ◌++◌, length, length-append, length-take,
  All, arith, inl, inr,
}
use notation_go.Encoding.Reader.{Reader}
use notation_go.Encoding.Reader.Laws.{
  available, advance, available-advance, read_full-ok, read_full-short,
}
use notation_go.Encoding.Takes.{room, Takes, took, failed}
use notation_go.Encoding.Lengths.{encode_length, encoded_length_size}
use notation_go.Encoding.Lengths.RoundTrip.{IsByte}
use notation_go.Encoding.Lengths.Octets.{length-encode_length}
use notation_go.Encoding.Lengths.Sound.{IsLength, All-drop}
use notation_go.Encoding.Lengths.Monotone.{length-encode_length_mono}
use notation_go.Encoding.Values.{
  Value, Values, primitive, constructed, nil, cons, append, encode, encode_values, encoded_len,
}
use notation_go.Encoding.Decoding.{read_content}

-- A value that was decoded from `k` bytes: in DER it takes at most as many, and `EncodedLen` says how
-- many.
abbrev pub IsDecoded : Value → ℕ → Type 0
IsDecoded v k = (1 ≤ k) × (length (encode v) ≤ k) × (encoded_len v ≡ length (encode v))

pub IsBytes-advance :
    (k : ℕ) (r r' : Reader)
    → r' ≡ advance k r
    → All IsByte (available r)
    → All IsByte (available r')
IsBytes-advance k r r' e h = rw (e, available-advance k r) (All-drop k (available r) h)

pub read_content-Takes :
    (n : ℕ) (r : Reader)
    → Takes (λ content k. (length content ≡ n) × (k ≡ n)) ⊥ r (read_content n r)
unfolding read_content
read_content-Takes n r = elim (Bool-cases (ltb (room r) n)) [
  | inl less ↦ elim (read_full-short n r (ground arith)) [
    | inl e ↦ rw e (failed (λ z. cc) (λ z. cc))
    | inr e ↦ rw e (failed (λ z. cc) (λ z. cc))
  ]
  | inr enough ↦
      let fits : n ≤ room r = ground arith in
      rw (read_full-ok n r fits)
        (took n refl fits (omega (arith, length-take n (available r)), refl))
]

pub length-parts :
    (id l content : List ℕ) → length (id ++ (l ++ content)) ≡ length id + length l + length content
length-parts id l content = omega (arith, length-append id (l ++ content), length-append l content)

-- The sizes of a value with an identifier of `j` bytes and a content of `n` bytes.
pub sizes :
    (id content : List ℕ) (n : ℕ)
    → length content ≡ n
    → n < 4294967296
    → length id + encoded_length_size n + n ≡ length (id ++ (encode_length n ++ content))
sizes id content n hn small =
    omega (arith, length-parts id (encode_length n) content, length-encode_length n small)

pub primitive-IsDecoded :
    (id content : List ℕ) (n j k l : ℕ)
    → 1 ≤ j
    → length id ≡ j
    → IsLength n k
    → length content ≡ n
    → l ≡ n
    → IsDecoded (primitive id content) (j + (k + l))
unfolding encode encoded_len
primitive-IsDecoded id content n j k l low hid (k1, small, short) hn hl = rw hn (
  omega arith,
  omega (arith, length-parts id (encode_length n) content),
  sizes id content n hn small,
)

pub constructed-IsDecoded :
    (id : List ℕ) (n expected : ℕ) (members : Values) (j k l : ℕ)
    → 1 ≤ j
    → length id ≡ j
    → IsLength expected k
    → length (encode_values members) ≡ n
    → n ≤ l
    → l ≤ expected
    → IsDecoded (constructed id n members) (j + (k + l))
unfolding encode encoded_len
constructed-IsDecoded id n expected members j k l low hid (k1, small, short) hn le cap = (
  omega arith,
  omega (
    arith,
    length-parts id (encode_length n) (encode_values members),
    length-encode_length_mono n expected (omega arith) small,
  ),
  sizes id (encode_values members) n hn (omega arith),
)

pub length-encode_values-append :
    (vs : Values) (v : Value)
    → length (encode_values (append vs v)) ≡ length (encode_values vs) + length (encode v)
unfolding append encode
length-encode_values-append nil v = omega (arith, length-append (encode v) [])
length-encode_values-append (cons w vs) v = omega (
  arith,
  length-append (encode w) (encode_values (append vs v)),
  length-append (encode w) (encode_values vs),
  length-encode_values-append vs v,
)
