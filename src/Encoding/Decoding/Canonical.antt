-- ===== src/Encoding/Decoding/Canonical.antt =====
-- Canonical values, and where the parts of their encodings lie.
use notation_go.Prelude.{
  ℕ, suc, ◌+◌, ◌≤◌, ◌<◌, ◌≡◌, refl, sym, ap, ◌∙◌, true, false, List, ◌++◌, length, length-append,
  take, drop, take-append, drop-append, arith, append_assoc,
}
use notation_go.Encoding.Reader.{Reader, ok}
use notation_go.Encoding.Reader.Laws.{
  available, advance, advance-advance, available-advance, read_full-ok,
}
use notation_go.Encoding.Lengths.{encode_length}
use notation_go.Encoding.Lengths.RoundTrip.{decode_length-encode_length}
use notation_go.Encoding.Lengths.ReadBack.{IsIdentifier, decode_identifier-append}
use notation_go.Encoding.Values.{
  Value, Values, primitive, constructed, nil, cons, append, encode, encode_values, encoded_len,
}
use notation_go.Encoding.Decoding.{starts_primitive, read_content, decode_primitive}
use notation_go.Encoding.Decoding.Sizes.{length-parts, sizes}

-- A value with an identifier of the right kind, and the length of its content, below 2 ^ 32.
mutual
  pub data IsCanonical : Value → Type 0 where
    canonical_primitive :
        {identifier content : List ℕ}
        → IsIdentifier identifier
        → starts_primitive identifier ≡ true
        → length content < 4294967296
        → IsCanonical (primitive identifier content)
    canonical_constructed :
        {identifier : List ℕ} {n : ℕ} {members : Values}
        → IsIdentifier identifier
        → starts_primitive identifier ≡ false
        → length (encode_values members) ≡ n
        → n < 4294967296
        → AreCanonical members
        → IsCanonical (constructed identifier n members)

  pub data AreCanonical : Values → Type 0 where
    canonical_nil : AreCanonical nil
    canonical_cons :
        {v : Value} {vs : Values} → IsCanonical v → AreCanonical vs → AreCanonical (cons v vs)

-- The reader behind the bytes `xs`.
pub past :
    (r : Reader) (xs ys : List ℕ) → available r ≡ xs ++ ys → available (advance (length xs) r) ≡ ys
past r xs ys h = available-advance (length xs) r ∙ ap (drop (length xs)) h ∙ drop-append xs ys

pub read_content-append :
    (content rest : List ℕ) (r : Reader)
    → available r ≡ content ++ rest
    → read_content (length content) r ≡ ok (content, advance (length content) r)
unfolding read_content
read_content-append content rest r h =
    rw (read_full-ok (length content) r (omega (arith, ap length h, length-append content rest))) (
      ap (λ xs. ok (xs, advance (length content) r))
        (ap (take (length content)) h ∙ take-append content rest))

-- Where the identifier, the length and the content lie.
module _ (id l content rest : List ℕ) (r : Reader)
    (h : available r ≡ (id ++ (l ++ content)) ++ rest) where
  pub at_start : available r ≡ id ++ (l ++ (content ++ rest))
  at_start =
      h ∙ append_assoc id (l ++ content) rest ∙ ap (λ x. id ++ x) (append_assoc l content rest)

  pub after_identifier : available (advance (length id) r) ≡ l ++ (content ++ rest)
  after_identifier = past r id (l ++ (content ++ rest)) at_start

  pub after_length : available (advance (length l) (advance (length id) r)) ≡ content ++ rest
  after_length = past (advance (length id) r) l (content ++ rest) after_identifier

  pub after_all :
      advance (length content) (advance (length l) (advance (length id) r))
      ≡ advance (length (id ++ (l ++ content))) r
  after_all =
      ap (advance (length content)) (advance-advance (length id) (length l) r)
      ∙ advance-advance (length id + length l) (length content) r
      ∙ ap (λ k. advance k r) (sym (length-parts id l content))

pub decode_primitive-encode :
    (fuel : ℕ) (id content rest : List ℕ) (r : Reader)
    → IsIdentifier id
    → starts_primitive id ≡ true
    → length content < 4294967296
    → length id ≤ suc fuel
    → available r ≡ encode (primitive id content) ++ rest
    → decode_primitive fuel r
      ≡ ok (primitive id content, advance (length (encode (primitive id content))) r)
unfolding decode_primitive encode
decode_primitive-encode fuel id content rest r hid kind small enough h =
    let l = encode_length (length content) in
    rw
      (
        decode_identifier-append fuel id (l ++ (content ++ rest)) r hid enough
            (at_start id l content rest r h),
        kind,
        decode_length-encode_length (length content) (content ++ rest) (advance (length id) r) small
            (after_identifier id l content rest r h),
        read_content-append content rest (advance (length l) (advance (length id) r))
            (after_length id l content rest r h),
      )
      (ap (λ m. ok (primitive id content, m)) (after_all id l content rest r h))

-- `EncodedLen` of such a value.
pub encoded_len-encode : (v : Value) → IsCanonical v → encoded_len v ≡ length (encode v)
unfolding encoded_len encode
encoded_len-encode v (canonical_primitive {identifier} {content} hid kind small) =
    sizes identifier content (length content) refl small
encoded_len-encode v (canonical_constructed {identifier} {n} {members} hid kind same small all) =
    sizes identifier (encode_values members) n same small

abbrev pub join : Values → Values → Values
join nil vs = vs
join (cons w ws) vs = cons w (join ws vs)

pub join-append :
    (acc : Values) (v : Value) (vs : Values) → join (append acc v) vs ≡ join acc (cons v vs)
unfolding append
join-append nil v vs = refl
join-append (cons w acc) v vs = ap (cons w) (join-append acc v vs)

pub join_nil : (acc : Values) → join acc nil ≡ acc
join_nil nil = refl
join_nil (cons w acc) = ap (cons w) (join_nil acc)
