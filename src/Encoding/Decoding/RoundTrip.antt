-- ===== src/Encoding/Decoding/RoundTrip.antt =====
-- `Decode` on what `Encode` wrote.
use notation_go.Prelude.{
  Bool, ℕ, zero, suc, ◌+◌, ◌*◌, ◌≤◌, ◌<◌, ◌≡◌, refl, sym, ap, ◌∙◌, true, false, List, [], ◌∷◌, ◌++◌,
  length, length-append, take, take-append, arith, append-nil,
}
use notation_go.Encoding.Reader.{Reader, source, limited, ok, err, eof}
use notation_go.Encoding.Reader.Laws.{
  available, advance, advance_zero, advance-advance, read_byte-nil, read_byte-cons,
  unread_byte-advance,
}
use notation_go.Encoding.Lengths.{is_primitive, encode_length}
use notation_go.Encoding.Lengths.RoundTrip.{decode_length-encode_length}
use notation_go.Encoding.Lengths.ReadBack.{IsIdentifier, decode_identifier-append}
use notation_go.Encoding.Values.{
  Value, Values, primitive, constructed, nil, cons, append, encode, encode_values, encoded_len,
}
use notation_go.Encoding.Decoding.{
  starts_primitive, decode, decode_constructed, decode_members, convert_to_der, fuel_for,
}
use notation_go.Encoding.Decoding.Sizes.{length-parts}
use notation_go.Encoding.Decoding.Canonical.{
  at_start, after_identifier, after_length, after_all, canonical_primitive, canonical_constructed,
  canonical_nil, canonical_cons, past, decode_primitive-encode, encoded_len-encode, join,
  join-append, join_nil, IsCanonical, AreCanonical,
}

-- What is read back, with enough fuel.
abbrev ReadsBack : ℕ → Type 0
ReadsBack fuel =
    (v : Value) (rest : List ℕ) (r : Reader)
    → IsCanonical v
    → 3 * length (encode v) + 1 ≤ fuel
    → available r ≡ encode v ++ rest
    → decode fuel r ≡ ok (v, advance (length (encode v)) r)

abbrev ReadsMembers : ℕ → Type 0
ReadsMembers fuel =
    (vs acc : Values) (m : ℕ) (r : Reader)
    → AreCanonical vs
    → 3 * length (encode_values vs) + 2 ≤ fuel
    → available r ≡ encode_values vs
    → decode_members fuel r acc m
      ≡ ok (join acc vs, m + length (encode_values vs), advance (length (encode_values vs)) r)

decode-nil : (fuel : ℕ) (r : Reader) → 1 ≤ fuel → available r ≡ [] → decode fuel r ≡ err eof
unfolding decode
decode-nil zero r h e = absurd (omega arith)
decode-nil (suc fuel) r h e = rw (read_byte-nil r e) refl

add_zero : (m : ℕ) → m + 0 ≡ m
add_zero m = omega arith

zero_add : (m : ℕ) → 0 + m ≡ m
zero_add m = omega arith

add_add : (m j k : ℕ) → m + j + k ≡ m + (j + k)
add_add m j k = omega arith

identifier-cons : (id : List ℕ) → IsIdentifier id → (b : ℕ) × (tag : List ℕ) × (id ≡ b ∷ tag)
identifier-cons [] h = absurd h
identifier-cons (b ∷ tag) h = (b, tag, refl)

-- A value has at least one byte.
encode_some : (v : Value) → IsCanonical v → 1 ≤ length (encode v)
unfolding encode
encode_some v (canonical_primitive {identifier} {content} hid kind small) =
    let (b, tag, e) = identifier-cons identifier hid in
    omega (arith, ap length e, length-append identifier (encode_length (length content) ++ content))
encode_some v (canonical_constructed {identifier} {n} {members} hid kind same small all) =
    let (b, tag, e) = identifier-cons identifier hid in
    omega (arith, ap length e, length-append identifier (encode_length n ++ encode_values members))

members-step : (fuel : ℕ) → ReadsBack fuel → ReadsMembers fuel → ReadsMembers (suc fuel)
unfolding decode_members encode
members-step fuel reads members nil acc m r canonical_nil h e =
    rw (decode-nil fuel r (omega arith) e, join_nil acc, advance_zero r, add_zero m) refl
members-step fuel reads members (cons v vs) acc m r (canonical_cons cv cvs) h e =
    let both = length-append (encode v) (encode_values vs) in
    let first : 3 * length (encode v) + 1 ≤ fuel = omega arith in
    let others : 3 * length (encode_values vs) + 2 ≤ fuel = omega (arith, encode_some v cv) in
    rw
      (
        reads v (encode_values vs) r cv first e,
        members vs (append acc v) (m + encoded_len v) (advance (length (encode v)) r) cvs others
            (past r (encode v) (encode_values vs) e),
        encoded_len-encode v cv,
        join-append acc v vs,
        advance-advance (length (encode v)) (length (encode_values vs)) r,
        both,
        add_add m (length (encode v)) (length (encode_values vs)),
      )
      refl

take-content :
    (n : ℕ) (content rest : List ℕ) (r : Reader)
    → length content ≡ n
    → available r ≡ content ++ rest
    → take n (available r) ≡ content
take-content n content rest r same h =
    ap (λ k. take k (available r)) (sym same)
    ∙ ap (take (length content)) h
    ∙ take-append content rest

-- The same of a constructed value.
abbrev ReadsConstructed : ℕ → Type 0
ReadsConstructed fuel =
    (id : List ℕ) (n : ℕ) (vs : Values) (rest : List ℕ) (r : Reader)
    → IsIdentifier id
    → starts_primitive id ≡ false
    → length (encode_values vs) ≡ n
    → n < 4294967296
    → AreCanonical vs
    → 3 * length (encode (constructed id n vs)) ≤ fuel
    → available r ≡ encode (constructed id n vs) ++ rest
    → decode_constructed fuel r
      ≡ ok (constructed id n vs, advance (length (encode (constructed id n vs))) r)

constructed-step : (fuel : ℕ) → ReadsMembers fuel → ReadsConstructed (suc fuel)
unfolding decode_constructed encode
constructed-step fuel members id n vs rest r hid kind same small all enough h =
    let content = encode_values vs in
    let l = encode_length n in
    let r₂ = advance (length l) (advance (length id) r) in
    let (b, tag, some_byte) = identifier-cons id hid in
    let sizes_of = length-parts id l content in
    let here : length id ≤ suc fuel = omega arith in
    let inside : 3 * length content + 2 ≤ fuel = omega (arith, ap length some_byte) in
    rw
      (
        decode_identifier-append fuel id (l ++ (content ++ rest)) r hid here
            (at_start id l content rest r h),
        kind,
        decode_length-encode_length n (content ++ rest) (advance (length id) r) small
            (after_identifier id l content rest r h),
        members vs nil 0 (limited n r₂) all inside
            (take-content n content rest r₂ same (after_length id l content rest r h)),
        same,
      )
      (ap (λ k. ok (constructed id k vs, advance (length content) r₂)) (zero_add n)
        ∙ ap (λ r'. ok (constructed id n vs, r')) (after_all id l content rest r h))

is_kind : {k : Bool} (b : ℕ) (tag : List ℕ) → starts_primitive (b ∷ tag) ≡ k → is_primitive b ≡ k
unfolding starts_primitive
is_kind b tag h = h

primitive-step :
    (fuel : ℕ) (id content rest : List ℕ) (r : Reader)
    → IsIdentifier id
    → starts_primitive id ≡ true
    → length content < 4294967296
    → 3 * length (encode (primitive id content)) + 1 ≤ suc fuel
    → available r ≡ encode (primitive id content) ++ rest
    → decode (suc fuel) r
      ≡ ok (primitive id content, advance (length (encode (primitive id content))) r)
unfolding decode encode
primitive-step fuel [] content rest r hid kind small enough h = absurd hid
primitive-step fuel (b ∷ tag) content rest r hid kind small enough h =
    let tail = (tag ++ (encode_length (length content) ++ content)) ++ rest in
    let parts = length-parts (b ∷ tag) (encode_length (length content)) content in
    let here : length (b ∷ tag) ≤ suc fuel = omega arith in
    rw (read_byte-cons r b tail h, unread_byte-advance r b tail h, is_kind b tag kind)
      (decode_primitive-encode fuel (b ∷ tag) content rest r hid kind small here h)

constructed-reads :
    (fuel : ℕ) (id : List ℕ) (n : ℕ) (vs : Values) (rest : List ℕ) (r : Reader)
    → ReadsConstructed fuel
    → IsIdentifier id
    → starts_primitive id ≡ false
    → length (encode_values vs) ≡ n
    → n < 4294967296
    → AreCanonical vs
    → 3 * length (encode (constructed id n vs)) + 1 ≤ suc fuel
    → available r ≡ encode (constructed id n vs) ++ rest
    → decode (suc fuel) r
      ≡ ok (constructed id n vs, advance (length (encode (constructed id n vs))) r)
unfolding decode encode
constructed-reads fuel [] n vs rest r reads hid kind same small all enough h = absurd hid
constructed-reads fuel (b ∷ tag) n vs rest r reads hid kind same small all enough h =
    let tail = (tag ++ (encode_length n ++ encode_values vs)) ++ rest in
    rw (read_byte-cons r b tail h, unread_byte-advance r b tail h, is_kind b tag kind)
      (reads (b ∷ tag) n vs rest r hid kind same small all (omega arith) h)

decode-step : (fuel : ℕ) → ReadsConstructed fuel → ReadsBack (suc fuel)
decode-step fuel reads v rest r (canonical_primitive {identifier} {content} hid kind small) enough
      h =
    primitive-step fuel identifier content rest r hid kind small enough h
decode-step fuel reads v rest r
      (canonical_constructed {identifier} {n} {members} hid kind same small all) enough h =
    constructed-reads fuel identifier n members rest r reads hid kind same small all enough h

reading : (fuel : ℕ) → ReadsBack fuel × (ReadsConstructed fuel × ReadsMembers fuel)
reading zero = (
  λ v rest r c h. absurd (omega arith),
  (
    λ id n vs rest r hid kind same small all h. absurd (
        omega (
          arith,
          encode_some (constructed id n vs) (canonical_constructed hid kind same small all),
        )),
    λ vs acc m r c h. absurd (omega arith),
  ),
)
reading (suc fuel) =
    let (back, (made, members)) = reading fuel in
    (decode-step fuel made, (constructed-step fuel members, members-step fuel back members))

-- `Decode` reads back what `Encode` wrote of a canonical value, and takes nothing of what follows; its
-- fuel is enough if it has three calls for each byte of the value, and one more.
pub decode-encode :
    (fuel : ℕ) (v : Value) (rest : List ℕ) (r : Reader)
    → IsCanonical v
    → 3 * length (encode v) + 1 ≤ fuel
    → available r ≡ encode v ++ rest
    → decode fuel r ≡ ok (v, advance (length (encode v)) r)
decode-encode fuel = (reading fuel).0

-- `ConvertToDER` leaves what `Encode` wrote of a canonical value as it is.
pub convert_to_der-encode : (v : Value) → IsCanonical v → convert_to_der (encode v) ≡ ok (encode v)
unfolding convert_to_der
convert_to_der-encode v c =
    rw
      (decode-encode (fuel_for (encode v)) v [] (source [] (encode v)) c (omega arith)
        (sym (append-nil (encode v))))
      refl
