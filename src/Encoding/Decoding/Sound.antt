-- ===== src/Encoding/Decoding/Sound.antt =====
-- `Decode` on any input.
use notation_go.Prelude.{
  ℕ, zero, suc, ◌+◌, ◌*◌, ◌≤◌, ◌≡◌, ◌≢◌, refl, sym, ap, ◌∙◌, List, [], length, length-take, All,
  arith, List-cases, inl, inr,
}
use notation_go.Encoding.Reader.{
  Reader, source, ReadError, Result, ok, err, eof, out_of_fuel, ◌>>=◌, limit, wrapped,
}
use notation_go.Encoding.Reader.Laws.{
  available, advance, advance_zero, advance-advance, read_byte-nil, read_byte-cons,
  unread_byte-advance,
}
use notation_go.Encoding.Takes.{room, room-advance, Takes, took, failed, Takes-bind, Takes-if}
use notation_go.Encoding.Lengths.{is_primitive}
use notation_go.Encoding.Lengths.RoundTrip.{IsByte}
use notation_go.Encoding.Lengths.Sound.{IsLength, decode_length-Takes, All-take}
use notation_go.Encoding.Lengths.Identifiers.{decode_identifier-Takes}
use notation_go.Encoding.Values.{
  Value, Values, constructed, nil, append, encode, encode_values, encoded_len,
}
use notation_go.Encoding.Decoding.{
  starts_primitive, decode_primitive, decode, decode_constructed, decode_members, fuel_for,
  convert_to_der,
}
use notation_go.Encoding.Decoding.Sizes.{
  IsDecoded, IsBytes-advance, read_content-Takes, primitive-IsDecoded, constructed-IsDecoded,
  length-encode_values-append,
}

-- What the loop over the members does: it adds values, whose encodings are as long as it counts and
-- not longer than what it takes.
data Collects (r : Reader) (n : ℕ) : Result (Values × ℕ × Reader) → Type 0 where
  collected :
      {members : Values} {n' : ℕ} {r' : Reader} (k : ℕ)
      → r' ≡ advance k r
      → k ≤ room r
      → n' ≤ n + k
      → length (encode_values members) ≡ n'
      → Collects r n (ok (members, n', r'))
  refused : {e : ReadError} → e ≢ out_of_fuel → e ≢ eof → Collects r n (err e)

Collects-more :
    {r r' : Reader} {n m k : ℕ} {x : Result (Values × ℕ × Reader)}
    → r' ≡ advance k r
    → k ≤ room r
    → m ≤ n + k
    → Collects r' m x
    → Collects r n x
Collects-more {r = r} {k = k} e h low (collected j e' h' le same) =
    collected (k + j) (e' ∙ ap (advance j) e ∙ advance-advance k j r)
      (omega (arith, room-advance k r, ap room e)) (omega arith) same
Collects-more e h low (refused a b) = refused a b

decode_primitive-Takes :
    (fuel : ℕ) (r : Reader)
    → room r ≤ fuel
    → All IsByte (available r)
    → Takes IsDecoded (available r ≡ []) r (decode_primitive fuel r)
unfolding decode_primitive
decode_primitive-Takes fuel r h bytes =
    Takes-bind _ (decode_identifier-Takes fuel r h) (λ id r₁ j le₁ e₁ (low, hid).
      Takes-if (starts_primitive id)
        (λ _.
          Takes-bind _ (decode_length-Takes r₁ (IsBytes-advance j r r₁ e₁ bytes))
            (λ n r₂ k le₂ e₂ len.
              Takes-bind _ (read_content-Takes n r₂) (λ content r₃ l le₃ e₃ (hn, hl).
                took 0 (sym (advance_zero r₃)) (omega arith)
                  (primitive-IsDecoded id content n j k (l + 0) low hid len hn (omega arith)))))
        (λ _. failed (λ z. cc) (λ z. cc)))

-- What holds of the three functions, with enough fuel.
abbrev Decodes : ℕ → Type 0
Decodes fuel =
    (r : Reader)
    → 3 * room r + 1 ≤ fuel
    → All IsByte (available r)
    → Takes IsDecoded (available r ≡ []) r (decode fuel r)

abbrev Constructs : ℕ → Type 0
Constructs fuel =
    (r : Reader)
    → 1 ≤ room r
    → 3 * room r ≤ fuel
    → All IsByte (available r)
    → Takes IsDecoded (available r ≡ []) r (decode_constructed fuel r)

abbrev Gathers : ℕ → Type 0
Gathers fuel =
    (r : Reader) (vs : Values) (n : ℕ)
    → 3 * room r + 2 ≤ fuel
    → All IsByte (available r)
    → length (encode_values vs) ≡ n
    → Collects r n (decode_members fuel r vs n)

decode-step : (fuel : ℕ) → Constructs fuel → Decodes (suc fuel)
unfolding decode
decode-step fuel constructs r h bytes = elim (List-cases (available r)) [
  | inl e ↦ rw (read_byte-nil r e) (failed (λ z. cc) (λ _. e))
  | inr (b, bs, e) ↦
      rw (read_byte-cons r b bs e, unread_byte-advance r b bs e)
        (Takes-if (is_primitive b) (λ _. decode_primitive-Takes fuel r (omega arith) bytes)
          (λ _. constructs r (omega (arith, ap length e)) (omega arith) bytes))
]

finish :
    (id : List ℕ) (expected j k : ℕ) (r : Reader) (x : Result (Values × ℕ × Reader))
    → 1 ≤ j
    → length id ≡ j
    → IsLength expected k
    → Collects (limit expected r) 0 x
    → Takes
        (λ v l. IsDecoded v (j + (k + l)))
        ⊥
        r
        (x >>= λ (members, n, r₃). ok (constructed id n members, wrapped r₃))
finish id expected j k r x low hid len (collected {members} {n'} l e le cap same) =
    took l (ap wrapped e) (omega (arith, length-take expected (available r))) (
      constructed-IsDecoded id n' expected members j k l low hid len same (omega arith)
        (omega (arith, length-take expected (available r))))
finish id expected j k r x low hid len (refused a b) = failed a (λ z. absurd (b z))

encode_values_nil : length (encode_values nil) ≡ 0
unfolding encode
encode_values_nil = refl

constructed-step : (fuel : ℕ) → Gathers fuel → Constructs (suc fuel)
unfolding decode_constructed
constructed-step fuel gathers r some_byte h bytes =
    Takes-bind _ (decode_identifier-Takes fuel r (omega arith)) (λ id r₁ j le₁ e₁ (low, hid).
      Takes-if (starts_primitive id) (λ _. failed (λ z. cc) (λ z. cc))
        (λ _.
          Takes-bind _ (decode_length-Takes r₁ (IsBytes-advance j r r₁ e₁ bytes))
            (λ expected r₂ k le₂ e₂ len. finish id expected j k r₂ _ low hid len (
              gathers (limit expected r₂) nil 0
                (omega (
                  arith,
                  room-advance j r,
                  room-advance k r₁,
                  ap room e₁,
                  ap room e₂,
                  length-take expected (available r₂),
                  len,
                ))
                (All-take expected (available r₂)
                  (IsBytes-advance k r₁ r₂ e₂ (IsBytes-advance j r r₁ e₁ bytes)))
                encode_values_nil))))

gather :
    (fuel : ℕ) (r : Reader) (vs : Values) (n : ℕ) (x : Result (Value × Reader))
    → Gathers fuel
    → 3 * room r + 2 ≤ suc fuel
    → All IsByte (available r)
    → length (encode_values vs) ≡ n
    → Takes IsDecoded (available r ≡ []) r x
    → Collects r n (elim x [
      | ok (v, r') ↦ decode_members fuel r' (append vs v) (n + encoded_len v)
      | err eof ↦ ok (vs, n, r)
      | err e ↦ err e
    ])
gather fuel r vs n x gathers h bytes same (took {a} {r'} k e le (k1, short, len)) =
    Collects-more e le (omega arith) (
      gathers r' (append vs a) (n + encoded_len a) (omega (arith, room-advance k r, ap room e))
        (IsBytes-advance k r r' e bytes) (omega (arith, length-encode_values-append vs a)))
gather fuel r vs n x gathers h bytes same (failed {e = eof} a b) =
    collected 0 (sym (advance_zero r)) (omega arith) (omega arith) same
gather fuel r vs n x gathers h bytes same (failed {e = out_of_fuel} a b) = absurd (a refl)
gather fuel r vs n x gathers h bytes same (failed {e = _} a b) = refused (λ z. cc) (λ z. cc)

members-step : (fuel : ℕ) → Decodes fuel → Gathers fuel → Gathers (suc fuel)
unfolding decode_members
members-step fuel decodes gathers r vs n h bytes same =
    gather fuel r vs n (decode fuel r) gathers h bytes same (decodes r (omega arith) bytes)

decoding : (fuel : ℕ) → Decodes fuel × (Constructs fuel × Gathers fuel)
decoding zero = (
  λ r h bytes. absurd (omega arith),
  (λ r low h bytes. absurd (omega arith), λ r vs n h bytes same. absurd (omega arith)),
)
decoding (suc fuel) =
    let (decodes, (constructs, gathers)) = decoding fuel in
    (
      decode-step fuel constructs,
      (constructed-step fuel gathers, members-step fuel decodes gathers),
    )

-- With three calls for each byte that can be read, and one more, `Decode` does not run out of fuel. It
-- takes at least one byte, and the value in DER is as long as `EncodedLen` says, and not longer than
-- what was taken; or it fails, with `io.EOF` only where there is no byte at all.
pub decode-Takes :
    (fuel : ℕ) (r : Reader)
    → 3 * room r + 1 ≤ fuel
    → All IsByte (available r)
    → Takes IsDecoded (available r ≡ []) r (decode fuel r)
decode-Takes fuel r h bytes = (decoding fuel).0 r h bytes

-- What `ConvertToDER` may answer.
abbrev pub IsShortened : List ℕ → Result (List ℕ) → Type 0
IsShortened ber (ok der) = length der ≤ length ber
IsShortened ber (err e) = e ≢ out_of_fuel

shortened :
    (ber : List ℕ) (x : Result (Value × Reader))
    → Takes IsDecoded (ber ≡ []) (source [] ber) x
    → IsShortened ber (x >>= λ (v, _). ok (encode v))
shortened ber x (took k e le (k1, short, len)) = omega arith
shortened ber x (failed a b) = a

-- `ConvertToDER` ends within its fuel on any bytes, and what it returns is not longer than its input.
pub convert_to_der-IsShortened :
    (ber : List ℕ) → All IsByte ber → IsShortened ber (convert_to_der ber)
unfolding convert_to_der
convert_to_der-IsShortened ber bytes =
    shortened ber (decode (fuel_for ber) (source [] ber))
      (decode-Takes (fuel_for ber) (source [] ber) (omega arith) bytes)
