-- ===== src/Signing/Errors/Laws.antt =====
-- `Is` compares request errors, and what is written in JSON is read back.
use notation_go.Prelude.{
  [], ℕ, String, ◌≡◌, ◌≢◌, refl, true, false, Option, none, some, ok, str_eq, eq_iff, arith, ◌&&◌,
}
use notation_go.Signing.Errors.{
  GoError, RequestError, JsonErr, same_err, is, message_of, new_err, is_nil, marshal_json,
  unmarshal_json,
}

str_eq_self : (s : String) → str_eq s s ≡ true
str_eq_self s = (eq_iff s s).1 refl

-- An error that JSON can carry: a code, and no error or one whose text is not empty.
abbrev pub HasText : Option GoError → Type 0
HasText none = Unit
HasText (some e) = e.text ≢ ""

same_err-message :
    (fresh : ℕ) (e : Option GoError) → HasText e → same_err (new_err fresh (message_of e)) e ≡ true
unfolding same_err new_err message_of
same_err-message fresh none h = refl
same_err-message fresh (some e) h = ground (arith, eq_iff e.text "", str_eq_self e.text)

-- With a JSON library that reads back what it wrote, unless the metadata is an empty map (which it
-- omits), a request error with a code, whose error has a text if there is one and whose metadata is no
-- empty map, is read back as an error that `Is` takes for it, with the same metadata.
pub unmarshal_json-marshal_json :
    {Json : Type 0} (marshal : JsonErr → Json) (unmarshal : Json → Option JsonErr)
    (inverse : (j : JsonErr) → j.metadata ≢ some [] → unmarshal (marshal j) ≡ some j) (fresh : ℕ)
    (e : RequestError)
    → e.code ≢ ""
    → HasText e.err
    → e.metadata ≢ some []
    → (e' : RequestError) × (unmarshal_json marshal unmarshal fresh
          (marshal_json marshal unmarshal e)
        ≡ ok e')
      × (is e' (some e) ≡ true)
      × (e'.metadata ≡ e.metadata)
unfolding unmarshal_json marshal_json is
unmarshal_json-marshal_json marshal unmarshal inverse fresh e n h full =
    let written : JsonErr = record {
      code = e.code;
      message = message_of e.err;
      metadata = e.metadata;
    } in
    let complete : str_eq e.code "" && str_eq (message_of e.err) "" && is_nil e.metadata ≡ false =
      ground (arith, eq_iff e.code "") in
    (
      record { code = e.code; err = new_err fresh (message_of e.err); metadata = e.metadata },
      rw (inverse written full, complete) refl,
      rw (str_eq_self e.code) (same_err-message fresh e.err h),
      refl,
    )
