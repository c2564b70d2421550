-- ===== src/Signing/Signer/Panics.antt =====
-- The checks of the plugin signer do not panic.
use notation_go.Prelude.{
  Option-cases, inl, inr, Option-cases, map_err, ℕ, String, ◌≡◌, ◌≢◌, refl, false, not, Option,
  none, some, List, [], ◌∷◌, ok, panic, or_err, str_eq, str_append, ◌==◌, length, fail_if-eq-ok,
  IsElem, eq_iff, arith, >>=-eq-ok, >>=-ne-panic, map_err-ne-panic, or_err-ne-panic,
  fail_if-ne-panic,
}
use notation_go.Signing.Algorithms.{new_signature_algorithm_jws, PublicKey}
use notation_go.Signing.Algorithms.Laws.{jws_names, new_signature_algorithm_jws-IsElem}
use notation_go.Signing.Metadata.{Metadata, validate}
use notation_go.Signing.Certificates.{
  Certificate, Extension, code_signing, check_extensions, check_key, verify_cert_ext_key_usage,
}
use notation_go.Signing.Messages.{
  Bytes, Descriptor, Response, JwsEnvelope, IsNil, metadata_response, describe_key_response,
  generate_signature_response, generate_envelope_response, nil_metadata, nil_key, nil_signature,
  nil_envelope, other_response,
}
use notation_go.Signing.Library.{Library, SigningMethod}
use notation_go.Signing.Timestamps.{Timestamper, timestamp_signature}
use notation_go.Signing.Timestamps.Panics.{IsLinked, IsAnswering, timestamp_signature-ne-panic}
use notation_go.Signing.Signer.{
  stamp, timestamp_failed, SignOptions, bad_certificate, bad_usage, envelope_format, bad_header,
  bad_payload, subject_changed, unsupported_algorithm, decode_base64_url_json,
  descriptor_partial_equal, parse_cert_chain, first_cert, run_method, verify_jwt, check_leaf,
  has_format, check_envelope,
}
use notation_go.Signing.Signer.Exchange.{
  envelope_of, as_metadata, as_key, as_signature, as_envelope,
}

pub as_metadata-ne-panic : (out : Response) → ¬ IsNil out → as_metadata out ≢ panic
unfolding as_metadata
as_metadata-ne-panic (metadata_response m) h = λ z. cc z
as_metadata-ne-panic (describe_key_response m) h = λ z. cc z
as_metadata-ne-panic (generate_signature_response m) h = λ z. cc z
as_metadata-ne-panic (generate_envelope_response m) h = λ z. cc z
as_metadata-ne-panic nil_metadata h = absurd (h tt)
as_metadata-ne-panic nil_key h = λ z. cc z
as_metadata-ne-panic nil_signature h = λ z. cc z
as_metadata-ne-panic nil_envelope h = λ z. cc z
as_metadata-ne-panic other_response h = λ z. cc z

pub as_key-ne-panic : (out : Response) → ¬ IsNil out → as_key out ≢ panic
unfolding as_key
as_key-ne-panic (metadata_response m) h = λ z. cc z
as_key-ne-panic (describe_key_response m) h = λ z. cc z
as_key-ne-panic (generate_signature_response m) h = λ z. cc z
as_key-ne-panic (generate_envelope_response m) h = λ z. cc z
as_key-ne-panic nil_metadata h = λ z. cc z
as_key-ne-panic nil_key h = absurd (h tt)
as_key-ne-panic nil_signature h = λ z. cc z
as_key-ne-panic nil_envelope h = λ z. cc z
as_key-ne-panic other_response h = λ z. cc z

pub as_signature-ne-panic : (out : Response) → ¬ IsNil out → as_signature out ≢ panic
unfolding as_signature
as_signature-ne-panic (metadata_response m) h = λ z. cc z
as_signature-ne-panic (describe_key_response m) h = λ z. cc z
as_signature-ne-panic (generate_signature_response m) h = λ z. cc z
as_signature-ne-panic (generate_envelope_response m) h = λ z. cc z
as_signature-ne-panic nil_metadata h = λ z. cc z
as_signature-ne-panic nil_key h = λ z. cc z
as_signature-ne-panic nil_signature h = absurd (h tt)
as_signature-ne-panic nil_envelope h = λ z. cc z
as_signature-ne-panic other_response h = λ z. cc z

pub as_envelope-ne-panic : (out : Response) → ¬ IsNil out → as_envelope out ≢ panic
unfolding as_envelope
as_envelope-ne-panic (metadata_response m) h = λ z. cc z
as_envelope-ne-panic (describe_key_response m) h = λ z. cc z
as_envelope-ne-panic (generate_signature_response m) h = λ z. cc z
as_envelope-ne-panic (generate_envelope_response m) h = λ z. cc z
as_envelope-ne-panic nil_metadata h = λ z. cc z
as_envelope-ne-panic nil_key h = λ z. cc z
as_envelope-ne-panic nil_signature h = λ z. cc z
as_envelope-ne-panic nil_envelope h = absurd (h tt)
as_envelope-ne-panic other_response h = λ z. cc z

pub validate-ne-panic : (m : Metadata) → validate m ≢ panic
unfolding validate
validate-ne-panic m = ground arith

pub envelope_of-ne-panic : (l chain : List String) → envelope_of l chain ≢ panic
unfolding envelope_of
envelope_of-ne-panic l chain = ground arith

-- The authority of the options, if there is one, answers.
abbrev pub HasAnswers : SignOptions → Type 0
HasAnswers opts = (tsa : Timestamper) → opts.tsa ≡ some tsa → IsAnswering tsa

pub stamp-ne-panic :
    (lib : Library) (opts : SignOptions) (envelope : JwsEnvelope)
    → IsLinked lib.stamping
    → HasAnswers opts
    → stamp lib opts envelope ≢ panic
unfolding stamp
stamp-ne-panic lib opts envelope linked answers = elim (Option-cases (opts.tsa)) [
  | inl e ↦ rw (stamp, e) (λ z. cc z)
  | inr (tsa, e) ↦
      rw (stamp, e)
        (>>=-ne-panic
          (map_err timestamp_failed
            (timestamp_signature lib.stamping lib envelope.signature tsa opts.tsa_roots))
          _
          (map_err-ne-panic _ _ (
            timestamp_signature-ne-panic lib.stamping linked lib envelope.signature tsa
              opts.tsa_roots (answers tsa e)))
          (λ token _ z. cc z))
]

pub not_empty : (s : String) → str_eq s "" ≡ false → s ≢ ""
not_empty s h = ground (arith, eq_iff s "")

pub check_extensions-ne-panic : (l : List Extension) → check_extensions l ≢ panic
unfolding check_extensions
check_extensions-ne-panic [] = λ z. cc z
check_extensions-ne-panic (e ∷ l) = ground (arith, check_extensions-ne-panic l)

pub check_key-ne-panic : (k : PublicKey) → check_key k ≢ panic
unfolding check_key
check_key-ne-panic k = ground arith

pub verify_cert_ext_key_usage-ne-panic :
    (cert : Certificate) (usage : ℕ) → verify_cert_ext_key_usage cert usage ≢ panic
unfolding verify_cert_ext_key_usage
verify_cert_ext_key_usage-ne-panic cert usage =
    ground (arith, check_extensions-ne-panic cert.extensions, check_key-ne-panic cert.public_key)

pub parse_cert_chain-ne-panic : (lib : Library) (l : List Bytes) → parse_cert_chain lib l ≢ panic
unfolding parse_cert_chain
parse_cert_chain-ne-panic lib [] = λ z. cc z
parse_cert_chain-ne-panic lib (c ∷ l) =
    >>=-ne-panic (or_err (lib.parse_certificate c) bad_certificate) _ (or_err-ne-panic _ _)
      (λ cert _.
        >>=-ne-panic (parse_cert_chain lib l) _ (parse_cert_chain-ne-panic lib l)
          (λ certs _ z. cc z))

-- A chain that is not empty has a first certificate.
pub first_cert-ne-panic :
    (lib : Library) (l : List Bytes) (certs : List Certificate)
    → length l == 0 ≡ false
    → parse_cert_chain lib l ≡ ok certs
    → first_cert certs ≢ panic
unfolding first_cert parse_cert_chain
first_cert-ne-panic lib [] certs n h = absurd (ground arith)
first_cert-ne-panic lib (c ∷ l) [] n h =
    let (cert, _, h₁) = >>=-eq-ok (or_err (lib.parse_certificate c) bad_certificate) _ h in
    let (certs, _, h₂) = >>=-eq-ok (parse_cert_chain lib l) _ h₁ in absurd (cc h₂)
first_cert-ne-panic lib (c ∷ l) (cert ∷ certs) n h = λ z. cc z

pub run_method-ne-panic :
    (o : Option SigningMethod) (payload sig : String) (cert : Certificate)
    → o ≢ none
    → run_method o payload sig cert ≢ panic
unfolding run_method
run_method-ne-panic none payload sig cert n = absurd (n refl)
run_method-ne-panic (some method) payload sig cert n = fail_if-ne-panic _ _

-- The algorithms of the envelopes have methods.
abbrev pub IsRegistered : Library → Type 0
IsRegistered lib = (alg : String) → IsElem alg jws_names → lib.get_signing_method alg ≢ none

module _ (lib : Library) (registered : IsRegistered lib) where
  pub check_leaf-ne-panic :
      (alg payload sig : String) (chain : List Bytes)
      → IsElem alg jws_names
      → length chain == 0 ≡ false
      → check_leaf lib alg payload sig chain ≢ panic
  unfolding check_leaf verify_jwt
  check_leaf-ne-panic alg payload sig chain known n =
      >>=-ne-panic (parse_cert_chain lib chain) _ (parse_cert_chain-ne-panic lib chain) (λ certs e.
        >>=-ne-panic (first_cert certs) _ (first_cert-ne-panic lib chain certs n e) (λ leaf _.
          >>=-ne-panic (verify_jwt lib alg payload sig leaf) _
            (run_method-ne-panic (lib.get_signing_method alg) payload sig leaf
              (registered alg known))
            (λ _ _.
              >>=-ne-panic _ _
                (map_err-ne-panic bad_usage (verify_cert_ext_key_usage leaf code_signing)
                  (verify_cert_ext_key_usage-ne-panic leaf code_signing))
                (λ _ _ z. cc z))))

  has_format-chain :
      (envelope : JwsEnvelope)
      → not (has_format envelope) ≡ false
      → length (envelope.header.cert_chain) == 0 ≡ false
  unfolding has_format
  has_format-chain envelope h = ground arith

  pub check_envelope-ne-panic :
      (desc : Descriptor) (content : Bytes) → check_envelope lib desc content ≢ panic
  unfolding check_envelope
  check_envelope-ne-panic desc content =
      >>=-ne-panic _ _ (or_err-ne-panic (lib.unmarshal_envelope content) envelope_format)
        (λ envelope _.
          >>=-ne-panic _ _ (fail_if-ne-panic (not (has_format envelope)) envelope_format)
            (λ _ format.
              >>=-ne-panic _ _
                (or_err-ne-panic
                  (decode_base64_url_json lib lib.unmarshal_header envelope.protected) bad_header)
                (λ protected _.
                  >>=-ne-panic _ _
                    (fail_if-ne-panic (str_eq (new_signature_algorithm_jws protected.algorithm) "")
                      (unsupported_algorithm protected.algorithm))
                    (λ _ known.
                      >>=-ne-panic _ _
                        (or_err-ne-panic
                          (decode_base64_url_json lib lib.unmarshal_payload envelope.payload)
                          bad_payload)
                        (λ payload _.
                          >>=-ne-panic _ _
                            (fail_if-ne-panic (not (descriptor_partial_equal desc payload.subject))
                              subject_changed)
                            (λ _ _.
                              >>=-ne-panic _ _
                                (check_leaf-ne-panic protected.algorithm
                                  (str_append envelope.protected (str_append "." envelope.payload))
                                  envelope.signature envelope.header.cert_chain
                                  (new_signature_algorithm_jws-IsElem protected.algorithm
                                    (not_empty _ (fail_if-eq-ok _ _ known)))
                                  (has_format-chain envelope (fail_if-eq-ok _ _ format)))
                                (λ _ _ z. cc z)))))))
