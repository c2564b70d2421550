-- ===== src/Plugins/Signs.antt =====
-- The signer of signature/jws over a runner whose answers have the right types: it never fails for the
-- type of an answer.
pub mod Settled
use notation_go.Prelude.{
  inl, inr, arith, split, subst, sym, ap, map_err-eq-ok, Option-cases, ℕ, String, Bool, true, false,
  not, Option, none, some, List, [], ◌∷◌, Outcome, ok, err, panic, ◌>>=◌, ◌>>◌, map_err, or_err,
  fail_if, str_eq, str_append, if◌then◌else◌, ◌≡◌, refl,
}
use notation_go.Verification.Names.{StringMap}
use notation_go.Signing.Messages.{
  Bytes, Descriptor, Request, Response, GenerateSignatureResponse, DescribeKeyResponse,
  GenerateEnvelopeResponse, get_metadata_request, describe_key_request, generate_signature_request,
  JwsEnvelope, JwsProtectedHeader, JwsPayload, DescribeKeyRequest, GenerateSignatureRequest,
  GenerateEnvelopeRequest, generate_envelope_request, contract_version, media_type_payload,
  media_type_jws_envelope, capability_signature_generator, capability_envelope_generator,
}
use notation_go.Signing.Algorithms.{new_signature_algorithm_jws}
use notation_go.Signing.Metadata.{Metadata, validate, has_capability}
use notation_go.Signing.Certificates.{Certificate, code_signing, verify_cert_ext_key_usage}
use notation_go.Signing.Library.{SigningMethod, Library}
use notation_go.Signing.Timestamps.{Timestamper, timestamp_signature}
use notation_go.Signing.Calls.{Call, follow, lift}
use notation_go.Signing.Signer.{
  stamp, SignOptions, SignError, wrong_metadata_type, wrong_describe_key_type, wrong_signature_type,
  wrong_envelope_type, parse_cert_chain, first_cert, run_method, verify_jwt, check_leaf,
  check_envelope, timestamp_failed, marshal_failed, bad_certificate, bad_usage, envelope_format,
  has_format, decode_base64_url_json, bad_header, bad_payload, unsupported_algorithm,
  subject_changed, descriptor_partial_equal,
}
use notation_go.Signing.Signer.Exchange.{
  envelope_of, as_metadata, as_key, as_signature, as_envelope, jws_envelope, ask, get_metadata,
  describe_key, request_signature, generate_signature, generate_signature_envelope, sign,
}
use notation_go.Plugins.{Commander, MessageJson, RunError}
use notation_go.Plugins.Running.{run_plugin, plugin_runner}
use notation_go.Plugins.Answers.{
  Answers, metadata_answer, key_answer, signature_answer, envelope_answer, run_plugin-Answers,
}
use notation_go.Plugins.Failures.{
  only_ok, only_err, only_panic, IsOther, Only, fail_if-Only, or_err-Only, map_err-Only, >>=-Only,
  follow-Only, if-Only, parse_cert_chain-Only, first_cert-Only, run_method-Only, check_leaf-Only,
  check_envelope-Only, envelope_of-Only,
}

stamp-Only :
    (lib : Library) (opts : SignOptions) (envelope : JwsEnvelope) → Only (stamp lib opts envelope)
unfolding stamp
stamp-Only lib opts envelope = elim (Option-cases (opts.tsa)) [
  | inl e ↦ rw (stamp, e) only_ok
  | inr (tsa, e) ↦
      rw (stamp, e)
        (>>=-Only
          (map_err timestamp_failed
            (timestamp_signature lib.stamping lib envelope.signature tsa opts.tsa_roots))
          _ (map_err-Only timestamp_failed _ (λ _. tt)) (λ token. only_ok))
]

as_metadata-Only : (out : Response) → Answers get_metadata_request out → Only (as_metadata out)
unfolding as_metadata
as_metadata-Only _ metadata_answer = only_ok

as_key-Only :
    (req : DescribeKeyRequest) (out : Response)
    → Answers (describe_key_request req) out
    → Only (as_key out)
unfolding as_key
as_key-Only req _ key_answer = only_ok

as_signature-Only :
    (req : GenerateSignatureRequest) (out : Response)
    → Answers (generate_signature_request req) out
    → Only (as_signature out)
unfolding as_signature
as_signature-Only req _ signature_answer = only_ok

as_envelope-Only :
    (req : GenerateEnvelopeRequest) (out : Response)
    → Answers (generate_envelope_request req) out
    → Only (as_envelope out)
unfolding as_envelope
as_envelope-Only req _ envelope_answer = only_ok

module _ {W : Type 0} (lib : Library) (run : Request → Call W String Response)
    (typed : (req : Request)
      → (w w' : W) → (out : Response) → run req w ≡ (ok out, w')
      → Answers req out) where
  ask-Only :
      (req : Request) (f : String → SignError) (w : W)
      → ((s : String) → IsOther (f s))
      → Only (ask lib run req f w).0
  unfolding ask
  ask-Only req f w i = map_err-Only f _ i

  ask-Answers :
      (req : Request) (f : String → SignError) (w w' : W) (out : Response)
      → ask lib run req f w ≡ (ok out, w')
      → Answers req out
  unfolding ask
  ask-Answers req f w w' out h =
      typed req w (run req w).1 out
        (λ i. (map_err-eq-ok f ((run req w).0) (ap (λ x. x.0) h) i, (run req w).1))

  get_metadata-Only : (w : W) → Only (get_metadata lib run w).0
  unfolding get_metadata
  get_metadata-Only w = follow-Only _ _ (ask-Only _ _ w (λ s. tt)) (λ (out : Response) w₁ h.
      follow-Only _ _ (as_metadata-Only out (ask-Answers _ _ w w₁ out h))
        (λ (m : Metadata) _ _. follow-Only _ _ (map_err-Only _ _ (λ e. tt)) (λ _ _ _. only_ok)))

  describe_key-Only :
      (key_id : String) (config : StringMap) (w : W) → Only (describe_key lib run key_id config w).0
  unfolding describe_key
  describe_key-Only key_id config w =
      follow-Only _ _ (ask-Only _ _ w (λ s. tt))
        (λ (out : Response) w₁ h. as_key-Only _ out (ask-Answers _ _ w w₁ out h))

  jws_envelope-Only :
      (opts : SignOptions) (compact : String) (chain : List Bytes) (w : W)
      → Only (jws_envelope lib run opts compact chain w).0
  unfolding jws_envelope
  jws_envelope-Only opts compact chain w =
      follow-Only _ _ (envelope_of-Only (split b'.' compact) chain) (λ (parts : JwsEnvelope) _ _.
        follow-Only _ _ (stamp-Only lib opts parts) (λ (stamped : JwsEnvelope) _ _.
          or_err-Only (lib.marshal_envelope stamped) marshal_failed tt))

  request_signature-Only :
      (key_id : String) (opts : SignOptions) (config : StringMap) (key_spec : String)
      (payload : Bytes) (w : W)
      → Only (request_signature lib run key_id opts config key_spec payload w).0
  unfolding request_signature
  request_signature-Only key_id opts config key_spec payload w =
      follow-Only _ _ (ask-Only _ _ w (λ s. tt)) (λ (out : Response) w₁ h.
        follow-Only _ _ (as_signature-Only _ out (ask-Answers _ _ w w₁ out h))
          (λ (resp : GenerateSignatureResponse) _ _. follow-Only _ _ (fail_if-Only _ _ tt) (λ _ _ _.
            follow-Only _ _ (fail_if-Only _ _ tt) (λ _ _ _.
              follow-Only _ _ (fail_if-Only _ _ tt) (λ _ _ _.
                follow-Only _ _ (check_leaf-Only lib _ _ _ _)
                  (λ _ w₂ _. jws_envelope-Only opts _ resp.certificate_chain w₂))))))

  generate_signature-Only :
      (key_id : String) (plugin_config : StringMap) (desc : Descriptor) (opts : SignOptions)
      (now : ℕ) (w : W)
      → Only (generate_signature lib run key_id plugin_config desc opts now w).0
  unfolding generate_signature
  generate_signature-Only key_id plugin_config desc opts now w =
      follow-Only _ _ (describe_key-Only key_id _ w) (λ (key : DescribeKeyResponse) _ _.
        follow-Only _ _ (fail_if-Only _ _ tt) (λ _ _ _.
          follow-Only _ _ (fail_if-Only _ _ tt) (λ _ _ _.
            follow-Only _ _ (fail_if-Only _ _ tt) (λ _ _ _.
              follow-Only _ _ (or_err-Only _ _ tt) (λ (payload : Bytes) w₁ _.
                request_signature-Only key_id opts _ key.key_spec payload w₁)))))

  generate_signature_envelope-Only :
      (key_id : String) (plugin_config : StringMap) (desc : Descriptor) (opts : SignOptions) (w : W)
      → Only (generate_signature_envelope lib run key_id plugin_config desc opts w).0
  unfolding generate_signature_envelope
  generate_signature_envelope-Only key_id plugin_config desc opts w =
      follow-Only _ _ (or_err-Only _ _ tt) (λ (raw : Bytes) w₁ _.
        follow-Only _ _ (ask-Only _ _ w₁ (λ s. tt)) (λ (out : Response) w₂ h.
          follow-Only _ _ (as_envelope-Only _ out (ask-Answers _ _ w₁ w₂ out h))
            (λ (resp : GenerateEnvelopeResponse) _ _.
              follow-Only _ _ (fail_if-Only _ _ tt) (λ _ _ _.
                follow-Only _ _ (check_envelope-Only lib desc resp.signature_envelope)
                  (λ _ _ _. only_ok)))))

  pub sign-Only :
      (key_id : String) (plugin_config : StringMap) (desc : Descriptor) (opts : SignOptions)
      (now : ℕ) (w : W)
      → Only (sign lib run key_id plugin_config desc opts now w).0
  unfolding sign
  sign-Only key_id plugin_config desc opts now w =
      follow-Only _ _ (get_metadata-Only w) (λ (m : Metadata) w₁ _.
        follow-Only _ _ (fail_if-Only _ _ tt) (λ _ w₂ _.
          if-Only (has_capability m capability_signature_generator) _ _
            (generate_signature-Only key_id plugin_config desc opts now w₂)
            (if-Only (has_capability m capability_envelope_generator) _ _
              (generate_signature_envelope-Only key_id plugin_config desc opts w₂) (only_err tt))))
