-- ===== src/Signing/Signer/Safe.antt =====
-- `Sign` does not panic.
use notation_go.Prelude.{
  ℕ, String, ok, ap, map_err, map_err-eq-ok, ◌≡◌, ◌≢◌, List, panic, fail_if-eq-ok, split,
  map_err-ne-panic, or_err-ne-panic, fail_if-ne-panic,
}
use notation_go.Verification.Names.{StringMap}
use notation_go.Signing.Algorithms.{jws}
use notation_go.Signing.Algorithms.Laws.{jws-IsElem}
use notation_go.Signing.Metadata.{has_capability}
use notation_go.Signing.Messages.{
  Bytes, capability_signature_generator, capability_envelope_generator, Descriptor, Request, IsNil,
  Response, GenerateSignatureResponse, GenerateEnvelopeResponse, DescribeKeyResponse,
}
use notation_go.Signing.Library.{Library}
use notation_go.Signing.Timestamps.Panics.{IsLinked}
use notation_go.Signing.Calls.{
  Call, follow, Safe-step, Safe, safe_ok, safe_err, Safe-lift, Safe-follow, Safe-end, Safe-if,
  Safe-ne-panic,
}
use notation_go.Signing.Signer.{SignOptions, SignError, marshal_failed}
use notation_go.Signing.Signer.Exchange.{
  get_metadata, describe_key, jws_envelope, ask, request_signature, generate_signature,
  generate_signature_envelope, sign,
}
use notation_go.Signing.Signer.Panics.{
  check_leaf-ne-panic, check_envelope-ne-panic, as_metadata-ne-panic, as_key-ne-panic,
  as_signature-ne-panic, as_envelope-ne-panic, validate-ne-panic, envelope_of-ne-panic,
  stamp-ne-panic, not_empty, IsRegistered, HasAnswers,
}

module _ {W : Type 0} (lib : Library) (registered : IsRegistered lib)
    (run : Request → Call W String Response)
    (steady : (req : Request) → (w : W) → (run req w).0 ≢ panic)
    (pointed : (req : Request) → (w : W) → (out : Response) → (run req w).0 ≡ ok out → ¬ IsNil out)
    (linked : IsLinked lib.stamping) where
  -- A run of the plugin, and what follows it.
  ask-Safe :
      {B : Type 0} (req : Request) (f : String → SignError) (w : W)
      (k : Response → Call W SignError B)
      → ((out : Response) → ¬ IsNil out → (w' : W) → Safe (k out w'))
      → Safe (follow (ask lib run req f w) k)
  unfolding ask
  ask-Safe req f w k h =
      Safe-step k (map_err f ((run req w).0), (run req w).1) (map_err-ne-panic f _ (steady req w))
        (λ out w' e.
          h out (pointed req w out (map_err-eq-ok f ((run req w).0) (ap (λ x. x.0) e))) w')

  get_metadata-Safe : (w : W) → Safe (get_metadata lib run w)
  unfolding get_metadata
  get_metadata-Safe w = ask-Safe _ _ w _ (λ out n w₁.
      Safe-lift _ _ (as_metadata-ne-panic out n) (λ metadata _.
        Safe-lift _ _ (map_err-ne-panic _ _ (validate-ne-panic metadata)) (λ _ _. safe_ok)))

  jws_envelope-Safe :
      (opts : SignOptions) (compact : String) (chain : List Bytes) (w : W)
      → HasAnswers opts
      → Safe (jws_envelope lib run opts compact chain w)
  unfolding jws_envelope
  jws_envelope-Safe opts compact chain w answers =
      Safe-lift _ _ (envelope_of-ne-panic (split b'.' compact) chain) (λ parts _.
        Safe-lift _ _ (stamp-ne-panic lib opts parts linked answers)
          (λ stamped _. Safe-end _ (or_err-ne-panic (lib.marshal_envelope stamped) marshal_failed)))

  request_signature-Safe :
      (key_id : String) (opts : SignOptions) (config : StringMap) (key_spec : String)
      (payload : Bytes) (w : W)
      → HasAnswers opts
      → Safe (request_signature lib run key_id opts config key_spec payload w)
  unfolding request_signature
  request_signature-Safe key_id opts config key_spec payload w answers =
      ask-Safe _ _ w _ (λ out n w₁.
        Safe-lift _ _ (as_signature-ne-panic out n) (λ (resp : GenerateSignatureResponse) _.
          Safe-lift _ _ (fail_if-ne-panic _ _) (λ _ _.
            Safe-lift _ _ (fail_if-ne-panic _ _) (λ _ known.
              Safe-lift _ _ (fail_if-ne-panic _ _) (λ _ many.
                Safe-lift _ _
                  (check_leaf-ne-panic lib registered (jws resp.signing_algorithm) payload
                    (lib.encode_base64 resp.signature) resp.certificate_chain
                    (jws-IsElem resp.signing_algorithm (not_empty _ (fail_if-eq-ok _ _ known)))
                    (fail_if-eq-ok _ _ many))
                  (λ leaf _. jws_envelope-Safe opts _ resp.certificate_chain w₁ answers))))))

  generate_signature-Safe :
      (key_id : String) (plugin_config : StringMap) (desc : Descriptor) (opts : SignOptions)
      (now : ℕ) (w : W)
      → HasAnswers opts
      → Safe (generate_signature lib run key_id plugin_config desc opts now w)
  unfolding generate_signature describe_key
  generate_signature-Safe key_id plugin_config desc opts now w answers =
      Safe-follow _ (ask-Safe _ _ w _ (λ out n w₁. Safe-end _ (as_key-ne-panic out n)))
        (λ (key : DescribeKeyResponse) w₁. Safe-lift _ _ (fail_if-ne-panic _ _) (λ _ _.
          Safe-lift _ _ (fail_if-ne-panic _ _) (λ _ _. Safe-lift _ _ (fail_if-ne-panic _ _) (λ _ _.
            Safe-lift _ _ (or_err-ne-panic _ _) (λ payload _.
              request_signature-Safe key_id opts _ key.key_spec payload w₁ answers)))))

  generate_signature_envelope-Safe :
      (key_id : String) (plugin_config : StringMap) (desc : Descriptor) (opts : SignOptions) (w : W)
      → Safe (generate_signature_envelope lib run key_id plugin_config desc opts w)
  unfolding generate_signature_envelope
  generate_signature_envelope-Safe key_id plugin_config desc opts w =
      Safe-lift _ _ (or_err-ne-panic _ _) (λ raw_desc _. ask-Safe _ _ w _ (λ out n w₁.
        Safe-lift _ _ (as_envelope-ne-panic out n) (λ (resp : GenerateEnvelopeResponse) _.
          Safe-lift _ _ (fail_if-ne-panic _ _) (λ _ _.
            Safe-lift _ _ (check_envelope-ne-panic lib registered desc resp.signature_envelope)
              (λ _ _. safe_ok)))))

  -- `Sign` does not panic, if no run of the plugin panics or returns a nil pointer, the JWT library has
  -- a method for each of the six algorithms, SHA-256 is linked, and the authority of the options, if
  -- there is one, does not panic and answers no nil pointer.
  pub sign-ne-panic :
      (key_id : String) (plugin_config : StringMap) (desc : Descriptor) (opts : SignOptions)
      (now : ℕ) (w : W)
      → HasAnswers opts
      → (sign lib run key_id plugin_config desc opts now w).0 ≢ panic
  unfolding sign
  sign-ne-panic key_id plugin_config desc opts now w answers = Safe-ne-panic (
      Safe-follow _ (get_metadata-Safe w) (λ metadata w₁.
        Safe-lift _ _ (fail_if-ne-panic _ _) (λ _ _.
          Safe-if (has_capability metadata capability_signature_generator) _ _
            (generate_signature-Safe key_id plugin_config desc opts now w₁ answers)
            (Safe-if (has_capability metadata capability_envelope_generator) _ _
              (generate_signature_envelope-Safe key_id plugin_config desc opts w₁) safe_err))))
