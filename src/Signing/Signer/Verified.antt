-- ===== src/Signing/Signer/Verified.antt =====
-- What `Sign` returns has been verified, whichever plugin made it.
use notation_go.Prelude.{
  ℕ, String, ◌≡◌, ◌≢◌, refl, ◌⊎◌, inl, inr, Bool, true, false, not, some, List, ok, or_err, fail_if,
  str_eq, str_append, eq_iff, arith, >>=-eq-ok, fail_if-eq-ok, or_err-eq-ok, IsElem, split,
}
use notation_go.Verification.Names.{StringMap}
use notation_go.Signing.Algorithms.{jws, new_signature_algorithm_jws}
use notation_go.Signing.Algorithms.Laws.{jws_names, jws-IsElem, new_signature_algorithm_jws-IsElem}
use notation_go.Signing.Metadata.{has_capability, supports_contract}
use notation_go.Signing.Config.{merge_config}
use notation_go.Signing.Messages.{
  Bytes, contract_version, capability_signature_generator, capability_envelope_generator,
  Descriptor, Request, Response, JwsEnvelope, JwsProtectedHeader, JwsPayload,
  GenerateSignatureResponse, GenerateEnvelopeResponse, DescribeKeyResponse,
}
use notation_go.Signing.Library.{Library}
use notation_go.Signing.Calls.{
  Call, Post, returned, failed, Post-if, Post-map, Post-lift, Post-follow, Post-end, Post-returned,
}
use notation_go.Signing.Signer.{
  stamp, SignOptions, marshal_failed, unsupported_contract, envelope_format, bad_header,
  bad_payload, unsupported_algorithm, subject_changed, check_leaf, has_format,
  decode_base64_url_json, check_envelope, descriptor_partial_equal,
}
use notation_go.Signing.Signer.Checks.{
  IsVouched, check_leaf-IsVouched, IsExtension, descriptor_partial_equal_iff,
}
use notation_go.Signing.Signer.Exchange.{
  get_metadata, envelope_of, jws_envelope, request_signature, generate_signature,
  generate_signature_envelope, sign,
}

-- An envelope that a plugin may return for `desc`.
pub record IsEnvelope (lib : Library) (desc : Descriptor) (content : Bytes) : Type 0 where
  pub envelope : JwsEnvelope
  pub parsed : lib.unmarshal_envelope content ≡ some envelope
  pub protected : JwsProtectedHeader
  pub header : decode_base64_url_json lib lib.unmarshal_header envelope.protected ≡ some protected
  pub supported : IsElem protected.algorithm jws_names
  pub payload : JwsPayload
  pub claims : decode_base64_url_json lib lib.unmarshal_payload envelope.payload ≡ some payload
  pub subject : IsExtension desc payload.subject
  pub vouched :
      IsVouched lib protected.algorithm
        (str_append envelope.protected (str_append "." envelope.payload))
        envelope.signature
        envelope.header.cert_chain

not_empty : (s : String) → str_eq s "" ≡ false → s ≢ ""
not_empty s h = ground (arith, eq_iff s "")

not-false : (b : Bool) → not b ≡ false → b ≡ true
not-false true h = refl
not-false false h = cc

-- The checks of `generateSignatureEnvelope` let only such envelopes through.
pub check_envelope-IsEnvelope :
    (lib : Library) (desc : Descriptor) (content : Bytes)
    → check_envelope lib desc content ≡ ok tt
    → IsEnvelope lib desc content
unfolding check_envelope
check_envelope-IsEnvelope lib desc content h =
    let (envelope, e₁, h₁) =
      >>=-eq-ok (or_err (lib.unmarshal_envelope content) envelope_format) _ h in
    let (_, e₂, h₂) = >>=-eq-ok (fail_if (not (has_format envelope)) envelope_format) _ h₁ in
    let (protected, e₃, h₃) =
      >>=-eq-ok
        (or_err (decode_base64_url_json lib lib.unmarshal_header envelope.protected) bad_header) _
        h₂ in
    let (_, e₄, h₄) =
      >>=-eq-ok
        (fail_if (str_eq (new_signature_algorithm_jws protected.algorithm) "")
          (unsupported_algorithm protected.algorithm))
        _ h₃ in
    let (payload, e₅, h₅) =
      >>=-eq-ok
        (or_err (decode_base64_url_json lib lib.unmarshal_payload envelope.payload) bad_payload) _
        h₄ in
    let (_, e₆, h₆) =
      >>=-eq-ok (fail_if (not (descriptor_partial_equal desc payload.subject)) subject_changed) _
        h₅ in
    let (leaf, e₇, _) =
      >>=-eq-ok
        (check_leaf lib protected.algorithm
          (str_append envelope.protected (str_append "." envelope.payload)) envelope.signature
          envelope.header.cert_chain)
        _ h₆ in
    record {
      envelope = envelope;
      parsed = or_err-eq-ok (lib.unmarshal_envelope content) envelope_format e₁;
      protected = protected;
      header =
          or_err-eq-ok (decode_base64_url_json lib lib.unmarshal_header envelope.protected)
            bad_header e₃;
      supported = new_signature_algorithm_jws-IsElem protected.algorithm (
          not_empty (new_signature_algorithm_jws protected.algorithm) (
            fail_if-eq-ok (str_eq (new_signature_algorithm_jws protected.algorithm) "")
              (unsupported_algorithm protected.algorithm) e₄));
      payload = payload;
      claims =
          or_err-eq-ok (decode_base64_url_json lib lib.unmarshal_payload envelope.payload)
            bad_payload e₅;
      subject = (descriptor_partial_equal_iff desc payload.subject).0 (
          not-false (descriptor_partial_equal desc payload.subject) (
            fail_if-eq-ok (not (descriptor_partial_equal desc payload.subject)) subject_changed
              e₆));
      vouched =
          check_leaf-IsVouched lib protected.algorithm
            (str_append envelope.protected (str_append "." envelope.payload)) envelope.signature
            envelope.header.cert_chain leaf e₇;
    }

-- An envelope that the signer put together itself, from a signature that it verified.
pub record IsAssembled (lib : Library) (opts : SignOptions) (content : Bytes) : Type 0 where
  pub alg : String
  pub payload : Bytes
  pub sig : String
  pub chain : List Bytes
  pub supported : IsElem alg jws_names
  pub vouched : IsVouched lib alg payload sig chain
  pub parts : JwsEnvelope
  pub split_up : envelope_of (split b'.' (str_append payload (str_append "." sig))) chain ≡ ok parts
  pub stamped : JwsEnvelope
  pub stamping : stamp lib opts parts ≡ ok stamped
  pub written : lib.marshal_envelope stamped ≡ some content

module _ {W : Type 0} (lib : Library) (run : Request → Call W String Response) where
  jws_envelope-IsAssembled :
      (opts : SignOptions) (alg payload sig : String) (chain : List Bytes)
      → IsElem alg jws_names
      → IsVouched lib alg payload sig chain
      → (w : W)
      → Post
          (IsAssembled lib opts)
          (jws_envelope lib run opts (str_append payload (str_append "." sig)) chain w)
  unfolding jws_envelope
  jws_envelope-IsAssembled opts alg payload sig chain known vouched w =
      Post-lift _ (envelope_of (split b'.' (str_append payload (str_append "." sig))) chain)
        (λ parts e₁. Post-lift _ (stamp lib opts parts) (λ stamped e₂.
          Post-end (or_err (lib.marshal_envelope stamped) marshal_failed) (λ content e₃. record {
            alg = alg;
            payload = payload;
            sig = sig;
            chain = chain;
            supported = known;
            vouched = vouched;
            parts = parts;
            split_up = e₁;
            stamped = stamped;
            stamping = e₂;
            written = or_err-eq-ok (lib.marshal_envelope stamped) marshal_failed e₃;
          })))

  request_signature-IsAssembled :
      (key_id : String) (opts : SignOptions) (config : StringMap) (key_spec : String)
      (payload : Bytes) (w : W)
      → Post
          (IsAssembled lib opts)
          (request_signature lib run key_id opts config key_spec payload w)
  unfolding request_signature
  request_signature-IsAssembled key_id opts config key_spec payload w = Post-follow _ _ (λ out w₁.
      Post-lift _ _ (λ (resp : GenerateSignatureResponse) e₁. Post-lift _ _ (λ _ e₂.
        Post-lift _ _ (λ _ e₃. Post-lift _ _ (λ _ e₄. Post-lift _ _ (λ leaf e₅.
          jws_envelope-IsAssembled opts (jws resp.signing_algorithm) payload
            (lib.encode_base64 resp.signature) resp.certificate_chain
            (jws-IsElem resp.signing_algorithm
              (not_empty (jws resp.signing_algorithm) (fail_if-eq-ok _ _ e₃)))
            (check_leaf-IsVouched lib (jws resp.signing_algorithm) payload
              (lib.encode_base64 resp.signature) resp.certificate_chain leaf e₅)
            w₁))))))

  generate_signature-IsAssembled :
      (key_id : String) (plugin_config : StringMap) (desc : Descriptor) (opts : SignOptions)
      (now : ℕ) (w : W)
      → Post
          (IsAssembled lib opts)
          (generate_signature lib run key_id plugin_config desc opts now w)
  unfolding generate_signature
  generate_signature-IsAssembled key_id plugin_config desc opts now w =
      Post-follow _ _ (λ (key : DescribeKeyResponse) w₁. Post-lift _ _ (λ _ e₁.
        Post-lift _ _ (λ _ e₂. Post-lift _ _ (λ _ e₃. Post-lift _ _ (λ (payload : Bytes) e₄.
          request_signature-IsAssembled key_id opts (merge_config plugin_config opts.plugin_config)
            key.key_spec payload w₁)))))

  generate_signature_envelope-IsEnvelope :
      (key_id : String) (plugin_config : StringMap) (desc : Descriptor) (opts : SignOptions) (w : W)
      → Post
          (IsEnvelope lib desc)
          (generate_signature_envelope lib run key_id plugin_config desc opts w)
  unfolding generate_signature_envelope
  generate_signature_envelope-IsEnvelope key_id plugin_config desc opts w =
      Post-lift _ _ (λ raw_desc e₁. Post-follow _ _ (λ out w₁.
        Post-lift _ _ (λ (resp : GenerateEnvelopeResponse) e₂. Post-lift _ _ (λ _ e₃.
          Post-lift _ _
            (λ _ e₄. returned (check_envelope-IsEnvelope lib desc resp.signature_envelope e₄))))))

  sign-Post :
      (key_id : String) (plugin_config : StringMap) (desc : Descriptor) (opts : SignOptions)
      (now : ℕ) (w : W)
      → Post
          (λ c. IsAssembled lib opts c ⊎ IsEnvelope lib desc c)
          (sign lib run key_id plugin_config desc opts now w)
  unfolding sign
  sign-Post key_id plugin_config desc opts now w =
      Post-follow _ (get_metadata lib run w) (λ metadata w₁.
        Post-lift _
          (fail_if (not (supports_contract metadata contract_version)) unsupported_contract)
          (λ _ e₁.
            Post-if (has_capability metadata capability_signature_generator) _ _
              (Post-map (generate_signature-IsAssembled key_id plugin_config desc opts now w₁)
                (λ c. inl))
              (Post-if (has_capability metadata capability_envelope_generator) _ _
                (Post-map (generate_signature_envelope-IsEnvelope key_id plugin_config desc opts w₁)
                  (λ c. inr))
                failed)))

  -- Every signature that `Sign` returns is an envelope put together around a signature that verifies
  -- under a leaf certificate fit for code signing, with a supported algorithm; or it is the envelope of
  -- a plugin, whose signature verifies in the same way and whose subject is the descriptor, perhaps
  -- with more annotations.
  pub sign-IsVerified :
      (key_id : String) (plugin_config : StringMap) (desc : Descriptor) (opts : SignOptions)
      (now : ℕ) (w w' : W) (content : Bytes)
      → sign lib run key_id plugin_config desc opts now w ≡ (ok content, w')
      → IsAssembled lib opts content ⊎ IsEnvelope lib desc content
  sign-IsVerified key_id plugin_config desc opts now w w' content h =
      Post-returned (sign-Post key_id plugin_config desc opts now w) h
