-- ===== src/Signing/Builtin/Succeeds.antt =====
-- The built-in signer signs.
use Prim.Native.Char.{code}
use notation_go.Prelude.{
  Option, Outcome, >>=-eq-ok, map_err-eq-ok, map_err, or_err, subst, not, ap, inl, inr, ◌++◌,
  split-str_append, Option-cases, ℕ, String, some, List, [], ◌∷◌, ok, str_append, split, dot, ◌≡◌,
  ◌≢◌, refl, ◌∙◌, IsElem, join,
}
use Prim.Native.String.append
use notation_go.Signing.Algorithms.Laws.{
  algorithms, key_spec_from_key-signature_algorithm, signature_algorithm-IsWhole,
}
use notation_go.Signing.Metadata.{validate, has_capability, supports_contract}
use notation_go.Verification.Names.{StringMap}
use notation_go.Signing.Algorithms.{PublicKey, key_spec_from_key, hash, signature_algorithm, jws}
use notation_go.Signing.Certificates.{Certificate}
use notation_go.Signing.Messages.{
  DescribeKeyResponse, GenerateSignatureResponse, GenerateSignatureRequest, Bytes, Descriptor,
  JwsEnvelope,
}
use notation_go.Signing.Library.{Library}
use notation_go.Signing.Calls.{follow-eq, follow-fail_if, follow}
use notation_go.Signing.Signer.{
  stamp, unsupported_contract, run_method, verify_jwt, first_cert, check_leaf, SignOptions,
}
use notation_go.Signing.Signer.Exchange.{
  as_metadata, as_key, as_signature, describe_key, ask, envelope_of, get_metadata,
  generate_signature, request_signature, jws_envelope, sign,
}
use notation_go.Timestamp.Cms.{VerifyOptions}
use notation_go.Signing.Verifier.{CertVerdict}
use notation_go.Signing.Builtin.{
  NewSignerError, nil_key, bad_key, require_chain, check_first, new_signer, contract_version,
  builtin_metadata, generate_signature_request, generate_signature_response, sign_with, Response,
  BuiltinPlugin, answer, run_builtin,
}
use notation_go.Signing.Builtin.Required.{
  CanSign, str_eq_refl, not_empty, jws_names-ne-empty, length-parse_cert_chain,
}

-- The envelope of the signed parts.
module _ (lib : Library) (r : BuiltinPlugin) (desc : Descriptor) (opts : SignOptions) (now : ℕ)
    (can : CanSign lib r desc opts now) where
  abbrev pub envelope : JwsEnvelope
  envelope = record {
    payload = can.payload;
    protected = can.protected;
    header = record { time_stamp_token = ""; cert_chain = r.cert_chain };
    signature = can.signature;
  }

module _ (lib : Library) (r : BuiltinPlugin) (desc : Descriptor) (opts : SignOptions) (now : ℕ)
    (can : CanSign lib r desc opts now) (supported : signature_algorithm r.key_spec ≢ "") where
  abbrev to_sign : Bytes
  to_sign = join dot (can.protected ∷ can.payload ∷ [])

  abbrev signed_of : String → GenerateSignatureResponse
  signed_of key_id = record {
    key_id = key_id;
    signature = can.decoded;
    signing_algorithm = signature_algorithm r.key_spec;
    certificate_chain = r.cert_chain;
  }

  abbrev response_of : String → Response
  response_of key_id = generate_signature_response (signed_of key_id)

  answer-ok :
      (req : GenerateSignatureRequest)
      → req.payload ≡ to_sign
      → answer lib r (generate_signature_request req) ≡ ok (response_of req.key_id)
  unfolding answer sign_with
  answer-ok req h = rw (can.registered, h, can.signed, can.decodes) refl

  known : jws (signature_algorithm r.key_spec) ≢ ""
  known = jws_names-ne-empty _ (signature_algorithm-IsWhole r.key_spec supported).1

  leaf-ok :
      check_leaf lib (jws (signature_algorithm r.key_spec)) to_sign can.signature r.cert_chain
      ≡ ok can.leaf
  unfolding check_leaf first_cert verify_jwt run_method
  leaf-ok = rw (can.chain, can.registered, can.verifies, can.usable) refl

  compact-eq :
      split (code dot) (str_append to_sign (str_append "." can.signature))
      ≡ can.protected ∷ can.payload ∷ can.signature ∷ []
  compact-eq =
      rw (append.cons dot "" can.signature, append.nil can.signature)
        (split-str_append dot to_sign can.signature
          ∙ ap (λ l. l ++ split (code dot) can.signature)
              (split-str_append dot can.protected can.payload)
          ∙ rw (can.dotless_protected, can.dotless_payload, can.dotless_signature) refl)

  module _ {W : Type 0} (w : W) (bytes : Bytes)
      (marshalled : lib.marshal_envelope (envelope lib r desc opts now can) ≡ some bytes) where
    jws_envelope-ok :
        jws_envelope lib
          (run_builtin {W = W} lib r)
          opts
          (str_append to_sign (str_append "." can.signature))
          r.cert_chain
          w
        ≡ (ok bytes, w)
    unfolding jws_envelope envelope_of stamp
    jws_envelope-ok = follow-eq _ _ (envelope lib r desc opts now can) w (rw compact-eq refl) (
        follow-eq _ _ (envelope lib r desc opts now can) w (rw (can.no_tsa) refl)
          (rw marshalled refl))

    abbrev request_of : String → StringMap → GenerateSignatureRequest
    request_of key_id config = record {
      version = contract_version;
      key_id = key_id;
      key_spec = r.key_spec;
      hash_algorithm = hash (signature_algorithm r.key_spec);
      payload = to_sign;
      plugin_config = config;
    }

    request_signature-ok :
        (key_id : String) (config : StringMap)
        → request_signature lib (run_builtin {W = W} lib r) key_id opts config r.key_spec to_sign w
          ≡ (ok bytes, w)
    unfolding request_signature ask as_signature
    request_signature-ok key_id config =
        follow-eq _ _ (response_of key_id) w (rw (answer-ok (request_of key_id config) refl) refl) (
          follow-eq _ _ (signed_of key_id) w refl (
            follow-fail_if _ _ _ (ap not (str_eq_refl key_id)) (
              follow-fail_if _ _ _ (not_empty _ known) (
                follow-fail_if _ _ _
                  (length-parse_cert_chain lib r.cert_chain can.leaf can.rest can.chain)
                  (rw (can.encodes)
                    (follow-eq _ _ (can.leaf) w (rw leaf-ok refl) jws_envelope-ok))))))

    abbrev key_of : String → DescribeKeyResponse
    key_of key_id = record { key_id = key_id; key_spec = r.key_spec }

    describe_key-ok :
        (key_id : String) (config : StringMap)
        → describe_key lib (run_builtin {W = W} lib r) key_id config w ≡ (ok (key_of key_id), w)
    unfolding describe_key ask as_key answer follow
    describe_key-ok key_id config = refl

    get_metadata-ok : get_metadata lib (run_builtin {W = W} lib r) w ≡ (ok builtin_metadata, w)
    unfolding get_metadata ask as_metadata answer follow validate
    get_metadata-ok = refl

    generate_signature-ok :
        (key_id : String) (config : StringMap)
        → generate_signature lib (run_builtin {W = W} lib r) key_id config desc opts now w
          ≡ (ok bytes, w)
    unfolding generate_signature
    generate_signature-ok key_id config =
        follow-eq _ _ (key_of key_id) w (describe_key-ok key_id _) (
          follow-fail_if _ _ _ (ap not (str_eq_refl key_id)) (
            follow-fail_if _ _ _ (not_empty _ supported) (
              follow-fail_if _ _ _ (ap not (can.valid))
                (follow-eq _ _ to_sign w (rw (can.written) refl) (request_signature-ok key_id _)))))

    sign-ok :
        (key_id : String) (config : StringMap)
        → sign lib (run_builtin {W = W} lib r) key_id config desc opts now w ≡ (ok bytes, w)
    unfolding sign supports_contract has_capability
    sign-ok key_id config =
        follow-eq _ _ builtin_metadata w get_metadata-ok
          (follow-fail_if _ _ unsupported_contract refl (generate_signature-ok key_id config))

algorithms-ne-empty : (s : String) → IsElem s algorithms → s ≢ ""
algorithms-ne-empty s (inl e) = λ z. cc (e ∙ z)
algorithms-ne-empty s (inr (inl e)) = λ z. cc (e ∙ z)
algorithms-ne-empty s (inr (inr (inl e))) = λ z. cc (e ∙ z)
algorithms-ne-empty s (inr (inr (inr (inl e)))) = λ z. cc (e ∙ z)
algorithms-ne-empty s (inr (inr (inr (inr (inl e))))) = λ z. cc (e ∙ z)
algorithms-ne-empty s (inr (inr (inr (inr (inr (inl e)))))) = λ z. cc (e ∙ z)
algorithms-ne-empty s (inr (inr (inr (inr (inr (inr e)))))) = elim e [ ]

plugin-inj :
    {a b : BuiltinPlugin} → ◌≡◌ {A = Outcome NewSignerError BuiltinPlugin} (ok a) (ok b) → a ≡ b
plugin-inj h = cc

new_signer-supported :
    (verify_certificate : Certificate → VerifyOptions Certificate → CertVerdict)
    (key : Option PublicKey) (chain : List (Certificate × Bytes)) (r : BuiltinPlugin)
    → new_signer verify_certificate key chain ≡ ok r
    → signature_algorithm r.key_spec ≢ ""
unfolding new_signer
new_signer-supported verify_certificate key chain r h =
    let (key', _, h₁) = >>=-eq-ok (or_err key nil_key) _ h in
    let (_, _, h₂) = >>=-eq-ok (require_chain chain) _ h₁ in
    let (key_spec, found, h₃) = >>=-eq-ok (map_err bad_key (key_spec_from_key key')) _ h₂ in
    let (_, _, h₄) = >>=-eq-ok (check_first verify_certificate chain) _ h₃ in
    subst (λ p. signature_algorithm (BuiltinPlugin.key_spec p) ≢ "") (plugin-inj h₄)
      (algorithms-ne-empty _
        (key_spec_from_key-signature_algorithm key' key_spec (map_err-eq-ok bad_key _ found)))

-- The signer that NewSigner makes signs: if the claims are valid, the method for the key signs them
-- and its signature verifies under the leaf of the chain, which is fit for code signing, and no time
-- stamp is asked for, then Sign returns the envelope that the library writes of the signed parts.
pub sign-new_signer :
    {W : Type 0} (verify_certificate : Certificate → VerifyOptions Certificate → CertVerdict)
    (key : Option PublicKey) (chain : List (Certificate × Bytes)) (lib : Library)
    (r : BuiltinPlugin) (desc : Descriptor) (opts : SignOptions) (now : ℕ) (key_id : String)
    (config : StringMap) (w : W)
    → new_signer verify_certificate key chain ≡ ok r
    → (can : CanSign lib r desc opts now)
    → (bytes : Bytes) × (lib.marshal_envelope (envelope lib r desc opts now can) ≡ some bytes)
      × (sign lib (run_builtin lib r) key_id config desc opts now w ≡ (ok bytes, w))
sign-new_signer verify_certificate key chain lib r desc opts now key_id config w made can =
    let supported = new_signer-supported verify_certificate key chain r made in
    elim (Option-cases (lib.marshal_envelope (envelope lib r desc opts now can))) [
      | inl fails ↦ absurd (can.written_envelope _ fails)
      | inr (bytes, e) ↦
          (bytes, e, sign-ok lib r desc opts now can supported w bytes e key_id config)
    ]
