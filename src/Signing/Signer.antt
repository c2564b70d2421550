-- ===== src/Signing/Signer.antt =====
-- signature/jws/plugin.go and the envelope of signature/jws/signer.go. The runner is an argument: what
-- it does with a request, in a state of its own. So are the clock and the authority that stamps a
-- signature.
pub mod Exchange
pub mod Checks
pub mod Verified
pub mod Panics
pub mod Safe
use notation_go.Prelude.{
  ℕ, String, Bool, true, false, not, ◌&&◌, Option, none, some, List, [], ◌∷◌, Outcome, ok, err,
  panic, ◌>>=◌, ◌>>◌, map_err, or_err, fail_if, str_eq, str_append, ◌==◌, length, split,
  if◌then◌else◌,
}
use notation_go.Verification.Names.{StringMap}
use notation_go.Signing.Algorithms.{signature_algorithm, hash, jws, new_signature_algorithm_jws}
use notation_go.Signing.Metadata.{
  Metadata, MetadataError, validate, has_capability, supports_contract,
}
use notation_go.Signing.Config.{lookup, merge_config}
use notation_go.Signing.Certificates.{
  Certificate, UsageError, code_signing, verify_cert_ext_key_usage,
}
use notation_go.Signing.Messages.{
  Bytes, contract_version, media_type_payload, media_type_jws_envelope,
  capability_signature_generator, capability_envelope_generator, Descriptor, equal,
  DescribeKeyRequest, DescribeKeyResponse, GenerateSignatureRequest, GenerateSignatureResponse,
  GenerateEnvelopeRequest, GenerateEnvelopeResponse, Request, get_metadata_request,
  describe_key_request, generate_signature_request, generate_envelope_request, Response,
  metadata_response, describe_key_response, generate_signature_response, generate_envelope_response,
  other_response, JwsEnvelope, JwsProtectedHeader, JwsPayload, JwsUnprotectedHeader,
}
use notation_go.Signing.Library.{NotaryClaim, JwtToken, SigningMethod, Library}
use notation_go.Signing.Timestamps.{StampError, Timestamper, timestamp_signature}
use notation_go.Timestamp.Cms.{SignerCertificate}

pub record SignOptions : Type 0 where
  -- No expiry is the zero time.
  pub expiry : Option ℕ
  -- `TSA`, which may be nil, and the roots of `TSAVerifyOptions`.
  pub tsa : Option Timestamper
  pub tsa_roots : Option (List SignerCertificate)
  pub plugin_config : StringMap

pub data SignError : Type 0 where
  nil_runner nil_key_id : SignError
  metadata_failed describe_key_failed generate_signature_failed generate_envelope_failed :
      String → SignError
  wrong_metadata_type wrong_describe_key_type wrong_signature_type wrong_envelope_type : SignError
  invalid_metadata : MetadataError → SignError
  unsupported_contract no_capability : SignError
  key_id_changed : String → String → SignError
  timestamp_failed : StampError → SignError
  unsupported_key_spec unsupported_algorithm : String → SignError
  invalid_claims marshal_failed empty_chain bad_certificate not_verified : SignError
  bad_usage : UsageError → SignError
  invalid_compact envelope_type_changed envelope_format bad_header bad_payload subject_changed :
      SignError

-- `packPayload`, at the time `now`.
unfoldable pub pack_payload : Library → Descriptor → SignOptions → ℕ → NotaryClaim
pack_payload lib desc opts now = record {
  expires_at = elim (opts.expiry) [ none ↦ none | some t ↦ some (lib.new_numeric_date t) ];
  issued_at = lib.new_numeric_date now;
  subject = desc;
}

-- `jwtToken`
unfoldable pub jwt_token : String → NotaryClaim → JwtToken
jwt_token alg claims = record { alg = alg; cty = media_type_payload; claims = claims }

-- `parseCertChain`
unfoldable pub parse_cert_chain : Library → List Bytes → Outcome SignError (List Certificate)
parse_cert_chain lib [] = ok []
parse_cert_chain lib (c ∷ chain) = do
  cert ← or_err (lib.parse_certificate c) bad_certificate
  certs ← parse_cert_chain lib chain
  ok (cert ∷ certs)

-- `certs[0]`
unfoldable pub first_cert : List Certificate → Outcome SignError Certificate
first_cert [] = panic
first_cert (cert ∷ certs) = ok cert

-- `method.Verify`; an algorithm that has no method is a nil interface, and its call panics.
unfoldable pub run_method :
    Option SigningMethod → Bytes → String → Certificate → Outcome SignError (Unit {0})
run_method none payload sig cert = panic
run_method (some method) payload sig cert =
    fail_if (not (method.verify payload sig cert.public_key)) not_verified

-- `verifyJWT`
unfoldable pub verify_jwt :
    Library → String → Bytes → String → Certificate → Outcome SignError (Unit {0})
unfolding run_method
verify_jwt lib sig_alg payload sig cert =
    run_method (lib.get_signing_method sig_alg) payload sig cert

-- `v2, ok := newDesc.Annotations[k]; !ok || v != v2`
unfoldable pub changed : String → Option String → Bool
changed v none = true
changed v (some v2) = not (str_eq v v2)

-- The loop of `descriptorPartialEqual` over the annotations of the original.
unfoldable pub keeps_annotations : StringMap → StringMap → Bool
unfolding lookup changed
keeps_annotations [] annotations = true
keeps_annotations ((k, v) ∷ original) annotations =
    if changed v (lookup annotations k) then false else keeps_annotations original annotations

-- `descriptorPartialEqual`
unfoldable pub descriptor_partial_equal : Descriptor → Descriptor → Bool
unfolding equal keeps_annotations
descriptor_partial_equal original new_desc =
    if not (equal original new_desc)
    then false
    else keeps_annotations original.annotations new_desc.annotations

-- How both ways of signing end: the chain is parsed, and the signature and the leaf are checked.
unfoldable pub check_leaf :
    Library → String → Bytes → String → List Bytes → Outcome SignError Certificate
unfolding parse_cert_chain first_cert verify_jwt
check_leaf lib alg payload sig chain = do
  certs ← parse_cert_chain lib chain
  leaf ← first_cert certs
  verify_jwt lib alg payload sig leaf
  map_err bad_usage (verify_cert_ext_key_usage leaf code_signing)
  ok leaf

-- `if opts.TSA != nil`
unfoldable pub stamp : Library → SignOptions → JwsEnvelope → Outcome SignError JwsEnvelope
unfolding timestamp_signature
stamp lib opts envelope = elim (opts.tsa) [
  | none ↦ ok envelope
  | some tsa ↦
      map_err timestamp_failed
        (timestamp_signature lib.stamping lib envelope.signature tsa opts.tsa_roots)
      >>= λ token. ok (record {
        payload = envelope.payload;
        protected = envelope.protected;
        header = record { time_stamp_token = token; cert_chain = envelope.header.cert_chain };
        signature = envelope.signature;
      })
]

-- The test of the envelope's content in `generateSignatureEnvelope`.
unfoldable pub has_format : JwsEnvelope → Bool
has_format envelope =
    not (str_eq envelope.payload "")
    && not (str_eq envelope.protected "")
    && not (str_eq envelope.signature "")
    && not (length envelope.header.cert_chain == 0)

-- `decodeBase64URLJSON`, for the type that `unmarshal` reads.
unfoldable pub decode_base64_url_json :
    {A : Type 0} → Library → (Bytes → Option A) → String → Option A
decode_base64_url_json lib unmarshal str = elim (lib.decode_base64 str) [
  | none ↦ none
  | some dec ↦ unmarshal dec
]

-- What `generateSignatureEnvelope` checks of the answer `content`.
unfoldable pub check_envelope : Library → Descriptor → Bytes → Outcome SignError (Unit {0})
unfolding has_format decode_base64_url_json descriptor_partial_equal check_leaf
check_envelope lib desc content = do
  envelope ← or_err (lib.unmarshal_envelope content) envelope_format
  fail_if (not (has_format envelope)) envelope_format
  protected ←
      or_err (decode_base64_url_json lib (lib.unmarshal_header) envelope.protected) bad_header
  fail_if (str_eq (new_signature_algorithm_jws protected.algorithm) "")
      (unsupported_algorithm protected.algorithm)
  payload ← or_err (decode_base64_url_json lib (lib.unmarshal_payload) envelope.payload) bad_payload
  fail_if (not (descriptor_partial_equal desc payload.subject)) subject_changed
  _ ←
      check_leaf lib protected.algorithm
        (str_append envelope.protected (str_append "." envelope.payload)) envelope.signature
        envelope.header.cert_chain
  ok tt
