-- ===== src/Signing/Builtin.antt =====
-- signature/jws/signer.go: the signer that has the key itself, as a runner of its own.
pub mod Required
pub mod Succeeds
use notation_go.Prelude.{
  pos, ℕ, String, Option, none, some, List, [], ◌∷◌, map, Outcome, ok, err, panic, ◌>>=◌, ◌>>◌,
  map_err, or_err, fail_if,
}
use notation_go.Signing.Algorithms.{
  KeyError, PublicKey, key_spec_from_key, signature_algorithm, jws,
}
use notation_go.Signing.Metadata.{Metadata}
use notation_go.Signing.Certificates.{Certificate, code_signing}
use notation_go.Signing.Messages.{
  Bytes, contract_version, capability_signature_generator, Request, get_metadata_request,
  describe_key_request, generate_signature_request, generate_envelope_request, Response,
  metadata_response, describe_key_response, generate_signature_response,
}
use notation_go.Signing.Library.{SigningMethod, Library}
use notation_go.Signing.Calls.{Call, lift}
use notation_go.Signing.Verifier.{CertVerdict, trusted, expired, untrusted}
use notation_go.Timestamp.Cms.{VerifyOptions}

-- The key stays in the signing methods of the library.
pub record BuiltinPlugin : Type 0 where
  pub key_spec : String
  pub cert_chain : List Bytes

pub data NewSignerError : Type 0 where
  nil_key missing_chain bad_certificate : NewSignerError
  bad_key : KeyError → NewSignerError

-- The certificate is its own root, and has to be fit for code signing.
abbrev pub self_root : Certificate → VerifyOptions Certificate
self_root cert = record {
  roots = some (cert ∷ []);
  intermediates = [];
  key_usages = code_signing ∷ [];
  current_time = pos 0;
}

unfoldable pub check_verdict : CertVerdict → Outcome NewSignerError (Unit {0})
check_verdict trusted = ok tt
check_verdict _ = err bad_certificate

unfoldable pub check_first :
    (Certificate → VerifyOptions Certificate → CertVerdict)
    → List (Certificate × Bytes)
    → Outcome NewSignerError (Unit {0})
unfolding check_verdict
check_first verify_certificate [] = err missing_chain
check_first verify_certificate ((cert, raw) ∷ chain) =
    check_verdict (verify_certificate cert (self_root cert))

-- `len(certChain) == 0`
unfoldable pub require_chain : List (Certificate × Bytes) → Outcome NewSignerError (Unit {0})
require_chain [] = err missing_chain
require_chain (cert ∷ chain) = ok tt

-- `NewSigner`, for a key that may be nil, and certificates with their bytes.
unfoldable pub new_signer :
    (Certificate → VerifyOptions Certificate → CertVerdict)
    → Option PublicKey
    → List (Certificate × Bytes)
    → Outcome NewSignerError BuiltinPlugin
unfolding check_first require_chain
new_signer verify_certificate key chain = do
  key' ← or_err key nil_key
  require_chain chain
  key_spec ← map_err bad_key (key_spec_from_key key')
  check_first verify_certificate chain
  ok (record { key_spec = key_spec; cert_chain = map (λ c. c.1) chain })

-- `metadata`
abbrev pub builtin_metadata : Metadata
builtin_metadata = record {
  name = "built-in";
  description = "Notation built-in signer";
  version = contract_version;
  url = "https://github.com/notaryproject/notation-go";
  supported_contract_versions = contract_version ∷ [];
  capabilities = capability_signature_generator ∷ [];
}

-- `method.Sign`; a missing method is a nil interface.
unfoldable pub sign_with : Option SigningMethod → Bytes → Outcome String String
sign_with none payload = panic
sign_with (some method) payload = or_err (method.sign payload) "signing failed"

-- `builtinPlugin.Run`; of a request error the text is kept.
unfoldable pub answer : Library → BuiltinPlugin → Request → Outcome String Response
unfolding sign_with
answer lib r get_metadata_request = ok (metadata_response builtin_metadata)
answer lib r (describe_key_request req) =
    ok (describe_key_response (record { key_id = req.key_id; key_spec = r.key_spec }))
answer lib r (generate_signature_request req) = do
  signed ← sign_with (lib.get_signing_method (jws (signature_algorithm r.key_spec))) req.payload
  signed_decoded ← or_err (lib.decode_base64 signed) "decoding failed"
  ok (
      generate_signature_response (record {
        key_id = req.key_id;
        signature = signed_decoded;
        signing_algorithm = signature_algorithm r.key_spec;
        certificate_chain = r.cert_chain;
      }))
answer lib r (generate_envelope_request req) = err "command is not supported"

-- The runner, which has no state.
abbrev pub run_builtin : {W : Type 0} → Library → BuiltinPlugin → Request → Call W String Response
run_builtin lib r req = lift (answer lib r req)
