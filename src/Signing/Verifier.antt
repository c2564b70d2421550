-- ===== src/Signing/Verifier.antt =====
-- signature/jws/verifier.go: the verification of an envelope.
pub mod Accepted
pub mod Authentic
use notation_go.Prelude.{
  ℕ, ℤ, pos, String, Bool, true, false, not, Option, none, some, List, [], ◌∷◌, Outcome, ok, err,
  panic, ◌>>=◌, ◌>>◌, map_err, or_err, fail_if, str_eq, length, ◌==◌, if◌then◌else◌, join, dot,
}
use notation_go.Signing.Algorithms.{
  KeyError, PublicKey, signature_algorithm, jws, key_spec_from_key,
}
use notation_go.Signing.Certificates.{Certificate, code_signing}
use notation_go.Signing.Messages.{Bytes, Descriptor, JwsEnvelope}
use notation_go.Signing.Library.{SigningMethod, Library}
use notation_go.Signing.Timestamps.{StampError, verify_timestamp}
use notation_go.Timestamp.Cms.{SignerCertificate, VerifyOptions}

-- What `x509.Certificate.Verify` answers: an expired certificate is told from other errors.
pub data CertVerdict : Type 0 where
  trusted expired untrusted : CertVerdict

pub record Verifier : Type 0 where
  pub valid_methods : List String
  -- A method that is returned may be nil.
  pub resolve_signing_method : Option (String → Outcome String (Option SigningMethod))
  pub enforce_expiry_validation : Bool
  pub verify_options : VerifyOptions Certificate
  pub tsa_roots : Option (List SignerCertificate)

-- `NewVerifier`
abbrev pub new_verifier : Verifier
new_verifier = record {
  valid_methods = [];
  resolve_signing_method = none;
  enforce_expiry_validation = false;
  verify_options = record {
    roots = none;
    intermediates = [];
    key_usages = [];
    current_time = pos 0;
  };
  tsa_roots = none;
}

-- The claims that are read into `notaryClaim`.
pub record ReadClaims : Type 0 where
  pub issued_at : Option ℕ
  pub subject : Descriptor

pub data VerifyError : Type 0 where
  invalid_envelope no_certificates bad_cert not_trusted missing_iat : VerifyError
  bad_stamp : StampError → VerifyError
  invalid_base64 : VerifyError
  bad_key : KeyError → VerifyError
  unresolved : String → VerifyError
  unexpected_method : String → String → VerifyError
  invalid_token : String → VerifyError

-- What `jwt.Parser` is given: the valid methods, the text, and the function that chooses a method and
-- a key for the algorithm of the token.
abbrev pub KeyFunc : Type 0
KeyFunc = String → Outcome VerifyError (SigningMethod × PublicKey)

-- The packages that the verifier uses; time stamps are verified by this repository.
pub record Packages : Type 0 where
  pub library : Library
  pub verify_certificate : Certificate → VerifyOptions Certificate → CertVerdict
  pub parse_with_claims : List String → String → KeyFunc → Outcome VerifyError ReadClaims

-- The loop that parses the chain.
unfoldable pub parse_certs : Library → List Bytes → Outcome VerifyError (List Certificate)
parse_certs lib [] = ok []
parse_certs lib (c ∷ chain) = do
  cert ← or_err (lib.parse_certificate c) bad_cert
  certs ← parse_certs lib chain
  ok (cert ∷ certs)

-- `certs[0]` and `certs[1:]`
unfoldable pub split_chain : List Certificate → Outcome VerifyError (Certificate × List Certificate)
split_chain [] = panic
split_chain (cert ∷ certs) = ok (cert, certs)

-- No key usages imply code signing.
unfoldable pub usages_of : List ℕ → List ℕ
usages_of usages = if length usages == 0 then code_signing ∷ [] else usages

-- `verifyOpts`
unfoldable pub options_of : Verifier → List Certificate → VerifyOptions Certificate
unfolding usages_of
options_of v intermediates = record {
  roots = v.verify_options.roots;
  intermediates = intermediates;
  key_usages = usages_of v.verify_options.key_usages;
  current_time = v.verify_options.current_time;
}

-- Whether the time stamp is to be checked.
unfoldable pub check_timestamp : CertVerdict → Bool → Outcome VerifyError Bool
check_timestamp trusted enforce = ok enforce
check_timestamp expired enforce = ok true
check_timestamp untrusted enforce = err not_trusted

unfoldable pub require_trusted : CertVerdict → Outcome VerifyError (Unit {0})
require_trusted trusted = ok tt
require_trusted _ = err not_trusted

-- `method.Alg`, of a method that may be nil.
unfoldable pub require_method : Option SigningMethod → Outcome VerifyError SigningMethod
require_method none = panic
require_method (some method) = ok method

-- The function that is given to the parser.
unfoldable pub key_func : Option SigningMethod → PublicKey → KeyFunc
unfolding require_method
key_func method key alg = do
  expected ← require_method method
  fail_if (not (str_eq alg expected.alg)) (unexpected_method alg expected.alg)
  ok (expected, key)

module _ (p : Packages) (v : Verifier) where
  -- The method for an algorithm, which the verifier may resolve.
  unfoldable pub resolve : String → Outcome VerifyError (Option SigningMethod)
  resolve sig_alg = elim (v.resolve_signing_method) [
    | none ↦ ok (p.library.get_signing_method (jws sig_alg))
    | some resolver ↦ map_err unresolved (resolver sig_alg)
  ]

  -- The method `verifyTimestamp`.
  unfoldable pub stamped_time : Bytes → String → Outcome VerifyError ℤ
  stamped_time token_content encoded_sig = do
    sig ← or_err (p.library.decode_base64 encoded_sig) invalid_base64
    map_err bad_stamp (verify_timestamp p.library.stamping sig token_content v.tsa_roots)

  -- The certificate is verified again, at the time of the stamp.
  unfoldable pub verify_stamped :
      Certificate → VerifyOptions Certificate → Bytes → String → Outcome VerifyError (Unit {0})
  unfolding stamped_time require_trusted
  verify_stamped cert opts token_content encoded_sig = do
    time ← stamped_time token_content encoded_sig
    require_trusted (p.verify_certificate cert (record opts { current_time = time }))

  -- `verifySignerFromCertChain`
  unfoldable pub verify_signer_from_cert_chain :
      List Bytes → Bytes → String → Outcome VerifyError PublicKey
  unfolding parse_certs split_chain options_of check_timestamp verify_stamped
  verify_signer_from_cert_chain cert_chain token_content encoded_sig = do
    certs ← parse_certs p.library cert_chain
    (cert, intermediates) ← split_chain certs
    stamp ←
        check_timestamp (p.verify_certificate cert (options_of v intermediates))
          v.enforce_expiry_validation
    if stamp
        then verify_stamped cert (options_of v intermediates) token_content encoded_sig
        else ok tt
    ok cert.public_key

  -- `verifySigner`
  unfoldable pub verify_envelope_signer : JwsEnvelope → Outcome VerifyError PublicKey
  unfolding verify_signer_from_cert_chain
  verify_envelope_signer sig = do
    fail_if (length sig.header.cert_chain == 0) no_certificates
    verify_signer_from_cert_chain sig.header.cert_chain sig.header.time_stamp_token sig.signature

  -- `verifyJWT`
  unfoldable pub verify_token_jwt : PublicKey → String → Outcome VerifyError Descriptor
  unfolding resolve key_func
  verify_token_jwt key token_string = do
    key_spec ← map_err bad_key (key_spec_from_key key)
    method ← resolve (signature_algorithm key_spec)
    claims ← p.parse_with_claims v.valid_methods token_string (key_func method key)
    _ ← or_err (claims.issued_at) missing_iat
    ok claims.subject

  -- `Verify`, with `openEnvelope`
  unfoldable pub verify_envelope : Bytes → Outcome VerifyError Descriptor
  unfolding verify_envelope_signer verify_token_jwt
  verify_envelope sig = do
    envelope ← or_err (p.library.unmarshal_envelope sig) invalid_envelope
    key ← verify_envelope_signer envelope
    verify_token_jwt key
        (join dot (envelope.protected ∷ envelope.payload ∷ envelope.signature ∷ []))
