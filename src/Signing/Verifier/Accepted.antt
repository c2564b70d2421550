-- ===== src/Signing/Verifier/Accepted.antt =====
-- When an envelope is authentic.
use Prim.Native.Char.{code}
use notation_go.Prelude.{
  ℤ, String, true, false, Option, none, some, List, [], ◌∷◌, ok, split, join, dot, IsElem, ◌≡◌, ◌≢◌,
  ◌⊎◌,
}
use notation_go.Signing.Algorithms.{PublicKey, signature_algorithm, key_spec_from_key}
use notation_go.Signing.Certificates.{Certificate}
use notation_go.Signing.Messages.{Bytes, Descriptor, JwsEnvelope}
use notation_go.Signing.Library.{SigningMethod}
use notation_go.Signing.Timestamps.Stamped.{IsStamped}
use notation_go.Signing.Verifier.{
  trusted, Verifier, ReadClaims, KeyFunc, Packages, parse_certs, options_of, resolve,
}

-- A token of three parts, whose method and key are chosen by the function, and whose signature
-- verifies.
pub record IsAccepted (unmarshal_claims : String → Option ReadClaims) (valid_methods : List String)
    (token : String) (choose : KeyFunc) (claims : ReadClaims) : Type 0 where
  pub header : String
  pub payload : String
  pub signature : String
  pub parts : split (code dot) token ≡ header ∷ payload ∷ signature ∷ []
  pub alg : String
  pub method : SigningMethod
  pub key : PublicKey
  pub chosen : choose alg ≡ ok (method, key)
  pub valid : (valid_methods ≡ []) ⊎ IsElem alg valid_methods
  pub verified : method.verify (join dot (header ∷ payload ∷ [])) signature key ≡ true
  pub read : unmarshal_claims payload ≡ some claims

-- What `jwt.Parser` documents: it returns the claims of such tokens only.
abbrev pub IsParser : (String → Option ReadClaims) → Packages → Type 0
IsParser unmarshal_claims p =
    (valid_methods : List String) (token : String) (choose : KeyFunc) (claims : ReadClaims)
    → p.parse_with_claims valid_methods token choose ≡ ok claims
    → IsAccepted unmarshal_claims valid_methods token choose claims

-- The chain is trusted now, or at the time of a verified time stamp of the signature.
pub data IsTrusted (p : Packages) (v : Verifier) (envelope : JwsEnvelope) (leaf : Certificate)
    (rest : List Certificate) : Type 0 where
  trusted_now :
      p.verify_certificate leaf (options_of v rest) ≡ trusted
      → v.enforce_expiry_validation ≡ false
      → IsTrusted p v envelope leaf rest
  trusted_then :
      {time : ℤ} {content : Bytes}
      → p.library.decode_base64 envelope.signature ≡ some content
      → IsStamped p.library.stamping content envelope.header.time_stamp_token v.tsa_roots time
      → p.verify_certificate leaf (record (options_of v rest) { current_time = time }) ≡ trusted
      → IsTrusted p v envelope leaf rest

pub record IsAuthentic (unmarshal_claims : String → Option ReadClaims) (p : Packages) (v : Verifier)
    (sig : Bytes) (desc : Descriptor) : Type 0 where
  pub envelope : JwsEnvelope
  pub opened : p.library.unmarshal_envelope sig ≡ some envelope
  pub leaf : Certificate
  pub rest : List Certificate
  pub parsed : parse_certs p.library envelope.header.cert_chain ≡ ok (leaf ∷ rest)
  pub chain_trusted : IsTrusted p v envelope leaf rest
  pub key_spec : String
  pub spec_found : key_spec_from_key leaf.public_key ≡ ok key_spec
  pub method : SigningMethod
  pub resolved : resolve p v (signature_algorithm key_spec) ≡ ok (some method)
  pub valid : (v.valid_methods ≡ []) ⊎ IsElem method.alg v.valid_methods
  pub verified :
      method.verify
        (join dot (envelope.protected ∷ envelope.payload ∷ []))
        envelope.signature
        leaf.public_key
      ≡ true
  pub claims : ReadClaims
  pub read : unmarshal_claims envelope.payload ≡ some claims
  pub has_issue_time : claims.issued_at ≢ none
  pub subject_is : claims.subject ≡ desc
