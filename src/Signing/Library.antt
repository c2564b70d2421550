-- ===== src/Signing/Library.antt =====
-- What signing uses of the packages encoding/json, encoding/base64, crypto/x509 and golang-jwt, and
-- what time stamping uses, as one record. A function answers none where the Go function returns an
-- error.
use notation_go.Prelude.{ℕ, String, Bool, Option}
use notation_go.Signing.Algorithms.{PublicKey}
use notation_go.Signing.Certificates.{Certificate}
use notation_go.Signing.Messages.{Bytes, Descriptor, JwsEnvelope, JwsProtectedHeader, JwsPayload}
use notation_go.Timestamp.Cms.{Asn1}
use notation_go.Timestamp.Tokens.{TstInfo}
use notation_go.Timestamp.Requests.{Digests}

-- The claims of `notaryClaim`; an expiry date may be missing.
pub record NotaryClaim : Type 0 where
  pub expires_at : Option ℕ
  pub issued_at : ℕ
  pub subject : Descriptor

-- The token of `jwtToken`: the two headers and the claims.
pub record JwtToken : Type 0 where
  pub alg : String
  pub cty : String
  pub claims : NotaryClaim

-- `jwt.SigningMethod`; a private key stays with its owner, in `sign`.
pub record SigningMethod : Type 0 where
  pub alg : String
  pub verify : Bytes → String → PublicKey → Bool
  pub sign : Bytes → Option String

-- What time stamping uses, and the reader of a token's information.
pub record Stamping : Type 0 where
  pub asn1 : Asn1
  pub digests : Digests
  pub unmarshal_tst_info : Bytes → Option TstInfo

pub record Library : Type 0 where
  pub new_numeric_date : ℕ → ℕ
  pub claims_valid : NotaryClaim → Bool
  pub signing_string : JwtToken → Option String
  pub get_signing_method : String → Option SigningMethod
  pub parse_certificate : Bytes → Option Certificate
  pub encode_base64 : Bytes → String
  pub decode_base64 : String → Option Bytes
  pub marshal_descriptor : Descriptor → Option Bytes
  pub marshal_envelope : JwsEnvelope → Option Bytes
  pub unmarshal_envelope : Bytes → Option JwsEnvelope
  pub unmarshal_header : Bytes → Option JwsProtectedHeader
  pub unmarshal_payload : Bytes → Option JwsPayload
  pub stamping : Stamping
