-- ===== src/Timestamp/Requests.antt =====
-- crypto/timestamp/request.go and response.go: what is sent to the authority, and what it answers.
use notation_go.Prelude.{
  ℤ, pos, String, Bool, true, Option, none, some, List, [], Outcome, ok, err, ◌>>=◌, or_err, str_eq,
  if◌then◌else◌,
}
use notation_go.Signing.Messages.{Bytes}
use notation_go.Timestamp.Oids.{Oid, sha256, sha384, sha512}
use notation_go.Timestamp.Cms.{Asn1, ParsedSignedData}
use notation_go.Timestamp.Tokens.{MessageImprint, TokenError, parse_signed_token}

-- What the package uses of go-digest and encoding/hex.
pub record Digests : Type 0 where
  pub algorithm : String → String
  pub encoded : String → String
  pub from_bytes : Bytes → String
  pub decode_hex : String → Option Bytes

pub record TimestampRequest : Type 0 where
  pub version : ℤ
  pub message_imprint : MessageImprint
  pub req_policy : Oid
  pub nonce : Option ℤ
  pub cert_req : Bool
  pub extensions : List Bytes

pub record StatusInfo : Type 0 where
  pub status : ℤ
  pub status_string : List String
  pub fail_info : Bytes

pub record TimestampResponse : Type 0 where
  pub status : StatusInfo
  pub time_stamp_token : Bytes

pub data RequestFailure : Type 0 where
  digest_unsupported invalid_hex nil_message marshal_failed invalid_message : RequestFailure

-- `pki.StatusGranted`
abbrev pub status_granted : ℤ
status_granted = pos 0

-- `getOIDFromDigestAlgorithm`
unfoldable pub get_oid_from_digest_algorithm : String → Outcome RequestFailure Oid
get_oid_from_digest_algorithm alg =
    if str_eq alg "sha256"
    then ok sha256
    else if str_eq alg "sha384"
    then ok sha384
    else if str_eq alg "sha512"
    then ok sha512
    else err digest_unsupported

-- `NewRequest`
unfoldable pub new_request : Digests → String → Outcome RequestFailure TimestampRequest
unfolding get_oid_from_digest_algorithm
new_request digests content_digest = do
  hash_algorithm ← get_oid_from_digest_algorithm (digests.algorithm content_digest)
  hashed_message ← or_err (digests.decode_hex (digests.encoded content_digest)) invalid_hex
  ok (record {
    version = pos 1;
    message_imprint = record { hash_algorithm = hash_algorithm; hashed_message = hashed_message };
    req_policy = [];
    nonce = none;
    cert_req = true;
    extensions = [];
  })

-- `NewRequestFromBytes`, and `NewRequestFromString` as well.
unfoldable pub new_request_from_bytes : Digests → Bytes → Outcome RequestFailure TimestampRequest
unfolding new_request
new_request_from_bytes digests content = new_request digests (digests.from_bytes content)

-- `MarshalBinary`, of requests and of responses, with the function of encoding/asn1; the pointer may
-- be nil.
unfoldable pub marshal_binary :
    {A : Type 0} → (A → Option Bytes) → Option A → Outcome RequestFailure Bytes
marshal_binary marshal none = err nil_message
marshal_binary marshal (some message) = or_err (marshal message) marshal_failed

-- `UnmarshalBinary`, of requests and of responses.
unfoldable pub unmarshal_binary :
    {A : Type 0} → (Bytes → Option A) → Bytes → Outcome RequestFailure A
unmarshal_binary unmarshal data' = or_err (unmarshal data') invalid_message

-- `TokenBytes`
unfoldable pub token_bytes : TimestampResponse → Bytes
token_bytes r = r.time_stamp_token

-- `SignedToken`
unfoldable pub signed_token : Asn1 → TimestampResponse → Outcome TokenError ParsedSignedData
unfolding token_bytes
signed_token lib r = parse_signed_token lib (token_bytes r)
