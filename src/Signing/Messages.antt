-- ===== src/Signing/Messages.antt =====
-- plugin/plugin.go, notation.go and jws.go: the messages between the signer and a plugin, and the JWS
-- envelope. `[]byte` and `string` hold the same bytes and convert without a change: both are texts.
use notation_go.Prelude.{ℕ, String, Bool, ◌&&◌, List, str_eq, ◌==◌}
use notation_go.Verification.Names.{StringMap}
use notation_go.Signing.Metadata.{Metadata}

abbrev pub Bytes : Type 0
Bytes = String

abbrev pub contract_version : String
contract_version = "1.0"

abbrev pub media_type_payload : String
media_type_payload = "application/vnd.cncf.notary.payload.v1+json"

abbrev pub media_type_jws_envelope : String
media_type_jws_envelope = "application/vnd.cncf.notary.v2.jws.v1"

abbrev pub capability_signature_generator : String
capability_signature_generator = "SIGNATURE_GENERATOR"

abbrev pub capability_envelope_generator : String
capability_envelope_generator = "SIGNATURE_ENVELOPE_GENERATOR"

pub record Descriptor : Type 0 where
  pub media_type : String
  pub digest : String
  pub size : ℕ
  pub annotations : StringMap

-- `Descriptor.Equal`
unfoldable pub equal : Descriptor → Descriptor → Bool
equal d t = str_eq d.media_type t.media_type && str_eq d.digest t.digest && (d.size == t.size)

pub record DescribeKeyRequest : Type 0 where
  pub version : String
  pub key_id : String
  pub plugin_config : StringMap

pub record DescribeKeyResponse : Type 0 where
  pub key_id : String
  pub key_spec : String

pub record GenerateSignatureRequest : Type 0 where
  pub version : String
  pub key_id : String
  pub key_spec : String
  pub hash_algorithm : String
  pub payload : Bytes
  pub plugin_config : StringMap

pub record GenerateSignatureResponse : Type 0 where
  pub key_id : String
  pub signature : Bytes
  pub signing_algorithm : String
  pub certificate_chain : List Bytes

pub record GenerateEnvelopeRequest : Type 0 where
  pub version : String
  pub key_id : String
  pub payload_type : String
  pub signature_envelope_type : String
  pub payload : Bytes
  pub plugin_config : StringMap

pub record GenerateEnvelopeResponse : Type 0 where
  pub signature_envelope : Bytes
  pub signature_envelope_type : String
  pub annotations : StringMap

pub data Request : Type 0 where
  get_metadata_request : Request
  describe_key_request : DescribeKeyRequest → Request
  generate_signature_request : GenerateSignatureRequest → Request
  generate_envelope_request : GenerateEnvelopeRequest → Request

-- What a runner may return; the signer tells the types apart. The pointer in an interface may be nil.
pub data Response : Type 0 where
  metadata_response : Metadata → Response
  describe_key_response : DescribeKeyResponse → Response
  generate_signature_response : GenerateSignatureResponse → Response
  generate_envelope_response : GenerateEnvelopeResponse → Response
  nil_metadata nil_key nil_signature nil_envelope : Response
  other_response : Response

-- A nil pointer of a type that the signer asks for.
abbrev pub IsNil : Response → Type 0
IsNil nil_metadata = Unit
IsNil nil_key = Unit
IsNil nil_signature = Unit
IsNil nil_envelope = Unit
IsNil _ = ⊥

-- The `Command` of a request.
unfoldable pub command : Request → String
command get_metadata_request = "get-plugin-metadata"
command (describe_key_request req) = "describe-key"
command (generate_signature_request req) = "generate-signature"
command (generate_envelope_request req) = "generate-envelope"

pub record JwsProtectedHeader : Type 0 where
  pub algorithm : String
  pub content_type : String

pub record JwsPayload : Type 0 where
  pub subject : Descriptor
  pub issued_at : ℕ
  pub expires_at : ℕ

pub record JwsUnprotectedHeader : Type 0 where
  pub time_stamp_token : Bytes
  pub cert_chain : List Bytes

pub record JwsEnvelope : Type 0 where
  pub payload : String
  pub protected : String
  pub header : JwsUnprotectedHeader
  pub signature : String
