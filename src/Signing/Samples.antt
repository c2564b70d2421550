-- ===== src/Signing/Samples.antt =====
-- Test data of the signer and the verifier of signature/jws.
use notation_go.Prelude.{◌∷◌, [], true, false, none, some}
use notation_go.Signing.Metadata.{Metadata}
use notation_go.Signing.Certificates.{Certificate}
use notation_go.Signing.Algorithms.{ecdsa}
use notation_go.Signing.Messages.{Descriptor}
use notation_go.Signing.Library.{Stamping}

-- Nothing is stamped.
abbrev pub no_stamping : Stamping
no_stamping = record {
  asn1 = record {
    hashes = record { available = λ hash. true; digest = λ hash message. some message };
    encode_hex = λ content. content;
    unmarshal_content_info = λ content. none;
    unmarshal_signed_data = λ content. none;
    parse_certificates = λ content. none;
    marshal_attributes = λ attributes. none;
    unmarshal_oid = λ content. none;
    unmarshal_octets = λ content. none;
    unmarshal_time = λ content. none;
    check_signature = λ cert algorithm signed signature. false;
    verify_certificate = λ cert opts. false;
  };
  digests = record {
    algorithm = λ digest. "sha256";
    encoded = λ digest. digest;
    from_bytes = λ content. content;
    decode_hex = λ digest. some digest;
  };
  unmarshal_tst_info = λ content. none;
}

abbrev pub sample_metadata : Metadata
sample_metadata = record {
  name = "plugin";
  description = "a plugin";
  version = "1";
  url = "https://acme.io";
  supported_contract_versions = "1.0" ∷ [];
  capabilities = "SIGNATURE_GENERATOR" ∷ [];
}

abbrev pub sample_cert : Certificate
sample_cert = record {
  key_usage = 1;
  ext_key_usage = 3 ∷ [];
  extensions = record { id = 2 ∷ 5 ∷ 29 ∷ 15 ∷ []; critical = true } ∷ [];
  basic_constraints_valid = true;
  is_ca = false;
  public_key = ecdsa 256;
}

abbrev pub sample_descriptor : Descriptor
sample_descriptor = record {
  media_type = "text";
  digest = "sha256:00";
  size = 7;
  annotations = ("a", "1") ∷ [];
}
