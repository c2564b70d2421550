-- ===== src/Timestamp/Tests.antt =====
-- Witnesses and runs of signed data and of time stamps.
use notation_go.Prelude.{
  ◌≢◌, ℕ, ◌^◌, pos, String, true, false, none, some, [], ◌∷◌, ok, err, All, Any, ◌≡◌, ◌↔◌, refl,
  str_eq, arith, same_int, less, wrap, ◌+ℤ◌, ◌*ℤ◌,
}
use notation_go.Timestamp.Oids.{
  content_type_oid, message_digest_oid, signing_time_oid, tst_info_oid, sha256, rsa_encryption,
}
use notation_go.Timestamp.Cms.{
  SignerCertificate, VerifyOptions, SignerInfo, ParsedSignedData, Asn1, certificate_not_found,
  verify_signer,
}
use notation_go.Timestamp.Cms.Signers.{verify, with_intermediates}
use notation_go.Timestamp.Cms.Vouched.{IsAttested}
use notation_go.Timestamp.Cms.Rounds.{IsRejected, HasSha256}
use notation_go.Timestamp.Cms.Verified.{verify-IsAttested, verify-IsRejected_iff}
use notation_go.Timestamp.Tokens.{TstInfo, timestamp}
use notation_go.Timestamp.Tokens.Accuracies.{nanoseconds, timestamp-HasAccuracy}

abbrev sample_cert : SignerCertificate
sample_cert = record {
  raw = "raw";
  raw_issuer = "CN=tsa";
  serial_number = pos 7;
  not_before = pos 0;
  not_after = pos 100;
  ext_key_usage = 8 ∷ [];
  unknown_ext_key_usage = [];
}

-- A signature is the text "sig" of any content, and a digest is the content itself.
abbrev sample_asn1 : Asn1
sample_asn1 = record {
  hashes = record { available = λ hash. true; digest = λ hash message. some message };
  encode_hex = λ content. content;
  unmarshal_content_info = λ content. none;
  unmarshal_signed_data = λ content. none;
  parse_certificates = λ content. none;
  marshal_attributes = λ attributes. some "attributes";
  unmarshal_oid = λ content. some tst_info_oid;
  unmarshal_octets = λ content. some content;
  unmarshal_time = λ content. some (pos 50);
  check_signature = λ cert algorithm signed signature. str_eq signature "sig";
  verify_certificate = λ cert opts. true;
}

abbrev sample_signer : String → SignerInfo
sample_signer issuer = record {
  version = pos 1;
  signer_identifier = record { issuer = issuer; serial_number = pos 7 };
  digest_algorithm = sha256;
  signed_attributes =
      record { type = content_type_oid; values = "type" }
      ∷ record { type = message_digest_oid; values = "content" }
      ∷ record { type = signing_time_oid; values = "time" }
      ∷ [];
  signature_algorithm = rsa_encryption;
  signature = "sig";
  unsigned_attributes = [];
}

abbrev sample_data : String → ParsedSignedData
sample_data issuer = record {
  content = "content";
  content_type = tst_info_oid;
  certificates = sample_cert ∷ [];
  crls = [];
  signers = sample_signer issuer ∷ [];
}

abbrev sample_options : VerifyOptions SignerCertificate
sample_options = record {
  roots = none;
  intermediates = [];
  key_usages = 8 ∷ [];
  current_time = pos 0;
}

verify_run : verify sample_asn1 (sample_data "CN=tsa") sample_options ≡ ok (sample_cert ∷ [])
unfolding verify verify_signer same_int less
verify_run = refl

verify-IsAttested_example :
    ((sample_cert ∷ []) ≢ [])
    × All
        (λ cert.
          Any
            (λ s.
              IsAttested sample_asn1
                (sample_data "CN=tsa")
                (with_intermediates sample_asn1 (sample_data "CN=tsa") sample_options)
                s
                cert)
            (sample_signer "CN=tsa" ∷ []))
        (sample_cert ∷ [])
verify-IsAttested_example =
    verify-IsAttested sample_asn1 (sample_data "CN=tsa") sample_options (sample_cert ∷ [])
      verify_run

sample_hash : HasSha256 sample_asn1
sample_hash = record { linked = refl; computed = λ message z. cc z }

verify-IsRejected_iff_example :
    (verify sample_asn1 (sample_data "CN=b") sample_options ≡ err certificate_not_found)
    ↔ IsRejected sample_asn1
        (sample_data "CN=b")
        (with_intermediates sample_asn1 (sample_data "CN=b") sample_options)
        (sample_signer "CN=b" ∷ [])
        certificate_not_found
verify-IsRejected_iff_example =
    verify-IsRejected_iff sample_asn1 (sample_data "CN=b") sample_options certificate_not_found
      (λ z. cc z) (λ z. cc z) sample_hash

abbrev stamp_of : ℕ → TstInfo
stamp_of seconds = record {
  version = pos 1;
  policy = [];
  message_imprint = record { hash_algorithm = sha256; hashed_message = "" };
  serial_number = pos 1;
  gen_time = pos 50;
  accuracy = record { seconds = pos seconds; milliseconds = pos 500; microseconds = pos 20 };
  ordering = false;
  nonce = none;
  tsa = "";
  extensions = [];
}

timestamp-HasAccuracy_example : timestamp (stamp_of 1) ≡ (pos 50, pos (nanoseconds 1 500 20))
timestamp-HasAccuracy_example =
    timestamp-HasAccuracy (stamp_of 1) 1 500 20 (refl, refl, refl) (omega arith)

-- The seconds of an accuracy of 2 ^ 55 seconds vanish in 64 bits.
overflow_run : timestamp (stamp_of (2 ^ 55)) ≡ (pos 50, pos 500020000)
unfolding timestamp wrap ◌+ℤ◌ ◌*ℤ◌
overflow_run = refl
