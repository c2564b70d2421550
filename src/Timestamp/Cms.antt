-- ===== src/Timestamp/Cms.antt =====
-- internal/crypto/cms: signed data, and the verification of one signer; Cms/Signers is that of them
-- all.
pub mod Signers
pub mod Vouched
pub mod Rounds
pub mod Verified
pub mod Panics
use notation_go.Prelude.{
  ℕ, ℤ, same_int, less, String, Bool, true, false, not, ◌&&◌, ◌||◌, Option, none, some, List, [],
  ◌∷◌, Outcome, ok, err, ◌>>=◌, ◌>>◌, or_err, fail_if, str_eq, length, ltb, ◌==◌, if◌then◌else◌,
}
use notation_go.Signing.Certificates.{oid_equal}
use notation_go.Signing.Messages.{Bytes}
use notation_go.Timestamp.Oids.{
  Oid, content_type_oid, message_digest_oid, signing_time_oid, signed_data_oid, Hashes,
  X509Algorithm, convert_to_hash, compute_hash, get_signature_algorithm_from_oid,
}

-- What the package reads of an `x509.Certificate`.
pub record SignerCertificate : Type 0 where
  pub raw : Bytes
  pub raw_issuer : Bytes
  pub serial_number : ℤ
  pub not_before : ℤ
  pub not_after : ℤ
  pub ext_key_usage : List ℕ
  pub unknown_ext_key_usage : List Oid

-- `x509.VerifyOptions`, for the certificates of one package; no roots are the system's. Times count
-- from the zero time of Go, at which a certificate is verified for the present.
pub record VerifyOptions (C : Type 0) : Type 0 where
  pub roots : Option (List C)
  pub intermediates : List C
  pub key_usages : List ℕ
  pub current_time : ℤ

pub record ContentInfo : Type 0 where
  pub content_type : Oid
  pub content : Bytes

pub record Attribute : Type 0 where
  pub type : Oid
  pub values : Bytes

pub record IssuerAndSerialNumber : Type 0 where
  pub issuer : Bytes
  pub serial_number : ℤ

pub record SignerInfo : Type 0 where
  pub version : ℤ
  pub signer_identifier : IssuerAndSerialNumber
  pub digest_algorithm : Oid
  pub signed_attributes : List Attribute
  pub signature_algorithm : Oid
  pub signature : Bytes
  pub unsigned_attributes : List Attribute

pub record EncapsulatedContentInfo : Type 0 where
  pub content_type : Oid
  pub content : Bytes

-- The lists of revoked certificates are stored and not read.
pub record SignedData : Type 0 where
  pub version : ℤ
  pub encapsulated_content_info : EncapsulatedContentInfo
  pub certificates : Bytes
  pub crls : List Bytes
  pub signer_infos : List SignerInfo

pub record ParsedSignedData : Type 0 where
  pub content : Bytes
  pub content_type : Oid
  pub certificates : List SignerCertificate
  pub crls : List Bytes
  pub signers : List SignerInfo

pub data CmsError : Type 0 where
  invalid_content_info expect_signed_data invalid_signed_data : CmsError
  signer_not_found certificate_not_found untrusted_certificate unknown_algorithm : CmsError
  invalid_signed_attributes invalid_signature invalid_content_type mismatch_content_type : CmsError
  invalid_message_digest unsupported_digest hash_failure mismatch_message_digest : CmsError
  invalid_signing_time inactive_certificate compute_hash_failed : CmsError

-- What the package uses of encoding/asn1 and crypto/x509; none and false stand for an error.
pub record Asn1 : Type 0 where
  pub hashes : Hashes
  pub encode_hex : Bytes → String
  pub unmarshal_content_info : List ℕ → Option ContentInfo
  pub unmarshal_signed_data : Bytes → Option SignedData
  pub parse_certificates : Bytes → Option (List SignerCertificate)
  pub marshal_attributes : List Attribute → Option Bytes
  pub unmarshal_oid : Bytes → Option Oid
  pub unmarshal_octets : Bytes → Option Bytes
  pub unmarshal_time : Bytes → Option ℤ
  pub check_signature : SignerCertificate → X509Algorithm → Bytes → Bytes → Bool
  pub verify_certificate : SignerCertificate → VerifyOptions SignerCertificate → Bool

pub data Attempt (A : Type 0) : Type 0 where
  found : A → Attempt A
  malformed missing : Attempt A

-- `TryGet`, for the type that `unmarshal` reads.
unfoldable pub try_get : {A : Type 0} → (Bytes → Option A) → Oid → List Attribute → Attempt A
unfolding oid_equal
try_get unmarshal identifier [] = missing
try_get unmarshal identifier (attribute ∷ attributes) =
    if oid_equal identifier attribute.type
    then elim (unmarshal attribute.values) [ none ↦ malformed | some a ↦ found a ]
    else try_get unmarshal identifier attributes

-- An attribute that has to be there.
unfoldable pub require : {A : Type 0} → Attempt A → CmsError → Outcome CmsError A
require (found a) e = ok a
require malformed e = err e
require missing e = err e

-- The signing time may be missing.
unfoldable pub check_signing_time : SignerCertificate → Attempt ℤ → Outcome CmsError (Unit {0})
check_signing_time cert missing = ok tt
check_signing_time cert malformed = err invalid_signing_time
check_signing_time cert (found time) =
    fail_if (less time cert.not_before || less cert.not_after time) inactive_certificate

-- `getCertificate`
unfoldable pub get_certificate :
    List SignerCertificate → IssuerAndSerialNumber → Option SignerCertificate
get_certificate [] ref = none
get_certificate (cert ∷ certs) ref =
    if str_eq cert.raw_issuer ref.issuer && same_int cert.serial_number ref.serial_number
    then some cert
    else get_certificate certs ref

module _ (lib : Asn1) where
  -- `ParseSignedData`
  unfoldable pub parse_signed_data : List ℕ → Outcome CmsError ParsedSignedData
  unfolding oid_equal
  parse_signed_data data' = do
    content_info ← or_err (lib.unmarshal_content_info data') invalid_content_info
    fail_if (not (oid_equal signed_data_oid content_info.content_type)) expect_signed_data
    signed_data ← or_err (lib.unmarshal_signed_data content_info.content) invalid_signed_data
    certs ← or_err (lib.parse_certificates signed_data.certificates) invalid_signed_data
    ok (record {
      content = signed_data.encapsulated_content_info.content;
      content_type = signed_data.encapsulated_content_info.content_type;
      certificates = certs;
      crls = signed_data.crls;
      signers = signed_data.signer_infos;
    })

  -- What the signature is over: the attributes, if there are any.
  unfoldable pub signed_bytes : ParsedSignedData → SignerInfo → Outcome CmsError Bytes
  signed_bytes d signer =
      if ltb 0 (length signer.signed_attributes)
      then or_err (lib.marshal_attributes signer.signed_attributes) invalid_signed_attributes
      else ok d.content

  -- The second half of `verifySignature`, on the attributes.
  unfoldable pub verify_attributes :
      ParsedSignedData → SignerInfo → SignerCertificate → Outcome CmsError (Unit {0})
  unfolding oid_equal try_get require convert_to_hash compute_hash check_signing_time
  verify_attributes d signer cert = do
    content_type ←
        require (try_get (lib.unmarshal_oid) content_type_oid signer.signed_attributes)
          invalid_content_type
    fail_if (not (oid_equal d.content_type content_type)) mismatch_content_type
    expected_digest ←
        require (try_get (lib.unmarshal_octets) message_digest_oid signer.signed_attributes)
          invalid_message_digest
    hash ← or_err (convert_to_hash lib.hashes signer.digest_algorithm) unsupported_digest
    actual_digest ← compute_hash lib.hashes hash d.content hash_failure
    fail_if (not (str_eq expected_digest actual_digest)) mismatch_message_digest
    check_signing_time cert (try_get (lib.unmarshal_time) signing_time_oid signer.signed_attributes)

  -- `verifySignature`
  unfoldable pub verify_signature :
      ParsedSignedData → SignerInfo → SignerCertificate → Outcome CmsError (Unit {0})
  unfolding get_signature_algorithm_from_oid signed_bytes verify_attributes
  verify_signature d signer cert = do
    algorithm ←
        or_err (get_signature_algorithm_from_oid signer.digest_algorithm signer.signature_algorithm)
          unknown_algorithm
    signed ← signed_bytes d signer
    fail_if (not (lib.check_signature cert algorithm signed signer.signature)) invalid_signature
    if length signer.signed_attributes == 0 then ok tt else verify_attributes d signer cert

  -- `verify`; the certificate that it returns next to an error is not used.
  unfoldable pub verify_signer :
      ParsedSignedData
      → VerifyOptions SignerCertificate
      → SignerInfo
      → Outcome CmsError SignerCertificate
  unfolding get_certificate verify_signature
  verify_signer d opts signer = do
    cert ← or_err (get_certificate d.certificates signer.signer_identifier) certificate_not_found
    fail_if (not (lib.verify_certificate cert opts)) untrusted_certificate
    verify_signature d signer cert
    ok cert
