-- ===== src/Timestamp/Cms/Vouched.antt =====
-- What it means that a signer vouches for signed data, and that `Verify` returns only such signers.
use notation_go.Prelude.{
  subst, or_err-eq-ok, sym, fail_if-eq-ok, fail_if, or_err, length-nil, >>=-eq-ok, ℤ, ap,
  same_int_iff, ◌==◌, if◌then◌else◌, length, less, Bool, true, false, not, Option, some, List, [],
  ◌∷◌, Outcome, ok, Any, ◌≡◌, ◌⊎◌, refl, arith, eq_iff, str_eq,
}
use notation_go.Signing.Certificates.Laws.{oid_equal_iff}
use notation_go.Signing.Messages.{Bytes}
use notation_go.Timestamp.Oids.{
  Oid, content_type_oid, message_digest_oid, signing_time_oid, Hash, Hashes, hash_of,
  convert_to_hash, compute_hash, X509Algorithm, get_signature_algorithm_from_oid,
}
use notation_go.Timestamp.Cms.{
  oid_equal, mismatch_message_digest, hash_failure, invalid_signature, unsupported_digest,
  unknown_algorithm, invalid_message_digest, untrusted_certificate, mismatch_content_type,
  certificate_not_found, invalid_content_type, check_signing_time, compute_hash, SignerCertificate,
  VerifyOptions, Attribute, IssuerAndSerialNumber, SignerInfo, ParsedSignedData, Asn1, CmsError,
  Attempt, malformed, missing, require, try_get, signed_bytes, found, get_certificate,
  verify_attributes, verify_signature, verify_signer,
}

-- An attribute of this type that has this value.
abbrev pub HasAttribute : {A : Type 0} → (Bytes → Option A) → Oid → List Attribute → A → Type 0
HasAttribute unmarshal identifier attributes a =
    Any (λ t. (t.type ≡ identifier) × (unmarshal t.values ≡ some a)) attributes

-- The attributes name the content: its type, and its digest under the algorithm of the signer. A
-- signing time, of which the first counts, lies in the validity of the certificate.
pub record IsBound (lib : Asn1) (d : ParsedSignedData) (signer : SignerInfo)
    (cert : SignerCertificate) : Type 0 where
  pub type_bound :
      HasAttribute (lib.unmarshal_oid) content_type_oid signer.signed_attributes d.content_type
  pub hash : Hash
  pub hash_chosen : hash_of signer.digest_algorithm ≡ some hash
  pub expected : Bytes
  pub digest_computed : lib.hashes.digest hash d.content ≡ some expected
  pub digest_bound :
      HasAttribute (lib.unmarshal_octets) message_digest_oid signer.signed_attributes expected
  pub in_time :
      (time : ℤ)
      → try_get (lib.unmarshal_time) signing_time_oid signer.signed_attributes ≡ found time
      → (less time cert.not_before ≡ false) × (less cert.not_after time ≡ false)

-- The certificate is listed and trusted, and its key has signed the content, or attributes that are
-- bound to the content.
pub record IsAttested (lib : Asn1) (d : ParsedSignedData) (opts : VerifyOptions SignerCertificate)
    (signer : SignerInfo) (cert : SignerCertificate) : Type 0 where
  pub listed : Any (λ c. c ≡ cert) d.certificates
  pub issuer_matches : cert.raw_issuer ≡ signer.signer_identifier.issuer
  pub serial_matches : cert.serial_number ≡ signer.signer_identifier.serial_number
  pub trusted : lib.verify_certificate cert opts ≡ true
  pub algorithm : X509Algorithm
  pub algorithm_chosen :
      get_signature_algorithm_from_oid signer.digest_algorithm signer.signature_algorithm
      ≡ some algorithm
  pub signed : Bytes
  pub checked : lib.check_signature cert algorithm signed signer.signature ≡ true
  pub covers :
      ((signer.signed_attributes ≡ []) × (signed ≡ d.content))
      ⊎ ((lib.marshal_attributes signer.signed_attributes ≡ some signed)
          × IsBound lib d signer cert)

module _ {A : Type 0} (unmarshal : Bytes → Option A) (identifier : Oid) where
  try_get-found :
      (attributes : List Attribute) (a : A)
      → try_get unmarshal identifier attributes ≡ found a
      → HasAttribute unmarshal identifier attributes a
  unfolding try_get
  try_get-found [] a h = cc
  try_get-found (t ∷ attributes) a h =
      ground (arith, oid_equal_iff identifier t.type, try_get-found attributes a)

get_certificate-some :
    (certs : List SignerCertificate) (ref : IssuerAndSerialNumber) (cert : SignerCertificate)
    → get_certificate certs ref ≡ some cert
    → Any (λ c. c ≡ cert) certs
      × (cert.raw_issuer ≡ ref.issuer)
      × (cert.serial_number ≡ ref.serial_number)
unfolding get_certificate
get_certificate-some [] ref cert h = cc
get_certificate-some (c ∷ certs) ref cert h = ground (
  arith,
  eq_iff c.raw_issuer ref.issuer,
  same_int_iff c.serial_number ref.serial_number,
  get_certificate-some certs ref cert,
)

require-ok : {A : Type 0} (x : Attempt A) (e : CmsError) (a : A) → require x e ≡ ok a → x ≡ found a
unfolding require
require-ok (found b) e a h = ap found (cc)
require-ok malformed e a h = cc
require-ok missing e a h = cc

pub convert_to_hash-some :
    (hashes : Hashes) (alg : Oid) (hash : Hash)
    → convert_to_hash hashes alg ≡ some hash
    → (hash_of alg ≡ some hash) × (hashes.available hash ≡ true)
unfolding convert_to_hash
convert_to_hash-some hashes alg hash h = ground arith

pub compute_hash-ok :
    {E : Type 0} (hashes : Hashes) (hash : Hash) (message digest : Bytes) (e : E)
    → compute_hash hashes hash message e ≡ ok digest
    → hashes.digest hash message ≡ some digest
unfolding compute_hash
compute_hash-ok hashes hash message digest e h = ground arith

check_signing_time-ok :
    (cert : SignerCertificate) (x : Attempt ℤ)
    → check_signing_time cert x ≡ ok tt
    → (time : ℤ) → x ≡ found time
    → (less time cert.not_before ≡ false) × (less cert.not_after time ≡ false)
unfolding check_signing_time
check_signing_time-ok cert x h time f = ground arith

ok-inj :
    {a b : SignerCertificate} → ◌≡◌ {A = Outcome CmsError SignerCertificate} (ok a) (ok b) → a ≡ b
ok-inj h = cc

pub not-eq-false : (b : Bool) → not b ≡ false → b ≡ true
not-eq-false true h = refl
not-eq-false false h = cc

module _ (lib : Asn1) (d : ParsedSignedData) (signer : SignerInfo) (cert : SignerCertificate) where
  verify_attributes-ok : verify_attributes lib d signer cert ≡ ok tt → IsBound lib d signer cert
  unfolding verify_attributes
  verify_attributes-ok h =
      let (content_type, typed, h₁) =
        >>=-eq-ok
          (require (try_get (lib.unmarshal_oid) content_type_oid signer.signed_attributes)
            invalid_content_type)
          _ h in
      let (_, same, h₂) =
        >>=-eq-ok (fail_if (not (oid_equal d.content_type content_type)) mismatch_content_type) _
          h₁ in
      let (expected, given, h₃) =
        >>=-eq-ok
          (require (try_get (lib.unmarshal_octets) message_digest_oid signer.signed_attributes)
            invalid_message_digest)
          _ h₂ in
      let (hash, chosen, h₄) =
        >>=-eq-ok (or_err (convert_to_hash lib.hashes signer.digest_algorithm) unsupported_digest) _
          h₃ in
      let (actual, computed, h₅) =
        >>=-eq-ok (compute_hash lib.hashes hash d.content hash_failure) _ h₄ in
      let (_, equal, h₆) =
        >>=-eq-ok (fail_if (not (str_eq expected actual)) mismatch_message_digest) _ h₅ in
      let same_type =
        (oid_equal_iff d.content_type content_type).0 (not-eq-false _ (fail_if-eq-ok _ _ same)) in
      let same_digest = (eq_iff expected actual).0 (not-eq-false _ (fail_if-eq-ok _ _ equal)) in
      let found_type =
        try_get-found (lib.unmarshal_oid) content_type_oid signer.signed_attributes content_type
          (require-ok _ _ _ typed) in
      let found_digest =
        try_get-found (lib.unmarshal_octets) message_digest_oid signer.signed_attributes expected
          (require-ok _ _ _ given) in
      record {
        type_bound = rw (sym same_type) at found_type;
        hash = hash;
        hash_chosen =
            (convert_to_hash-some lib.hashes signer.digest_algorithm hash
              (or_err-eq-ok _ _ chosen)).0;
        expected = actual;
        digest_computed = compute_hash-ok lib.hashes hash d.content actual hash_failure computed;
        digest_bound = rw same_digest at found_digest;
        in_time = check_signing_time-ok cert _ h₆;
      }

  covers-ok :
      (signed : Bytes)
      → signed_bytes lib d signer ≡ ok signed
      → (if length signer.signed_attributes == 0
          then ok tt
          else verify_attributes lib d signer cert)
        ≡ ok tt
      → ((signer.signed_attributes ≡ []) × (signed ≡ d.content))
        ⊎ ((lib.marshal_attributes signer.signed_attributes ≡ some signed)
            × IsBound lib d signer cert)
  unfolding signed_bytes
  covers-ok signed h k = ground (arith, length-nil signer.signed_attributes, verify_attributes-ok)

module _ (lib : Asn1) (d : ParsedSignedData) (opts : VerifyOptions SignerCertificate)
    (signer : SignerInfo) (cert : SignerCertificate) where
  trusted-IsAttested :
      get_certificate d.certificates signer.signer_identifier ≡ some cert
      → lib.verify_certificate cert opts ≡ true
      → verify_signature lib d signer cert ≡ ok tt
      → IsAttested lib d opts signer cert
  unfolding verify_signature
  trusted-IsAttested find trust signature =
      let (algorithm, choice, h₁) =
        >>=-eq-ok
          (or_err
            (get_signature_algorithm_from_oid signer.digest_algorithm signer.signature_algorithm)
            unknown_algorithm)
          _ signature in
      let (signed, bytes, h₂) = >>=-eq-ok (signed_bytes lib d signer) _ h₁ in
      let (_, check, h₃) =
        >>=-eq-ok
          (fail_if (not (lib.check_signature cert algorithm signed signer.signature))
            invalid_signature)
          _ h₂ in
      let (listed, issuer, serial) =
        get_certificate-some d.certificates signer.signer_identifier cert find in
      record {
        listed = listed;
        issuer_matches = issuer;
        serial_matches = serial;
        trusted = trust;
        algorithm = algorithm;
        algorithm_chosen = or_err-eq-ok _ _ choice;
        signed = signed;
        checked = not-eq-false _ (fail_if-eq-ok _ _ check);
        covers = covers-ok lib d signer cert signed bytes h₃;
      }

pub verify_signer-IsAttested :
    (lib : Asn1) (d : ParsedSignedData) (opts : VerifyOptions SignerCertificate)
    (signer : SignerInfo) (cert : SignerCertificate)
    → verify_signer lib d opts signer ≡ ok cert
    → IsAttested lib d opts signer cert
unfolding verify_signer
verify_signer-IsAttested lib d opts signer cert h =
    let (cert', find, h₁) =
      >>=-eq-ok
        (or_err (get_certificate d.certificates signer.signer_identifier) certificate_not_found) _
        h in
    let (_, trust, h₂) =
      >>=-eq-ok (fail_if (not (lib.verify_certificate cert' opts)) untrusted_certificate) _ h₁ in
    let (_, signature, h₃) = >>=-eq-ok (verify_signature lib d signer cert') _ h₂ in
    let attested =
      trusted-IsAttested lib d opts signer cert' (or_err-eq-ok _ _ find)
        (not-eq-false _ (fail_if-eq-ok _ _ trust)) signature in
    subst (λ c. IsAttested lib d opts signer c) (ok-inj h₃) attested
