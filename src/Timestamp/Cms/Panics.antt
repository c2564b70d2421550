-- ===== src/Timestamp/Cms/Panics.antt =====
-- Signed data is verified without a panic, where SHA-256 is linked.
use notation_go.Prelude.{
  str_eq, not, length, fail_if, Bool, Bool, false, if◌then◌else◌, ◌==◌, true, Option, none, some,
  List, [], ◌∷◌, Outcome, ok, panic, or_err, ◌≡◌, ◌≢◌, arith, >>=-ne-panic, or_err-ne-panic,
  or_err-eq-ok, fail_if-ne-panic, Outcome-cases, inl, inr,
}
use notation_go.Signing.Messages.{Bytes}
use notation_go.Timestamp.Oids.{Hash, Hashes, Oid, sha_256, convert_to_hash, compute_hash}
use notation_go.Timestamp.Cms.{
  mismatch_message_digest, signer_not_found, hash_failure, unsupported_digest,
  invalid_message_digest, message_digest_oid, mismatch_content_type, untrusted_certificate,
  invalid_signature, oid_equal, invalid_content_type, certificate_not_found, unknown_algorithm,
  content_type_oid, get_certificate, get_signature_algorithm_from_oid, try_get, SignerCertificate,
  VerifyOptions, SignerInfo, ParsedSignedData, CmsError, Attempt, found, malformed, missing, Asn1,
  require, check_signing_time, parse_signed_data, signed_bytes, verify_attributes, verify_signature,
  verify_signer, compute_hash_failed,
}
use notation_go.Timestamp.Cms.Signers.{
  with_intermediates, SignerMap, verify_signers, verified_signers, verify,
}
use notation_go.Timestamp.Cms.Vouched.{convert_to_hash-some}

pub compute_hash-ne-panic :
    {E : Type 0} (hashes : Hashes) (hash : Hash) (message : Bytes) (e : E)
    → hashes.available hash ≡ true
    → compute_hash hashes hash message e ≢ panic
unfolding compute_hash
compute_hash-ne-panic hashes hash message e linked =
    rw linked (or_err-ne-panic (hashes.digest hash message) e)

-- A hash that `ConvertToHash` returns is linked.
pub convert_to_hash-linked :
    {E F : Type 0} (hashes : Hashes) (alg : Oid) (hash : Hash) (message : Bytes) (e : E) (f : F)
    → or_err (convert_to_hash hashes alg) e ≡ ok hash
    → compute_hash hashes hash message f ≢ panic
convert_to_hash-linked hashes alg hash message e f h =
    compute_hash-ne-panic hashes hash message f
      (convert_to_hash-some hashes alg hash (or_err-eq-ok _ _ h)).1

require-ne-panic : {A : Type 0} (o : Attempt A) (e : CmsError) → require o e ≢ panic
unfolding require
require-ne-panic (found a) e = λ z. cc z
require-ne-panic malformed e = λ z. cc z
require-ne-panic missing e = λ z. cc z

check_signing_time-ne-panic :
    (cert : SignerCertificate) (o : Attempt _) → check_signing_time cert o ≢ panic
unfolding check_signing_time
check_signing_time-ne-panic cert (found time) = fail_if-ne-panic _ _
check_signing_time-ne-panic cert malformed = λ z. cc z
check_signing_time-ne-panic cert missing = λ z. cc z

verified_signers-ne-panic :
    (lib : Asn1) (d : ParsedSignedData) (loop : SignerMap × Option CmsError)
    → verified_signers lib d loop ≢ panic
unfolding verified_signers
verified_signers-ne-panic lib d ([], some e) = λ z. cc z
verified_signers-ne-panic lib d ([], none) = λ z. cc z
verified_signers-ne-panic lib d (x ∷ m, last_err) = λ z. cc z

if-ne-panic :
    {E A : Type 0} (b : Bool) (m k : Outcome E A)
    → m ≢ panic
    → k ≢ panic
    → (if b then m else k) ≢ panic
if-ne-panic true m k p q = p
if-ne-panic false m k p q = q

module _ (lib : Asn1) where
  pub parse_signed_data-ne-panic : (data' : List _) → parse_signed_data lib data' ≢ panic
  unfolding parse_signed_data
  parse_signed_data-ne-panic data' = ground arith

  verify_attributes-ne-panic :
      (d : ParsedSignedData) (signer : SignerInfo) (cert : SignerCertificate)
      → verify_attributes lib d signer cert ≢ panic
  unfolding verify_attributes
  verify_attributes-ne-panic d signer cert =
      >>=-ne-panic
        (require (try_get lib.unmarshal_oid content_type_oid signer.signed_attributes)
          invalid_content_type)
        _ (require-ne-panic _ _)
        (λ content_type _.
          >>=-ne-panic (fail_if (not (oid_equal d.content_type content_type)) mismatch_content_type)
            _ (fail_if-ne-panic _ _)
            (λ _ _.
              >>=-ne-panic
                (require (try_get lib.unmarshal_octets message_digest_oid signer.signed_attributes)
                  invalid_message_digest)
                _ (require-ne-panic _ _)
                (λ expected _.
                  >>=-ne-panic
                    (or_err (convert_to_hash lib.hashes signer.digest_algorithm) unsupported_digest)
                    _ (or_err-ne-panic _ _)
                    (λ hash chosen.
                      >>=-ne-panic (compute_hash lib.hashes hash d.content hash_failure) _
                        (convert_to_hash-linked lib.hashes signer.digest_algorithm hash d.content
                          unsupported_digest hash_failure chosen)
                        (λ actual _.
                          >>=-ne-panic
                            (fail_if (not (str_eq expected actual)) mismatch_message_digest) _
                            (fail_if-ne-panic _ _) (λ _ _. check_signing_time-ne-panic cert _))))))

  signed_bytes-ne-panic :
      (d : ParsedSignedData) (signer : SignerInfo) → signed_bytes lib d signer ≢ panic
  unfolding signed_bytes
  signed_bytes-ne-panic d signer =
      ground (arith, or_err-ne-panic (lib.marshal_attributes signer.signed_attributes))

  verify_signature-ne-panic :
      (d : ParsedSignedData) (signer : SignerInfo) (cert : SignerCertificate)
      → verify_signature lib d signer cert ≢ panic
  unfolding verify_signature
  verify_signature-ne-panic d signer cert =
      >>=-ne-panic
        (or_err
          (get_signature_algorithm_from_oid signer.digest_algorithm signer.signature_algorithm)
          unknown_algorithm)
        _ (or_err-ne-panic _ _)
        (λ algorithm _.
          >>=-ne-panic (signed_bytes lib d signer) _ (signed_bytes-ne-panic d signer) (λ signed _.
            >>=-ne-panic
              (fail_if (not (lib.check_signature cert algorithm signed signer.signature))
                invalid_signature)
              _ (fail_if-ne-panic _ _)
              (λ _ _.
                if-ne-panic (length signer.signed_attributes == 0) (ok tt)
                  (verify_attributes lib d signer cert) (λ z. cc z)
                  (verify_attributes-ne-panic d signer cert))))

  verify_signer-ne-panic :
      (d : ParsedSignedData) (opts : VerifyOptions SignerCertificate) (signer : SignerInfo)
      → verify_signer lib d opts signer ≢ panic
  unfolding verify_signer
  verify_signer-ne-panic d opts signer =
      >>=-ne-panic
        (or_err (get_certificate d.certificates signer.signer_identifier) certificate_not_found) _
        (or_err-ne-panic _ _)
        (λ cert _.
          >>=-ne-panic (fail_if (not (lib.verify_certificate cert opts)) untrusted_certificate) _
            (fail_if-ne-panic _ _)
            (λ _ _.
              >>=-ne-panic (verify_signature lib d signer cert) _
                (verify_signature-ne-panic d signer cert) (λ _ _ z. cc z)))

module _ (lib : Asn1) (linked : lib.hashes.available sha_256 ≡ true) (d : ParsedSignedData)
    (opts : VerifyOptions SignerCertificate) where
  verify_signers-ne-panic :
      (signers : List SignerInfo) (verified : SignerMap) (last_err : Option CmsError)
      → verify_signers lib d opts signers verified last_err ≢ panic
  unfolding verify_signers
  verify_signers-ne-panic [] verified last_err = λ z. cc z
  verify_signers-ne-panic (signer ∷ signers) verified last_err =
      elim (Outcome-cases (verify_signer lib d opts signer)) [
        | inl (cert, e) ↦
            rw (verify_signers, e)
              (>>=-ne-panic (compute_hash lib.hashes sha_256 cert.raw compute_hash_failed) _
                (compute_hash-ne-panic lib.hashes sha_256 cert.raw _ linked)
                (λ thumbprint _. verify_signers-ne-panic signers _ last_err))
        | inr (inl (failure, e)) ↦
            rw (verify_signers, e) (verify_signers-ne-panic signers verified (some failure))
        | inr (inr e) ↦ absurd (verify_signer-ne-panic lib d opts signer e)
      ]

pub verify-ne-panic :
    (lib : Asn1) (d : ParsedSignedData) (opts : VerifyOptions SignerCertificate)
    → lib.hashes.available sha_256 ≡ true
    → verify lib d opts ≢ panic
unfolding verify
verify-ne-panic lib d opts linked =
    >>=-ne-panic (fail_if (length d.signers == 0) signer_not_found) _ (fail_if-ne-panic _ _) (λ _ _.
      >>=-ne-panic (fail_if (length d.certificates == 0) certificate_not_found) _
        (fail_if-ne-panic _ _)
        (λ _ _.
          >>=-ne-panic (verify_signers lib d (with_intermediates lib d opts) d.signers [] none) _
            (verify_signers-ne-panic lib linked d _ d.signers [] none)
            (λ loop _. verified_signers-ne-panic lib d loop)))
