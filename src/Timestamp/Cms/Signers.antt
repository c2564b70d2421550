-- ===== src/Timestamp/Cms/Signers.antt =====
-- internal/crypto/cms/signed.go: `Verify`. A Go map has no order; here it keeps the order of insertion.
use notation_go.Prelude.{
  String, Option, none, some, List, [], ◌∷◌, map, Outcome, ok, err, panic, ◌>>=◌, ◌>>◌, fail_if,
  str_eq, length, ◌==◌, if◌then◌else◌,
}
use notation_go.Timestamp.Oids.{sha_256, compute_hash}
use notation_go.Timestamp.Cms.{
  SignerCertificate, VerifyOptions, SignerInfo, ParsedSignedData, CmsError, signer_not_found,
  certificate_not_found, compute_hash_failed, Asn1, verify_signer,
}

abbrev pub SignerMap : Type 0
SignerMap = List (String × SignerCertificate)

-- `verifiedSignerMap[key] = cert`
unfoldable pub store : String → SignerCertificate → SignerMap → SignerMap
store key cert [] = (key, cert) ∷ []
store key cert ((k, c) ∷ m) =
    let rest = store key cert m in if str_eq key k then (k, cert) ∷ m else (k, c) ∷ rest

module _ (lib : Asn1) (d : ParsedSignedData) where
  -- The loop over the signers, with the map and the last error.
  unfoldable pub verify_signers :
      VerifyOptions SignerCertificate
      → List SignerInfo
      → SignerMap
      → Option CmsError
      → Outcome CmsError (SignerMap × Option CmsError)
  unfolding store
  verify_signers opts [] verified last_err = ok (verified, last_err)
  verify_signers opts (signer ∷ signers) verified last_err =
      elim (verify_signer lib d opts signer) [
        | err e ↦ verify_signers opts signers verified (some e)
        | panic ↦ panic
        | ok cert ↦ compute_hash lib.hashes sha_256 cert.raw compute_hash_failed >>= λ thumbprint.
            verify_signers opts signers (store (lib.encode_hex thumbprint) cert verified) last_err
      ]

  -- What is returned after the loop; without an error that is an empty list.
  unfoldable pub verified_signers :
      SignerMap × Option CmsError → Outcome CmsError (List SignerCertificate)
  verified_signers ([], some e) = err e
  verified_signers (verified, last_err) = ok (map (λ kc. kc.1) verified)

  -- `opts.Intermediates = intermediates`
  abbrev pub with_intermediates : VerifyOptions SignerCertificate → VerifyOptions SignerCertificate
  with_intermediates opts = record opts { intermediates = d.certificates }

  -- `Verify`
  unfoldable pub verify :
      VerifyOptions SignerCertificate → Outcome CmsError (List SignerCertificate)
  unfolding verify_signers verified_signers
  verify opts = do
    fail_if (length d.signers == 0) signer_not_found
    fail_if (length d.certificates == 0) certificate_not_found
    loop ← verify_signers (with_intermediates opts) d.signers [] none
    verified_signers loop
