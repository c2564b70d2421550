-- ===== src/Signing/Timestamps/Stamped.antt =====
-- What it takes for a time to be taken from a token.
use notation_go.Prelude.{
  sym, ◌∙◌, ℤ, less, same_int, String, false, not, Option, some, List, [], Outcome, ok, map_err,
  or_err, fail_if, All, ◌≡◌, ◌≢◌, ap, subst, >>=-eq-ok, map_err-eq-ok, or_err-eq-ok, fail_if-eq-ok,
  eq_iff,
}
use notation_go.Timestamp.Cms.Vouched.{convert_to_hash-some, compute_hash-ok, not-eq-false}
use notation_go.Timestamp.Requests.{status_granted, new_request_from_bytes, token_bytes}
use notation_go.Signing.Messages.{Bytes}
use notation_go.Signing.Library.{Library, Stamping}
use notation_go.Signing.Timestamps.{
  invalid_info, StampError, Timestamper, deref, bad_token, bad_request, bad_base64, no_response,
  accuracy_exceeded, not_granted, max_timestamp_accuracy, tsa_options, info, verify_timestamp,
  timestamp_signature,
}
use notation_go.Timestamp.Oids.{Hash, hash_of, convert_to_hash, compute_hash}
use notation_go.Timestamp.Cms.{SignerCertificate, ParsedSignedData}
use notation_go.Timestamp.Tokens.{
  hash_failed, unrecognized_hash, TstInfo, parse_signed_token, verify_token, verify_info, timestamp,
}
use notation_go.Timestamp.Tokens.Usages.{verify_token-IsAuthority, IsAuthority}

-- The token is signed by an authority, has the digest of the content, and an accuracy of at most a
-- minute as it is computed.
pub record IsStamped (stamping : Stamping) (content token_content : Bytes)
    (roots : Option (List SignerCertificate)) (time : ℤ) : Type 0 where
  pub token : ParsedSignedData
  pub parsed : parse_signed_token stamping.asn1 token_content ≡ ok token
  pub certs : List SignerCertificate
  pub some_certs : certs ≢ []
  pub authorities : All (IsAuthority stamping.asn1 token (tsa_options roots)) certs
  pub tst : TstInfo
  pub tst_read : stamping.unmarshal_tst_info token.content ≡ some tst
  pub hash : Hash
  pub hash_named : hash_of tst.message_imprint.hash_algorithm ≡ some hash
  pub imprint : stamping.asn1.hashes.digest hash content ≡ some tst.message_imprint.hashed_message
  pub accurate : less max_timestamp_accuracy (timestamp tst).1 ≡ false
  pub stamped : (timestamp tst).0 ≡ time

verify_info-ok :
    (stamping : Stamping) (tst : TstInfo) (content : Bytes)
    → verify_info stamping.asn1 tst content ≡ ok tt
    → (hash : Hash) × (hash_of tst.message_imprint.hash_algorithm ≡ some hash)
      × (stamping.asn1.hashes.digest hash content ≡ some tst.message_imprint.hashed_message)
unfolding verify_info
verify_info-ok stamping tst content h =
    let alg = tst.message_imprint.hash_algorithm in
    let hashes = stamping.asn1.hashes in
    let (hash, chosen, h₁) =
      >>=-eq-ok (or_err (convert_to_hash hashes alg) (unrecognized_hash alg)) _ h in
    let (digest, computed, h₂) = >>=-eq-ok (compute_hash hashes hash content hash_failed) _ h₁ in
    let same =
      (eq_iff tst.message_imprint.hashed_message digest).0
        (not-eq-false _ (fail_if-eq-ok _ _ h₂)) in
    (
      hash,
      (convert_to_hash-some hashes alg hash (or_err-eq-ok _ _ chosen)).0,
      compute_hash-ok hashes hash content digest hash_failed computed ∙ ap some (sym same),
    )

time-inj : {a b : ℤ} → ◌≡◌ {A = Outcome StampError ℤ} (ok a) (ok b) → a ≡ b
time-inj h = cc

pub verify_timestamp-IsStamped :
    (stamping : Stamping) (content token_content : Bytes) (roots : Option (List SignerCertificate))
    (time : ℤ)
    → verify_timestamp stamping content token_content roots ≡ ok time
    → IsStamped stamping content token_content roots time
unfolding verify_timestamp info
verify_timestamp-IsStamped stamping content token_content roots time h =
    let (token, parsed, h₁) =
      >>=-eq-ok (map_err bad_token (parse_signed_token stamping.asn1 token_content)) _ h in
    let (certs, verified, h₂) =
      >>=-eq-ok (map_err bad_token (verify_token stamping.asn1 token (tsa_options roots))) _ h₁ in
    let (tst, read, h₃) =
      >>=-eq-ok
        (map_err bad_token (or_err (stamping.unmarshal_tst_info token.content) invalid_info)) _
        h₂ in
    let (_, imprint, h₄) =
      >>=-eq-ok (map_err bad_token (verify_info stamping.asn1 tst content)) _ h₃ in
    let (_, accurate, h₅) =
      >>=-eq-ok
        (fail_if (less max_timestamp_accuracy (timestamp tst).1)
          (accuracy_exceeded (timestamp tst).1))
        _ h₄ in
    let (some_certs, authorities) =
      verify_token-IsAuthority stamping.asn1 token (tsa_options roots) certs
        (map_err-eq-ok bad_token _ verified) in
    let (hash, named, digest) =
      verify_info-ok stamping tst content (map_err-eq-ok bad_token _ imprint) in
    record {
      token = token;
      parsed = map_err-eq-ok bad_token _ parsed;
      certs = certs;
      some_certs = some_certs;
      authorities = authorities;
      tst = tst;
      tst_read = or_err-eq-ok _ _ (map_err-eq-ok bad_token _ read);
      hash = hash;
      hash_named = named;
      imprint = digest;
      accurate = fail_if-eq-ok _ _ accurate;
      stamped = time-inj h₅;
    }

bytes-inj : {a b : Bytes} → ◌≡◌ {A = Outcome StampError Bytes} (ok a) (ok b) → a ≡ b
bytes-inj h = cc

-- A token that timestampSignature returns is accepted by verifyTimestamp for the decoded signature,
-- with the same roots.
pub timestamp_signature-verify_timestamp :
    (stamping : Stamping) (lib : Library) (sig : String) (tsa : Timestamper)
    (roots : Option (List SignerCertificate)) (token_content : Bytes)
    → timestamp_signature stamping lib sig tsa roots ≡ ok token_content
    → (decoded : Bytes) × (time : ℤ) × (lib.decode_base64 sig ≡ some decoded)
      × (verify_timestamp stamping decoded token_content roots ≡ ok time)
unfolding timestamp_signature
timestamp_signature-verify_timestamp stamping lib sig tsa roots token_content h =
    let (decoded, read, h₁) = >>=-eq-ok (or_err (lib.decode_base64 sig) bad_base64) _ h in
    let (req, asked, h₂) =
      >>=-eq-ok (map_err bad_request (new_request_from_bytes stamping.digests decoded)) _ h₁ in
    let (answer, answered, h₂') = >>=-eq-ok (map_err no_response (tsa req)) _ h₂ in
    let (resp, _, h₃) = >>=-eq-ok (deref answer) _ h₂' in
    let (_, granted, h₄) =
      >>=-eq-ok
        (fail_if (not (same_int resp.status.status status_granted))
          (not_granted resp.status.status))
        _ h₃ in
    let (time, verified, h₅) =
      >>=-eq-ok (verify_timestamp stamping decoded (token_bytes resp) roots) _ h₄ in
    (
      decoded,
      time,
      or_err-eq-ok _ _ read,
      subst (λ t. verify_timestamp stamping decoded t roots ≡ ok time) (bytes-inj h₅) verified,
    )
