-- ===== src/Signing/Timestamps/Panics.antt =====
-- The time stamping of a signature does not panic, if the authority does not and answers no nil pointer.
use notation_go.Prelude.{
  same_int, less, fail_if, or_err, map_err, ◌==◌, length, String, true, not, Option, none, some,
  List, ok, panic, ◌≡◌, ◌≢◌, arith, refl, ap, ◌∙◌, >>=-ne-panic, map_err-ne-panic, map_err-eq-ok,
  or_err-ne-panic, fail_if-ne-panic,
}
use notation_go.Signing.Certificates.{oid_equal}
use notation_go.Timestamp.Cms.Signers.{verify}
use notation_go.Encoding.Decoding.{convert_to_der}
use notation_go.Signing.Messages.{Bytes}
use notation_go.Signing.Library.{Library, Stamping}
use notation_go.Signing.Timestamps.{
  token_bytes, accuracy_exceeded, not_granted, timestamp, status_granted, max_timestamp_accuracy,
  no_response, bad_request, tsa_options, bad_base64, bad_token, Timestamper, deref, info,
  verify_timestamp, timestamp_signature,
}
use notation_go.Timestamp.Oids.{tst_info_oid, compute_hash, convert_to_hash, sha_256}
use notation_go.Timestamp.Cms.{
  parse_signed_data, SignerCertificate, VerifyOptions, Asn1, ParsedSignedData,
}
use notation_go.Timestamp.Cms.Panics.{
  convert_to_hash-linked, parse_signed_data-ne-panic, verify-ne-panic,
}
use notation_go.Timestamp.Tokens.{
  key_usages_number, keep_one_usage, unexpected_content_type, with_time_stamping, hash_failed,
  unrecognized_hash, invalid_token, TstInfo, octets, to_outcome, parse_signed_token, verify_token,
  verify_info,
}
use notation_go.Timestamp.Requests.{
  Digests, TimestampRequest, get_oid_from_digest_algorithm, new_request, new_request_from_bytes,
}

to_outcome-ne-panic : {A : Type 0} (r : _) → to_outcome {A = A} r ≢ panic
unfolding to_outcome
to_outcome-ne-panic r = ground arith

new_request-ne-panic : (digests : Digests) (content : Bytes) → new_request digests content ≢ panic
unfolding new_request get_oid_from_digest_algorithm
new_request-ne-panic digests content = ground arith

module _ (asn1 : Asn1) where
  parse_signed_token-ne-panic : (data' : Bytes) → parse_signed_token asn1 data' ≢ panic
  unfolding parse_signed_token
  parse_signed_token-ne-panic data' =
      >>=-ne-panic (to_outcome (convert_to_der (octets data'))) _ (to_outcome-ne-panic _) (λ der _.
        >>=-ne-panic (map_err invalid_token (parse_signed_data asn1 der)) _
          (map_err-ne-panic _ _ (parse_signed_data-ne-panic asn1 der))
          (λ signed _.
            >>=-ne-panic
              (fail_if (not (oid_equal tst_info_oid signed.content_type))
                (unexpected_content_type signed.content_type))
              _ (fail_if-ne-panic _ _) (λ _ _ z. cc z)))

  verify_token-ne-panic :
      (t : ParsedSignedData) (opts : VerifyOptions SignerCertificate)
      → asn1.hashes.available sha_256 ≡ true
      → verify_token asn1 t opts ≢ panic
  unfolding verify_token
  verify_token-ne-panic t opts linked =
      >>=-ne-panic (map_err invalid_token (verify asn1 t (with_time_stamping opts))) _
        (map_err-ne-panic _ _ (verify-ne-panic asn1 t _ linked))
        (λ certs _.
          >>=-ne-panic (fail_if (length (keep_one_usage certs) == 0) key_usages_number) _
            (fail_if-ne-panic _ _) (λ _ _ z. cc z))

  verify_info-ne-panic : (tst : TstInfo) (message : Bytes) → verify_info asn1 tst message ≢ panic
  unfolding verify_info
  verify_info-ne-panic tst message =
      >>=-ne-panic
        (or_err (convert_to_hash asn1.hashes tst.message_imprint.hash_algorithm)
          (unrecognized_hash tst.message_imprint.hash_algorithm))
        _ (or_err-ne-panic _ _)
        (λ hash chosen.
          >>=-ne-panic (compute_hash asn1.hashes hash message hash_failed) _
            (convert_to_hash-linked asn1.hashes tst.message_imprint.hash_algorithm hash message _ _
              chosen)
            (λ digest _. fail_if-ne-panic _ _))

-- SHA-256 is linked.
abbrev pub IsLinked : Stamping → Type 0
IsLinked stamping = stamping.asn1.hashes.available sha_256 ≡ true

-- The authority does not panic, and answers no nil pointer.
abbrev pub IsAnswering : Timestamper → Type 0
IsAnswering tsa = (req : TimestampRequest) → (tsa req ≢ panic) × (tsa req ≢ ok none)

module _ (stamping : Stamping) (linked : IsLinked stamping) where
  info-ne-panic : (content : Bytes) → info stamping content ≢ panic
  unfolding info
  info-ne-panic content = or_err-ne-panic _ _

  verify_timestamp-ne-panic :
      (content token_content : Bytes) (roots : Option (List SignerCertificate))
      → verify_timestamp stamping content token_content roots ≢ panic
  unfolding verify_timestamp
  verify_timestamp-ne-panic content token_content roots =
      >>=-ne-panic (map_err bad_token (parse_signed_token stamping.asn1 token_content)) _
        (map_err-ne-panic _ _ (parse_signed_token-ne-panic stamping.asn1 _))
        (λ token _.
          >>=-ne-panic (map_err bad_token (verify_token stamping.asn1 token (tsa_options roots))) _
            (map_err-ne-panic _ _ (verify_token-ne-panic stamping.asn1 token _ linked))
            (λ _ _.
              >>=-ne-panic (map_err bad_token (info stamping token.content)) _
                (map_err-ne-panic _ _ (info-ne-panic token.content))
                (λ tst _.
                  >>=-ne-panic (map_err bad_token (verify_info stamping.asn1 tst content)) _
                    (map_err-ne-panic _ _ (verify_info-ne-panic stamping.asn1 tst content))
                    (λ _ _.
                      >>=-ne-panic
                        (fail_if (less max_timestamp_accuracy (timestamp tst).1)
                          (accuracy_exceeded (timestamp tst).1))
                        _ (fail_if-ne-panic _ _) (λ _ _ z. cc z)))))

  deref-ne-panic : {A : Type 0} (answer : Option A) → answer ≢ none → deref answer ≢ panic
  unfolding deref
  deref-ne-panic none n = absurd (n refl)
  deref-ne-panic (some a) n = λ z. cc z

  pub timestamp_signature-ne-panic :
      (lib : Library) (sig : String) (tsa : Timestamper) (roots : Option (List SignerCertificate))
      → IsAnswering tsa
      → timestamp_signature stamping lib sig tsa roots ≢ panic
  unfolding timestamp_signature new_request_from_bytes
  timestamp_signature-ne-panic lib sig tsa roots answers =
      >>=-ne-panic (or_err (lib.decode_base64 sig) bad_base64) _ (or_err-ne-panic _ _) (λ decoded _.
        >>=-ne-panic (map_err bad_request (new_request_from_bytes stamping.digests decoded)) _
          (map_err-ne-panic _ _ (new_request-ne-panic stamping.digests _))
          (λ req _.
            >>=-ne-panic (map_err no_response (tsa req)) _
              (map_err-ne-panic _ (tsa req) (answers req).0)
              (λ answer e.
                >>=-ne-panic (deref answer) _
                  (deref-ne-panic answer
                    (λ z. (answers req).1 (map_err-eq-ok _ (tsa req) e ∙ ap ok z)))
                  (λ resp _.
                    >>=-ne-panic
                      (fail_if (not (same_int resp.status.status status_granted))
                        (not_granted resp.status.status))
                      _ (fail_if-ne-panic _ _)
                      (λ _ _.
                        >>=-ne-panic (verify_timestamp stamping decoded (token_bytes resp) roots) _
                          (verify_timestamp-ne-panic decoded _ roots) (λ _ _ z. cc z))))))
