-- ===== src/Signing/Timestamps.antt =====
-- signature/jws: the time stamp of a signature, as the signer asks for it and the verifier checks it.
pub mod Stamped
pub mod Panics
use notation_go.Prelude.{
  [], ℕ, ℤ, pos, less, same_int, String, Bool, true, false, not, Option, none, some, List, Outcome,
  ok, err, panic, ◌>>=◌, ◌>>◌, map_err, or_err, fail_if,
}
use notation_go.Signing.Messages.{Bytes}
use notation_go.Signing.Library.{Library, Stamping}
use notation_go.Timestamp.Cms.{SignerCertificate, VerifyOptions}
use notation_go.Timestamp.Tokens.{
  TstInfo, TokenError, invalid_info, parse_signed_token, verify_token, verify_info, timestamp,
}
use notation_go.Timestamp.Requests.{
  TimestampRequest, TimestampResponse, RequestFailure, status_granted, new_request_from_bytes,
  token_bytes,
}

-- `maxTimestampAccuracy`, in nanoseconds.
abbrev pub max_timestamp_accuracy : ℤ
max_timestamp_accuracy = pos 60000000000

pub data StampError : Type 0 where
  bad_token : TokenError → StampError
  bad_request : RequestFailure → StampError
  bad_base64 : StampError
  no_response : String → StampError
  accuracy_exceeded : ℤ → StampError
  not_granted : ℤ → StampError

-- `timestamp.Timestamper`: what it answers is an error or a pointer, which may be nil.
abbrev pub Timestamper : Type 0
Timestamper = TimestampRequest → Outcome String (Option TimestampResponse)

-- `resp.Status`, of a pointer that may be nil.
unfoldable pub deref : {A : Type 0} → Option A → Outcome StampError A
deref none = panic
deref (some a) = ok a

-- The options of `verifyTimestamp`.
abbrev pub tsa_options : Option (List SignerCertificate) → VerifyOptions SignerCertificate
tsa_options roots = record {
  roots = roots;
  intermediates = [];
  key_usages = [];
  current_time = pos 0;
}

module _ (stamping : Stamping) where
  -- `Info`
  unfoldable pub info : Bytes → Outcome TokenError TstInfo
  info content = or_err (stamping.unmarshal_tst_info content) invalid_info

  -- `verifyTimestamp`
  unfoldable pub verify_timestamp :
      Bytes → Bytes → Option (List SignerCertificate) → Outcome StampError ℤ
  unfolding info
  verify_timestamp content token_content roots = do
    token ← map_err bad_token (parse_signed_token stamping.asn1 token_content)
    _ ← map_err bad_token (verify_token stamping.asn1 token (tsa_options roots))
    tst ← map_err bad_token (info token.content)
    map_err bad_token (verify_info stamping.asn1 tst content)
    fail_if (less max_timestamp_accuracy (timestamp tst).1) (accuracy_exceeded (timestamp tst).1)
    ok (timestamp tst).0

  -- `timestampSignature`
  unfoldable pub timestamp_signature :
      Library → String → Timestamper → Option (List SignerCertificate) → Outcome StampError Bytes
  unfolding verify_timestamp token_bytes deref
  timestamp_signature lib sig tsa roots = do
    decoded_sig ← or_err (lib.decode_base64 sig) bad_base64
    req ← map_err bad_request (new_request_from_bytes stamping.digests decoded_sig)
    answer ← map_err no_response (tsa req)
    resp ← deref answer
    fail_if (not (same_int resp.status.status status_granted)) (not_granted resp.status.status)
    _ ← verify_timestamp decoded_sig (token_bytes resp) roots
    ok (token_bytes resp)
