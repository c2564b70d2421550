-- ===== src/Timestamp/Tokens.antt =====
-- crypto/timestamp/token.go: the tokens of a time stamping authority.
pub mod Accuracies
pub mod Usages
use Prim.Native.Char.{Char, code}
use notation_go.Prelude.{
  ℕ, ℤ, ◌+ℤ◌, ◌*ℤ◌, wrap, String, Bool, true, false, not, ◌&&◌, Option, none, some, List, [], ◌∷◌,
  Outcome, ok, err, panic, ◌>>=◌, ◌>>◌, map_err, or_err, fail_if, str_eq, length, ◌==◌,
  if◌then◌else◌,
}
use notation_go.Encoding.Reader.{ReadError}
use notation_go.Encoding.Reader as Reading
use notation_go.Encoding.Decoding.{convert_to_der}
use notation_go.Signing.Certificates.{oid_equal}
use notation_go.Signing.Messages.{Bytes}
use notation_go.Timestamp.Oids.{Oid, tst_info_oid, convert_to_hash, compute_hash}
use notation_go.Timestamp.Cms.{
  SignerCertificate, VerifyOptions, ParsedSignedData, CmsError, Asn1, parse_signed_data,
}
use notation_go.Timestamp.Cms.Signers.{verify}

-- `x509.ExtKeyUsageTimeStamping`
abbrev pub time_stamping : ℕ
time_stamping = 8

pub record MessageImprint : Type 0 where
  pub hash_algorithm : Oid
  pub hashed_message : Bytes

pub record Accuracy : Type 0 where
  pub seconds : ℤ
  pub milliseconds : ℤ
  pub microseconds : ℤ

-- The authority's name and the extensions are stored and not read.
pub record TstInfo : Type 0 where
  pub version : ℤ
  pub policy : Oid
  pub message_imprint : MessageImprint
  pub serial_number : ℤ
  pub gen_time : ℤ
  pub accuracy : Accuracy
  pub ordering : Bool
  pub nonce : Option ℤ
  pub tsa : Bytes
  pub extensions : List Bytes

pub data TokenError : Type 0 where
  invalid_der : ReadError → TokenError
  invalid_token : CmsError → TokenError
  unexpected_content_type : Oid → TokenError
  key_usages_number invalid_info mismatch_digest hash_failed : TokenError
  unrecognized_hash : Oid → TokenError

-- The bytes of a text.
unfoldable pub octets : Bytes → List ℕ
octets String.[] = []
octets (String.◌∷◌ c s) = code c ∷ octets s

unfoldable pub to_outcome : {A : Type 0} → Reading.Result A → Outcome TokenError A
to_outcome (Reading.ok a) = ok a
to_outcome (Reading.err e) = err (invalid_der e)

-- `len(cert.ExtKeyUsage) == 1 && len(cert.UnknownExtKeyUsage) == 0`
unfoldable pub has_one_usage : SignerCertificate → Bool
has_one_usage cert = (length cert.ext_key_usage == 1) && (length cert.unknown_ext_key_usage == 0)

-- The loop over the certificates.
unfoldable pub keep_one_usage : List SignerCertificate → List SignerCertificate
unfolding has_one_usage
keep_one_usage [] = []
keep_one_usage (cert ∷ certs) =
    let rest = keep_one_usage certs in if has_one_usage cert then cert ∷ rest else rest

-- An empty list of key usages implies time stamping.
unfoldable pub with_time_stamping :
    VerifyOptions SignerCertificate → VerifyOptions SignerCertificate
with_time_stamping opts =
    if length opts.key_usages == 0 then record opts { key_usages = time_stamping ∷ [] } else opts

-- `Timestamp`: the time, and the accuracy in nanoseconds, in 64 bits.
unfoldable pub timestamp : TstInfo → ℤ × ℤ
timestamp tst = (
  tst.gen_time,
  wrap (
      wrap
        (wrap (tst.accuracy.seconds *ℤ 1000000000) +ℤ wrap (tst.accuracy.milliseconds *ℤ 1000000))
      +ℤ wrap (tst.accuracy.microseconds *ℤ 1000)),
)

module _ (lib : Asn1) where
  -- `ParseSignedToken`
  unfoldable pub parse_signed_token : Bytes → Outcome TokenError ParsedSignedData
  unfolding octets to_outcome oid_equal
  parse_signed_token data' = do
    der ← to_outcome (convert_to_der (octets data'))
    signed ← map_err invalid_token (parse_signed_data lib der)
    fail_if (not (oid_equal tst_info_oid signed.content_type))
        (unexpected_content_type signed.content_type)
    ok signed

  -- `SignedToken.Verify`
  unfoldable pub verify_token :
      ParsedSignedData
      → VerifyOptions SignerCertificate
      → Outcome TokenError (List SignerCertificate)
  unfolding keep_one_usage with_time_stamping
  verify_token t opts = do
    certs ← map_err invalid_token (verify lib t (with_time_stamping opts))
    fail_if (length (keep_one_usage certs) == 0) key_usages_number
    ok (keep_one_usage certs)

  -- `TSTInfo.Verify`
  unfoldable pub verify_info : TstInfo → Bytes → Outcome TokenError (Unit {0})
  unfolding convert_to_hash compute_hash
  verify_info tst message = do
    hash ←
        or_err (convert_to_hash lib.hashes tst.message_imprint.hash_algorithm)
          (unrecognized_hash tst.message_imprint.hash_algorithm)
    message_digest ← compute_hash lib.hashes hash message hash_failed
    fail_if (not (str_eq tst.message_imprint.hashed_message message_digest)) mismatch_digest
