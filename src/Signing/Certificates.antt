-- ===== src/Signing/Certificates.antt =====
-- signature/jws/spec.go: `verifyCertExtKeyUsage`. A certificate is what this function reads of it.
pub mod Laws
use Prim.Native.Nat.{bit_and}
use notation_go.Prelude.{
  ℕ, Bool, true, false, not, ◌&&◌, List, [], ◌∷◌, Outcome, ok, err, ◌>>◌, fail_if, ltb, ◌==◌,
  if◌then◌else◌,
}
use notation_go.Signing.Algorithms.{PublicKey, rsa, ecdsa, other_key}

pub record Extension : Type 0 where
  pub id : List ℕ
  pub critical : Bool

pub record Certificate : Type 0 where
  pub key_usage : ℕ
  pub ext_key_usage : List ℕ
  pub extensions : List Extension
  pub basic_constraints_valid : Bool
  pub is_ca : Bool
  pub public_key : PublicKey

pub data UsageError : Type 0 where
  no_digital_signature not_critical is_authority short_rsa_key short_ec_key : UsageError
  no_ext_key_usage : ℕ → UsageError

-- `x509.KeyUsageDigitalSignature` and `x509.ExtKeyUsageCodeSigning`
abbrev pub digital_signature : ℕ
digital_signature = 1

abbrev pub code_signing : ℕ
code_signing = 3

abbrev pub oid_extension_key_usage : List ℕ
oid_extension_key_usage = 2 ∷ 5 ∷ 29 ∷ 15 ∷ []

-- `ObjectIdentifier.Equal`
unfoldable pub oid_equal : List ℕ → List ℕ → Bool
oid_equal [] [] = true
oid_equal (a ∷ as') (b ∷ bs) = (a == b) && oid_equal as' bs
oid_equal _ _ = false

-- The loop over `cert.ExtKeyUsage`
unfoldable pub has_ext_key_usage : ℕ → List ℕ → Bool
has_ext_key_usage usage [] = false
has_ext_key_usage usage (ext ∷ usages) =
    if ext == usage then true else has_ext_key_usage usage usages

-- The loop over `cert.Extensions`, which ends at the first key usage.
unfoldable pub check_extensions : List Extension → Outcome UsageError (Unit {0})
unfolding oid_equal
check_extensions [] = ok tt
check_extensions (e ∷ extensions) =
    if oid_equal e.id oid_extension_key_usage
    then fail_if (not e.critical) not_critical
    else check_extensions extensions

unfoldable pub check_key : PublicKey → Outcome UsageError (Unit {0})
check_key (rsa size bits) = fail_if (ltb bits 2048) short_rsa_key
check_key (ecdsa bits) = fail_if (ltb bits 256) short_ec_key
check_key other_key = ok tt

-- `verifyCertExtKeyUsage`
unfoldable pub verify_cert_ext_key_usage : Certificate → ℕ → Outcome UsageError (Unit {0})
unfolding has_ext_key_usage check_extensions check_key
verify_cert_ext_key_usage cert usage = do
  fail_if (bit_and cert.key_usage digital_signature == 0) no_digital_signature
  fail_if (not (has_ext_key_usage usage cert.ext_key_usage)) (no_ext_key_usage usage)
  check_extensions cert.extensions
  fail_if (cert.basic_constraints_valid && cert.is_ca) is_authority
  check_key cert.public_key
