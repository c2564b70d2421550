-- ===== src/Signing/Certificates/Laws.antt =====
-- The certificates that `verifyCertExtKeyUsage` accepts.
use Prim.Native.Nat.{bit_and}
use notation_go.Prelude.{
  ℕ, ◌≤◌, ◌≡◌, ◌≢◌, refl, ◌↔◌, ◌⊎◌, true, false, List, [], ◌∷◌, ok, ==_iff, Any, arith,
}
use notation_go.Signing.Algorithms.{PublicKey, rsa, ecdsa, other_key}
use notation_go.Signing.Certificates.{
  Extension, Certificate, digital_signature, oid_extension_key_usage, oid_equal, has_ext_key_usage,
  check_extensions, check_key, verify_cert_ext_key_usage,
}

-- The first key usage extension, if there is one, is critical.
abbrev pub IsCritical : List Extension → Type 0
IsCritical [] = Unit
IsCritical (e ∷ extensions) =
    ((e.id ≡ oid_extension_key_usage) × (e.critical ≡ true))
    ⊎ ((e.id ≢ oid_extension_key_usage) × IsCritical extensions)

-- A key that is long enough.
abbrev pub IsLong : PublicKey → Type 0
IsLong (rsa size bits) = 2048 ≤ bits
IsLong (ecdsa bits) = 256 ≤ bits
IsLong other_key = Unit

pub record IsUsable (cert : Certificate) (usage : ℕ) : Type 0 where
  pub signs : bit_and cert.key_usage digital_signature ≢ 0
  pub extended : Any (λ u. u ≡ usage) cert.ext_key_usage
  pub critical : IsCritical cert.extensions
  pub no_authority : (cert.basic_constraints_valid ≡ false) ⊎ (cert.is_ca ≡ false)
  pub long : IsLong cert.public_key

pub oid_equal_iff : (a b : List ℕ) → (oid_equal a b ≡ true) ↔ (a ≡ b)
unfolding oid_equal
oid_equal_iff [] [] = (λ _. refl, λ _. refl)
oid_equal_iff [] (y ∷ b) = (λ h. cc h, λ h. cc h)
oid_equal_iff (x ∷ a) [] = (λ h. cc h, λ h. cc h)
oid_equal_iff (x ∷ a) (y ∷ b) = ground (arith, ==_iff x y, oid_equal_iff a b)

has_ext_key_usage_iff :
    (usage : ℕ) (l : List ℕ) → (has_ext_key_usage usage l ≡ true) ↔ Any (λ u. u ≡ usage) l
unfolding has_ext_key_usage
has_ext_key_usage_iff usage [] = ground arith
has_ext_key_usage_iff usage (x ∷ l) = ground (arith, ==_iff x usage, has_ext_key_usage_iff usage l)

check_extensions_iff : (l : List Extension) → (check_extensions l ≡ ok tt) ↔ IsCritical l
unfolding check_extensions
check_extensions_iff [] = (λ _. tt, λ _. refl)
check_extensions_iff (e ∷ l) =
    ground (arith, oid_equal_iff e.id oid_extension_key_usage, check_extensions_iff l)

check_key_iff : (k : PublicKey) → (check_key k ≡ ok tt) ↔ IsLong k
unfolding check_key
check_key_iff (rsa size bits) = ground arith
check_key_iff (ecdsa bits) = ground arith
check_key_iff other_key = (λ _. tt, λ _. refl)

-- `verifyCertExtKeyUsage` accepts a certificate exactly when it may sign, has the extended usage, marks
-- its first key usage extension critical, is not an authority and has a key that is long enough.
pub verify_cert_ext_key_usage_iff :
    (cert : Certificate) (usage : ℕ)
    → (verify_cert_ext_key_usage cert usage ≡ ok tt) ↔ IsUsable cert usage
unfolding verify_cert_ext_key_usage
verify_cert_ext_key_usage_iff cert usage = ground (
  arith,
  has_ext_key_usage_iff usage cert.ext_key_usage,
  check_extensions_iff cert.extensions,
  check_key_iff cert.public_key,
  ==_iff (bit_and cert.key_usage digital_signature) 0,
)
