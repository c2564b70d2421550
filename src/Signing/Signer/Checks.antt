-- ===== src/Signing/Signer/Checks.antt =====
-- What the checks of a signature and of an envelope accept.
use notation_go.Prelude.{
  String, ◌≡◌, refl, ap, ◌∙◌, ◌↔◌, true, false, Option, none, some, List, [], ◌∷◌, ok, map_err,
  eq_iff, ==_iff, All, arith, >>=-eq-ok, map_err-eq-ok,
}
use notation_go.Verification.Names.{StringMap}
use notation_go.Signing.Config.{lookup}
use notation_go.Signing.Certificates.{Certificate, code_signing, verify_cert_ext_key_usage}
use notation_go.Signing.Certificates.Laws.{IsUsable, verify_cert_ext_key_usage_iff}
use notation_go.Signing.Messages.{Bytes, Descriptor, equal}
use notation_go.Signing.Library.{SigningMethod, Library}
use notation_go.Signing.Signer.{
  bad_usage, parse_cert_chain, first_cert, run_method, verify_jwt, changed, keeps_annotations,
  descriptor_partial_equal, check_leaf,
}

-- The signature verifies under the leaf of the chain, which may sign code.
pub record IsVouched (lib : Library) (alg payload sig : String) (chain : List Bytes) : Type 0 where
  pub leaf : Certificate
  pub certs : List Certificate
  pub parsed : parse_cert_chain lib chain ≡ ok (leaf ∷ certs)
  pub method : SigningMethod
  pub known : lib.get_signing_method alg ≡ some method
  pub verified : method.verify payload sig leaf.public_key ≡ true
  pub usable : IsUsable leaf code_signing

first_cert-ok :
    (certs : List Certificate) (leaf : Certificate)
    → first_cert certs ≡ ok leaf
    → (rest : List Certificate) × (certs ≡ leaf ∷ rest)
unfolding first_cert
first_cert-ok [] leaf h = cc
first_cert-ok (cert ∷ certs) leaf h = (certs, cc)

run_method-ok :
    (o : Option SigningMethod) (payload sig : String) (cert : Certificate)
    → run_method o payload sig cert ≡ ok tt
    → (method : SigningMethod) × (o ≡ some method)
      × (method.verify payload sig cert.public_key ≡ true)
unfolding run_method
run_method-ok none payload sig cert h = cc
run_method-ok (some method) payload sig cert h = (method, refl, ground arith)

verify_jwt-ok :
    (lib : Library) (alg payload sig : String) (cert : Certificate)
    → verify_jwt lib alg payload sig cert ≡ ok tt
    → (method : SigningMethod) × (lib.get_signing_method alg ≡ some method)
      × (method.verify payload sig cert.public_key ≡ true)
unfolding verify_jwt
verify_jwt-ok lib alg payload sig cert h =
    run_method-ok (lib.get_signing_method alg) payload sig cert h

usage-ok :
    (cert : Certificate)
    → map_err bad_usage (verify_cert_ext_key_usage cert code_signing) ≡ ok tt
    → IsUsable cert code_signing
usage-ok cert h =
    (verify_cert_ext_key_usage_iff cert code_signing).0
      (map_err-eq-ok bad_usage (verify_cert_ext_key_usage cert code_signing) h)

-- A leaf that passes: the signature verifies under it, and it may sign code.
pub check_leaf-IsVouched :
    (lib : Library) (alg payload sig : String) (chain : List Bytes) (leaf : Certificate)
    → check_leaf lib alg payload sig chain ≡ ok leaf
    → IsVouched lib alg payload sig chain
unfolding check_leaf
check_leaf-IsVouched lib alg payload sig chain leaf h =
    let (certs, parsed, h₁) = >>=-eq-ok (parse_cert_chain lib chain) _ h in
    let (cert, first, h₂) = >>=-eq-ok (first_cert certs) _ h₁ in
    let (_, verify, h₃) = >>=-eq-ok (verify_jwt lib alg payload sig cert) _ h₂ in
    let (_, usage, h₄) =
      >>=-eq-ok (map_err bad_usage (verify_cert_ext_key_usage cert code_signing)) _ h₃ in
    let (rest, shape) = first_cert-ok certs cert first in
    let (method, known, verified) = verify_jwt-ok lib alg payload sig cert verify in
    record {
      leaf = cert;
      certs = rest;
      parsed = parsed ∙ ap ok shape;
      method = method;
      known = known;
      verified = verified;
      usable = usage-ok cert usage;
    }

changed_iff : (v : String) (o : Option String) → (changed v o ≡ false) ↔ (o ≡ some v)
unfolding changed
changed_iff v none = (λ h. cc, λ h. cc)
changed_iff v (some w) = ground (arith, eq_iff v w)

keeps_annotations_iff :
    (original annotations : StringMap)
    → (keeps_annotations original annotations ≡ true)
      ↔ All (λ (e : String × String). lookup annotations e.0 ≡ some e.1) original
unfolding keeps_annotations
keeps_annotations_iff [] annotations = (λ _. tt, λ _. refl)
keeps_annotations_iff ((k, v) ∷ original) annotations =
    ground (arith, changed_iff v (lookup annotations k), keeps_annotations_iff original annotations)

-- The same content, and every annotation of the first kept.
pub record IsExtension (original new_desc : Descriptor) : Type 0 where
  pub media_type : original.media_type ≡ new_desc.media_type
  pub digest : original.digest ≡ new_desc.digest
  pub size : original.size ≡ new_desc.size
  pub annotations :
      All (λ (e : String × String). lookup new_desc.annotations e.0 ≡ some e.1) original.annotations

-- `descriptorPartialEqual` holds exactly when the media type, the digest and the size are the same and
-- the new descriptor has every annotation of the original with its value.
pub descriptor_partial_equal_iff :
    (original new_desc : Descriptor)
    → (descriptor_partial_equal original new_desc ≡ true) ↔ IsExtension original new_desc
unfolding descriptor_partial_equal equal
descriptor_partial_equal_iff original new_desc = ground (
  arith,
  eq_iff original.media_type new_desc.media_type,
  eq_iff original.digest new_desc.digest,
  ==_iff original.size new_desc.size,
  keeps_annotations_iff original.annotations new_desc.annotations,
)
