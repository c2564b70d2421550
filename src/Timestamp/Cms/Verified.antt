-- ===== src/Timestamp/Cms/Verified.antt =====
-- What `Verify` of signed data returns, and when it fails.
use notation_go.Prelude.{
  ◌>>=◌, ◌∙◌, Any-of, false, Option, none, some, List, [], ◌∷◌, map, ok, err, All, Any, ◌≡◌, ◌≢◌,
  ◌↔◌, inl, inr, refl, arith, length, fail_if, ◌==◌, fail_if-eq-ok, >>=-eq-ok, sym, subst,
  Outcome-cases,
}
use notation_go.Timestamp.Cms.{
  SignerCertificate, VerifyOptions, ParsedSignedData, CmsError, signer_not_found,
  certificate_not_found, Asn1,
}
use notation_go.Timestamp.Cms.Signers.{
  SignerMap, verify_signers, verified_signers, verify, with_intermediates,
}
use notation_go.Timestamp.Cms.Vouched.{IsAttested, verify_signer-IsAttested}
use notation_go.Timestamp.Cms.Rounds.{
  verify_signers-All, verify_signers-nil, verify_signers-IsRejected, verify_signers-ne-err,
  IsRejected, HasSha256,
}

verified_signers-err :
    (lib : Asn1) (d : ParsedSignedData) (m : SignerMap) (last : Option CmsError) (e : CmsError)
    → verified_signers lib d (m, last) ≡ err e
    → (m ≡ []) × (last ≡ some e)
unfolding verified_signers
verified_signers-err lib d [] none e h = absurd (cc h)
verified_signers-err lib d [] (some e') e h = (refl, cc)
verified_signers-err lib d (kc ∷ m) last e h = absurd (cc h)

values-All :
    (P : SignerCertificate → Type 0) (m : SignerMap)
    → All (λ kc. P kc.1) m
    → All P (map (λ kc. kc.1) m)
values-All P [] ps = tt
values-All P (kc ∷ m) (p, ps) = (p, values-All P m ps)

-- What is returned is the map, which is empty only without an error.
verified_signers-ok :
    (lib : Asn1) (d : ParsedSignedData) (m : SignerMap) (last : Option CmsError)
    (certs : List SignerCertificate)
    → verified_signers lib d (m, last) ≡ ok certs
    → (map (λ kc. kc.1) m ≡ certs) × (m ≡ [] → last ≡ none)
unfolding verified_signers
verified_signers-ok lib d [] none certs h = (cc, λ _. refl)
verified_signers-ok lib d [] (some e) certs h = absurd (cc h)
verified_signers-ok lib d (kc ∷ m) last certs h = (cc, λ z. absurd (cc z))

values-nil : (m : SignerMap) → map (λ kc. kc.1) m ≡ [] → m ≡ []
values-nil [] h = refl
values-nil (kc ∷ m) h = absurd (cc h)

loop-ne-nil :
    (lib : Asn1) (d : ParsedSignedData) (opts : VerifyOptions SignerCertificate) (m : SignerMap)
    (last : Option CmsError)
    → d.signers ≢ []
    → verify_signers lib d opts d.signers [] none ≡ ok (m, last)
    → (m ≡ [] → last ≡ none)
    → m ≢ []
loop-ne-nil lib d opts m last signers loop quiet empty =
    elim (verify_signers-nil lib d opts d.signers [] none last (rw empty at loop)).1 [
      | inl (nothing, _) ↦ signers nothing
      | inr (e, failed, _) ↦ cc (sym (quiet empty) ∙ failed)
    ]

length-zero-ne : {A : Type 0} (xs : List A) → (length xs == 0) ≡ false → xs ≢ []
length-zero-ne [] h = λ z. absurd (ground arith)
length-zero-ne (x ∷ xs) h = λ z. cc z

-- Verify returns at least one certificate, and every certificate that it returns belongs to a signer
-- that it has verified: the certificate is listed, names the signer and is trusted, and it has signed
-- the content, or attributes that have the type and the digest of the content.
pub verify-IsAttested :
    (lib : Asn1) (d : ParsedSignedData) (opts : VerifyOptions SignerCertificate)
    (certs : List SignerCertificate)
    → verify lib d opts ≡ ok certs
    → (certs ≢ [])
      × All
          (λ cert. Any (λ s. IsAttested lib d (with_intermediates lib d opts) s cert) d.signers)
          certs
unfolding verify
verify-IsAttested lib d opts certs h =
    let attested : SignerCertificate → Type 0 =
      λ cert. Any (λ s. IsAttested lib d (with_intermediates lib d opts) s cert) d.signers in
    let (_, many, h₁) = >>=-eq-ok (fail_if (length d.signers == 0) signer_not_found) _ h in
    let (_, _, h₂) = >>=-eq-ok (fail_if (length d.certificates == 0) certificate_not_found) _ h₁ in
    let ((m, last), loop, h₃) =
      >>=-eq-ok (verify_signers lib d (with_intermediates lib d opts) d.signers [] none) _ h₂ in
    let all =
      verify_signers-All lib d (with_intermediates lib d opts) attested d.signers
        (λ s cert i y. Any-of _ d.signers i (verify_signer-IsAttested lib d _ s cert y)) [] none m
        last tt loop in
    let (same, quiet) = verified_signers-ok lib d m last certs h₃ in
    (
      (λ none_left.
          loop-ne-nil lib d (with_intermediates lib d opts) m last
            (length-zero-ne d.signers (fail_if-eq-ok _ _ many)) loop quiet
            (values-nil m (same ∙ none_left))),
      subst (λ l. All attested l) same (values-All attested m all),
    )

some-inj : {a b : CmsError} → some a ≡ some b → a ≡ b
some-inj h = cc

length-ne-zero : {A : Type 0} (xs : List A) → xs ≢ [] → (length xs == 0) ≡ false
length-ne-zero [] n = absurd (n refl)
length-ne-zero (x ∷ xs) n = ground arith

loop-IsRejected :
    (lib : Asn1) (d : ParsedSignedData) (opts : VerifyOptions SignerCertificate) (e : CmsError)
    → d.signers ≢ []
    → HasSha256 lib
    → (verify_signers lib d opts d.signers [] none >>= verified_signers lib d) ≡ err e
    → IsRejected lib d opts d.signers e
loop-IsRejected lib d opts e signers good h =
    elim (Outcome-cases (verify_signers lib d opts d.signers [] none)) [
      | inl ((m, last), y) ↦
          let (empty, failed) = verified_signers-err lib d m last e (rw y at h) in
          elim (verify_signers-nil lib d opts d.signers [] none last (rw (y, empty))).1 [
            | inl (nothing, _) ↦ absurd (signers nothing)
            | inr (e', same, r) ↦
                subst (λ x. IsRejected lib d opts d.signers x) (some-inj (sym same ∙ failed)) r
          ]
      | inr (inl (e', y)) ↦ absurd (verify_signers-ne-err lib d opts good d.signers [] none e' y)
      | inr (inr y) ↦ absurd (cc (rw y at h))
    ]

-- Where there are signers and certificates and SHA-256 works, Verify fails exactly when every signer
-- fails to verify, and then with the error of the last signer.
pub verify-IsRejected_iff :
    (lib : Asn1) (d : ParsedSignedData) (opts : VerifyOptions SignerCertificate) (e : CmsError)
    → d.signers ≢ []
    → d.certificates ≢ []
    → HasSha256 lib
    → (verify lib d opts ≡ err e) ↔ IsRejected lib d (with_intermediates lib d opts) d.signers e
unfolding verify
verify-IsRejected_iff lib d opts e signers certs good =
    rw (length-ne-zero d.signers signers, length-ne-zero d.certificates certs)
      (
        λ h. loop-IsRejected lib d (with_intermediates lib d opts) e signers good h,
        λ r. rw (verify_signers-IsRejected lib d _ d.signers [] none e r) refl,
      )
