-- ===== src/Timestamp/Tokens/Usages.antt =====
-- The certificates that `SignedToken.Verify` returns.
use notation_go.Prelude.{
  length-nil, List, [], ◌∷◌, ok, All, Any, ◌≡◌, ◌≢◌, Outcome, length-nil, arith, length, fail_if,
  map_err, fail_if-eq-ok, map_err-eq-ok, >>=-eq-ok, ◌==◌, subst,
}
use notation_go.Timestamp.Cms.{SignerCertificate, VerifyOptions, ParsedSignedData, Asn1}
use notation_go.Timestamp.Cms.Signers.{verify, with_intermediates}
use notation_go.Timestamp.Cms.Vouched.{IsAttested}
use notation_go.Timestamp.Cms.Verified.{verify-IsAttested}
use notation_go.Timestamp.Tokens.{
  TokenError, invalid_token, key_usages_number, has_one_usage, keep_one_usage, with_time_stamping,
  verify_token,
}

-- The certificate has one extended key usage, which is a known one, and a signer of the token whose
-- signature it attests.
pub record IsAuthority (lib : Asn1) (t : ParsedSignedData) (opts : VerifyOptions SignerCertificate)
    (cert : SignerCertificate) : Type 0 where
  pub one_usage : length cert.ext_key_usage ≡ 1
  pub none_unknown : cert.unknown_ext_key_usage ≡ []
  pub attested :
      Any
        (λ s. IsAttested lib t (with_intermediates lib t (with_time_stamping opts)) s cert)
        t.signers

module _ (P : SignerCertificate → Type 0) where
  keep_one_usage-All :
      (certs : List SignerCertificate)
      → All P certs
      → All
          (λ c. (length c.ext_key_usage ≡ 1) × (c.unknown_ext_key_usage ≡ []) × P c)
          (keep_one_usage certs)
  unfolding keep_one_usage has_one_usage
  keep_one_usage-All [] ps = tt
  keep_one_usage-All (c ∷ certs) (p, ps) =
      ground (arith, keep_one_usage-All certs ps, length-nil c.unknown_ext_key_usage)

All-map :
    {A : Type 0} {P Q : A → Type 0} (xs : List A) → ((a : A) → P a → Q a) → All P xs → All Q xs
All-map [] f ps = tt
All-map (x ∷ xs) f (p, ps) = (f x p, All-map xs f ps)

certs-inj :
    {a b : List SignerCertificate}
    → ◌≡◌ {A = Outcome TokenError (List SignerCertificate)} (ok a) (ok b)
    → a ≡ b
certs-inj h = cc

-- SignedToken.Verify returns at least one certificate, and only certificates with exactly one extended
-- key usage whose key has signed the content of the token; without key usages in the options the usage
-- is time stamping.
pub verify_token-IsAuthority :
    (lib : Asn1) (t : ParsedSignedData) (opts : VerifyOptions SignerCertificate)
    (certs : List SignerCertificate)
    → verify_token lib t opts ≡ ok certs
    → (certs ≢ []) × All (IsAuthority lib t opts) certs
unfolding verify_token
verify_token-IsAuthority lib t opts certs h =
    let (all, verified, h₁) =
      >>=-eq-ok (map_err invalid_token (verify lib t (with_time_stamping opts))) _ h in
    let (_, some_left, h₂) =
      >>=-eq-ok (fail_if (length (keep_one_usage all) == 0) key_usages_number) _ h₁ in
    let attested =
      verify-IsAttested lib t (with_time_stamping opts) all
        (map_err-eq-ok invalid_token _ verified) in
    let kept = keep_one_usage-All _ all attested.1 in
    subst (λ l. (l ≢ []) × All (IsAuthority lib t opts) l) (certs-inj h₂)
      (
        (λ e. absurd (ground (arith, fail_if-eq-ok _ _ some_left))),
        All-map (keep_one_usage all)
            (λ c p. record { one_usage = p.0; none_unknown = p.1; attested = p.2 }) kept,
      )
