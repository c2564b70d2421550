-- ===== src/Verification/Identity.antt =====
-- verification/verifier.go: `verifyX509TrustedIdentities`. A certificate is given by its subject, as
-- `Subject.String()` prints it. `Verify` itself has no code yet and is not modelled.
pub mod Laws
use notation_go.Prelude.{
  ℕ, String, Bool, true, false, Option, none, some, List, [], ◌∷◌, ◌++◌, Outcome, ok, err, panic,
  ◌>>=◌, map_err, str_eq, cut, if◌then◌else◌,
}
use notation_go.Verification.Names.{
  StringMap, Rdn, is_present, is_subset_dn, NameError, parse_distinguished_name,
}
use notation_go.Verification.Policy.{TrustPolicy, wildcard, x509_subject}

pub record Certificate : Type 0 where
  pub subject : String

pub data IdentityError : Type 0 where
  trusted_name leaf_name : NameError → IdentityError
  untrusted : List StringMap → String → IdentityError

-- The last loop: whether a trusted identity is a subset of the leaf's name.
unfoldable pub any_subset : List StringMap → StringMap → Bool
any_subset [] leaf = false
any_subset (trusted ∷ identities) leaf =
    if is_subset_dn trusted leaf then true else any_subset identities leaf

module _ (parse_dn : String → Option (List Rdn)) where
  -- One round of the first loop. An identity without a colon is sliced at the index -1, which panics.
  unfoldable pub collect_identity :
      List StringMap → Option (String × String) → Outcome IdentityError (List StringMap)
  collect_identity trusted none = panic
  collect_identity trusted (some (prefix, value)) =
      if str_eq prefix x509_subject
      then (do
        subject ← map_err trusted_name (parse_distinguished_name parse_dn value)
        ok (trusted ++ subject ∷ []))
      else ok trusted

  unfoldable pub collect_identities :
      List StringMap → List String → Outcome IdentityError (List StringMap)
  unfolding collect_identity cut
  collect_identities trusted [] = ok trusted
  collect_identities trusted (identity ∷ identities) = do
    trusted' ← collect_identity trusted (cut b':' identity)
    collect_identities trusted' identities

  -- The part below the test for an empty list of identities: `certs[0]` panics on no certificate.
  unfoldable pub match_leaf :
      List Certificate → TrustPolicy → List StringMap → Outcome IdentityError (Unit {0})
  unfolding any_subset
  match_leaf [] trust_policy trusted = panic
  match_leaf (leaf ∷ chain) trust_policy trusted = do
    leaf_dn ← map_err leaf_name (parse_distinguished_name parse_dn leaf.subject)
    if any_subset trusted leaf_dn then ok tt else err (untrusted trusted trust_policy.name)

  abbrev pub match_certs :
      List Certificate → TrustPolicy → List StringMap → Outcome IdentityError (Unit {0})
  match_certs certs trust_policy [] = ok tt
  match_certs certs trust_policy (t ∷ trusted) = match_leaf certs trust_policy (t ∷ trusted)

  -- `verifyX509TrustedIdentities`
  unfoldable pub verify_x509_trusted_identities :
      List Certificate → TrustPolicy → Outcome IdentityError (Unit {0})
  unfolding collect_identities match_leaf is_present
  verify_x509_trusted_identities certs trust_policy =
      if is_present wildcard trust_policy.trusted_identities then ok tt else (do
        trusted ← collect_identities [] trust_policy.trusted_identities
        match_certs certs trust_policy trusted)
