-- ===== src/Verification/Identity/Laws.antt =====
-- Which certificate chains a validated trust policy accepts.
use notation_go.Prelude.{
  String, ◌≡◌, refl, ◌≢◌, ◌↔◌, ◌⊎◌, inl, inr, true, Option, none, some, List, [], ◌∷◌, ◌++◌, ok,
  panic, str_eq, eq_iff, cut, arith, Bool-cases, Outcome-cases, append-nil, append_assoc, All, Any,
  IsElem,
}
use notation_go.Verification.Names.{
  StringMap, Rdn, is_present, is_subset_dn, parse_distinguished_name,
}
use notation_go.Verification.Names.Laws.{is_present_iff, parse_distinguished_name-ne-panic}
use notation_go.Verification.Policy.{TrustPolicy, ParsedDn, wildcard, x509_subject}
use notation_go.Verification.Policy.Identities.{
  IsPinning, IsIdentity, IsReadable, names_of, prefixed_names,
}
use notation_go.Verification.Identity.{
  Certificate, any_subset, collect_identity, collect_identities, match_leaf, match_certs,
  verify_x509_trusted_identities,
}

abbrev pub maps_of : List ParsedDn → List StringMap
maps_of [] = []
maps_of (dn ∷ dns) = dn.parsed_map ∷ maps_of dns

maps_of-append : (xs ys : List ParsedDn) → maps_of (xs ++ ys) ≡ maps_of xs ++ maps_of ys
maps_of-append [] ys = refl
maps_of-append (x ∷ xs) ys = rw (maps_of-append xs ys)

any_subset_iff :
    (trusted : List StringMap) (leaf : StringMap)
    → (any_subset trusted leaf ≡ true) ↔ Any (λ t. is_subset_dn t leaf ≡ true) trusted
unfolding any_subset
any_subset_iff [] leaf = (λ h. cc, λ h. absurd h)
any_subset_iff (t ∷ trusted) leaf = ground (arith, any_subset_iff trusted leaf)

module _ (parse_dn : String → Option (List Rdn)) where
  collect_identity-ok :
      (identity : String) (trusted : List StringMap) (parts : Option (String × String))
      → IsReadable parse_dn parts
      → collect_identity parse_dn trusted parts
        ≡ ok (trusted ++ maps_of (prefixed_names parse_dn identity parts))
  unfolding collect_identity
  collect_identity-ok identity trusted none h = absurd h
  collect_identity-ok identity trusted (some (prefix, value)) h =
      elim (Bool-cases (str_eq prefix x509_subject)) [
        | inr other ↦ rw (other, append-nil)
        | inl native ↦ let (dn, e) = h ((eq_iff prefix x509_subject).0 native) in rw (native, e)
      ]

  collect_identities-ok :
      (trusted : List StringMap) (ids : List String)
      → All (IsIdentity parse_dn) ids
      → ¬ IsElem wildcard ids
      → collect_identities parse_dn trusted ids ≡ ok (trusted ++ maps_of (names_of parse_dn ids))
  unfolding collect_identities
  collect_identities-ok trusted [] h w = rw append-nil
  collect_identities-ok trusted (identity ∷ ids) ((_, inl any), hs) w = absurd (w (inl any))
  collect_identities-ok trusted (identity ∷ ids) ((_, inr readable), hs) w =
      elim (Bool-cases (str_eq identity wildcard)) [
        | inl any ↦ absurd (w (inl ((eq_iff identity wildcard).0 any)))
        | inr other ↦
            rw
              (
                other,
                collect_identity-ok identity trusted (cut b':' identity) readable,
                maps_of-append,
                ← append_assoc,
              )
              (collect_identities-ok
                (trusted ++ maps_of (prefixed_names parse_dn identity (cut b':' identity))) ids hs
                (λ m. w (inr m)))
      ]

  -- The chain's leaf has a name that one of the trusted names is a subset of.
  abbrev pub IsTrusted : List StringMap → List Certificate → Type 0
  IsTrusted trusted [] = ⊥
  IsTrusted trusted (leaf ∷ chain) =
      (dn : StringMap) × (parse_distinguished_name parse_dn leaf.subject ≡ ok dn)
      × Any (λ t. is_subset_dn t dn ≡ true) trusted

  -- What a policy accepts: it pins nothing by the wildcard, or it pins no X.509 name, or the leaf of
  -- the chain is trusted.
  abbrev pub Accepts : TrustPolicy → List Certificate → Type 0
  Accepts policy certs =
      IsElem wildcard policy.trusted_identities
      ⊎ ((names_of parse_dn policy.trusted_identities ≡ [])
          ⊎ IsTrusted (maps_of (names_of parse_dn policy.trusted_identities)) certs)

  match_leaf-IsTrusted :
      (certs : List Certificate) (policy : TrustPolicy) (trusted : List StringMap)
      → (match_leaf parse_dn certs policy trusted ≡ ok tt) ↔ IsTrusted trusted certs
  unfolding match_leaf
  match_leaf-IsTrusted [] policy trusted = (λ h. cc, λ h. absurd h)
  match_leaf-IsTrusted (leaf ∷ chain) policy trusted =
      elim (Outcome-cases (parse_distinguished_name parse_dn leaf.subject)) [
        | inl (dn, e) ↦ (
          λ h. (dn, e, (any_subset_iff trusted dn).0 (ground (arith, rw e at h))),
          λ (dn', e', m). rw (e', (any_subset_iff trusted dn').1 m),
        )
        | inr (inl (x, e)) ↦ (λ h. cc (rw e at h), λ (dn', e', m). cc)
        | inr (inr e) ↦ (λ h. cc (rw e at h), λ (dn', e', m). cc)
      ]

  match_certs-IsTrusted :
      (certs : List Certificate) (policy : TrustPolicy) (names : List ParsedDn)
      → (match_certs parse_dn certs policy (maps_of names) ≡ ok tt)
        ↔ ((names ≡ []) ⊎ IsTrusted (maps_of names) certs)
  match_certs-IsTrusted certs policy [] = (λ h. inl refl, λ h. refl)
  match_certs-IsTrusted certs policy (n ∷ names) = (
    λ h. inr ((match_leaf-IsTrusted certs policy (maps_of (n ∷ names))).0 h),
    λ h. elim h [
      | inl e ↦ cc
      | inr t ↦ (match_leaf-IsTrusted certs policy (maps_of (n ∷ names))).1 t
    ],
  )

  match_leaf-ne-panic :
      (leaf : Certificate) (chain : List Certificate) (policy : TrustPolicy)
      (trusted : List StringMap)
      → match_leaf parse_dn (leaf ∷ chain) policy trusted ≢ panic
  unfolding match_leaf
  match_leaf-ne-panic leaf chain policy trusted h =
      ground (arith, parse_distinguished_name-ne-panic parse_dn leaf.subject)

  match_certs-ne-panic :
      (leaf : Certificate) (chain : List Certificate) (policy : TrustPolicy)
      (trusted : List StringMap)
      → match_certs parse_dn (leaf ∷ chain) policy trusted ≢ panic
  match_certs-ne-panic leaf chain policy [] h = cc
  match_certs-ne-panic leaf chain policy (t ∷ trusted) h =
      match_leaf-ne-panic leaf chain policy (t ∷ trusted) h

  -- Under a policy that `validateTrustedIdentities` accepts, the identity of the signer is accepted
  -- exactly when the policy has the wildcard, or no X.509 name, or the name of the chain's leaf
  -- extends one of the policy's names.
  pub verify_x509_trusted_identities_iff :
      (certs : List Certificate) (policy : TrustPolicy)
      → IsPinning parse_dn policy.trusted_identities
      → (verify_x509_trusted_identities parse_dn certs policy ≡ ok tt) ↔ Accepts policy certs
  unfolding verify_x509_trusted_identities
  verify_x509_trusted_identities_iff certs policy pins =
      let ids = policy.trusted_identities in
      elim (Bool-cases (is_present wildcard ids)) [
        | inl any ↦ (λ h. inl ((is_present_iff wildcard ids).0 any), λ h. rw any)
        | inr other ↦
            let absent : ¬ IsElem wildcard ids = λ m. cc ((is_present_iff wildcard ids).1 m) in
            let collected = collect_identities-ok [] ids pins.identity absent in
            let matched = match_certs-IsTrusted certs policy (names_of parse_dn ids) in
            (
              λ h. inr (matched.0 (rw (other, collected) at h)),
              λ h. elim h [
                | inl m ↦ absurd (absent m)
                | inr t ↦ rw (other, collected) (matched.1 t)
              ],
            )
      ]

  -- Such a policy and a chain with a certificate never make the function panic.
  pub verify_x509_trusted_identities-ne-panic :
      (leaf : Certificate) (chain : List Certificate) (policy : TrustPolicy)
      → IsPinning parse_dn policy.trusted_identities
      → verify_x509_trusted_identities parse_dn (leaf ∷ chain) policy ≢ panic
  unfolding verify_x509_trusted_identities match_leaf
  verify_x509_trusted_identities-ne-panic leaf chain policy pins =
      let ids = policy.trusted_identities in
      elim (Bool-cases (is_present wildcard ids)) [
        | inl any ↦ rw any (λ h. cc)
        | inr other ↦
            let absent : ¬ IsElem wildcard ids = λ m. cc ((is_present_iff wildcard ids).1 m) in
            rw (other, collect_identities-ok [] ids pins.identity absent)
              (match_certs-ne-panic leaf chain policy (maps_of (names_of parse_dn ids)))
      ]
