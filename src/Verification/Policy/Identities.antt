-- ===== src/Verification/Policy/Identities.antt =====
-- `validateTrustedIdentities` against a description of a statement's identities.
use notation_go.Prelude.{
  Outcome-cases, ◌≤◌, ◌≡◌, ◌≢◌, ◌↔◌, ◌⊎◌, String, Bool, false, ◌&&◌, Option, none, some, List, [],
  ◌∷◌, ◌++◌, ok, err, panic, arith, Bool-cases, Option-cases, inl, inr, ◌>>=◌, >>=-eq-ok, or_err,
  str_eq, eq_iff, cut, length, ltb, All, IsElem, append-nil, append_assoc, ap, sym, ◌∙◌,
  if◌then◌else◌,
}
use notation_go.Verification.Names.{StringMap, Rdn, is_present, parse_distinguished_name}
use notation_go.Verification.Names.Laws.{is_present_iff}
use notation_go.Verification.Policy.{
  TrustPolicy, ParsedDn, wildcard, x509_subject, identity_without_prefix, parse_prefixed,
  parse_identity, parse_identities, validate_overlapping_dns, validate_trusted_identities,
}
use notation_go.Verification.Policy.Overlaps.{HasNoOverlap, validate_overlapping_dns_iff}

module _ (parse_dn : String → Option (List Rdn)) where
  -- The parsed name of an identity with the native prefix; nothing for any other.
  abbrev pub prefixed_names : String → Option (String × String) → List ParsedDn
  prefixed_names identity none = []
  prefixed_names identity (some (prefix, value)) =
      if str_eq prefix x509_subject
      then elim (parse_distinguished_name parse_dn value) [
        | ok dn ↦ record { raw_string = identity; parsed_map = dn } ∷ []
        | err e ↦ []
        | panic ↦ []
      ]
      else []

  abbrev pub identity_names : String → List ParsedDn
  identity_names identity =
      if str_eq identity wildcard then [] else prefixed_names identity (cut b':' identity)

  abbrev pub names_of : List String → List ParsedDn
  names_of [] = []
  names_of (identity ∷ identities) = identity_names identity ++ names_of identities

  -- A value behind the native prefix is a name that parses.
  abbrev pub IsReadable : Option (String × String) → Type 0
  IsReadable none = ⊥
  IsReadable (some (prefix, value)) =
      prefix ≡ x509_subject → (dn : StringMap) × (parse_distinguished_name parse_dn value ≡ ok dn)

  -- An identity is the wildcard, or a prefix and a value, which is a name if the prefix is native.
  abbrev pub IsIdentity : String → Type 0
  IsIdentity identity = (identity ≢ "") × ((identity ≡ wildcard) ⊎ IsReadable (cut b':' identity))

  parse_prefixed-eq-ok :
      (identity : String) (dns : List ParsedDn) (parts : String × String) {dns' : List ParsedDn}
      → parse_prefixed parse_dn identity dns parts ≡ ok dns'
      → (dns' ≡ dns ++ prefixed_names identity (some parts)) × IsReadable (some parts)
  unfolding parse_prefixed
  parse_prefixed-eq-ok identity dns (prefix, value) h =
      elim (Bool-cases (str_eq prefix x509_subject)) [
        | inr other ↦ (
          rw other (sym (append-nil dns ∙ cc (rw other at h))),
          λ e. absurd (ground (arith, eq_iff prefix x509_subject)),
        )
        | inl native ↦ elim (Outcome-cases (parse_distinguished_name parse_dn value)) [
          | inl (dn, e) ↦ (rw (native, e) (cc (rw (native, e) at h)), λ _. (dn, e))
          | inr (inl (x, e)) ↦ cc (rw (native, e) at h)
          | inr (inr e) ↦ cc (rw (native, e) at h)
        ]
      ]

  parse_prefixed-ok :
      (identity : String) (dns : List ParsedDn) (parts : String × String)
      → IsReadable (some parts)
      → parse_prefixed parse_dn identity dns parts
        ≡ ok (dns ++ prefixed_names identity (some parts))
  unfolding parse_prefixed
  parse_prefixed-ok identity dns (prefix, value) h =
      elim (Bool-cases (str_eq prefix x509_subject)) [
        | inr other ↦ rw (other, append-nil)
        | inl native ↦ let (dn, e) = h ((eq_iff prefix x509_subject).0 native) in rw (native, e)
      ]

  parse_identity-eq-ok :
      (name : String) (dns : List ParsedDn) (identity : String) {dns' : List ParsedDn}
      → parse_identity parse_dn name dns identity ≡ ok dns'
      → (dns' ≡ dns ++ identity_names identity) × IsIdentity identity
  unfolding parse_identity
  parse_identity-eq-ok name dns identity h = elim (Bool-cases (str_eq identity "")) [
    | inl e ↦ cc (rw e at h)
    | inr present ↦
        let nonempty : identity ≢ "" = λ z. cc ((eq_iff identity "").1 z) in
        elim (Bool-cases (str_eq identity wildcard)) [
          | inl any ↦ (
            rw any (sym (append-nil dns ∙ cc (rw (present, any) at h))),
            (nonempty, inl ((eq_iff identity wildcard).0 any)),
          )
          | inr other ↦ elim (Option-cases (cut b':' identity)) [
            | inl e ↦ cc (rw (present, other, e) at h)
            | inr (parts, e) ↦
                let (names, readable) =
                  parse_prefixed-eq-ok identity dns parts (rw (present, other, e) at h) in
                (rw (other, e) names, (nonempty, inr (rw e readable)))
          ]
        ]
  ]

  behind_prefix :
      (name identity : String) (dns : List ParsedDn) (parts : Option (String × String))
      → IsReadable parts
      → (or_err parts (identity_without_prefix name identity)
          >>= parse_prefixed parse_dn identity dns)
        ≡ ok (dns ++ prefixed_names identity parts)
  behind_prefix name identity dns none h = absurd h
  behind_prefix name identity dns (some parts) h = parse_prefixed-ok identity dns parts h

  parse_identity-ok :
      (name : String) (dns : List ParsedDn) (identity : String)
      → IsIdentity identity
      → parse_identity parse_dn name dns identity ≡ ok (dns ++ identity_names identity)
  unfolding parse_identity
  parse_identity-ok name dns identity (nonempty, h) = elim (Bool-cases (str_eq identity "")) [
    | inl e ↦ absurd (nonempty ((eq_iff identity "").0 e))
    | inr present ↦ elim (Bool-cases (str_eq identity wildcard)) [
      | inl any ↦ rw (present, any, append-nil)
      | inr other ↦
          rw (present, other)
            (elim h [
              | inl e ↦ cc ((eq_iff identity wildcard).1 e)
              | inr readable ↦ behind_prefix name identity dns (cut b':' identity) readable
            ])
    ]
  ]

  parse_identities-eq-ok :
      (name : String) (dns : List ParsedDn) (identities : List String) {dns' : List ParsedDn}
      → parse_identities parse_dn name dns identities ≡ ok dns'
      → (dns' ≡ dns ++ names_of identities) × All IsIdentity identities
  unfolding parse_identities
  parse_identities-eq-ok name dns [] h = (sym (append-nil dns ∙ cc), tt)
  parse_identities-eq-ok name dns (identity ∷ identities) h =
      let (dns₁, e₁, h₁) =
        >>=-eq-ok (parse_identity parse_dn name dns identity)
          (λ x. parse_identities parse_dn name x identities) h in
      let (names₁, i₁) = parse_identity-eq-ok name dns identity e₁ in
      let (names₂, i₂) = parse_identities-eq-ok name dns₁ identities h₁ in
      (names₂ ∙ rw (names₁, append_assoc), (i₁, i₂))

  parse_identities-ok :
      (name : String) (dns : List ParsedDn) (identities : List String)
      → All IsIdentity identities
      → parse_identities parse_dn name dns identities ≡ ok (dns ++ names_of identities)
  unfolding parse_identities
  parse_identities-ok name dns [] h = rw append-nil
  parse_identities-ok name dns (identity ∷ identities) (h, hs) =
      rw (parse_identity-ok name dns identity h)
        (parse_identities-ok name (dns ++ identity_names identity) identities hs ∙ rw append_assoc)

  -- The identities of a statement: a wildcard stands alone, each is an identity, and no parsed name
  -- is a subset of another one.
  pub record IsPinning (identities : List String) : Type 0 where
    pub alone : 2 ≤ length identities → ¬ IsElem wildcard identities
    pub identity : All IsIdentity identities
    pub apart : HasNoOverlap (names_of identities)

  conjunction_test :
      (identities : List String)
      → (ltb 1 (length identities) && is_present wildcard identities ≡ false)
        ↔ (2 ≤ length identities → ¬ IsElem wildcard identities)
  conjunction_test identities = (
    λ h two m. ground (arith, is_present_iff wildcard identities),
    λ h. ground (arith, is_present_iff wildcard identities, h),
  )

  -- `validateTrustedIdentities` accepts exactly the statements whose identities are such.
  pub validate_trusted_identities_iff :
      (statement : TrustPolicy)
      → (validate_trusted_identities parse_dn statement ≡ ok tt)
        ↔ IsPinning statement.trusted_identities
  unfolding validate_trusted_identities
  validate_trusted_identities_iff statement = (accepted, accepts)
    where
      ids : List String
      ids = statement.trusted_identities

      test : Bool
      test = ltb 1 (length ids) && is_present wildcard ids

      accepted : validate_trusted_identities parse_dn statement ≡ ok tt → IsPinning ids
      accepted h = elim (Bool-cases test) [
        | inl both ↦ cc (rw both at h)
        | inr clear ↦
            let (dns, e, rest) =
              >>=-eq-ok (parse_identities parse_dn statement.name [] ids)
                (validate_overlapping_dns statement.name) (rw clear at h) in
            let (names, each) = parse_identities-eq-ok statement.name [] ids e in
            record {
              alone = (conjunction_test ids).0 clear;
              identity = each;
              apart =
                  (validate_overlapping_dns_iff statement.name (names_of ids)).0
                    (ap (validate_overlapping_dns statement.name) (sym names) ∙ rest);
            }
      ]

      accepts : IsPinning ids → validate_trusted_identities parse_dn statement ≡ ok tt
      accepts h =
          rw
            ((conjunction_test ids).1 h.alone, parse_identities-ok statement.name [] ids h.identity)
            ((validate_overlapping_dns_iff statement.name (names_of ids)).1 h.apart)
