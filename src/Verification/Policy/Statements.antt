-- ===== src/Verification/Policy/Statements.antt =====
-- One statement: its store, its identities and its level.
use notation_go.Prelude.{
  ◌≡◌, refl, ◌≢◌, ◌↔◌, ◌⊎◌, String, false, not, ◌||◌, Option, none, some, List, [], ◌∷◌, ok, arith,
  Bool-cases, inl, inr, >>=-eq-ok, fail_if, fail_if-eq-ok, str_eq, eq_iff, cut, length, ltb, ◌==◌,
  IsElem, ap,
}
use notation_go.Verification.Names.{Rdn, is_present}
use notation_go.Verification.Names.Laws.{is_present_iff}
use notation_go.Verification.Policy.{
  TrustPolicy, check_store, supported_levels, validate_trust_store, validate_trusted_identities,
  validate_trust, validate_statement,
}
use notation_go.Verification.Policy.Identities.{IsPinning, validate_trusted_identities_iff}

-- A store of the type `ca`.
abbrev pub IsStore : String → Type 0
IsStore store = (path : String) × (cut b':' store ≡ some ("ca", path))

-- A statement that skips verification has neither.
pub record IsSkipping (statement : TrustPolicy) : Type 0 where
  pub level : statement.signature_verification ≡ "skip"
  pub no_store : statement.trust_store ≡ ""
  pub no_identities : statement.trusted_identities ≡ []

module _ (parse_dn : String → Option (List Rdn)) where
  -- A statement that verifies: it has a store, and identities of the right form.
  pub record IsTrusting (statement : TrustPolicy) : Type 0 where
    pub level : statement.signature_verification ≢ "skip"
    pub store : IsStore statement.trust_store
    pub some_identity : statement.trusted_identities ≢ []
    pub pinning : IsPinning parse_dn statement.trusted_identities

  pub record IsStatement (statement : TrustPolicy) : Type 0 where
    pub named : statement.name ≢ ""
    pub supported : IsElem statement.signature_verification supported_levels
    pub trust : IsSkipping statement ⊎ IsTrusting statement

check_store-eq-ok :
    (statement : TrustPolicy) (parts : Option (String × String))
    → (check_store statement parts ≡ ok tt) ↔ ((path : String) × (parts ≡ some ("ca", path)))
unfolding check_store
check_store-eq-ok statement none = (λ h. cc, λ h. cc (h.1))
check_store-eq-ok statement (some (store_type, path)) = (
  λ h. (path, ground (arith, eq_iff "ca" store_type)),
  λ h. ground (arith, eq_iff "ca" store_type, h.1),
)

validate_trust_store-IsStore :
    (statement : TrustPolicy)
    → (validate_trust_store statement ≡ ok tt) ↔ IsStore statement.trust_store
unfolding validate_trust_store
validate_trust_store-IsStore statement =
    check_store-eq-ok statement (cut b':' statement.trust_store)

skip_test :
    (store : String) (identities : List String)
    → (not (str_eq store "") || ltb 0 (length identities) ≡ false)
      ↔ ((store ≡ "") × (identities ≡ []))
skip_test store [] =
    (λ h. (ground (arith, eq_iff store ""), refl), λ h. ground (arith, eq_iff store ""))
skip_test store (x ∷ xs) = (λ h. absurd (ground arith), λ h. cc (h.1))

trust_test :
    (store : String) (identities : List String)
    → (str_eq store "" || length identities == 0 ≡ false) ↔ ((store ≢ "") × (identities ≢ []))
trust_test store [] = (λ h. absurd (ground arith), λ h. absurd (h.1 refl))
trust_test store (x ∷ xs) = (
  λ h. (λ e. ground (arith, eq_iff store ""), λ e. cc),
  λ h. ground (arith, eq_iff store "", h.0),
)

store_nonempty : (store : String) → IsStore store → store ≢ ""
store_nonempty store (path, h) e = unfold cut in cc (ap (cut b':') e)

module _ (parse_dn : String → Option (List Rdn)) where
  validate_trust-eq-ok :
      (s : TrustPolicy)
      → (validate_trust parse_dn s ≡ ok tt) ↔ (IsSkipping s ⊎ IsTrusting parse_dn s)
  unfolding validate_trust
  validate_trust-eq-ok s = elim (Bool-cases (str_eq s.signature_verification "skip")) [
    | inl skips ↦
        let level = (eq_iff s.signature_verification "skip").0 skips in
        (
          λ h.
              let (store, ids) =
                (skip_test s.trust_store s.trusted_identities).0
                  (fail_if-eq-ok _ _ (rw skips at h)) in
              inl (record { level = level; no_store = store; no_identities = ids }),
          λ h. elim h [
            | inl k ↦ rw (
              skips,
              (skip_test s.trust_store s.trusted_identities).1 (k.no_store, k.no_identities),
            )
            | inr k ↦ absurd (k.level level)
          ],
        )
    | inr verifies ↦ (
      λ h.
          let (_, e₁, h₁) =
            >>=-eq-ok (fail_if (str_eq s.trust_store "" || length s.trusted_identities == 0) _) _
              (rw verifies at h) in
          let (_, e₂, e₃) =
            >>=-eq-ok (validate_trust_store s) (λ _. validate_trusted_identities parse_dn s) h₁ in
          inr (record {
            level = λ e. cc ((eq_iff s.signature_verification "skip").1 e);
            store = (validate_trust_store-IsStore s).0 e₂;
            some_identity =
                ((trust_test s.trust_store s.trusted_identities).0 (fail_if-eq-ok _ _ e₁)).1;
            pinning = (validate_trusted_identities_iff parse_dn s).0 e₃;
          }),
      λ h. elim h [
        | inl k ↦ cc ((eq_iff s.signature_verification "skip").1 k.level)
        | inr k ↦
            rw
              (
                verifies,
                (trust_test s.trust_store s.trusted_identities).1
                    (store_nonempty s.trust_store k.store, k.some_identity),
                (validate_trust_store-IsStore s).1 k.store,
              )
              ((validate_trusted_identities_iff parse_dn s).1 k.pinning)
      ],
    )
  ]

  pub validate_statement-eq-ok :
      (s : TrustPolicy)
      → ((str_eq s.name "" ≡ false) × (validate_statement parse_dn s ≡ ok tt))
        ↔ IsStatement parse_dn s
  unfolding validate_statement
  validate_statement-eq-ok s = (
    λ h.
        let (_, e₁, e₂) =
          >>=-eq-ok (fail_if (not (is_present s.signature_verification supported_levels)) _)
            (λ _. validate_trust parse_dn s) (h.1) in
        record {
          named = λ e. cc (h.0, (eq_iff s.name "").1 e);
          supported = (is_present_iff _ supported_levels).0 (ground (arith, fail_if-eq-ok _ _ e₁));
          trust = (validate_trust-eq-ok s).0 e₂;
        },
    λ h. (
      ground (arith, eq_iff s.name "", h.named),
      rw ((is_present_iff _ supported_levels).1 h.supported) ((validate_trust-eq-ok s).1 h.trust),
    ),
  )
