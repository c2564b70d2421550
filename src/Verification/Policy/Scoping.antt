-- ===== src/Verification/Policy/Scoping.antt =====
-- `validateRegistryScopes`: the loops over the statements and their scopes.
use notation_go.Prelude.{
  ◌≤◌, ◌≡◌, refl, ◌≢◌, ◌↔◌, ◌⊎◌, String, false, ◌&&◌, List, [], ◌∷◌, ◌++◌, Outcome, ok, err, panic,
  arith, Bool-cases, inl, inr, >>=-eq-ok, fail_if, fail_if-eq-ok, map_err, str_eq, eq_iff, length,
  ltb, ◌==◌, All, IsElem, ◌∙◌,
}
use notation_go.Verification.Names.{is_present}
use notation_go.Verification.Names.Laws.{is_present_iff}
use notation_go.Verification.Scopes.{ScopeError, validate_registry_scope_format}
use notation_go.Verification.Policy.{
  TrustPolicy, scope_format, Counts, wildcard, increment, format_of, count_scopes, count_statements,
}
use notation_go.Verification.Policy.Counting.{increments, increments-append}

abbrev pub IsScope : String → Type 0
IsScope scope = (scope ≡ wildcard) ⊎ (validate_registry_scope_format scope ≡ ok tt)

-- The scopes of a statement: there is one, a wildcard stands alone, and each is well formed.
pub record IsScoped (statement : TrustPolicy) : Type 0 where
  pub present : statement.registry_scopes ≢ []
  pub alone : 2 ≤ length statement.registry_scopes → ¬ IsElem wildcard statement.registry_scopes
  pub scope : All IsScope statement.registry_scopes

abbrev pub scopes : List TrustPolicy → List String
scopes [] = []
scopes (s ∷ statements) = s.registry_scopes ++ scopes statements

map_err-eq-ok : (m : Outcome ScopeError (Unit {0})) → (map_err scope_format m ≡ ok tt) ↔ (m ≡ ok tt)
map_err-eq-ok (ok tt) = (λ h. refl, λ h. refl)
map_err-eq-ok (err e) = (λ h. cc, λ h. cc)
map_err-eq-ok panic = (λ h. cc, λ h. cc)

format_of-IsScope : (scope : String) → (format_of scope ≡ ok tt) ↔ IsScope scope
format_of-IsScope scope = elim (Bool-cases (str_eq scope wildcard)) [
  | inl any ↦ (λ h. inl ((eq_iff scope wildcard).0 any), λ h. rw any)
  | inr other ↦ (
    λ h. inr ((map_err-eq-ok (validate_registry_scope_format scope)).0 (rw other at h)),
    λ h. elim h [ inl e ↦ absurd (ground (arith, eq_iff scope wildcard)) | inr e ↦ rw (other, e) ],
  )
]

count_scopes-eq-ok :
    (counts : Counts) (scopes : List String) {counts' : Counts}
    → count_scopes counts scopes ≡ ok counts'
    → All IsScope scopes × (counts' ≡ increments counts scopes)
unfolding count_scopes
count_scopes-eq-ok counts [] h = (tt, cc)
count_scopes-eq-ok counts (scope ∷ scopes) h =
    let (_, e, rest) =
      >>=-eq-ok (format_of scope) (λ _. count_scopes (increment scope counts) scopes) h in
    let (each, same) = count_scopes-eq-ok (increment scope counts) scopes rest in
    (((format_of-IsScope scope).0 e, each), same)

count_scopes-ok :
    (counts : Counts) (scopes : List String)
    → All IsScope scopes
    → count_scopes counts scopes ≡ ok (increments counts scopes)
unfolding count_scopes
count_scopes-ok counts [] h = refl
count_scopes-ok counts (scope ∷ scopes) (h, hs) =
    rw ((format_of-IsScope scope).1 h) (count_scopes-ok (increment scope counts) scopes hs)

scoped_test :
    (statement : TrustPolicy)
    → (ltb 1 (length statement.registry_scopes) && is_present wildcard statement.registry_scopes
        ≡ false)
      ↔ (2 ≤ length statement.registry_scopes → ¬ IsElem wildcard statement.registry_scopes)
scoped_test statement = (
  λ h two m. ground (arith, is_present_iff wildcard statement.registry_scopes),
  λ h. ground (arith, is_present_iff wildcard statement.registry_scopes, h),
)

length-zero_iff : (xs : List String) → (length xs == 0 ≡ false) ↔ (xs ≢ [])
length-zero_iff [] = (λ h. cc, λ h. absurd (h refl))
length-zero_iff (x ∷ xs) = (λ h e. cc, λ h. ground arith)

pub count_statements-eq-ok :
    (counts : Counts) (statements : List TrustPolicy) {counts' : Counts}
    → count_statements counts statements ≡ ok counts'
    → All IsScoped statements × (counts' ≡ increments counts (scopes statements))
unfolding count_statements
count_statements-eq-ok counts [] h = (tt, cc)
count_statements-eq-ok counts (s ∷ statements) h =
    let (_, e₁, h₁) = >>=-eq-ok (fail_if (length s.registry_scopes == 0) _) _ h in
    let (_, e₂, h₂) =
      >>=-eq-ok
        (fail_if (ltb 1 (length s.registry_scopes) && is_present wildcard s.registry_scopes) _) _
        h₁ in
    let (counts₁, e₃, h₃) =
      >>=-eq-ok (count_scopes counts s.registry_scopes) (λ c. count_statements c statements) h₂ in
    let (each, same) = count_scopes-eq-ok counts s.registry_scopes e₃ in
    let (rest, same') = count_statements-eq-ok counts₁ statements h₃ in
    (
      (
        record {
          present = (length-zero_iff s.registry_scopes).0 (fail_if-eq-ok _ _ e₁);
          alone = (scoped_test s).0 (fail_if-eq-ok _ _ e₂);
          scope = each;
        },
        rest,
      ),
      same' ∙ rw (same, increments-append),
    )

pub count_statements-ok :
    (counts : Counts) (statements : List TrustPolicy)
    → All IsScoped statements
    → count_statements counts statements ≡ ok (increments counts (scopes statements))
unfolding count_statements
count_statements-ok counts [] h = refl
count_statements-ok counts (s ∷ statements) (h, hs) =
    rw
      (
        (length-zero_iff s.registry_scopes).1 h.present,
        (scoped_test s).1 h.alone,
        count_scopes-ok counts s.registry_scopes h.scope,
        increments-append,
      )
      (count_statements-ok (increments counts s.registry_scopes) statements hs)
