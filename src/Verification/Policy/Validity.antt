-- ===== src/Verification/Policy/Validity.antt =====
-- `ValidatePolicyDocument` against a description of the valid documents.
use notation_go.Prelude.{
  ◌≡◌, refl, ◌≢◌, ◌↔◌, String, false, not, Option, List, [], ◌∷◌, ok, arith, inl, inr, >>=-eq-ok,
  fail_if, fail_if-eq-ok, str_eq, length, ◌==◌, All, ap, sym, ◌∙◌,
}
use notation_go.Verification.Names.{Rdn, is_present}
use notation_go.Verification.Names.Laws.{is_present_iff}
use notation_go.Verification.Policy.{
  TrustPolicy, PolicyDocument, Counts, increment, require_unique, count_statements,
  validate_registry_scopes, validate_statement, validate_statements, validate_policy_document,
  repeated_scope, repeated_name,
}
use notation_go.Verification.Policy.Counting.{IsDistinct, increments, require_unique_iff}
use notation_go.Verification.Policy.Scoping.{
  IsScoped, scopes, count_statements-eq-ok, count_statements-ok,
}
use notation_go.Verification.Policy.Statements.{IsStatement, validate_statement-eq-ok}

abbrev pub names : List TrustPolicy → List String
names [] = []
names (s ∷ statements) = s.name ∷ names statements

statements_test : (sts : List TrustPolicy) → (length sts == 0 ≡ false) ↔ (sts ≢ [])
statements_test [] = (λ h. cc, λ h. absurd (h refl))
statements_test (x ∷ xs) = (λ h e. cc, λ h. ground arith)

version_test : (v : String) → not (is_present v ("1.0" ∷ [])) ≡ false → v ≡ "1.0"
version_test v h = elim ((is_present_iff v ("1.0" ∷ [])).0 (ground arith)) [
  | inl e ↦ sym e
  | inr e ↦ absurd e
]

module _ (parse_dn : String → Option (List Rdn)) where
  pub record IsDocument (doc : PolicyDocument) : Type 0 where
    pub version : doc.version ≡ "1.0"
    pub present : doc.trust_policies ≢ []
    pub statement : All (IsStatement parse_dn) doc.trust_policies
    pub scoped : All IsScoped doc.trust_policies
    pub one_statement_per_scope : IsDistinct (scopes doc.trust_policies)
    pub one_statement_per_name : IsDistinct (names doc.trust_policies)

  validate_statements-eq-ok :
      (counts : Counts) (statements : List TrustPolicy) {counts' : Counts}
      → validate_statements parse_dn counts statements ≡ ok counts'
      → All (IsStatement parse_dn) statements × (counts' ≡ increments counts (names statements))
  unfolding validate_statements
  validate_statements-eq-ok counts [] h = (tt, cc)
  validate_statements-eq-ok counts (s ∷ statements) h =
      let (_, e₁, h₁) = >>=-eq-ok (fail_if (str_eq s.name "") _) _ h in
      let (_, e₂, h₂) = >>=-eq-ok (validate_statement parse_dn s) _ h₁ in
      let (rest, same) = validate_statements-eq-ok (increment s.name counts) statements h₂ in
      (((validate_statement-eq-ok parse_dn s).0 (fail_if-eq-ok _ _ e₁, e₂), rest), same)

  validate_statements-ok :
      (counts : Counts) (statements : List TrustPolicy)
      → All (IsStatement parse_dn) statements
      → validate_statements parse_dn counts statements ≡ ok (increments counts (names statements))
  unfolding validate_statements
  validate_statements-ok counts [] h = refl
  validate_statements-ok counts (s ∷ statements) (h, hs) =
      let (e₁, e₂) = (validate_statement-eq-ok parse_dn s).1 h in
      rw (e₁, e₂) (validate_statements-ok (increment s.name counts) statements hs)

  validate_policy_document_sound :
      (doc : PolicyDocument) → validate_policy_document parse_dn doc ≡ ok tt → IsDocument doc
  unfolding validate_policy_document validate_registry_scopes
  validate_policy_document_sound doc h =
      let (_, e₁, h₁) = >>=-eq-ok (fail_if (not (is_present doc.version ("1.0" ∷ []))) _) _ h in
      let (_, e₂, h₂) = >>=-eq-ok (fail_if (length doc.trust_policies == 0) _) _ h₁ in
      let (named, e₃, h₃) = >>=-eq-ok (validate_statements parse_dn [] doc.trust_policies) _ h₂ in
      let (_, e₄, h₄) =
        >>=-eq-ok (validate_registry_scopes doc) (λ _. require_unique named repeated_name) h₃ in
      let (scoped, e₅, h₅) =
        >>=-eq-ok (count_statements [] doc.trust_policies) (λ c. require_unique c repeated_scope)
          e₄ in
      let (each, same₁) = validate_statements-eq-ok [] doc.trust_policies e₃ in
      let (each', same₂) = count_statements-eq-ok [] doc.trust_policies e₅ in
      record {
        version = version_test doc.version (fail_if-eq-ok _ _ e₁);
        present = (statements_test doc.trust_policies).0 (fail_if-eq-ok _ _ e₂);
        statement = each;
        scoped = each';
        one_statement_per_scope =
            (require_unique_iff (scopes doc.trust_policies) repeated_scope).0
              (ap (λ c. require_unique c repeated_scope) (sym same₂) ∙ h₅);
        one_statement_per_name =
            (require_unique_iff (names doc.trust_policies) repeated_name).0
              (ap (λ c. require_unique c repeated_name) (sym same₁) ∙ h₄);
      }

  validate_policy_document_complete :
      (doc : PolicyDocument) → IsDocument doc → validate_policy_document parse_dn doc ≡ ok tt
  unfolding validate_policy_document validate_registry_scopes
  validate_policy_document_complete doc h =
      rw
        (
          (is_present_iff doc.version ("1.0" ∷ [])).1 (inl (sym h.version)),
          (statements_test doc.trust_policies).1 h.present,
          validate_statements-ok [] doc.trust_policies h.statement,
          count_statements-ok [] doc.trust_policies h.scoped,
          (require_unique_iff (scopes doc.trust_policies) repeated_scope).1
              h.one_statement_per_scope,
        )
        ((require_unique_iff (names doc.trust_policies) repeated_name).1 h.one_statement_per_name)

  -- `ValidatePolicyDocument` accepts exactly the documents of version 1.0 that have a statement, whose
  -- statements are all well formed and well scoped, and in which no scope and no name occurs twice.
  pub validate_policy_document_iff :
      (doc : PolicyDocument) → (validate_policy_document parse_dn doc ≡ ok tt) ↔ IsDocument doc
  validate_policy_document_iff doc =
      (validate_policy_document_sound doc, validate_policy_document_complete doc)
