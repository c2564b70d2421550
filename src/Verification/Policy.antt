-- ===== src/Verification/Policy.antt =====
-- verification/policy.go: trust policy documents and their validation.
pub mod Counting
pub mod Overlaps
pub mod Scoping
pub mod Statements
pub mod Validity
pub mod Identities
use notation_go.Prelude.{
  ℕ, ◌+◌, String, ◌&&◌, ◌||◌, not, Option, none, some, List, [], ◌∷◌, ◌++◌, Outcome, ok, err, panic,
  ◌>>=◌, ◌>>◌, fail_if, map_err, or_err, str_eq, ltb, ◌==◌, length, cut, if◌then◌else◌,
}
use notation_go.Verification.Names.{
  StringMap, Rdn, is_present, is_subset_dn, NameError, parse_distinguished_name,
}
use notation_go.Verification.Scopes.{ScopeError, validate_registry_scope_format}

pub record TrustPolicy : Type 0 where
  pub name : String
  pub registry_scopes : List String
  pub signature_verification : String
  pub trust_store : String
  pub trusted_identities : List String

pub record PolicyDocument : Type 0 where
  pub version : String
  pub trust_policies : List TrustPolicy

pub record ParsedDn : Type 0 where
  pub raw_string : String
  pub parsed_map : StringMap

abbrev pub wildcard : String
wildcard = "*"

abbrev pub x509_subject : String
x509_subject = "x509.subject"

abbrev pub supported_levels : List String
supported_levels = "strict" ∷ "permissive" ∷ "audit" ∷ "skip" ∷ []

-- The errors, each with the values that its message names. Which of several repeated keys the last
-- two name depends on the order in which Go visits a map, so they name none.
pub data PolicyError : Type 0 where
  zero_registry_scopes wildcard_scope_conjunction : String → PolicyError
  scope_format : ScopeError → PolicyError
  wildcard_identity_conjunction empty_identity : String → PolicyError
  identity_without_prefix : String → String → PolicyError
  identity_name : NameError → PolicyError
  overlapping_identities : String → String → String → PolicyError
  unsupported_trust_store : String → String → String → PolicyError
  unsupported_version : String → PolicyError
  no_statements missing_name : PolicyError
  unsupported_level : String → String → PolicyError
  skip_with_trust missing_trust : String → PolicyError
  no_applicable_policy : String → PolicyError
  repeated_scope repeated_name : PolicyError

abbrev pub Checked : Type 0
Checked = Outcome PolicyError (Unit {0})

-- `map[string]int`, counting how often a key was met.
abbrev pub Counts : Type 0
Counts = List (String × ℕ)

-- `counts[key]++`
unfoldable pub increment : String → Counts → Counts
increment key [] = (key, 1) ∷ []
increment key ((k, n) ∷ counts) =
    if str_eq k key then (k, n + 1) ∷ counts else (k, n) ∷ increment key counts

-- `for key := range counts { if counts[key] > 1 { return e } }`
unfoldable pub require_unique : Counts → PolicyError → Checked
require_unique [] e = ok tt
require_unique ((k, n) ∷ counts) e = if ltb 1 n then err e else require_unique counts e

abbrev format_of : String → Checked
format_of scope =
    if str_eq scope wildcard
    then ok tt
    else map_err scope_format (validate_registry_scope_format scope)

-- The loop over the scopes of one statement.
unfoldable pub count_scopes : Counts → List String → Outcome PolicyError Counts
count_scopes counts [] = ok counts
count_scopes counts (scope ∷ scopes) = do
  format_of scope
  count_scopes (increment scope counts) scopes

-- The loop over the statements.
unfoldable pub count_statements : Counts → List TrustPolicy → Outcome PolicyError Counts
count_statements counts [] = ok counts
count_statements counts (statement ∷ statements) = do
  fail_if (length statement.registry_scopes == 0) (zero_registry_scopes statement.name)
  fail_if
      (ltb 1 (length statement.registry_scopes) && is_present wildcard statement.registry_scopes)
      (wildcard_scope_conjunction statement.name)
  counts' ← count_scopes counts statement.registry_scopes
  count_statements counts' statements

-- `validateRegistryScopes`
unfoldable pub validate_registry_scopes : PolicyDocument → Checked
unfolding count_statements count_scopes require_unique increment
validate_registry_scopes policy_doc = do
  counts ← count_statements [] policy_doc.trust_policies
  require_unique counts repeated_scope

-- What `validateTrustStore` does with the index of the colon. Without a colon the index is -1, and
-- the message of the error slices the store at that index: a run-time panic.
unfoldable pub check_store : TrustPolicy → Option (String × String) → Checked
unfolding is_present
check_store statement none = panic
check_store statement (some (store_type, _)) =
    fail_if (not (is_present store_type ("ca" ∷ [])))
      (unsupported_trust_store statement.name store_type statement.trust_store)

-- `validateTrustStore`
unfoldable pub validate_trust_store : TrustPolicy → Checked
unfolding cut check_store
validate_trust_store statement = check_store statement (cut b':' statement.trust_store)

-- The inner loop of `validateOverlappingDNs`, at index `i` of the outer and `j` of the inner one.
unfoldable pub overlaps_from : String → ℕ → ParsedDn → ℕ → List ParsedDn → Checked
overlaps_from policy_name i dn1 j [] = ok tt
overlaps_from policy_name i dn1 j (dn2 ∷ dns) =
    if not (i == j) && is_subset_dn dn1.parsed_map dn2.parsed_map
    then err (overlapping_identities policy_name dn1.raw_string dn2.raw_string)
    else overlaps_from policy_name i dn1 (j + 1) dns

-- The outer loop.
unfoldable pub overlaps_all : String → List ParsedDn → ℕ → List ParsedDn → Checked
overlaps_all policy_name all i [] = ok tt
overlaps_all policy_name all i (dn1 ∷ dns) = do
  overlaps_from policy_name i dn1 0 all
  overlaps_all policy_name all (i + 1) dns

unfoldable pub validate_overlapping_dns : String → List ParsedDn → Checked
unfolding overlaps_all overlaps_from is_subset_dn
validate_overlapping_dns policy_name parsed_dns = overlaps_all policy_name parsed_dns 0 parsed_dns

module _ (parse_dn : String → Option (List Rdn)) where
  -- An identity behind its prefix; notation reads those of the prefix x509.subject only.
  unfoldable pub parse_prefixed :
      String → List ParsedDn → String × String → Outcome PolicyError (List ParsedDn)
  parse_prefixed identity dns (prefix, value) =
      if str_eq prefix x509_subject
      then (do
        dn ← map_err identity_name (parse_distinguished_name parse_dn value)
        ok (dns ++ record { raw_string = identity; parsed_map = dn } ∷ []))
      else ok dns

  -- One round of the loop over the identities: the names parsed so far, and this one's.
  unfoldable pub parse_identity :
      String → List ParsedDn → String → Outcome PolicyError (List ParsedDn)
  unfolding parse_prefixed
  parse_identity policy_name dns identity =
      if str_eq identity ""
      then err (empty_identity policy_name)
      else if str_eq identity wildcard
      then ok dns
      else (do
        parts ← or_err (cut b':' identity) (identity_without_prefix policy_name identity)
        parse_prefixed identity dns parts)

  unfoldable pub parse_identities :
      String → List ParsedDn → List String → Outcome PolicyError (List ParsedDn)
  parse_identities policy_name dns [] = ok dns
  parse_identities policy_name dns (identity ∷ identities) = do
    dns' ← parse_identity policy_name dns identity
    parse_identities policy_name dns' identities

  -- `validateTrustedIdentities`
  unfoldable pub validate_trusted_identities : TrustPolicy → Checked
  unfolding parse_identities parse_identity
  validate_trusted_identities statement = do
    fail_if
        (ltb 1 (length statement.trusted_identities)
          && is_present wildcard statement.trusted_identities)
        (wildcard_identity_conjunction statement.name)
    dns ← parse_identities statement.name [] statement.trusted_identities
    validate_overlapping_dns statement.name dns

  -- What the loop body does with the store and the identities, by the level.
  unfoldable pub validate_trust : TrustPolicy → Checked
  validate_trust statement =
      if str_eq statement.signature_verification "skip"
      then fail_if
          (not (str_eq statement.trust_store "") || ltb 0 (length statement.trusted_identities))
          (skip_with_trust statement.name)
      else (do
        fail_if (str_eq statement.trust_store "" || length statement.trusted_identities == 0)
            (missing_trust statement.name)
        validate_trust_store statement
        validate_trusted_identities statement)

  -- The part of the loop body below the count of the name.
  unfoldable pub validate_statement : TrustPolicy → Checked
  unfolding validate_trust
  validate_statement statement = do
    fail_if (not (is_present statement.signature_verification supported_levels))
        (unsupported_level statement.name statement.signature_verification)
    validate_trust statement

  -- The loop over the statements, which counts their names.
  unfoldable pub validate_statements : Counts → List TrustPolicy → Outcome PolicyError Counts
  validate_statements counts [] = ok counts
  validate_statements counts (statement ∷ statements) = do
    fail_if (str_eq statement.name "") missing_name
    validate_statement statement
    validate_statements (increment statement.name counts) statements

  -- `ValidatePolicyDocument`
  unfoldable pub validate_policy_document : PolicyDocument → Checked
  unfolding validate_statements validate_statement
  validate_policy_document policy_doc = do
    fail_if (not (is_present policy_doc.version ("1.0" ∷ [])))
        (unsupported_version policy_doc.version)
    fail_if (length policy_doc.trust_policies == 0) no_statements
    names ← validate_statements [] policy_doc.trust_policies
    validate_registry_scopes policy_doc
    require_unique names repeated_name
