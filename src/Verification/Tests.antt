-- ===== src/Verification/Tests.antt =====
-- Runs and witnesses of the package `verification`.
use notation_go.Prelude.{
  str_append, false, ◌≡◌, refl, String, true, [], ◌∷◌, some, none, ok, err, panic, List, Option,
  ◌≢◌, ◌↔◌, str_eq, if◌then◌else◌, cut,
}
use notation_go.Verification.Store.{Disk, X509TrustStore, load_x509_trust_store}
use notation_go.Verification.Store.Loaded.{IsTrustStore, load_x509_trust_store_iff}
use notation_go.Verification.Scopes.{
  validate_registry_scope_format, get_artifact_path_from_uri, invalid_scope,
}
use notation_go.Verification.Names.{
  Rdn, StringMap, get, is_present, is_subset_dn, parse_distinguished_name,
}
use notation_go.Verification.Names.Laws.{HasKey, is_subset_dn_iff}
use notation_go.Verification.Names.Parsing.{IsParsed, parse_distinguished_name_iff}
use notation_go.Verification.Levels.{VerificationLevel, find_verification_level}
use notation_go.Verification.Levels.Order.{find_verification_level_iff}
use notation_go.Verification.Policy.{
  TrustPolicy, PolicyDocument, supported_levels, repeated_name, no_applicable_policy,
  require_unique, validate_policy_document, validate_registry_scopes, validate_trusted_identities,
  validate_trust_store, validate_overlapping_dns,
}
use notation_go.Verification.Policy.Counting.{increments, IsDistinct, require_unique_iff}
use notation_go.Verification.Policy.Overlaps.{HasNoOverlap, validate_overlapping_dns_iff}
use notation_go.Verification.Policy.Identities.{IsPinning, validate_trusted_identities_iff}
use notation_go.Verification.Policy.Validity.{IsDocument, validate_policy_document_iff}
use notation_go.Verification.Selection.{get_applicable_trust_policy}
use notation_go.Verification.Selection.Aliasing.{
  any_applies, applies, blank, get_applicable_trust_policy_lem,
}
use notation_go.Verification.Identity.{Certificate, verify_x509_trusted_identities}
use notation_go.Verification.Identity.Laws.{
  Accepts, verify_x509_trusted_identities_iff, verify_x509_trusted_identities-ne-panic,
}

scope_runs :
    (validate_registry_scope_format "registry.acme-rockets.io/software/net-monitor" ≡ ok tt)
    × (validate_registry_scope_format "domain.com:80/my_rep--o/a" ≡ ok tt)
    × (validate_registry_scope_format "domain.com" ≡ err (invalid_scope "domain.com"))
    × (validate_registry_scope_format "https://domain.com"
        ≡ err (invalid_scope "https://domain.com"))
    × (get_artifact_path_from_uri "d.com:80/a:h" ≡ ok "d.com:80/a")
unfolding validate_registry_scope_format get_artifact_path_from_uri
scope_runs = (refl, refl, refl, refl, refl)

-- A parser of two names.
abbrev sample_parser : String → Option (List Rdn)
sample_parser s =
    if str_eq s "C=US, ST=WA, O=acme"
    then some ((("C", "US") ∷ []) ∷ (("ST", "WA") ∷ []) ∷ (("O", "acme") ∷ []) ∷ [])
    else if str_eq s "C=US, ST=WA, O=acme, CN=leaf"
    then some (
        (("C", "US") ∷ [])
        ∷ (("ST", "WA") ∷ [])
        ∷ (("O", "acme") ∷ [])
        ∷ (("CN", "leaf") ∷ [])
        ∷ [])
    else none

abbrev acme : StringMap
acme = ("C", "US") ∷ ("ST", "WA") ∷ ("O", "acme") ∷ []

abbrev acme_leaf : StringMap
acme_leaf = ("C", "US") ∷ ("ST", "WA") ∷ ("O", "acme") ∷ ("CN", "leaf") ∷ []

abbrev acme_policy : TrustPolicy
acme_policy = record {
  name = "acme";
  registry_scopes = "registry.acme.io/software/net" ∷ [];
  signature_verification = "strict";
  trust_store = "ca:acme";
  trusted_identities = "x509.subject:C=US, ST=WA, O=acme" ∷ [];
}

abbrev any_policy : TrustPolicy
any_policy = record {
  name = "any";
  registry_scopes = "*" ∷ [];
  signature_verification = "skip";
  trust_store = "";
  trusted_identities = [];
}

abbrev sample_document : PolicyDocument
sample_document = record { version = "1.0"; trust_policies = acme_policy ∷ any_policy ∷ [] }

document_run : validate_policy_document sample_parser sample_document ≡ ok tt
unfolding validate_policy_document validate_registry_scopes validate_trusted_identities
    validate_trust_store validate_registry_scope_format parse_distinguished_name
    validate_overlapping_dns
document_run = refl

validate_policy_document_iff_example :
    (validate_policy_document sample_parser sample_document ≡ ok tt)
    ↔ IsDocument sample_parser sample_document
validate_policy_document_iff_example = validate_policy_document_iff sample_parser sample_document

identities_run : validate_trusted_identities sample_parser acme_policy ≡ ok tt
unfolding validate_trusted_identities parse_distinguished_name cut validate_overlapping_dns
identities_run = refl

validate_trusted_identities_iff_example :
    (validate_trusted_identities sample_parser acme_policy ≡ ok tt)
    ↔ IsPinning sample_parser acme_policy.trusted_identities
validate_trusted_identities_iff_example = validate_trusted_identities_iff sample_parser acme_policy

pinning : IsPinning sample_parser acme_policy.trusted_identities
pinning = (validate_trusted_identities_iff sample_parser acme_policy).0 identities_run

abbrev leaf : Certificate
leaf = record { subject = "C=US, ST=WA, O=acme, CN=leaf" }

verify_x509_trusted_identities_iff_example :
    (verify_x509_trusted_identities sample_parser (leaf ∷ []) acme_policy ≡ ok tt)
    ↔ Accepts sample_parser acme_policy (leaf ∷ [])
verify_x509_trusted_identities_iff_example =
    verify_x509_trusted_identities_iff sample_parser (leaf ∷ []) acme_policy pinning

leaf_run : verify_x509_trusted_identities sample_parser (leaf ∷ []) acme_policy ≡ ok tt
unfolding verify_x509_trusted_identities parse_distinguished_name cut is_subset_dn is_present
leaf_run = refl

verify_x509_trusted_identities-ne-panic_example :
    verify_x509_trusted_identities sample_parser (leaf ∷ []) acme_policy ≢ panic
verify_x509_trusted_identities-ne-panic_example =
    verify_x509_trusted_identities-ne-panic sample_parser leaf [] acme_policy pinning

path_run :
    get_artifact_path_from_uri "registry.acme.io/software/net:v1"
    ≡ ok "registry.acme.io/software/net"
unfolding get_artifact_path_from_uri validate_registry_scope_format
path_run = refl

-- The statement of the path is not what is returned.
get_applicable_trust_policy_lem_example :
    get_applicable_trust_policy sample_document "registry.acme.io/software/net:v1" ≡ (
      if any_applies "registry.acme.io/software/net" sample_document.trust_policies
      then ok (
          if applies "registry.acme.io/software/net" any_policy
          then blank any_policy
          else any_policy)
      else err (no_applicable_policy "registry.acme.io/software/net:v1"))
get_applicable_trust_policy_lem_example =
    get_applicable_trust_policy_lem sample_document "registry.acme.io/software/net:v1"
      "registry.acme.io/software/net" (acme_policy ∷ []) any_policy refl path_run

validate_overlapping_dns_iff_example :
    (validate_overlapping_dns "p" (
        record { raw_string = "a"; parsed_map = acme }
        ∷ record { raw_string = "b"; parsed_map = acme_leaf }
        ∷ [])
      ≡ ok tt)
    ↔ HasNoOverlap (
        record { raw_string = "a"; parsed_map = acme }
        ∷ record { raw_string = "b"; parsed_map = acme_leaf }
        ∷ [])
validate_overlapping_dns_iff_example = validate_overlapping_dns_iff "p" (
    record { raw_string = "a"; parsed_map = acme }
    ∷ record { raw_string = "b"; parsed_map = acme_leaf }
    ∷ [])

parse_run : parse_distinguished_name sample_parser "C=US, ST=WA, O=acme" ≡ ok acme
unfolding parse_distinguished_name
parse_run = refl

parse_distinguished_name_iff_example :
    (parse_distinguished_name sample_parser "C=US, ST=WA, O=acme" ≡ ok acme)
    ↔ ((rdns : List Rdn) × (sample_parser "C=US, ST=WA, O=acme" ≡ some rdns) × IsParsed rdns acme)
parse_distinguished_name_iff_example =
    parse_distinguished_name_iff sample_parser "C=US, ST=WA, O=acme" acme

is_subset_dn_iff_example :
    (is_subset_dn acme acme_leaf ≡ true)
    ↔ ((k : String) → HasKey k acme → get acme k ≡ get acme_leaf k)
is_subset_dn_iff_example = is_subset_dn_iff acme acme_leaf

require_unique_iff_example :
    (require_unique (increments [] ("a" ∷ "b" ∷ "a" ∷ [])) repeated_name ≡ ok tt)
    ↔ IsDistinct ("a" ∷ "b" ∷ "a" ∷ [])
require_unique_iff_example = require_unique_iff ("a" ∷ "b" ∷ "a" ∷ []) repeated_name

find_verification_level_iff_example : (is_present "audit" supported_levels ≡ true) ↔ (
    (level : VerificationLevel) × (find_verification_level "audit" ≡ ok level)
    × (level.name ≡ "audit"))
find_verification_level_iff_example = find_verification_level_iff "audit"

-- A store with one file of one authority.
abbrev sample_disk : Disk
sample_disk = record {
  is_missing = λ path. false;
  lstat = λ path. some (record { is_dir = true; is_symlink = false });
  read_dir = λ path.
      some (record { name = "a.pem"; mode = record { is_dir = false; is_symlink = false } } ∷ []);
  join_path = λ a b. str_append a b;
  base_name = λ path. "store";
  read_certificate_file = λ path. some (record { subject = "CN=a"; is_ca = true } ∷ []);
}

abbrev sample_store : X509TrustStore
sample_store = record {
  name = "store";
  path = "/store";
  certificates = record { subject = "CN=a"; is_ca = true } ∷ [];
}

load_run : load_x509_trust_store sample_disk "/store" ≡ ok sample_store
unfolding load_x509_trust_store
load_run = refl

load_x509_trust_store_iff_example :
    (load_x509_trust_store sample_disk "/store" ≡ ok sample_store)
    ↔ IsTrustStore sample_disk "/store" sample_store
load_x509_trust_store_iff_example = load_x509_trust_store_iff sample_disk "/store" sample_store
