-- ===== src/Signing/Metadata.antt =====
-- plugin/metadata.go: what a plugin says of itself. `len` is taken of the lists as they are.
pub mod Laws
use notation_go.Prelude.{
  String, Bool, true, false, List, [], ◌∷◌, Outcome, ok, err, ◌>>◌, fail_if, str_eq, ◌==◌, length,
  if◌then◌else◌,
}

pub record Metadata : Type 0 where
  pub name : String
  pub description : String
  pub version : String
  pub url : String
  pub supported_contract_versions : List String
  pub capabilities : List String

pub data MetadataError : Type 0 where
  empty_name empty_description empty_version empty_url empty_capabilities empty_versions :
      MetadataError

-- `Metadata.Validate`
unfoldable pub validate : Metadata → Outcome MetadataError (Unit {0})
validate m = do
  fail_if (str_eq m.name "") empty_name
  fail_if (str_eq m.description "") empty_description
  fail_if (str_eq m.version "") empty_version
  fail_if (str_eq m.url "") empty_url
  fail_if (length m.capabilities == 0) empty_capabilities
  fail_if (length m.supported_contract_versions == 0) empty_versions
  ok tt

unfoldable pub find_capability : List String → String → Bool
find_capability [] capability = false
find_capability (c ∷ capabilities) capability =
    if str_eq c capability then true else find_capability capabilities capability

-- `Metadata.HasCapability`
unfoldable pub has_capability : Metadata → String → Bool
unfolding find_capability
has_capability m capability =
    if str_eq capability "" then true else find_capability m.capabilities capability

unfoldable pub find_version : List String → String → Bool
find_version [] ver = false
find_version (v ∷ versions) ver = if str_eq v ver then true else find_version versions ver

-- `Metadata.SupportsContract`
unfoldable pub supports_contract : Metadata → String → Bool
unfolding find_version
supports_contract m ver = find_version m.supported_contract_versions ver
