-- ===== src/Signing/Metadata/Laws.antt =====
-- What `Validate`, `HasCapability` and `SupportsContract` decide.
use notation_go.Prelude.{
  String, ◌≡◌, ◌≢◌, refl, ◌↔◌, ◌⊎◌, true, List, [], ◌∷◌, ok, eq_iff, ◌==◌, length, IsElem, arith,
}
use notation_go.Signing.Metadata.{
  Metadata, validate, find_capability, has_capability, find_version, supports_contract,
}

pub record IsPopulated (m : Metadata) : Type 0 where
  pub name : m.name ≢ ""
  pub description : m.description ≢ ""
  pub version : m.version ≢ ""
  pub url : m.url ≢ ""
  pub capabilities : m.capabilities ≢ []
  pub versions : m.supported_contract_versions ≢ []

empty_test : (l : List String) → (length l == 0 ≡ true) ↔ (l ≡ [])
empty_test [] = (λ _. refl, λ _. refl)
empty_test (x ∷ l) = (λ h. absurd (ground arith), λ h. cc h)

-- `Validate` accepts the metadata exactly when no text and no list of it is empty.
pub validate_iff : (m : Metadata) → (validate m ≡ ok tt) ↔ IsPopulated m
unfolding validate
validate_iff m = ground (
  arith,
  eq_iff m.name "",
  eq_iff m.description "",
  eq_iff m.version "",
  eq_iff m.url "",
  empty_test m.capabilities,
  empty_test m.supported_contract_versions,
)

find_capability_iff : (l : List String) (c : String) → (find_capability l c ≡ true) ↔ IsElem c l
unfolding find_capability
find_capability_iff [] c = ground arith
find_capability_iff (x ∷ l) c = ground (arith, eq_iff x c, find_capability_iff l c)

find_version_iff : (l : List String) (v : String) → (find_version l v ≡ true) ↔ IsElem v l
unfolding find_version
find_version_iff [] v = ground arith
find_version_iff (x ∷ l) v = ground (arith, eq_iff x v, find_version_iff l v)

-- `HasCapability` holds of the empty text and of the listed capabilities, and of nothing else.
pub has_capability_iff :
    (m : Metadata) (c : String) → (has_capability m c ≡ true) ↔ ((c ≡ "") ⊎ IsElem c m.capabilities)
unfolding has_capability
has_capability_iff m c = ground (arith, eq_iff c "", find_capability_iff m.capabilities c)

-- `SupportsContract` holds of the listed versions, and of nothing else.
pub supports_contract_iff :
    (m : Metadata) (v : String)
    → (supports_contract m v ≡ true) ↔ IsElem v m.supported_contract_versions
unfolding supports_contract
supports_contract_iff m v = find_version_iff m.supported_contract_versions v
