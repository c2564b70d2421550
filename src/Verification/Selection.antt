-- ===== src/Verification/Selection.antt =====
-- verification/policy.go: `getApplicableTrustPolicy` and `deepCopy`, which work on pointers. A
-- pointer is the address of a statement in memory. The loop variable of a `range` loop is one
-- variable, at one address, for all rounds: go.mod asks for the language of Go 1.17.
pub mod Aliasing
use notation_go.Prelude.{
  ℕ, String, Bool, ◌||◌, Option, none, some, List, [], ◌∷◌, Outcome, ok, err, panic, ◌>>=◌, map_err,
  length, replicate, ◌==◌, if◌then◌else◌,
}
use notation_go.Verification.Names.{is_present}
use notation_go.Verification.Scopes.{get_artifact_path_from_uri}
use notation_go.Verification.Policy.{
  TrustPolicy, PolicyDocument, PolicyError, wildcard, scope_format, no_applicable_policy,
}

abbrev pub Pointer : Type 0
Pointer = ℕ

abbrev pub Memory : Type 0
Memory = Pointer → TrustPolicy

abbrev pub store : Memory → Pointer → TrustPolicy → Memory
store mem p v q = if q == p then v else mem q

-- The built-in `copy`, on the elements of two slices.
unfoldable pub copy : List String → List String → List String
copy [] src = []
copy (d ∷ dst) [] = d ∷ dst
copy (d ∷ dst) (s ∷ src) = s ∷ copy dst src

-- `make([]string, n)`
abbrev pub make : ℕ → List String
make n = replicate n ""

-- `deepCopy`, assignment by assignment: `localCopy := t` copies the pointer.
unfoldable pub deep_copy : Pointer → Memory → Pointer × Memory
unfolding copy
deep_copy t mem =
    let local_copy : Pointer = t in
    let mem₁ =
      store mem local_copy
        (record (mem local_copy) { registry_scopes = make (length (mem t).registry_scopes) }) in
    let mem₂ = store mem₁ local_copy (record (mem₁ local_copy) {
      registry_scopes = copy (mem₁ local_copy).registry_scopes (mem₁ t).registry_scopes;
    }) in
    let mem₃ = store mem₂ local_copy (record (mem₂ local_copy) {
      trusted_identities = make (length (mem₂ t).trusted_identities);
    }) in
    let mem₄ = store mem₃ local_copy (record (mem₃ local_copy) {
      trusted_identities = copy (mem₃ local_copy).trusted_identities (mem₃ t).trusted_identities;
    }) in
    (local_copy, mem₄)

-- The variables of the loop.
pub record Search : Type 0 where
  pub wildcard_policy : Option Pointer
  pub applicable_policy : Option Pointer
  pub memory : Memory

abbrev pub policy_statement : Pointer
policy_statement = 0

-- One round: the loop variable takes the next statement, and the tests read it.
unfoldable pub search_round : String → Search → TrustPolicy → Search
unfolding deep_copy
search_round artifact_path s statement =
    let mem = store s.memory policy_statement statement in
    let (copied, mem') = deep_copy policy_statement mem in
    if is_present wildcard (mem policy_statement).registry_scopes
    then record s { wildcard_policy = some copied; memory = mem' }
    else if is_present artifact_path (mem policy_statement).registry_scopes
    then record s { applicable_policy = some copied; memory = mem' }
    else record s { memory = mem }

unfoldable pub search_policies : String → Search → List TrustPolicy → Search
unfolding search_round
search_policies artifact_path s [] = s
search_policies artifact_path s (statement ∷ statements) =
    search_policies artifact_path (search_round artifact_path s statement) statements

-- Go's zero value of a statement.
abbrev pub zero_policy : TrustPolicy
zero_policy = record {
  name = "";
  registry_scopes = [];
  signature_verification = "";
  trust_store = "";
  trusted_identities = [];
}

abbrev pub start : Search
start = record { wildcard_policy = none; applicable_policy = none; memory = λ _. zero_policy }

-- The statement behind the pointer that is returned.
unfoldable pub chosen : String → Search → Outcome PolicyError TrustPolicy
chosen artifact_uri s = elim s.applicable_policy [
  | some p ↦ ok (s.memory p)
  | none ↦ elim s.wildcard_policy [
    | some p ↦ ok (s.memory p)
    | none ↦ err (no_applicable_policy artifact_uri)
  ]
]

-- `getApplicableTrustPolicy`
unfoldable pub get_applicable_trust_policy :
    PolicyDocument → String → Outcome PolicyError TrustPolicy
unfolding search_policies chosen
get_applicable_trust_policy policy_doc artifact_uri = do
  artifact_path ← map_err scope_format (get_artifact_path_from_uri artifact_uri)
  chosen artifact_uri (search_policies artifact_path start policy_doc.trust_policies)
