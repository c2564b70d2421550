-- ===== src/Verification/Scopes.antt =====
-- verification/helpers.go: registry scopes and artifact URIs. The two patterns are regular
-- expressions of the package `regexp`; both are anchored at both ends, so a text matches when the
-- whole of it does.
pub mod Patterns
use Prim.Native.Char.{code}
use notation_go.Prelude.{
  or_err, ℕ, String, Bool, ◌||◌, not, none, some, List, [], ◌∷◌, ◌++◌, Outcome, ok, err, panic,
  ◌>>=◌, ◌>>◌, fail_if, str_eq, cut, cut_last, if◌then◌else◌,
}
use Patterns.{Regex, symbol, cat, alt, star, plus, opt, eps, matches}

-- The code points of a text.
unfoldable pub codes : String → List ℕ
codes String.[] = []
codes (String.◌∷◌ c s) = code c ∷ codes s

-- The ranges 0-9, A-Z and a-z.
abbrev digits : List (ℕ × ℕ)
digits = (b'0', b'9') ∷ []

abbrev letters : List (ℕ × ℕ)
letters = (b'a', b'z') ∷ (b'A', b'Z') ∷ []

-- [a-zA-Z0-9]
abbrev alnum : Regex
alnum = symbol (letters ++ digits)

-- [a-zA-Z0-9]|[a-zA-Z0-9][a-zA-Z0-9-]*[a-zA-Z0-9]
abbrev domain_component : Regex
domain_component =
    alt alnum (cat alnum (cat (star (symbol (letters ++ digits ++ (b'-', b'-') ∷ []))) alnum))

-- component(\.component)*(:[0-9]+)?, as `(?:(?:\.component)+)?` is written there
abbrev pub domain_regexp : Regex
domain_regexp = cat domain_component (
    cat (opt (plus (cat (symbol ((b'.', b'.') ∷ [])) domain_component)))
      (opt (cat (symbol ((b':', b':') ∷ [])) (plus (symbol digits)))))

-- [a-z0-9]
abbrev lower_alnum : Regex
lower_alnum = symbol ((b'a', b'z') ∷ (b'0', b'9') ∷ [])

-- [._]|__|[-]*
abbrev separator : Regex
separator = alt (symbol ((b'.', b'.') ∷ (b'_', b'_') ∷ [])) (
    alt (cat (symbol ((b'_', b'_') ∷ [])) (symbol ((b'_', b'_') ∷ [])))
      (star (symbol ((b'-', b'-') ∷ []))))

-- [a-z0-9]+(?:(?:separator[a-z0-9]+)+)?
abbrev path_component : Regex
path_component = cat (plus lower_alnum) (opt (plus (cat separator (plus lower_alnum))))

abbrev pub repository_regexp : Regex
repository_regexp =
    cat path_component (opt (plus (cat (symbol ((b'/', b'/') ∷ [])) path_component)))

-- `MatchString`
unfoldable pub match_string : Regex → String → Bool
unfolding codes matches
match_string r s = matches r (codes s)

pub data ScopeError : Type 0 where
  invalid_scope : String → ScopeError
  invalid_uri : String → ScopeError

-- The test on the two halves of a scope, in the order of the source.
unfoldable pub refuses : String → String → Bool
unfolding match_string
refuses domain repository =
    str_eq domain ""
    || (str_eq repository ""
        || (not (match_string domain_regexp domain)
            || not (match_string repository_regexp repository)))

-- `validateRegistryScopeFormat`
unfoldable pub validate_registry_scope_format : String → Outcome ScopeError (Unit {0})
unfolding cut refuses
validate_registry_scope_format scope = do
  (domain, repository) ← or_err (cut b'/' scope) (invalid_scope scope)
  fail_if (refuses domain repository) (invalid_scope scope)

-- `getArtifactPathFromUri`
unfoldable pub get_artifact_path_from_uri : String → Outcome ScopeError String
unfolding cut_last validate_registry_scope_format
get_artifact_path_from_uri artifact_uri = do
  (artifact_path, _) ← or_err (cut_last b':' artifact_uri) (invalid_uri artifact_uri)
  validate_registry_scope_format artifact_path
  ok artifact_path
