-- ===== src/Verification/Names.antt =====
-- verification/helpers.go: distinguished names. The parser of the package go-ldap is an argument:
-- it returns the relative names of a text, each the list of its attributes (type and value), or
-- none for a text that it refuses.
pub mod Laws
pub mod Parsing
use notation_go.Prelude.{
  String, Bool, true, false, Option, List, [], ◌∷◌, Outcome, ok, err, ◌>>=◌, ◌>>◌, fail_if, or_err,
  str_eq, ltb, length, if◌then◌else◌,
}

-- `map[string]string`, an association list with one entry for a key.
abbrev pub StringMap : Type 0
StringMap = List (String × String)

abbrev pub Rdn : Type 0
Rdn = List (String × String)

-- `isPresent`
unfoldable pub is_present : String → List String → Bool
is_present val [] = false
is_present val (v ∷ values) = if str_eq v val then true else is_present val values

-- `m[k]`: a missing key gives the empty text.
unfoldable pub get : StringMap → String → String
get [] k = ""
get ((j, v) ∷ m) k = if str_eq j k then v else get m k

-- `m[k] = v`
unfoldable pub put : StringMap → String → String → StringMap
put [] k v = (k, v) ∷ []
put ((j, w) ∷ m) k v = if str_eq j k then (j, v) ∷ m else (j, w) ∷ put m k v

pub data NameError : Type 0 where
  not_valid : String → NameError
  multi_valued : String → NameError
  duplicate_attribute : String → String → NameError
  missing_mandatory : String → String → NameError

-- The loop over the attributes of one relative name.
unfoldable pub add_attributes : String → StringMap → Rdn → Outcome NameError StringMap
add_attributes name m [] = ok m
add_attributes name m ((k, v) ∷ attrs) =
    if str_eq (get m k) ""
    then add_attributes name (put m k v) attrs
    else err (duplicate_attribute name k)

-- The loop over the relative names.
unfoldable pub add_rdns : String → StringMap → List Rdn → Outcome NameError StringMap
add_rdns name m [] = ok m
add_rdns name m (rdn ∷ rdns) = do
  fail_if (ltb 1 (length rdn)) (multi_valued name)
  m' ← add_attributes name m rdn
  add_rdns name m' rdns

abbrev pub mandatory_fields : List String
mandatory_fields = "C" ∷ "ST" ∷ "O" ∷ []

unfoldable pub require_fields : String → StringMap → List String → Outcome NameError (Unit {0})
require_fields name m [] = ok tt
require_fields name m (field ∷ fields) =
    if str_eq (get m field) ""
    then err (missing_mandatory name field)
    else require_fields name m fields

-- `isSubsetDN`: the keys of `dn1` that are still to be looked at.
unfoldable pub agrees_on : StringMap → StringMap → StringMap → Bool
agrees_on [] dn1 dn2 = true
agrees_on ((k, v) ∷ keys) dn1 dn2 =
    if str_eq (get dn1 k) (get dn2 k) then agrees_on keys dn1 dn2 else false

unfoldable pub is_subset_dn : StringMap → StringMap → Bool
unfolding agrees_on get
is_subset_dn dn1 dn2 = agrees_on dn1 dn1 dn2

module _ (parse_dn : String → Option (List Rdn)) where
  -- `parseDistinguishedName`
  unfoldable pub parse_distinguished_name : String → Outcome NameError StringMap
  unfolding add_rdns add_attributes require_fields get put
  parse_distinguished_name name = do
    rdns ← or_err (parse_dn name) (not_valid name)
    m ← add_rdns name [] rdns
    require_fields name m mandatory_fields
    ok m
