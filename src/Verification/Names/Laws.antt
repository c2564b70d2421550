-- ===== src/Verification/Names/Laws.antt =====
-- Laws of the helpers of verification/helpers.go: membership, maps of attributes, subsets of names.
use notation_go.Prelude.{
  Outcome-cases, String, ◌≡◌, refl, ◌≢◌, ◌↔◌, inl, inr, true, false, Option, List, [], ◌∷◌, ok,
  panic, str_eq, eq_iff, length, ltb, All, IsElem, if◌then◌else◌, arith, Bool-cases, Any,
}
use notation_go.Verification.Names.{
  StringMap, Rdn, is_present, get, put, add_attributes, add_rdns, require_fields, agrees_on,
  is_subset_dn, parse_distinguished_name,
}

pub is_present_iff : (v : String) (xs : List String) → (is_present v xs ≡ true) ↔ IsElem v xs
unfolding is_present
is_present_iff v [] = ground arith
is_present_iff v (x ∷ xs) = ground (arith, eq_iff x v, is_present_iff v xs)

pub is_present-not : (v : String) (xs : List String) → (is_present v xs ≡ false) ↔ (¬ IsElem v xs)
is_present-not v xs = elim (Bool-cases (is_present v xs)) [
  | inl e ↦ (λ h. cc, λ h. absurd (h ((is_present_iff v xs).0 e)))
  | inr e ↦ (λ h m. cc ((is_present_iff v xs).1 m), λ _. e)
]

pub get-put :
    (m : StringMap) (k j v : String) → get (put m k v) j ≡ (if str_eq k j then v else get m j)
unfolding get put
get-put [] k j v = refl
get-put ((i, w) ∷ m) k j v = ground (arith, eq_iff i k, eq_iff i j, eq_iff k j, get-put m k j v)

-- The keys of a map.
abbrev pub HasKey : String → StringMap → Type 0
HasKey k m = Any (λ (e : String × String). e.0 ≡ k) m

pub get-missing : (m : StringMap) (k : String) → get m k ≢ "" → HasKey k m
unfolding get
get-missing [] k h = absurd (h refl)
get-missing ((j, v) ∷ m) k h = ground (arith, eq_iff j k, get-missing m k)

agrees_on→get :
    (keys dn1 dn2 : StringMap)
    → agrees_on keys dn1 dn2 ≡ true
    → (k : String) → HasKey k keys
    → get dn1 k ≡ get dn2 k
unfolding agrees_on
agrees_on→get [] dn1 dn2 h k m = absurd m
agrees_on→get ((j, v) ∷ keys) dn1 dn2 h k (inl e) =
    rw (← e) (ground (arith, eq_iff (get dn1 j) (get dn2 j)))
agrees_on→get ((j, v) ∷ keys) dn1 dn2 h k (inr m) =
    agrees_on→get keys dn1 dn2 (ground (arith, eq_iff (get dn1 j) (get dn2 j))) k m

get→agrees_on :
    (keys dn1 dn2 : StringMap)
    → ((k : String) → HasKey k keys → get dn1 k ≡ get dn2 k)
    → agrees_on keys dn1 dn2 ≡ true
unfolding agrees_on
get→agrees_on [] dn1 dn2 h = refl
get→agrees_on ((j, v) ∷ keys) dn1 dn2 h =
    rw ((eq_iff (get dn1 j) (get dn2 j)).1 (h j (inl refl)))
      (get→agrees_on keys dn1 dn2 (λ k m. h k (inr m)))

-- `isSubsetDN` holds exactly when both maps answer alike at every key of the first.
pub is_subset_dn_iff :
    (dn1 dn2 : StringMap)
    → (is_subset_dn dn1 dn2 ≡ true) ↔ ((k : String) → HasKey k dn1 → get dn1 k ≡ get dn2 k)
unfolding is_subset_dn
is_subset_dn_iff dn1 dn2 = (agrees_on→get dn1 dn1 dn2, get→agrees_on dn1 dn1 dn2)

pub require_fields-All :
    (name : String) (m : StringMap) (fields : List String)
    → require_fields name m fields ≡ ok tt
    → All (λ f. get m f ≢ "") fields
unfolding require_fields
require_fields-All name m [] h = tt
require_fields-All name m (f ∷ fields) h = elim (Bool-cases (str_eq (get m f) "")) [
  | inl e ↦ cc (rw e at h)
  | inr e ↦ (λ z. cc ((eq_iff (get m f) "").1 z), require_fields-All name m fields (rw e at h))
]

pub All-require_fields :
    (name : String) (m : StringMap) (fields : List String)
    → All (λ f. get m f ≢ "") fields
    → require_fields name m fields ≡ ok tt
unfolding require_fields
All-require_fields name m [] h = refl
All-require_fields name m (f ∷ fields) (n, h) = elim (Bool-cases (str_eq (get m f) "")) [
  | inl e ↦ absurd (n ((eq_iff (get m f) "").0 e))
  | inr e ↦ rw (require_fields, e) (All-require_fields name m fields h)
]

add_attributes-ne-panic :
    (name : String) (m : StringMap) (rdn : Rdn) → add_attributes name m rdn ≢ panic
unfolding add_attributes
add_attributes-ne-panic name m [] h = cc
add_attributes-ne-panic name m ((k, v) ∷ rdn) h =
    ground (arith, add_attributes-ne-panic name (put m k v) rdn)

add_rdns-ne-panic : (name : String) (m : StringMap) (rdns : List Rdn) → add_rdns name m rdns ≢ panic
unfolding add_rdns
add_rdns-ne-panic name m [] h = cc
add_rdns-ne-panic name m (rdn ∷ rdns) h = elim (Bool-cases (ltb 1 (length rdn))) [
  | inl many ↦ cc (rw many at h)
  | inr few ↦ elim (Outcome-cases (add_attributes name m rdn)) [
    | inl (m', e) ↦ add_rdns-ne-panic name m' rdns (rw (few, e) at h)
    | inr (inl (x, e)) ↦ cc (rw (few, e) at h)
    | inr (inr e) ↦ add_attributes-ne-panic name m rdn e
  ]
]

require_fields-ne-panic :
    (name : String) (m : StringMap) (fields : List String) → require_fields name m fields ≢ panic
unfolding require_fields
require_fields-ne-panic name m [] h = cc
require_fields-ne-panic name m (f ∷ fields) h =
    ground (arith, require_fields-ne-panic name m fields)

module _ (parse_dn : String → Option (List Rdn)) where
  -- Parsing a name returns; it does not panic.
  pub parse_distinguished_name-ne-panic :
      (name : String) → parse_distinguished_name parse_dn name ≢ panic
  unfolding parse_distinguished_name
  parse_distinguished_name-ne-panic name h =
      grind (arith, add_rdns-ne-panic, require_fields-ne-panic)
