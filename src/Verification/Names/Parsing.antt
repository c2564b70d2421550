-- ===== src/Verification/Names/Parsing.antt =====
-- verification/helpers.go: the names that `parseDistinguishedName` accepts, and their maps.
use notation_go.Prelude.{
  if◌then◌else◌, String, ◌≤◌, ◌≡◌, refl, ◌≢◌, ◌↔◌, ◌⊎◌, inl, inr, true, false, Option, some, List,
  [], ◌∷◌, ◌++◌, Outcome, ok, ◌>>=◌, fail_if, or_err, or_err-eq-ok, fail_if-eq-ok, >>=-eq-ok,
  str_eq, eq_iff, length, ltb, All, arith, sym, ◌∙◌, Bool-cases, ap, subst,
}
use notation_go.Verification.Names.{
  StringMap, Rdn, get, put, NameError, not_valid, multi_valued, add_attributes, add_rdns,
  mandatory_fields, require_fields, parse_distinguished_name,
}
use notation_go.Verification.Names.Laws.{HasKey, get-put, require_fields-All, All-require_fields}

-- The attributes of the relative names, in order.
abbrev pub attributes : List Rdn → Rdn
attributes [] = []
attributes (rdn ∷ rdns) = rdn ++ attributes rdns

-- The map after the attributes are written to it, one by one.
abbrev pub written : StringMap → Rdn → StringMap
written m [] = m
written m ((k, v) ∷ attrs) = written (put m k v) attrs

-- No attribute comes after one of its type that has a value.
abbrev pub IsUnique : Rdn → Type 0
IsUnique [] = Unit
IsUnique ((k, v) ∷ attrs) = ((v ≡ "") ⊎ (¬ HasKey k attrs)) × IsUnique attrs

-- What a parsed name is: every relative name has at most one attribute, no attribute comes after one
-- of its type that has a value, the map has the attributes, and values for the mandatory fields.
pub record IsParsed (rdns : List Rdn) (m : StringMap) : Type 0 where
  pub single : All (λ rdn. length rdn ≤ 1) rdns
  pub unique : IsUnique (attributes rdns)
  pub map_of : m ≡ written [] (attributes rdns)
  pub mandatory : All (λ f. get m f ≢ "") ("C" ∷ "ST" ∷ "O" ∷ [])

-- The attributes have no value in the map.
abbrev IsFresh : StringMap → Rdn → Type 0
IsFresh m attrs = All (λ (a : String × String). get m a.0 ≡ "") attrs

IsFresh-nil : (attrs : Rdn) → IsFresh [] attrs
unfolding get
IsFresh-nil [] = tt
IsFresh-nil (a ∷ attrs) = (refl, IsFresh-nil attrs)

IsFresh-put :
    (m : StringMap) (k v : String) (attrs : Rdn)
    → ((v ≡ "") ⊎ (¬ HasKey k attrs))
    → IsFresh m attrs
    → IsFresh (put m k v) attrs
IsFresh-put m k v [] h f = tt
IsFresh-put m k v ((j, w) ∷ attrs) (inl empty) (e, f) =
    (ground (arith, get-put m k j v, eq_iff k j), IsFresh-put m k v attrs (inl empty) f)
IsFresh-put m k v ((j, w) ∷ attrs) (inr last) (e, f) = (
  get-put m k j v ∙ other (Bool-cases (str_eq k j)),
  IsFresh-put m k v attrs (inr (λ z. last (inr z))) f,
)
  where
    other : (str_eq k j ≡ true) ⊎ (str_eq k j ≡ false) → (if str_eq k j then v else get m j) ≡ ""
    other (inl same) = absurd (last (inl (sym ((eq_iff k j).0 same))))
    other (inr differs) = rw differs e

-- What is fresh after an attribute was fresh before it, and the attribute has no value, or is the last
-- of its type.
put-IsFresh :
    (m : StringMap) (k v : String) (attrs : Rdn)
    → get m k ≡ ""
    → IsFresh (put m k v) attrs
    → ((v ≡ "") ⊎ (¬ HasKey k attrs)) × IsFresh m attrs
put-IsFresh m k v [] none_yet f = (inr (λ z. z), tt)
put-IsFresh m k v ((j, w) ∷ attrs) none_yet (e, f) =
    let (last, fresh) = put-IsFresh m k v attrs none_yet f in
    elim (Bool-cases (str_eq k j)) [
      | inl same ↦ (
        inl (ground (arith, get-put m k j v, eq_iff k j)),
        (ap (get m) (sym ((eq_iff k j).0 same)) ∙ none_yet, fresh),
      )
      | inr differs ↦ (later differs last, (ground (arith, get-put m k j v, eq_iff k j), fresh))
    ]
  where
    later :
        str_eq k j ≡ false
        → ((v ≡ "") ⊎ (¬ HasKey k attrs))
        → ((v ≡ "") ⊎ (¬ HasKey k ((j, w) ∷ attrs)))
    later differs (inl empty) = inl empty
    later differs (inr none_left) =
        inr
          (λ z. elim z [ inl same ↦ cc ((eq_iff k j).1 (sym same)) | inr there ↦ none_left there ])

module _ (name : String) where
  -- The loop over attributes, where it succeeds.
  add_attributes-written :
      (m : StringMap) (attrs : Rdn)
      → IsFresh m attrs
      → IsUnique attrs
      → add_attributes name m attrs ≡ ok (written m attrs)
  unfolding add_attributes
  add_attributes-written m [] fresh unique = refl
  add_attributes-written m ((k, v) ∷ attrs) (e, fresh) (last, unique) =
      rw (add_attributes, (eq_iff (get m k) "").1 e)
        (add_attributes-written (put m k v) attrs (IsFresh-put m k v attrs last fresh) unique)

  add_attributes-IsUnique :
      (m m' : StringMap) (attrs : Rdn)
      → add_attributes name m attrs ≡ ok m'
      → IsFresh m attrs × IsUnique attrs × (m' ≡ written m attrs)
  unfolding add_attributes
  add_attributes-IsUnique m m' [] h = (tt, tt, cc)
  add_attributes-IsUnique m m' ((k, v) ∷ attrs) h = elim (Bool-cases (str_eq (get m k) "")) [
    | inr e ↦ absurd (cc (rw (add_attributes, e) at h))
    | inl e ↦
        let (fresh, unique, same) =
          add_attributes-IsUnique (put m k v) m' attrs (rw (add_attributes, e) at h) in
        let (last, before) = put-IsFresh m k v attrs ((eq_iff (get m k) "").0 e) fresh in
        (((eq_iff (get m k) "").0 e, before), (last, unique), same)
  ]

  add_attributes-append :
      (m : StringMap) (l r : Rdn)
      → add_attributes name m (l ++ r)
        ≡ (add_attributes name m l >>= λ m'. add_attributes name m' r)
  unfolding add_attributes
  add_attributes-append m [] r = refl
  add_attributes-append m ((k, v) ∷ l) r = elim (Bool-cases (str_eq (get m k) "")) [
    | inl e ↦ rw (add_attributes, e) (add_attributes-append (put m k v) l r)
    | inr e ↦ rw (add_attributes, e) refl
  ]

  -- The loop over relative names is the loop over their attributes.
  add_rdns-attributes :
      (m : StringMap) (rdns : List Rdn)
      → All (λ rdn. length rdn ≤ 1) rdns
      → add_rdns name m rdns ≡ add_attributes name m (attributes rdns)
  unfolding add_rdns add_attributes
  add_rdns-attributes m [] single = refl
  add_rdns-attributes m (rdn ∷ rdns) (one, single) =
      let few : ltb 1 (length rdn) ≡ false = ground arith in
      rw (add_rdns, few)
        (ap (λ f. add_attributes name m rdn >>= f) (λ i m'. add_rdns-attributes m' rdns single i)
          ∙ sym (add_attributes-append m rdn (attributes rdns)))

  add_rdns-single :
      (m m' : StringMap) (rdns : List Rdn)
      → add_rdns name m rdns ≡ ok m'
      → All (λ rdn. length rdn ≤ 1) rdns
  unfolding add_rdns
  add_rdns-single m m' [] h = tt
  add_rdns-single m m' (rdn ∷ rdns) h =
      let (_, few, h₁) = >>=-eq-ok (fail_if (ltb 1 (length rdn)) (multi_valued name)) _ h in
      let (m₁, _, rest) = >>=-eq-ok (add_attributes name m rdn) _ h₁ in
      (at_most (fail_if-eq-ok _ _ few), add_rdns-single m₁ m' rdns rest)
    where
      at_most : ltb 1 (length rdn) ≡ false → length rdn ≤ 1
      at_most z = ground arith

map-inj : {a b : StringMap} → ◌≡◌ {A = Outcome NameError StringMap} (ok a) (ok b) → a ≡ b
map-inj h = cc

-- parseDistinguishedName returns a map exactly for a name that go-ldap accepts, in which no relative
-- name has more than one attribute, no attribute comes after one of its type that has a value, and C,
-- ST and O have values; the map is that of the attributes, written in their order.
pub parse_distinguished_name_iff :
    (parse_dn : String → Option (List Rdn)) (name : String) (m : StringMap)
    → (parse_distinguished_name parse_dn name ≡ ok m)
      ↔ ((rdns : List Rdn) × (parse_dn name ≡ some rdns) × IsParsed rdns m)
unfolding parse_distinguished_name
parse_distinguished_name_iff parse_dn name m = (
  λ h.
      let (rdns, parsed, h₁) = >>=-eq-ok (or_err (parse_dn name) (not_valid name)) _ h in
      let (m₁, added, h₂) = >>=-eq-ok (add_rdns name [] rdns) _ h₁ in
      let (_, required, h₃) = >>=-eq-ok (require_fields name m₁ mandatory_fields) _ h₂ in
      let same : m₁ ≡ m = map-inj h₃ in
      let single = add_rdns-single name [] m₁ rdns added in
      let (_, unique, map_of) =
        add_attributes-IsUnique name [] m₁ (attributes rdns)
          (sym (add_rdns-attributes name [] rdns single) ∙ added) in
      (
        rdns,
        or_err-eq-ok (parse_dn name) (not_valid name) parsed,
        record {
          single = single;
          unique = unique;
          map_of = sym same ∙ map_of;
          mandatory =
              subst (λ x. All (λ f. get x f ≢ "") mandatory_fields) same
                (require_fields-All name m₁ mandatory_fields required);
        },
      ),
  λ (rdns, parsed, p).
      let added : add_rdns name [] rdns ≡ ok m =
        add_rdns-attributes name [] rdns p.single
        ∙ add_attributes-written name [] (attributes rdns) (IsFresh-nil _) p.unique
        ∙ ap ok (sym p.map_of) in
      rw
        (
          parse_distinguished_name,
          parsed,
          added,
          All-require_fields name m mandatory_fields p.mandatory,
        )
        refl,
)
