-- ===== src/Verification/Selection/Aliasing.antt =====
-- What the search returns. The pointers that the rounds keep are all the address of the loop
-- variable, so the statement returned is the one of the last round.
use notation_go.Prelude.{
  ◌∙◌, ℕ, String, ◌≡◌, refl, ◌⊎◌, inl, inr, Bool, true, false, ◌||◌, Option, none, some, List, [],
  ◌∷◌, ◌++◌, ok, err, length, Bool-cases, arith, if◌then◌else◌,
}
use notation_go.Verification.Names.{is_present}
use notation_go.Verification.Scopes.{get_artifact_path_from_uri}
use notation_go.Verification.Policy.{TrustPolicy, PolicyDocument, wildcard, no_applicable_policy}
use notation_go.Verification.Selection.{
  Search, policy_statement, make, copy, search_round, search_policies, start, chosen,
  get_applicable_trust_policy,
}

-- A statement that the search takes: it lists the wildcard or the path.
abbrev pub applies : String → TrustPolicy → Bool
applies path s = is_present wildcard s.registry_scopes || is_present path s.registry_scopes

-- The statement with every scope and every identity overwritten by the empty text.
abbrev pub blank : TrustPolicy → TrustPolicy
blank s = record s {
  registry_scopes = make (length s.registry_scopes);
  trusted_identities = make (length s.trusted_identities);
}

copy_self : (xs : List String) → copy xs xs ≡ xs
unfolding copy
copy_self [] = refl
copy_self (x ∷ xs) = rw (copy_self xs)

-- After a round the loop variable holds the round's statement, blanked if the search took it: the
-- "copy" is the loop variable itself, and its fresh slices are copied onto themselves.
search_round-memory :
    (path : String) (s : Search) (st : TrustPolicy)
    → (search_round path s st).memory policy_statement ≡ (if applies path st then blank st else st)
unfolding search_round
search_round-memory path s st = elim (Bool-cases (is_present wildcard st.registry_scopes)) [
  | inl any ↦ rw any (simp copy_self)
  | inr none_wild ↦ elim (Bool-cases (is_present path st.registry_scopes)) [
    | inl match ↦ rw (none_wild, match) (simp copy_self)
    | inr miss ↦ rw (none_wild, miss)
  ]
]

-- A kept pointer is the address of the loop variable.
abbrev IsLoopPointer : Option ℕ → Type 0
IsLoopPointer o = (o ≡ none) ⊎ (o ≡ some policy_statement)

abbrev IsAliased : Search → Type 0
IsAliased s = IsLoopPointer s.wildcard_policy × IsLoopPointer s.applicable_policy

abbrev is_some : Option ℕ → Bool
is_some none = false
is_some (some _) = true

abbrev has_found : Search → Bool
has_found s = is_some s.wildcard_policy || is_some s.applicable_policy

search_round-IsAliased :
    (path : String) (s : Search) (st : TrustPolicy)
    → IsAliased s
    → IsAliased (search_round path s st)
unfolding search_round
search_round-IsAliased path s st h = elim (Bool-cases (is_present wildcard st.registry_scopes)) [
  | inl any ↦ rw any (inr refl, h.1)
  | inr none_wild ↦ elim (Bool-cases (is_present path st.registry_scopes)) [
    | inl match ↦ rw (none_wild, match) (h.0, inr refl)
    | inr miss ↦ rw (none_wild, miss) (h)
  ]
]

search_round-found :
    (path : String) (s : Search) (st : TrustPolicy)
    → has_found (search_round path s st) ≡ (has_found s || applies path st)
unfolding search_round
search_round-found path s st = elim (Bool-cases (is_present wildcard st.registry_scopes)) [
  | inl any ↦ rw any (ground arith)
  | inr none_wild ↦ elim (Bool-cases (is_present path st.registry_scopes)) [
    | inl match ↦ rw (none_wild, match) (ground arith)
    | inr miss ↦ rw (none_wild, miss) (ground arith)
  ]
]

abbrev pub any_applies : String → List TrustPolicy → Bool
any_applies path [] = false
any_applies path (st ∷ sts) = applies path st || any_applies path sts

search_policies-IsAliased :
    (path : String) (s : Search) (sts : List TrustPolicy)
    → IsAliased s
    → IsAliased (search_policies path s sts)
unfolding search_policies
search_policies-IsAliased path s [] h = h
search_policies-IsAliased path s (st ∷ sts) h =
    search_policies-IsAliased path (search_round path s st) sts (search_round-IsAliased path s st h)

search_policies-found :
    (path : String) (s : Search) (sts : List TrustPolicy)
    → has_found (search_policies path s sts) ≡ (has_found s || any_applies path sts)
unfolding search_policies
search_policies-found path s [] = ground arith
search_policies-found path s (st ∷ sts) =
    search_policies-found path (search_round path s st) sts
    ∙ ground (arith, search_round-found path s st)

-- The statement of the last round.
search_policies-memory :
    (path : String) (s : Search) (sts : List TrustPolicy) (last : TrustPolicy)
    → (search_policies path s (sts ++ last ∷ [])).memory policy_statement
      ≡ (if applies path last then blank last else last)
unfolding search_policies
search_policies-memory path s [] last = search_round-memory path s last
search_policies-memory path s (st ∷ sts) last =
    search_policies-memory path (search_round path s st) sts last

chosen-eq :
    (uri : String) (s : Search)
    → IsAliased s
    → chosen uri s
      ≡ (if has_found s then ok (s.memory policy_statement) else err (no_applicable_policy uri))
unfolding chosen
chosen-eq uri s h = ground arith

-- Where the URI has a path, the search succeeds exactly when a statement lists the path or the
-- wildcard; and what it returns is the last statement of the document, blanked if it is one of those.
pub get_applicable_trust_policy_lem :
    (doc : PolicyDocument) (uri path : String) (sts : List TrustPolicy) (last : TrustPolicy)
    → doc.trust_policies ≡ sts ++ last ∷ []
    → get_artifact_path_from_uri uri ≡ ok path
    → get_applicable_trust_policy doc uri ≡ (
        if any_applies path doc.trust_policies
        then ok (if applies path last then blank last else last)
        else err (no_applicable_policy uri))
unfolding get_applicable_trust_policy
get_applicable_trust_policy_lem doc uri path sts last e parsed =
    let s : Search = search_policies path start doc.trust_policies in
    let aliased = search_policies-IsAliased path start doc.trust_policies (inl refl, inl refl) in
    let memory : s.memory policy_statement ≡ (if applies path last then blank last else last) =
      rw e (search_policies-memory path start sts last) in
    rw parsed (
      chosen-eq uri s aliased
      ∙ rw (search_policies-found path start doc.trust_policies, memory) refl)
