-- ===== src/Registry/Lookup.antt =====
-- What `Lookup` finds.
use notation_go.Prelude.{
  String, List, [], ◌∷◌, ◌++◌, map, Outcome, ok, err, panic, map_err, ◌≡◌, ◌↔◌, refl, sym, ap,
  subst, ◌∙◌, inl, inr, append-nil, append_assoc, >>=-eq-ok, map_err-eq-ok, Bool-cases,
}
use notation_go.Registry.Signatures.{
  IsSignature, IsFetched, is_other-true, is_other-false, not-IsSignature, IsSignature-is_other,
  get_artifact_manifest-IsFetched, IsFetched-get_artifact_manifest,
}
use notation_go.Registry.{
  ArtifactDescriptor, ArtifactManifest, Repository, RegistryError, fetch_failed, is_other,
  append_digests, get_artifact_manifest, lookup_page, lookup_pages, lookup_signatures,
}

module _ {W : Type 0} (c : Repository W) (w : W) where
  -- These digests are those of the blobs of the signatures among the referrers, in their order.
  pub data IsListed : List ArtifactDescriptor → List String → Type 0 where
    none_left : IsListed [] []
    other_artifact :
        {desc : ArtifactDescriptor} {rest : List ArtifactDescriptor} {ds : List String}
        → ¬ IsSignature c desc
        → IsListed rest ds
        → IsListed (desc ∷ rest) ds
    signature_artifact :
        {desc : ArtifactDescriptor} {rest : List ArtifactDescriptor} {ds : List String}
        {m : ArtifactManifest}
        → IsSignature c desc
        → IsFetched c w desc.digest m
        → IsListed rest ds
        → IsListed (desc ∷ rest) (map (λ b. b.digest) m.blobs ++ ds)

  append_digests-eq :
      (digests : List String) (blobs : List ArtifactDescriptor)
      → append_digests digests blobs ≡ digests ++ map (λ b. b.digest) blobs
  unfolding append_digests
  append_digests-eq digests [] = sym (append-nil digests)
  append_digests-eq digests (b ∷ blobs) =
      append_digests-eq (digests ++ (b.digest ∷ [])) blobs ∙ append_assoc digests (b.digest ∷ []) _

  list-inj :
      {a b : List String} → ◌≡◌ {A = Outcome RegistryError (List String)} (ok a) (ok b) → a ≡ b
  list-inj h = cc

  lookup_page-IsListed :
      (referrers : List ArtifactDescriptor) (digests out : List String)
      → lookup_page c w digests referrers ≡ ok out
      → (ds : List String) × IsListed referrers ds × (digests ++ ds ≡ out)
  unfolding lookup_page
  lookup_page-IsListed [] digests out h = ([], none_left, append-nil digests ∙ list-inj h)
  lookup_page-IsListed (desc ∷ rest) digests out h = elim (Bool-cases (is_other c desc)) [
    | inl other ↦
        let (ds, listed, e) =
          lookup_page-IsListed rest digests out (rw (lookup_page, other) at h) in
        (ds, other_artifact (is_other-true c desc other) listed, e)
    | inr signature ↦
        let (m, fetched, h₁) =
          >>=-eq-ok (map_err (fetch_failed desc.digest) (get_artifact_manifest c w desc.digest)) _
            (rw (lookup_page, signature) at h) in
        let (ds, listed, e) = lookup_page-IsListed rest _ out h₁ in
        (
          map (λ b. b.digest) m.blobs ++ ds,
          signature_artifact (is_other-false c desc signature)
              (get_artifact_manifest-IsFetched c w desc.digest m (map_err-eq-ok _ _ fetched))
              listed,
          sym (append_assoc digests _ ds)
              ∙ ap (λ l. l ++ ds) (sym (append_digests-eq digests m.blobs))
              ∙ e,
        )
  ]

  IsListed-lookup_page :
      (referrers : List ArtifactDescriptor) (digests ds : List String)
      → IsListed referrers ds
      → lookup_page c w digests referrers ≡ ok (digests ++ ds)
  unfolding lookup_page
  IsListed-lookup_page [] digests ds none_left = ap ok (sym (append-nil digests))
  IsListed-lookup_page (desc ∷ rest) digests ds (other_artifact other listed) =
      rw (lookup_page, not-IsSignature c desc other) (IsListed-lookup_page rest digests ds listed)
  IsListed-lookup_page (desc ∷ rest) digests _
        (signature_artifact {ds = ds} {m = m} signature fetched listed) =
      rw
        (
          lookup_page,
          IsSignature-is_other c desc signature,
          IsFetched-get_artifact_manifest c w desc.digest m fetched,
        )
        (IsListed-lookup_page rest _ ds listed
          ∙ ap ok
              (ap (λ l. l ++ ds) (append_digests-eq digests m.blobs) ∙ append_assoc digests _ ds))

  -- The pages came, and hold these referrers.
  pub data IsPaged
      : List (Outcome String (List ArtifactDescriptor)) → List ArtifactDescriptor → Type 0 where
    no_page : IsPaged [] []
    next_page :
        {page : List ArtifactDescriptor} {pages : List (Outcome String (List ArtifactDescriptor))}
        {rest : List ArtifactDescriptor}
        → IsPaged pages rest
        → IsPaged (ok page ∷ pages) (page ++ rest)

  IsListed-append :
      (l r : List ArtifactDescriptor) (ds es : List String)
      → IsListed l ds
      → IsListed r es
      → IsListed (l ++ r) (ds ++ es)
  IsListed-append [] r ds es none_left k = k
  IsListed-append (d ∷ l) r ds es (other_artifact other listed) k =
      other_artifact other (IsListed-append l r ds es listed k)
  IsListed-append (d ∷ l) r _ es (signature_artifact {ds = ds} {m = m} signature fetched listed) k =
      subst (IsListed (d ∷ (l ++ r))) (sym (append_assoc (map (λ b. b.digest) m.blobs) ds es))
        (signature_artifact signature fetched (IsListed-append l r ds es listed k))

  lookup_pages-IsListed :
      (pages : List (Outcome String (List ArtifactDescriptor))) (digests out : List String)
      → lookup_pages c w digests pages ≡ ok out
      → (all : List ArtifactDescriptor) × (ds : List String) × IsPaged pages all
        × IsListed all ds
        × (digests ++ ds ≡ out)
  unfolding lookup_pages
  lookup_pages-IsListed [] digests out h =
      ([], [], no_page, none_left, append-nil digests ∙ list-inj h)
  lookup_pages-IsListed (err e ∷ pages) digests out h = absurd (cc h)
  lookup_pages-IsListed (panic ∷ pages) digests out h = absurd (cc h)
  lookup_pages-IsListed (ok page ∷ pages) digests out h =
      let (digests', looked, h₁) = >>=-eq-ok (lookup_page c w digests page) _ h in
      let (ds, listed, e) = lookup_page-IsListed page digests digests' looked in
      let (all, es, paged, listed', e') = lookup_pages-IsListed pages digests' out h₁ in
      (
        page ++ all,
        ds ++ es,
        next_page paged,
        IsListed-append page all ds es listed listed',
        sym (append_assoc digests ds es) ∙ ap (λ l. l ++ es) e ∙ e',
      )

  -- What a list of referrers lists, cut in two.
  IsListed-cut :
      (l r : List ArtifactDescriptor) (ds : List String)
      → IsListed (l ++ r) ds
      → (xs : List String) × (ys : List String) × IsListed l xs × IsListed r ys × (xs ++ ys ≡ ds)
  IsListed-cut [] r ds k = ([], ds, none_left, k, refl)
  IsListed-cut (d ∷ l) r ds (other_artifact other k) =
      let (xs, ys, a, b, e) = IsListed-cut l r ds k in (xs, ys, other_artifact other a, b, e)
  IsListed-cut (d ∷ l) r _ (signature_artifact {ds = ds} {m = m} signature fetched k) =
      let (xs, ys, a, b, e) = IsListed-cut l r ds k in
      (
        map (λ b. b.digest) m.blobs ++ xs,
        ys,
        signature_artifact signature fetched a,
        b,
        append_assoc (map (λ b. b.digest) m.blobs) xs ys
            ∙ ap (λ t. map (λ b. b.digest) m.blobs ++ t) e,
      )

  IsListed-lookup_pages :
      (pages : List (Outcome String (List ArtifactDescriptor))) (all : List ArtifactDescriptor)
      (digests ds : List String)
      → IsPaged pages all
      → IsListed all ds
      → lookup_pages c w digests pages ≡ ok (digests ++ ds)
  unfolding lookup_pages
  IsListed-lookup_pages [] _ digests ds no_page none_left = ap ok (sym (append-nil digests))
  IsListed-lookup_pages (err e ∷ pages) _ digests ds paged listed = elim paged [ ]
  IsListed-lookup_pages (panic ∷ pages) _ digests ds paged listed = elim paged [ ]
  IsListed-lookup_pages (ok page ∷ pages) _ digests ds (next_page {rest = rest} paged) listed =
      let (xs, ys, a, b, e) = IsListed-cut page rest ds listed in
      rw (IsListed-lookup_page page digests xs a) (
        IsListed-lookup_pages pages rest (digests ++ xs) ys paged b
        ∙ ap ok (append_assoc digests xs ys ∙ ap (λ l. digests ++ l) e))

-- Lookup returns a list of digests exactly when every page of referrers of the manifest comes, and the
-- list has the digests of the blobs of the notation signatures among the referrers (those of the
-- artifact type of notation and the media type of artifact manifests), whose manifests can all be
-- fetched and have at most 4 MiB, page by page and in their order.
pub lookup_signatures_iff :
    {W : Type 0} (c : Repository W) (w : W) (manifest_digest : String) (ds : List String)
    → (lookup_signatures c w manifest_digest ≡ ok ds) ↔ (
        (all : List ArtifactDescriptor) × IsPaged c w (c.referrers w manifest_digest) all
        × IsListed c w all ds)
unfolding lookup_signatures
lookup_signatures_iff c w manifest_digest ds = (
  λ h.
      let (all, es, paged, listed, e) =
        lookup_pages-IsListed c w (c.referrers w manifest_digest) [] ds h in
      (all, paged, subst (IsListed c w all) e listed),
  λ (all, paged, listed).
      IsListed-lookup_pages c w (c.referrers w manifest_digest) all [] ds paged listed,
)
