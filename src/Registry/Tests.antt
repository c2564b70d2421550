-- ===== src/Registry/Tests.antt =====
-- Witnesses of the registry.
use notation_go.Prelude.{String, some, List, [], ◌∷◌, ok, ◌≡◌, ◌↔◌, refl}
use notation_go.Registry.{
  get_artifact_manifest, append_digests, is_other, lookup_page, lookup_pages, ArtifactDescriptor,
  Repository, artifact_type_notation, lookup_signatures,
}
use notation_go.Registry.Lookup.{IsPaged, IsListed, lookup_signatures_iff}

abbrev referrer : String → String → ArtifactDescriptor
referrer kind digest = record {
  media_type = "artifact";
  artifact_type = kind;
  digest = digest;
  size = 1;
}

-- Two pages, with a signature and another artifact.
abbrev sample_registry : Repository (Unit {0})
sample_registry = record {
  resolve = λ w ref. ok (record { media_type = "text"; digest = ref; size = 3 });
  resolve_manifest = λ w ref. ok (record { media_type = "artifact"; digest = ref; size = 3 });
  fetch_blob = λ w desc. ok "sig";
  fetch_manifest = λ w desc. ok desc.digest;
  referrers = λ w digest.
      ok (referrer artifact_type_notation "m1" ∷ [])
      ∷ ok (referrer "sbom" "m2" ∷ referrer artifact_type_notation "m3" ∷ [])
      ∷ [];
  push_blob = λ desc content w. (ok tt, w);
  push_manifest = λ desc content w. (ok tt, w);
  digest_of = λ content. content;
  artifact_manifest_type = "artifact";
  marshal_manifest = λ m. some "manifest";
  unmarshal_manifest = λ content. some (record {
    media_type = "artifact";
    artifact_type = artifact_type_notation;
    blobs = referrer "" content ∷ [];
    subject = referrer "" "image";
  });
}

lookup_run : lookup_signatures sample_registry tt "image" ≡ ok ("m1" ∷ "m3" ∷ [])
unfolding lookup_signatures lookup_pages lookup_page is_other append_digests get_artifact_manifest
lookup_run = refl

lookup_signatures_iff_example :
    (lookup_signatures sample_registry tt "image" ≡ ok ("m1" ∷ "m3" ∷ [])) ↔ (
      (all : List ArtifactDescriptor) × IsPaged sample_registry tt
        (sample_registry.referrers tt "image")
        all
      × IsListed sample_registry tt all ("m1" ∷ "m3" ∷ []))
lookup_signatures_iff_example = lookup_signatures_iff sample_registry tt "image" ("m1" ∷ "m3" ∷ [])
