-- ===== src/Registry/Signatures.antt =====
-- What a signature among the referrers is, and what it means that its manifest is fetched.
use notation_go.Prelude.{
  Bool-cases, some, refl, inl, inr, some, Bool-cases, ℕ, ◌≤◌, String, true, false, ok, map_err,
  fail_if, ltb, arith, ◌≡◌, eq_iff, >>=-eq-ok, map_err-eq-ok, or_err-eq-ok, fail_if-eq-ok,
}
use notation_go.Signing.Messages.{Bytes}
use notation_go.Registry.{
  OciDescriptor, ArtifactDescriptor, ArtifactManifest, Repository, remote, manifest_too_large,
  bad_manifest, max_manifest_size_limit, artifact_type_notation, is_other, get_artifact_manifest,
}

module _ {W : Type 0} (c : Repository W) where
  -- A manifest of an artifact, of the type of notation.
  pub record IsSignature (desc : ArtifactDescriptor) : Type 0 where
    pub of_notation : desc.artifact_type ≡ "application/vnd.cncf.notary.v2.signature"
    pub of_artifact : desc.media_type ≡ c.artifact_manifest_type

  -- The digest is resolved to at most 4 MiB, which are fetched and hold the manifest.
  pub record IsFetched (w : W) (manifest_digest : String) (m : ArtifactManifest) : Type 0 where
    pub desc : OciDescriptor
    pub resolved : c.resolve_manifest w manifest_digest ≡ ok desc
    pub small : desc.size ≤ 4194304
    pub manifest_json : Bytes
    pub fetched : c.fetch_manifest w desc ≡ ok manifest_json
    pub decoded : c.unmarshal_manifest manifest_json ≡ some m

  pub is_other-false : (desc : ArtifactDescriptor) → is_other c desc ≡ false → IsSignature desc
  unfolding is_other
  is_other-false desc h = record {
    of_notation = (eq_iff desc.artifact_type artifact_type_notation).0 (ground arith);
    of_artifact = (eq_iff desc.media_type c.artifact_manifest_type).0 (ground arith);
  }

  pub IsSignature-is_other :
      (desc : ArtifactDescriptor) → IsSignature desc → is_other c desc ≡ false
  unfolding is_other
  IsSignature-is_other desc s =
      rw
        (
          (eq_iff desc.artifact_type artifact_type_notation).1 s.of_notation,
          (eq_iff desc.media_type c.artifact_manifest_type).1 s.of_artifact,
        )
        refl

  pub is_other-true : (desc : ArtifactDescriptor) → is_other c desc ≡ true → ¬ IsSignature desc
  is_other-true desc h s = cc (IsSignature-is_other desc s)

  pub not-IsSignature : (desc : ArtifactDescriptor) → ¬ IsSignature desc → is_other c desc ≡ true
  not-IsSignature desc n = elim (Bool-cases (is_other c desc)) [
    | inl other ↦ other
    | inr signature ↦ absurd (n (is_other-false desc signature))
  ]

  limit_run : (n : ℕ) → ltb max_manifest_size_limit n ≡ false → n ≤ 4194304
  limit_run n h = ground arith

  run_limit : (n : ℕ) → n ≤ 4194304 → ltb max_manifest_size_limit n ≡ false
  run_limit n h = ground arith

  pub get_artifact_manifest-IsFetched :
      (w : W) (manifest_digest : String) (m : ArtifactManifest)
      → get_artifact_manifest c w manifest_digest ≡ ok m
      → IsFetched w manifest_digest m
  unfolding get_artifact_manifest
  get_artifact_manifest-IsFetched w manifest_digest m h =
      let (desc, resolved, h₁) =
        >>=-eq-ok (map_err remote (c.resolve_manifest w manifest_digest)) _ h in
      let (_, small, h₂) =
        >>=-eq-ok (fail_if (ltb max_manifest_size_limit desc.size) (manifest_too_large desc.size)) _
          h₁ in
      let (manifest_json, fetched, h₃) =
        >>=-eq-ok (map_err remote (c.fetch_manifest w desc)) _ h₂ in
      record {
        desc = desc;
        resolved = map_err-eq-ok remote _ resolved;
        small = limit_run desc.size (fail_if-eq-ok _ _ small);
        manifest_json = manifest_json;
        fetched = map_err-eq-ok remote _ fetched;
        decoded = or_err-eq-ok (c.unmarshal_manifest manifest_json) bad_manifest h₃;
      }

  pub IsFetched-get_artifact_manifest :
      (w : W) (manifest_digest : String) (m : ArtifactManifest)
      → IsFetched w manifest_digest m
      → get_artifact_manifest c w manifest_digest ≡ ok m
  unfolding get_artifact_manifest
  IsFetched-get_artifact_manifest w manifest_digest m f =
      rw (get_artifact_manifest, f.resolved, run_limit f.desc.size f.small, f.fetched, f.decoded)
        refl
