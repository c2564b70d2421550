-- ===== src/Registry.antt =====
-- registry/repository.go: signatures in a registry. The registry is an argument: what it answers, in a
-- state of its own.
pub mod Lookup
pub mod Signatures
mod Tests
use notation_go.Prelude.{
  ℕ, String, Bool, true, false, not, ◌&&◌, ◌||◌, Option, none, some, List, [], ◌∷◌, ◌++◌, Outcome,
  ok, err, panic, ◌>>=◌, ◌>>◌, map_err, or_err, fail_if, str_eq, ltb, length, ◌*◌,
}
use notation_go.Signing.Messages.{Bytes, Descriptor}
use notation_go.Signing.Calls.{Call}
use notation_go.Timestamp.Tokens.{octets}

abbrev pub artifact_type_notation : String
artifact_type_notation = "application/vnd.cncf.notary.v2.signature"

abbrev pub media_type_notation_signature : String
media_type_notation_signature = "application/jose+json"

-- The limits, in bytes.
abbrev pub max_blob_size_limit : ℕ
max_blob_size_limit = 32 * 1024 * 1024

abbrev pub max_manifest_size_limit : ℕ
max_manifest_size_limit = 4 * 1024 * 1024

-- `ocispec.Descriptor`, as far as it is read.
pub record OciDescriptor : Type 0 where
  pub media_type : String
  pub digest : String
  pub size : ℕ

-- `artifactspec.Descriptor`
pub record ArtifactDescriptor : Type 0 where
  pub media_type : String
  pub artifact_type : String
  pub digest : String
  pub size : ℕ

-- `artifactspec.Manifest`
pub record ArtifactManifest : Type 0 where
  pub media_type : String
  pub artifact_type : String
  pub blobs : List ArtifactDescriptor
  pub subject : ArtifactDescriptor

-- What is used of oras, go-digest and encoding/json. Reading leaves the registry as it is; the pages of
-- referrers come in order, and the function that is given to `Referrers` is called for each page until
-- one of them, or the function, fails.
pub record Repository (W : Type 0) : Type 0 where
  pub resolve : W → String → Outcome String OciDescriptor
  pub resolve_manifest : W → String → Outcome String OciDescriptor
  pub fetch_blob : W → OciDescriptor → Outcome String Bytes
  pub fetch_manifest : W → OciDescriptor → Outcome String Bytes
  pub referrers : W → String → List (Outcome String (List ArtifactDescriptor))
  pub push_blob : OciDescriptor → Bytes → Call W String (Unit {0})
  pub push_manifest : OciDescriptor → Bytes → Call W String (Unit {0})
  pub digest_of : Bytes → String
  pub artifact_manifest_type : String
  pub marshal_manifest : ArtifactManifest → Option Bytes
  pub unmarshal_manifest : Bytes → Option ArtifactManifest

pub data RegistryError : Type 0 where
  remote : String → RegistryError
  blob_too_large manifest_too_large : ℕ → RegistryError
  bad_manifest marshal_failed : RegistryError
  -- The digest of the manifest, and why it was not fetched.
  fetch_failed : String → RegistryError → RegistryError

-- `notationDescriptorFromOCI`
unfoldable pub notation_descriptor_from_oci : OciDescriptor → Descriptor
notation_descriptor_from_oci desc = record {
  media_type = desc.media_type;
  digest = desc.digest;
  size = desc.size;
  annotations = [];
}

-- `artifactDescriptorFromNotation`
unfoldable pub artifact_descriptor_from_notation : Descriptor → ArtifactDescriptor
artifact_descriptor_from_notation desc = record {
  media_type = desc.media_type;
  artifact_type = "";
  digest = desc.digest;
  size = desc.size;
}

-- The inner loop of `Lookup`.
unfoldable pub append_digests : List String → List ArtifactDescriptor → List String
append_digests digests [] = digests
append_digests digests (blob ∷ blobs) = append_digests (digests ++ (blob.digest ∷ [])) blobs

module _ {W : Type 0} (c : Repository W) where
  -- `GetManifestDescriptor`
  unfoldable pub get_manifest_descriptor : W → String → Outcome RegistryError Descriptor
  unfolding notation_descriptor_from_oci
  get_manifest_descriptor w ref = do
    desc ← map_err remote (c.resolve w ref)
    ok (notation_descriptor_from_oci desc)

  -- `getArtifactManifest`
  unfoldable pub get_artifact_manifest : W → String → Outcome RegistryError ArtifactManifest
  get_artifact_manifest w manifest_digest = do
    desc ← map_err remote (c.resolve_manifest w manifest_digest)
    fail_if (ltb max_manifest_size_limit desc.size) (manifest_too_large desc.size)
    manifest_json ← map_err remote (c.fetch_manifest w desc)
    or_err (c.unmarshal_manifest manifest_json) bad_manifest

  -- `Get`
  unfoldable pub get : W → String → Outcome RegistryError Bytes
  get w signature_digest = do
    desc ← map_err remote (c.resolve w signature_digest)
    fail_if (ltb max_blob_size_limit desc.size) (blob_too_large desc.size)
    map_err remote (c.fetch_blob w desc)

  -- `desc.ArtifactType != ArtifactTypeNotation || desc.MediaType != ...`
  unfoldable pub is_other : ArtifactDescriptor → Bool
  is_other desc =
      not (str_eq desc.artifact_type artifact_type_notation)
      || not (str_eq desc.media_type c.artifact_manifest_type)

  -- The function that `Lookup` gives to `Referrers`.
  unfoldable pub lookup_page :
      W → List String → List ArtifactDescriptor → Outcome RegistryError (List String)
  unfolding is_other append_digests
  lookup_page w digests [] = ok digests
  lookup_page w digests (desc ∷ referrers) = elim (is_other desc) [
    | true ↦ lookup_page w digests referrers
    | false ↦
        map_err (fetch_failed desc.digest) (get_artifact_manifest w desc.digest) >>= λ artifact.
        lookup_page w (append_digests digests artifact.blobs) referrers
  ]

  unfoldable pub lookup_pages :
      W
      → List String
      → List (Outcome String (List ArtifactDescriptor))
      → Outcome RegistryError (List String)
  unfolding lookup_page
  lookup_pages w digests [] = ok digests
  lookup_pages w digests (page ∷ pages) = do
    referrers ← map_err remote page
    digests' ← lookup_page w digests referrers
    lookup_pages w digests' pages

  -- `Lookup`
  unfoldable pub lookup_signatures : W → String → Outcome RegistryError (List String)
  unfolding lookup_pages
  lookup_signatures w manifest_digest = lookup_pages w [] (c.referrers w manifest_digest)

  -- The end of `Put` and of `Link`.
  unfoldable pub pushed :
      OciDescriptor → Outcome String (Unit {0}) × W → Outcome RegistryError Descriptor × W
  unfolding notation_descriptor_from_oci
  pushed desc (ok _, w) = (ok (notation_descriptor_from_oci desc), w)
  pushed desc (err e, w) = (err (remote e), w)
  pushed desc (panic, w) = (panic, w)

  -- `Put`
  unfoldable pub put : Bytes → Call W RegistryError Descriptor
  unfolding pushed
  put signature w =
      let desc : OciDescriptor = record {
        media_type = media_type_notation_signature;
        digest = c.digest_of signature;
        size = length (octets signature);
      } in
      pushed desc (c.push_blob desc signature w)

  -- The manifest that `Link` makes.
  unfoldable pub artifact_of : Descriptor → Descriptor → ArtifactManifest
  unfolding artifact_descriptor_from_notation
  artifact_of manifest signature = record {
    media_type = c.artifact_manifest_type;
    artifact_type = artifact_type_notation;
    blobs = artifact_descriptor_from_notation signature ∷ [];
    subject = artifact_descriptor_from_notation manifest;
  }

  unfoldable pub push_artifact : Bytes → Call W RegistryError Descriptor
  unfolding pushed
  push_artifact artifact_json w =
      let desc : OciDescriptor = record {
        media_type = c.artifact_manifest_type;
        digest = c.digest_of artifact_json;
        size = length (octets artifact_json);
      } in
      pushed desc (c.push_manifest desc artifact_json w)

  -- `Link`
  unfoldable pub link : Descriptor → Descriptor → Call W RegistryError Descriptor
  unfolding artifact_of push_artifact
  link manifest signature w = elim (c.marshal_manifest (artifact_of manifest signature)) [
    | none ↦ (err marshal_failed, w)
    | some artifact_json ↦ push_artifact artifact_json w
  ]
