-- ===== src/Signing/Tests.antt =====
-- Runs and witnesses of signing.
use notation_go.Prelude.{
  some, String, ◌≡◌, ◌≢◌, refl, ◌↔◌, ◌⊎◌, true, none, some, [], ◌∷◌, ok, IsElem,
}
use notation_go.Signing.Algorithms.{
  ecdsa_sha_256, jws, hash, new_signature_algorithm_jws, signature_algorithm, ecdsa,
  key_spec_from_key,
}
use notation_go.Signing.Algorithms.Laws.{
  algorithms, jws_names, jws-new_signature_algorithm_jws_iff, signature_algorithm-IsWhole,
  key_spec_from_key-signature_algorithm,
}
use notation_go.Signing.Metadata.{validate, has_capability}
use notation_go.Signing.Metadata.Laws.{IsPopulated, validate_iff, has_capability_iff}
use notation_go.Signing.Errors.{RequestError, JsonErr, is, marshal_json, unmarshal_json}
use notation_go.Signing.Errors.Laws.{unmarshal_json-marshal_json}
use notation_go.Signing.Config.{lookup, merge_config}
use notation_go.Signing.Config.Laws.{prefer, lookup-merge_config}
use notation_go.Signing.Certificates.{code_signing, verify_cert_ext_key_usage}
use notation_go.Signing.Certificates.Laws.{IsUsable, verify_cert_ext_key_usage_iff}
use notation_go.Signing.Messages.{capability_signature_generator, Descriptor}
use notation_go.Signing.Samples.{sample_metadata, sample_cert, sample_descriptor}
use notation_go.Signing.Signer.{descriptor_partial_equal}
use notation_go.Signing.Signer.Checks.{IsExtension, descriptor_partial_equal_iff}

abbrev es256 : String
es256 = "ES256"

jws-new_signature_algorithm_jws_iff_example :
    ((jws ecdsa_sha_256 ≡ es256) × (es256 ≢ ""))
    ↔ ((new_signature_algorithm_jws es256 ≡ ecdsa_sha_256) × (ecdsa_sha_256 ≢ ""))
jws-new_signature_algorithm_jws_iff_example =
    jws-new_signature_algorithm_jws_iff ecdsa_sha_256 es256

supported : signature_algorithm "EC_256" ≢ ""
unfolding signature_algorithm
supported z = cc z

signature_algorithm-IsWhole_example :
    IsElem (signature_algorithm "EC_256") algorithms
    × IsElem (jws (signature_algorithm "EC_256")) jws_names
    × (hash (signature_algorithm "EC_256") ≢ "")
signature_algorithm-IsWhole_example = signature_algorithm-IsWhole "EC_256" supported

key_run : key_spec_from_key (ecdsa 521) ≡ ok "EC_512"
unfolding key_spec_from_key
key_run = refl

key_spec_from_key-signature_algorithm_example : IsElem (signature_algorithm "EC_512") algorithms
key_spec_from_key-signature_algorithm_example =
    key_spec_from_key-signature_algorithm (ecdsa 521) "EC_512" key_run

validate_iff_example : (validate sample_metadata ≡ ok tt) ↔ IsPopulated sample_metadata
validate_iff_example = validate_iff sample_metadata

has_capability_iff_example : (has_capability sample_metadata "SIGNATURE_GENERATOR" ≡ true) ↔ (
    (capability_signature_generator ≡ "")
    ⊎ IsElem "SIGNATURE_GENERATOR" ("SIGNATURE_GENERATOR" ∷ []))
has_capability_iff_example = has_capability_iff sample_metadata "SIGNATURE_GENERATOR"

abbrev denied : RequestError
denied = record {
  code = "ACCESS_DENIED";
  err = some (record { identity = 4; text = "no key" });
  metadata = none;
}

-- A library that writes the struct itself.
unmarshal_json-marshal_json_example :
    (e' : RequestError) × (unmarshal_json {Json = JsonErr}
        (λ j. j)
        some
        9
        (marshal_json {Json = JsonErr} (λ j. j) some denied)
      ≡ ok e')
    × (is e' (some denied) ≡ true)
    × (e'.metadata ≡ none)
unmarshal_json-marshal_json_example =
    unmarshal_json-marshal_json {Json = JsonErr} (λ j. j) some (λ j full. refl) 9 denied (λ z. cc z)
      (λ z. cc z) (λ z. cc z)

unique : (lookup [] "a" ≡ none) × Unit {0}
unfolding lookup
unique = (refl, tt)

lookup-merge_config_example :
    lookup (merge_config (("a", "1") ∷ []) (("a", "2") ∷ [])) "a"
    ≡ prefer (lookup (("a", "2") ∷ []) "a") (lookup (("a", "1") ∷ []) "a")
lookup-merge_config_example =
    lookup-merge_config (("a", "1") ∷ []) (("a", "2") ∷ []) "a" unique unique

verify_cert_ext_key_usage_iff_example :
    (verify_cert_ext_key_usage sample_cert code_signing ≡ ok tt) ↔ IsUsable sample_cert code_signing
verify_cert_ext_key_usage_iff_example = verify_cert_ext_key_usage_iff sample_cert code_signing

abbrev annotated : Descriptor
annotated = record {
  media_type = "text";
  digest = "sha256:00";
  size = 7;
  annotations = ("b", "2") ∷ ("a", "1") ∷ [];
}

descriptor_partial_equal_iff_example :
    (descriptor_partial_equal sample_descriptor annotated ≡ true)
    ↔ IsExtension sample_descriptor annotated
descriptor_partial_equal_iff_example = descriptor_partial_equal_iff sample_descriptor annotated
