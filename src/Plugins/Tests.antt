-- ===== src/Plugins/Tests.antt =====
-- Witnesses of the plugin manager.
use notation_go.Prelude.{subst, some, pos, true, false, none, some, [], ◌∷◌, ok, ◌≡◌, refl}
use notation_go.Signing.Metadata.{validate, Metadata}
use notation_go.Signing.Messages.{command, get_metadata_request, metadata_response, Descriptor}
use notation_go.Signing.Calls.{follow}
use notation_go.Plugins.{String, RunError, bin_path, Commander, MessageJson, FileSystem}
use notation_go.Plugins.Running.{plugin_runner, run_plugin, list_plugins}
use notation_go.Plugins.Signs.Settled.{IsSettled, sign-plugin_runner}
use notation_go.Signing.Samples.{no_stamping}
use notation_go.Signing.Timestamps.{Timestamper}
use notation_go.Signing.Library.{Library, SigningMethod}
use notation_go.Signing.Signer.{SignOptions}
use notation_go.Signing.Signer.Exchange.{sign}
use notation_go.Signing.Signer.Panics.{IsRegistered, HasAnswers}
use notation_go.Signing.Timestamps.Panics.{IsAnswering}

abbrev sample_metadata : Metadata
sample_metadata = record {
  name = "a";
  description = "a plugin";
  version = "1";
  url = "https://acme.io";
  supported_contract_versions = "1.0" ∷ [];
  capabilities = "SIGNATURE_GENERATOR" ∷ [];
}

abbrev sample_json : MessageJson
sample_json = record {
  marshal_request = λ req. some "{}";
  unmarshal_error = λ out. none;
  unmarshal_metadata = λ out. some sample_metadata;
  unmarshal_signature = λ out. none;
  unmarshal_generated_envelope = λ out. none;
  unmarshal_key = λ out. none;
}

abbrev sample_commander : Commander (Unit {0})
sample_commander path cmd req w = (ok ("{}", true), w)

abbrev sample_files : FileSystem
sample_files = record {
  stat = λ path. some (record { is_regular = true });
  entries =
      record { name = "a"; is_dir = true; is_symlink = false }
      ∷ record { name = "b"; is_dir = false; is_symlink = false }
      ∷ [];
  root = some "/plugins";
  is_windows = false;
  join_path = λ parts. "/plugins/a/notation-a";
  base_name = λ path. "notation-a";
}

list_run : list_plugins sample_json sample_commander sample_files tt ≡ (
  ok (record { metadata = sample_metadata; path = "/plugins/a/notation-a"; err = none } ∷ []),
  tt,
)
unfolding list_plugins validate bin_path
list_run = refl

run_plugin_run :
    run_plugin sample_json sample_commander "/plugins/a/notation-a" get_metadata_request tt
    ≡ (ok (metadata_response sample_metadata), tt)
unfolding run_plugin follow command
run_plugin_run = refl

abbrev sample_method : SigningMethod
sample_method = record {
  alg = "ES256";
  verify = λ payload sig key. true;
  sign = λ payload. some "s";
}

abbrev sample_library : Library
sample_library = record {
  new_numeric_date = λ t. t;
  claims_valid = λ claims. true;
  signing_string = λ token. some "h.p";
  get_signing_method = λ alg. some sample_method;
  parse_certificate = λ content. none;
  encode_base64 = λ content. content;
  decode_base64 = λ content. some content;
  marshal_descriptor = λ desc. some "d";
  marshal_envelope = λ e. some "e";
  unmarshal_envelope = λ content. none;
  unmarshal_header = λ content. none;
  unmarshal_payload = λ content. none;
  stamping = no_stamping;
}

registered : IsRegistered sample_library
registered alg m z = cc z

abbrev sample_text : RunError → String
sample_text e = "failed"

abbrev sample_artifact : Descriptor
sample_artifact = record { media_type = "text"; digest = "sha256:00"; size = 7; annotations = [] }

-- An authority that refuses.
abbrev sample_authority : Timestamper
sample_authority req = ok (
    some (record {
      status = record { status = pos 2; status_string = []; fail_info = "" };
      time_stamp_token = "";
    }))

abbrev sample_options : SignOptions
sample_options = record {
  expiry = none;
  tsa = some sample_authority;
  tsa_roots = none;
  plugin_config = [];
}

some-inj : {a b : Timestamper} → some a ≡ some b → a ≡ b
some-inj h = cc

answers : HasAnswers sample_options
answers tsa e req = subst IsAnswering (some-inj e) (λ r. ((λ z. cc z), (λ z. cc z))) req

sign-plugin_runner_example :
    IsSettled
      (sign sample_library
        (plugin_runner sample_json sample_commander sample_text "a" "/plugins/a/notation-a")
        "k"
        []
        sample_artifact
        sample_options
        5
        tt).0
sign-plugin_runner_example =
    sign-plugin_runner sample_library sample_json sample_commander sample_text "a"
      "/plugins/a/notation-a" "k" [] sample_artifact sample_options 5 tt registered
      (λ p cmd req v z. cc z) refl answers
