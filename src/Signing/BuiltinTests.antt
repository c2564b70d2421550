-- ===== src/Signing/BuiltinTests.antt =====
-- A witness of the built-in signer.
use notation_go.Prelude.{
  ℕ, true, false, none, some, [], ◌∷◌, ok, str_eq, split, push_char, ◌≡◌, refl,
}
use notation_go.Signing.Algorithms.{key_spec_from_key, ecdsa, signature_algorithm}
use notation_go.Signing.Certificates.{Certificate, code_signing, verify_cert_ext_key_usage}
use notation_go.Signing.Messages.{Bytes, Descriptor, JwsEnvelope}
use notation_go.Signing.Samples.{no_stamping}
use notation_go.Signing.Library.{SigningMethod, Library}
use notation_go.Signing.Signer.{SignOptions, parse_cert_chain}
use notation_go.Signing.Signer.Exchange.{sign}
use notation_go.Signing.Verifier.{trusted}
use notation_go.Signing.Builtin.{new_signer, BuiltinPlugin, run_builtin}
use notation_go.Signing.Builtin.Succeeds.{envelope, sign-new_signer}
use notation_go.Signing.Builtin.Required.{CanSign}

abbrev builtin_method : SigningMethod
builtin_method = record {
  alg = "ES256";
  verify = λ payload sig key. str_eq sig "s";
  sign = λ payload. some "s";
}

abbrev signing_cert : Certificate
signing_cert = record {
  key_usage = 1;
  ext_key_usage = 3 ∷ [];
  extensions = record { id = 2 ∷ 5 ∷ 29 ∷ 15 ∷ []; critical = true } ∷ [];
  basic_constraints_valid = true;
  is_ca = false;
  public_key = ecdsa 256;
}

abbrev signing_library : Library
signing_library = record {
  new_numeric_date = λ t. t;
  claims_valid = λ claims. true;
  signing_string = λ token. some "h.p";
  get_signing_method = λ alg. some builtin_method;
  parse_certificate = λ content. some signing_cert;
  encode_base64 = λ content. content;
  decode_base64 = λ content. some content;
  marshal_descriptor = λ desc. some "d";
  marshal_envelope = λ e. some (JwsEnvelope.payload e);
  unmarshal_envelope = λ content. none;
  unmarshal_header = λ content. none;
  unmarshal_payload = λ content. none;
  stamping = no_stamping;
}

abbrev ec_plugin : BuiltinPlugin
ec_plugin = record { key_spec = "EC_256"; cert_chain = "c" ∷ [] }

abbrev artifact : Descriptor
artifact = record { media_type = "text"; digest = "sha256:00"; size = 7; annotations = [] }

abbrev plain_options : SignOptions
plain_options = record { expiry = none; tsa = none; tsa_roots = none; plugin_config = [] }

usable_run : verify_cert_ext_key_usage signing_cert code_signing ≡ ok tt
unfolding verify_cert_ext_key_usage
usable_run = refl

sample_can : CanSign signing_library ec_plugin artifact plain_options 5
unfolding signature_algorithm split push_char parse_cert_chain
sample_can = record {
  valid = refl;
  protected = "h";
  payload = "p";
  written = refl;
  method = builtin_method;
  registered = refl;
  signature = "s";
  signed = refl;
  decoded = "s";
  decodes = refl;
  encodes = refl;
  leaf = signing_cert;
  rest = [];
  chain = refl;
  verifies = refl;
  usable = usable_run;
  dotless_protected = refl;
  dotless_payload = refl;
  dotless_signature = refl;
  no_tsa = refl;
  written_envelope = λ e z. cc z;
}

new_run :
    new_signer (λ cert opts. trusted) (some (ecdsa 256)) ((signing_cert, "c") ∷ []) ≡ ok ec_plugin
unfolding new_signer key_spec_from_key
new_run = refl

sign-new_signer_example :
    (bytes : Bytes) × (signing_library.marshal_envelope
        (envelope signing_library ec_plugin artifact plain_options 5 sample_can)
      ≡ some bytes)
    × (sign {W = ℕ} signing_library
          (run_builtin signing_library ec_plugin)
          ""
          []
          artifact
          plain_options
          5
          9
        ≡ (ok bytes, 9))
sign-new_signer_example =
    sign-new_signer (λ cert opts. trusted) (some (ecdsa 256)) ((signing_cert, "c") ∷ [])
      signing_library ec_plugin artifact plain_options 5 "" [] 9 new_run sample_can
