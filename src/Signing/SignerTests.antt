-- ===== src/Signing/SignerTests.antt =====
-- A run of the plugin signer, and its witnesses.
use notation_go.Prelude.{
  sym, subst, some, pos, suc, split, ℕ, String, ◌≡◌, ◌≢◌, refl, ◌⊎◌, true, none, some, [], ◌∷◌,
  Outcome, ok, err, panic, str_eq, str_append, arith,
}
use notation_go.Signing.Algorithms.{jws, hash, signature_algorithm}
use notation_go.Signing.Metadata.{validate, has_capability, supports_contract}
use notation_go.Signing.Certificates.{verify_cert_ext_key_usage}
use notation_go.Signing.Messages.{
  IsNil, Request, get_metadata_request, describe_key_request, generate_signature_request,
  generate_envelope_request, Response, metadata_response, describe_key_response,
  generate_signature_response, JwsEnvelope,
}
use notation_go.Signing.Samples.{no_stamping, sample_metadata, sample_cert, sample_descriptor}
use notation_go.Signing.Timestamps.{Timestamper}
use notation_go.Signing.Library.{SigningMethod, Library}
use notation_go.Signing.Calls.{Call, follow}
use notation_go.Signing.Signer.{SignOptions, check_leaf}
use notation_go.Signing.Signer.Exchange.{sign, request_signature, jws_envelope}
use notation_go.Signing.Signer.Verified.{IsAssembled, IsEnvelope, sign-IsVerified}
use notation_go.Signing.Signer.Panics.{IsRegistered, HasAnswers}
use notation_go.Signing.Timestamps.Panics.{IsAnswering}
use notation_go.Signing.Signer.Safe.{sign-ne-panic}

-- A library whose signatures are the text `s`.
abbrev sample_method : SigningMethod
sample_method = record {
  alg = "ES256";
  verify = λ payload sig key. str_eq sig "s";
  sign = λ payload. some "s";
}

abbrev sample_library : Library
sample_library = record {
  new_numeric_date = λ t. t;
  claims_valid = λ c. true;
  signing_string = λ t. some "h.p";
  get_signing_method = λ alg. some sample_method;
  parse_certificate = λ c. some sample_cert;
  encode_base64 = λ b. b;
  decode_base64 = λ s. some s;
  marshal_descriptor = λ d. some "d";
  marshal_envelope = λ e. some (str_append (JwsEnvelope.payload e) (JwsEnvelope.signature e));
  unmarshal_envelope = λ b. none;
  unmarshal_header = λ b. none;
  unmarshal_payload = λ b. none;
  stamping = no_stamping;
}

-- A plugin that counts its runs.
sample_answer : Request → Outcome String Response
sample_answer get_metadata_request = ok (metadata_response sample_metadata)
sample_answer (describe_key_request req) =
    ok (describe_key_response (record { key_id = "k"; key_spec = "EC_256" }))
sample_answer (generate_signature_request req) = ok (
    generate_signature_response (record {
      key_id = "k";
      signature = "s";
      signing_algorithm = "ECDSA_SHA_256";
      certificate_chain = "c" ∷ [];
    }))
sample_answer (generate_envelope_request req) = err "no envelopes"

abbrev sample_options : SignOptions
sample_options = record { expiry = none; tsa = none; tsa_roots = none; plugin_config = [] }

-- An authority that refuses.
abbrev sample_authority : Timestamper
sample_authority req = ok (
    some (record {
      status = record { status = pos 2; status_string = []; fail_info = "" };
      time_stamp_token = "";
    }))

abbrev stamp_options : SignOptions
stamp_options = record {
  expiry = none;
  tsa = some sample_authority;
  tsa_roots = none;
  plugin_config = [];
}

abbrev sample_run : Request → Call ℕ String Response
sample_run req n = (sample_answer req, suc n)

sign_run : sign sample_library sample_run "k" [] sample_descriptor sample_options 5 0 ≡ (ok "ps", 3)
unfolding sign request_signature jws_envelope follow sample_answer check_leaf validate
    has_capability supports_contract signature_algorithm jws hash verify_cert_ext_key_usage split
sign_run = refl

sign-IsVerified_example :
    IsAssembled sample_library sample_options "ps"
    ⊎ IsEnvelope sample_library sample_descriptor "ps"
sign-IsVerified_example =
    sign-IsVerified sample_library sample_run "k" [] sample_descriptor sample_options 5 0 3 "ps"
      sign_run

steady : (req : Request) → (n : ℕ) → (sample_run req n).0 ≢ panic
unfolding sample_answer
steady req n = ground arith

response-inj : {a b : Response} → ◌≡◌ {A = Outcome String Response} (ok a) (ok b) → a ≡ b
response-inj h = cc

pointed : (req : Request) (n : ℕ) (out : Response) → (sample_run req n).0 ≡ ok out → ¬ IsNil out
unfolding sample_answer
pointed get_metadata_request n out h z = subst IsNil (sym (response-inj h)) z
pointed (describe_key_request req) n out h z = subst IsNil (sym (response-inj h)) z
pointed (generate_signature_request req) n out h z = subst IsNil (sym (response-inj h)) z
pointed (generate_envelope_request req) n out h z = absurd (cc h)

some-inj : {a b : Timestamper} → some a ≡ some b → a ≡ b
some-inj h = cc

answers : HasAnswers stamp_options
answers tsa e req = subst IsAnswering (some-inj e) (λ r. ((λ z. cc z), (λ z. cc z))) req

registered : IsRegistered sample_library
registered alg m z = cc z

sign-ne-panic_example :
    (sign sample_library sample_run "k" [] sample_descriptor stamp_options 5 0).0 ≢ panic
sign-ne-panic_example =
    sign-ne-panic sample_library registered sample_run steady pointed refl "k" [] sample_descriptor
      stamp_options 5 0 answers
