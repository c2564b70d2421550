-- ===== src/Signing/Signer/Exchange.antt =====
-- signature/jws/plugin.go: the operations of `pluginSigner` that call the plugin, and `jwsEnvelope`.
use notation_go.Prelude.{
  panic, ℕ, String, not, Option, none, some, List, [], ◌∷◌, Outcome, ok, err, panic, map_err,
  or_err, fail_if, str_eq, str_append, ◌==◌, length, split, if◌then◌else◌,
}
use notation_go.Verification.Names.{StringMap}
use notation_go.Signing.Algorithms.{signature_algorithm, hash, jws}
use notation_go.Signing.Metadata.{Metadata, validate, has_capability, supports_contract}
use notation_go.Signing.Config.{merge_config}
use notation_go.Signing.Messages.{
  Bytes, contract_version, media_type_payload, media_type_jws_envelope,
  capability_signature_generator, capability_envelope_generator, Descriptor, DescribeKeyResponse,
  GenerateSignatureResponse, GenerateEnvelopeResponse, Request, get_metadata_request,
  describe_key_request, generate_signature_request, generate_envelope_request, Response,
  metadata_response, describe_key_response, generate_signature_response, generate_envelope_response,
  nil_metadata, nil_key, nil_signature, nil_envelope, JwsEnvelope,
}
use notation_go.Signing.Library.{Library}
use notation_go.Signing.Calls.{Call, ◌>>=◌, ◌>>◌, lift}
use notation_go.Signing.Signer.{
  SignOptions, SignError, nil_runner, nil_key_id, metadata_failed, describe_key_failed,
  generate_signature_failed, generate_envelope_failed, wrong_metadata_type, wrong_describe_key_type,
  wrong_signature_type, wrong_envelope_type, invalid_metadata, unsupported_contract, no_capability,
  key_id_changed, unsupported_key_spec, unsupported_algorithm, invalid_claims, marshal_failed,
  empty_chain, invalid_compact, envelope_type_changed, pack_payload, jwt_token, stamp, check_leaf,
  check_envelope,
}

-- The parts of the compact form as an envelope.
unfoldable pub envelope_of : List String → List Bytes → Outcome SignError JwsEnvelope
envelope_of (protected ∷ payload ∷ signature ∷ []) chain = ok (record {
  payload = payload;
  protected = protected;
  header = record { time_stamp_token = ""; cert_chain = chain };
  signature = signature;
})
envelope_of _ chain = err invalid_compact

-- The type assertions on what a runner returns, and the first use of the pointer.
unfoldable pub as_metadata : Response → Outcome SignError Metadata
as_metadata (metadata_response m) = ok m
as_metadata nil_metadata = panic
as_metadata _ = err wrong_metadata_type

unfoldable pub as_key : Response → Outcome SignError DescribeKeyResponse
as_key (describe_key_response key) = ok key
as_key nil_key = panic
as_key _ = err wrong_describe_key_type

unfoldable pub as_signature : Response → Outcome SignError GenerateSignatureResponse
as_signature (generate_signature_response resp) = ok resp
as_signature nil_signature = panic
as_signature _ = err wrong_signature_type

unfoldable pub as_envelope : Response → Outcome SignError GenerateEnvelopeResponse
as_envelope (generate_envelope_response resp) = ok resp
as_envelope nil_envelope = panic
as_envelope _ = err wrong_envelope_type

module _ {W : Type 0} (lib : Library) (run : Request → Call W String Response) where
  -- `jwsEnvelope`
  unfoldable pub jws_envelope : SignOptions → String → List Bytes → Call W SignError Bytes
  unfolding envelope_of stamp
  jws_envelope opts compact chain = do
    envelope ← lift (envelope_of (split b'.' compact) chain)
    stamped ← lift (stamp lib opts envelope)
    lift (or_err (lib.marshal_envelope stamped) marshal_failed)

  -- `s.runner.Run`, with the error of this request.
  unfoldable pub ask : Request → (String → SignError) → Call W SignError Response
  ask req failed w = (map_err failed ((run req w).0), (run req w).1)

  -- `getMetadata`
  unfoldable pub get_metadata : Call W SignError Metadata
  unfolding ask as_metadata
  get_metadata = do
    out ← ask get_metadata_request metadata_failed
    metadata ← lift (as_metadata out)
    lift (map_err invalid_metadata (validate metadata))
    lift (ok metadata)

  -- `describeKey`
  unfoldable pub describe_key : String → StringMap → Call W SignError DescribeKeyResponse
  unfolding ask as_key
  describe_key key_id config = do
    out ←
        ask
          (describe_key_request
            (record { version = contract_version; key_id = key_id; plugin_config = config }))
          describe_key_failed
    lift (as_key out)

  -- `generateSignature`, from the signing string on.
  unfoldable pub request_signature :
      String → SignOptions → StringMap → String → Bytes → Call W SignError Bytes
  unfolding ask as_signature jws_envelope
  request_signature key_id opts config key_spec payload_to_sign = do
    out ←
        ask
          (generate_signature_request (record {
            version = contract_version;
            key_id = key_id;
            key_spec = key_spec;
            hash_algorithm = hash (signature_algorithm key_spec);
            payload = payload_to_sign;
            plugin_config = config;
          }))
          generate_signature_failed
    resp ← lift (as_signature out)
    lift (fail_if (not (str_eq key_id resp.key_id)) (key_id_changed resp.key_id key_id))
    lift (
        fail_if (str_eq (jws resp.signing_algorithm) "")
          (unsupported_algorithm resp.signing_algorithm))
    lift (fail_if (length resp.certificate_chain == 0) empty_chain)
    let signed64 = lib.encode_base64 resp.signature in
        (lift (
            check_leaf lib (jws resp.signing_algorithm) payload_to_sign signed64
              resp.certificate_chain)
          >>= λ _.
              jws_envelope opts (str_append payload_to_sign (str_append "." signed64))
                resp.certificate_chain)

  -- `generateSignature`
  unfoldable pub generate_signature :
      String → StringMap → Descriptor → SignOptions → ℕ → Call W SignError Bytes
  unfolding describe_key request_signature
  generate_signature key_id plugin_config desc opts now = do
    key ← describe_key key_id (merge_config plugin_config opts.plugin_config)
    lift (fail_if (not (str_eq key_id key.key_id)) (key_id_changed key.key_id key_id))
    lift
        (fail_if (str_eq (signature_algorithm key.key_spec) "") (unsupported_key_spec key.key_spec))
    lift (fail_if (not (lib.claims_valid (pack_payload lib desc opts now))) invalid_claims)
    payload_to_sign ← lift (
        or_err
          (lib.signing_string
            (jwt_token (jws (signature_algorithm key.key_spec)) (pack_payload lib desc opts now)))
          marshal_failed)
    request_signature key_id opts (merge_config plugin_config opts.plugin_config) key.key_spec
        payload_to_sign

  -- `generateSignatureEnvelope`
  unfoldable pub generate_signature_envelope :
      String → StringMap → Descriptor → SignOptions → Call W SignError Bytes
  unfolding ask as_envelope
  generate_signature_envelope key_id plugin_config desc opts = do
    raw_desc ← lift (or_err (lib.marshal_descriptor desc) marshal_failed)
    out ←
        ask
          (generate_envelope_request (record {
            version = contract_version;
            key_id = key_id;
            payload_type = media_type_payload;
            signature_envelope_type = media_type_jws_envelope;
            payload = raw_desc;
            plugin_config = merge_config plugin_config opts.plugin_config;
          }))
          generate_envelope_failed
    resp ← lift (as_envelope out)
    lift (
        fail_if (not (str_eq resp.signature_envelope_type media_type_jws_envelope))
          envelope_type_changed)
    lift (check_envelope lib desc resp.signature_envelope)
    lift (ok resp.signature_envelope)

  -- `Sign`
  unfoldable pub sign : String → StringMap → Descriptor → SignOptions → ℕ → Call W SignError Bytes
  unfolding get_metadata generate_signature generate_signature_envelope
  sign key_id plugin_config desc opts now = do
    metadata ← get_metadata
    lift (fail_if (not (supports_contract metadata contract_version)) unsupported_contract)
    if has_capability metadata capability_signature_generator
        then generate_signature key_id plugin_config desc opts now
        else if has_capability metadata capability_envelope_generator
        then generate_signature_envelope key_id plugin_config desc opts
        else lift (err no_capability)

-- `NewSignerPlugin`: the key and the configuration of the signer; a runner may be nil.
unfoldable pub new_signer_plugin :
    {R : Type 0} → Option R → String → StringMap → Outcome SignError (R × String × StringMap)
new_signer_plugin none key_id plugin_config = err nil_runner
new_signer_plugin (some runner) key_id plugin_config =
    if str_eq key_id "" then err nil_key_id else ok (runner, key_id, plugin_config)
