-- ===== src/Plugins/Answers.antt =====
-- The types of what a plugin answers.
use notation_go.Prelude.{
  subst, if◌then◌else◌, subst, String, Bool, true, false, Option, none, some, ok, err, ◌≡◌,
}
use notation_go.Signing.Metadata.{Metadata}
use notation_go.Signing.Messages.{
  Bytes, DescribeKeyRequest, DescribeKeyResponse, GenerateSignatureRequest,
  GenerateSignatureResponse, GenerateEnvelopeRequest, GenerateEnvelopeResponse, Request,
  get_metadata_request, describe_key_request, generate_signature_request, generate_envelope_request,
  command, Response, metadata_response, describe_key_response, generate_signature_response,
  generate_envelope_response,
}
use notation_go.Signing.Calls.{Post, Post-lift, Post-follow, Post-end, Post-returned}
use notation_go.Plugins.{Commander, MessageJson}
use notation_go.Plugins.Running.{
  decode_as, decode_response, decode_failure, output, run, run_plugin,
}

-- The response has the type that belongs to the request.
pub data Answers : Request → Response → Type 0 where
  metadata_answer : {m : Metadata} → Answers get_metadata_request (metadata_response m)
  key_answer :
      {req : DescribeKeyRequest} {resp : DescribeKeyResponse}
      → Answers (describe_key_request req) (describe_key_response resp)
  signature_answer :
      {req : GenerateSignatureRequest} {resp : GenerateSignatureResponse}
      → Answers (generate_signature_request req) (generate_signature_response resp)
  envelope_answer :
      {req : GenerateEnvelopeRequest} {resp : GenerateEnvelopeResponse}
      → Answers (generate_envelope_request req) (generate_envelope_response resp)

decode_as-ok :
    {A : Type 0} (wrap : A → Response) (o : Option A) (resp : Response)
    → decode_as wrap o ≡ ok resp
    → (a : A) × (wrap a ≡ resp)
unfolding decode_as
decode_as-ok wrap none resp h = absurd (cc h)
decode_as-ok wrap (some a) resp h = (a, cc)

decode_response-Answers :
    (json : MessageJson) (req : Request) (out : Bytes) (resp : Response)
    → decode_response json (command req) out ≡ ok resp
    → Answers req resp
unfolding decode_response command
decode_response-Answers json get_metadata_request out resp h =
    let (m, e) = decode_as-ok metadata_response (json.unmarshal_metadata out) resp h in
    subst (Answers get_metadata_request) e metadata_answer
decode_response-Answers json (describe_key_request req) out resp h =
    let (m, e) = decode_as-ok describe_key_response (json.unmarshal_key out) resp h in
    subst (Answers (describe_key_request req)) e key_answer
decode_response-Answers json (generate_signature_request req) out resp h =
    let (m, e) = decode_as-ok generate_signature_response (json.unmarshal_signature out) resp h in
    subst (Answers (generate_signature_request req)) e signature_answer
decode_response-Answers json (generate_envelope_request req) out resp h =
    let (m, e) =
      decode_as-ok generate_envelope_response (json.unmarshal_generated_envelope out) resp h in
    subst (Answers (generate_envelope_request req)) e envelope_answer

outcome-Answers :
    (json : MessageJson) (req : Request) (success : Bool) (out : Bytes) (resp : Response)
    → (if success then decode_response json (command req) out else err (decode_failure json out))
      ≡ ok resp
    → Answers req resp
outcome-Answers json req true out resp h = decode_response-Answers json req out resp h
outcome-Answers json req false out resp h = absurd (cc h)

module _ {W : Type 0} (json : MessageJson) (cmder : Commander W) where
  run-Post :
      (path : String) (req : Request) (data' : Bytes) (w : W)
      → Post (Answers req) (run json cmder path (command req) data' w)
  unfolding run
  run-Post path req data' w =
      Post-follow _ (output json cmder path (command req) data' w)
        (λ (r : Bytes × Bool) w'. Post-end _ (λ resp h. outcome-Answers json req r.1 r.0 resp h))

  -- What pluginRunner.Run returns for a request has the type that belongs to the request, whatever the
  -- plugin writes.
  pub run_plugin-Answers :
      (path : String) (req : Request) (w w' : W) (resp : Response)
      → run_plugin json cmder path req w ≡ (ok resp, w')
      → Answers req resp
  unfolding run_plugin
  run_plugin-Answers path req w w' resp h =
      Post-returned (Post-lift _ _ (λ (data' : Bytes) _. run-Post path req data' w)) h
