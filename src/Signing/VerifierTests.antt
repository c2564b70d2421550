-- ===== src/Signing/VerifierTests.antt =====
-- A witness of the verifier.
use Prim.Native.Char.{code}
use notation_go.Prelude.{
  String, true, false, not, Option, none, some, List, [], ◌∷◌, Outcome, ok, err, ◌∙◌, push_char,
  ◌>>=◌, ◌>>◌, fail_if, str_eq, split, dot, if◌then◌else◌, ◌≡◌, refl, ap, inl, inr, eq_iff,
  Bool-cases, >>=-eq-ok, fail_if-eq-ok,
}
use notation_go.Signing.Algorithms.{PublicKey, ecdsa, key_spec_from_key}
use notation_go.Signing.Certificates.{Certificate}
use notation_go.Signing.Messages.{Descriptor, JwsEnvelope}
use notation_go.Signing.Library.{SigningMethod, Library}
use notation_go.Signing.Samples.{no_stamping}
use notation_go.Signing.Verifier.{
  KeyFunc, VerifyError, invalid_token, ReadClaims, Packages, new_verifier, trusted, verify_envelope,
}
use notation_go.Signing.Verifier.Accepted.{IsParser, IsAuthentic}
use notation_go.Signing.Verifier.Authentic.{verify_envelope-IsAuthentic}
use notation_go.Timestamp.Cms.Vouched.{not-eq-false}

abbrev es_method : SigningMethod
es_method = record {
  alg = "ES256";
  verify = λ payload sig key. str_eq sig "s";
  sign = λ payload. some "s";
}

abbrev leaf_cert : Certificate
leaf_cert = record {
  key_usage = 1;
  ext_key_usage = 3 ∷ [];
  extensions = [];
  basic_constraints_valid = true;
  is_ca = false;
  public_key = ecdsa 256;
}

abbrev image : Descriptor
image = record { media_type = "text"; digest = "sha256:00"; size = 7; annotations = [] }

abbrev image_claims : ReadClaims
image_claims = record { issued_at = some 5; subject = image }

abbrev image_envelope : JwsEnvelope
image_envelope = record {
  payload = "p";
  protected = "h";
  header = record { time_stamp_token = ""; cert_chain = "c" ∷ [] };
  signature = "s";
}

abbrev envelope_library : Library
envelope_library = record {
  new_numeric_date = λ t. t;
  claims_valid = λ claims. true;
  signing_string = λ token. some "h.p";
  get_signing_method = λ alg. some es_method;
  parse_certificate = λ content. some leaf_cert;
  encode_base64 = λ content. content;
  decode_base64 = λ content. some content;
  marshal_descriptor = λ desc. some "d";
  marshal_envelope = λ envelope. some "e";
  unmarshal_envelope = λ content. some image_envelope;
  unmarshal_header = λ content. none;
  unmarshal_payload = λ content. none;
  stamping = no_stamping;
}

-- The text `h.p.s` is the one token that is read, if any method will do.
unfoldable parse_one : List String → String → KeyFunc → Outcome VerifyError ReadClaims
parse_one (alg ∷ algs) token choose = err (invalid_token "method")
parse_one [] token choose =
    if str_eq token "h.p.s"
    then (choose "ES256" >>= λ (mk : SigningMethod × PublicKey).
        fail_if (not (mk.0.verify "h.p" "s" mk.1)) (invalid_token "signature") >> ok image_claims)
    else err (invalid_token "text")

abbrev sample_packages : Packages
sample_packages = record {
  library = envelope_library;
  verify_certificate = λ cert opts. trusted;
  parse_with_claims = parse_one;
}

read_claims : String → Option ReadClaims
read_claims payload = some image_claims

claims-inj : {a b : ReadClaims} → ◌≡◌ {A = Outcome VerifyError ReadClaims} (ok a) (ok b) → a ≡ b
claims-inj h = cc

parts_run : split (code dot) "h.p.s" ≡ "h" ∷ "p" ∷ "s" ∷ []
unfolding split push_char
parts_run = refl

parse_one-IsParser : IsParser read_claims sample_packages
unfolding parse_one read_claims
parse_one-IsParser (alg ∷ algs) token choose claims h = absurd (cc h)
parse_one-IsParser [] token choose claims h = elim (Bool-cases (str_eq token "h.p.s")) [
  | inr other ↦ absurd (cc (rw (parse_one, other) at h))
  | inl same ↦
      let (mk, chosen, h₁) = >>=-eq-ok (choose "ES256") _ (rw (parse_one, same) at h) in
      let (_, verified, h₂) =
        >>=-eq-ok (fail_if (not (mk.0.verify "h.p" "s" mk.1)) (invalid_token "signature")) _ h₁ in
      record {
        header = "h";
        payload = "p";
        signature = "s";
        parts = ap (split (code dot)) ((eq_iff token "h.p.s").0 same) ∙ parts_run;
        alg = "ES256";
        method = mk.0;
        key = mk.1;
        chosen = chosen;
        valid = inl refl;
        verified = not-eq-false _ (fail_if-eq-ok _ _ verified);
        read = ap some (claims-inj h₂);
      }
]

verify_run : verify_envelope sample_packages new_verifier "e" ≡ ok image
unfolding verify_envelope key_spec_from_key parse_one
verify_run = refl

verify_envelope-IsAuthentic_example : IsAuthentic read_claims sample_packages new_verifier "e" image
verify_envelope-IsAuthentic_example =
    verify_envelope-IsAuthentic read_claims sample_packages new_verifier "e" image
      parse_one-IsParser verify_run
