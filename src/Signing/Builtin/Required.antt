-- ===== src/Signing/Builtin/Required.antt =====
-- What the built-in signer relies on, and what follows for its key and its chain.
use Prim.Native.Char.{code}
use notation_go.Prelude.{
  arith, inl, inr, ◌==◌, Bool-cases, false, eq_iff, length, str_eq, true, ℕ, String, none, some,
  List, [], ◌∷◌, ok, split, dot, ◌≡◌, ◌≢◌, refl, ◌∙◌, IsElem, join,
}
use notation_go.Signing.Algorithms.Laws.{jws_names}
use notation_go.Signing.Algorithms.{signature_algorithm, jws}
use notation_go.Signing.Certificates.{Certificate, code_signing, verify_cert_ext_key_usage}
use notation_go.Signing.Messages.{Bytes, Descriptor, JwsEnvelope}
use notation_go.Signing.Library.{SigningMethod, Library}
use notation_go.Signing.Signer.{SignOptions, pack_payload, jwt_token, parse_cert_chain}
use notation_go.Signing.Builtin.{BuiltinPlugin}

-- What signing relies on: the claims are valid and can be written, the method signs them, its
-- signature is read back and verifies under the leaf, which is fit for code signing.
pub record CanSign (lib : Library) (r : BuiltinPlugin) (desc : Descriptor) (opts : SignOptions)
    (now : ℕ) : Type 0 where
  pub valid : lib.claims_valid (pack_payload lib desc opts now) ≡ true
  pub protected : String
  pub payload : String
  pub written :
      lib.signing_string
        (jwt_token (jws (signature_algorithm r.key_spec)) (pack_payload lib desc opts now))
      ≡ some (join dot (protected ∷ payload ∷ []))
  pub method : SigningMethod
  pub registered : lib.get_signing_method (jws (signature_algorithm r.key_spec)) ≡ some method
  pub signature : String
  pub signed : method.sign (join dot (protected ∷ payload ∷ [])) ≡ some signature
  pub decoded : Bytes
  pub decodes : lib.decode_base64 signature ≡ some decoded
  pub encodes : lib.encode_base64 decoded ≡ signature
  pub leaf : Certificate
  pub rest : List Certificate
  pub chain : parse_cert_chain lib r.cert_chain ≡ ok (leaf ∷ rest)
  pub verifies :
      method.verify (join dot (protected ∷ payload ∷ [])) signature leaf.public_key ≡ true
  pub usable : verify_cert_ext_key_usage leaf code_signing ≡ ok tt
  pub dotless_protected : split (code dot) protected ≡ protected ∷ []
  pub dotless_payload : split (code dot) payload ≡ payload ∷ []
  pub dotless_signature : split (code dot) signature ≡ signature ∷ []
  pub no_tsa : opts.tsa ≡ none
  pub written_envelope : (envelope : JwsEnvelope) → lib.marshal_envelope envelope ≢ none

pub str_eq_refl : (s : String) → str_eq s s ≡ true
str_eq_refl s = (eq_iff s s).1 refl

pub not_empty : (s : String) → s ≢ "" → str_eq s "" ≡ false
not_empty s n = elim (Bool-cases (str_eq s "")) [
  | inl y ↦ absurd (n ((eq_iff s "").0 y))
  | inr other ↦ other
]

pub jws_names-ne-empty : (s : String) → IsElem s jws_names → s ≢ ""
jws_names-ne-empty s (inl e) = λ z. cc (e ∙ z)
jws_names-ne-empty s (inr (inl e)) = λ z. cc (e ∙ z)
jws_names-ne-empty s (inr (inr (inl e))) = λ z. cc (e ∙ z)
jws_names-ne-empty s (inr (inr (inr (inl e)))) = λ z. cc (e ∙ z)
jws_names-ne-empty s (inr (inr (inr (inr (inl e))))) = λ z. cc (e ∙ z)
jws_names-ne-empty s (inr (inr (inr (inr (inr (inl e)))))) = λ z. cc (e ∙ z)
jws_names-ne-empty s (inr (inr (inr (inr (inr (inr e)))))) = elim e [ ]

pub length-parse_cert_chain :
    (lib : Library) (chain : List Bytes) (leaf : Certificate) (rest : List Certificate)
    → parse_cert_chain lib chain ≡ ok (leaf ∷ rest)
    → (length chain == 0) ≡ false
unfolding parse_cert_chain
length-parse_cert_chain lib [] leaf rest h = absurd (cc h)
length-parse_cert_chain lib (c ∷ chain) leaf rest h = ground arith
