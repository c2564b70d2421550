-- ===== src/Plugins/Failures.antt =====
-- The errors of the signer that are not about the type of an answer, and the checks that return only
-- those.

use notation_go.Prelude.{
  String, Bool, true, false, not, Option, none, some, List, [], ◌∷◌, Outcome, ok, err, panic, ◌>>=◌,
  map_err, or_err, fail_if, str_eq, str_append, if◌then◌else◌, ◌≡◌, refl,
}
use notation_go.Signing.Messages.{Bytes, Descriptor, JwsEnvelope, JwsProtectedHeader, JwsPayload}
use notation_go.Signing.Algorithms.{new_signature_algorithm_jws}
use notation_go.Signing.Certificates.{Certificate, code_signing, verify_cert_ext_key_usage}
use notation_go.Signing.Library.{SigningMethod, Library}
use notation_go.Signing.Calls.{Call, follow}
use notation_go.Signing.Signer.{
  SignError, wrong_metadata_type, wrong_describe_key_type, wrong_signature_type,
  wrong_envelope_type, parse_cert_chain, first_cert, run_method, verify_jwt, check_leaf,
  check_envelope, bad_certificate, bad_usage, envelope_format, has_format, decode_base64_url_json,
  bad_header, bad_payload, unsupported_algorithm, subject_changed, descriptor_partial_equal,
}
use notation_go.Signing.Signer.Exchange.{envelope_of}

-- The error is not about the type of an answer.
abbrev pub IsOther : SignError → Type 0
IsOther wrong_metadata_type = ⊥
IsOther wrong_describe_key_type = ⊥
IsOther wrong_signature_type = ⊥
IsOther wrong_envelope_type = ⊥
IsOther _ = Unit

-- A failure is one of the others.
pub data Only {ℓ} {A : Type ℓ} : Outcome SignError A → Type ℓ where
  only_ok : {a : A} → Only (ok a)
  only_err : {e : SignError} → IsOther e → Only (err e)
  only_panic : Only panic

pub fail_if-Only : (b : Bool) (e : SignError) → IsOther e → Only (fail_if b e)
fail_if-Only true e i = only_err i
fail_if-Only false e i = only_ok

pub or_err-Only : {A : Type 0} (o : Option A) (e : SignError) → IsOther e → Only (or_err o e)
or_err-Only none e i = only_err i
or_err-Only (some a) e i = only_ok

pub map_err-Only :
    {E A : Type 0} (f : E → SignError) (m : Outcome E A)
    → ((e : E) → IsOther (f e))
    → Only (map_err f m)
map_err-Only f (ok a) i = only_ok
map_err-Only f (err e) i = only_err (i e)
map_err-Only f panic i = only_panic

pub >>=-Only :
    {A B : Type 0} (m : Outcome SignError A) (f : A → Outcome SignError B)
    → Only m
    → ((a : A) → Only (f a))
    → Only (m >>= f)
>>=-Only (ok a) f i k = k a
>>=-Only (err e) f (only_err i) k = only_err i
>>=-Only panic f i k = only_panic

pub follow-Only :
    {W A B : Type 0} (x : Outcome SignError A × W) (f : A → Call W SignError B)
    → Only x.0
    → ((a : A) → (w : W) → x ≡ (ok a, w) → Only (f a w).0)
    → Only (follow x f).0
unfolding follow
follow-Only (ok a, w) f i k = k a w refl
follow-Only (err e, w) f (only_err i) k = only_err i
follow-Only (panic, w) f i k = only_panic

pub if-Only :
    {W A : Type 0} (b : Bool) (m k : Call W SignError A) {w : W}
    → Only (m w).0
    → Only (k w).0
    → Only ((if b then m else k) w).0
if-Only true m k i j = i
if-Only false m k i j = j

pub parse_cert_chain-Only : (lib : Library) (chain : List Bytes) → Only (parse_cert_chain lib chain)
unfolding parse_cert_chain
parse_cert_chain-Only lib [] = only_ok
parse_cert_chain-Only lib (c ∷ chain) =
    >>=-Only (or_err (lib.parse_certificate c) bad_certificate) _ (or_err-Only _ _ tt) (λ cert.
      >>=-Only (parse_cert_chain lib chain) _ (parse_cert_chain-Only lib chain) (λ certs. only_ok))

pub first_cert-Only : (certs : List Certificate) → Only (first_cert certs)
unfolding first_cert
first_cert-Only [] = only_panic
first_cert-Only (c ∷ certs) = only_ok

pub run_method-Only :
    (o : Option SigningMethod) (payload sig : String) (cert : Certificate)
    → Only (run_method o payload sig cert)
unfolding run_method
run_method-Only none payload sig cert = only_panic
run_method-Only (some m) payload sig cert = fail_if-Only _ _ tt

pub check_leaf-Only :
    (lib : Library) (alg : String) (payload : Bytes) (sig : String) (chain : List Bytes)
    → Only (check_leaf lib alg payload sig chain)
unfolding check_leaf verify_jwt
check_leaf-Only lib alg payload sig chain =
    >>=-Only (parse_cert_chain lib chain) _ (parse_cert_chain-Only lib chain) (λ certs.
      >>=-Only (first_cert certs) _ (first_cert-Only certs) (λ leaf.
        >>=-Only (verify_jwt lib alg payload sig leaf) _
          (run_method-Only (lib.get_signing_method alg) payload sig leaf)
          (λ _.
            >>=-Only (map_err bad_usage (verify_cert_ext_key_usage leaf code_signing)) _
              (map_err-Only bad_usage _ (λ e. tt)) (λ _. only_ok))))

pub check_envelope-Only :
    (lib : Library) (desc : Descriptor) (content : Bytes) → Only (check_envelope lib desc content)
unfolding check_envelope
check_envelope-Only lib desc content =
    >>=-Only (or_err (lib.unmarshal_envelope content) envelope_format) _ (or_err-Only _ _ tt)
      (λ (e : JwsEnvelope).
        >>=-Only (fail_if (not (has_format e)) envelope_format) _ (fail_if-Only _ _ tt) (λ _.
          >>=-Only
            (or_err (decode_base64_url_json lib (lib.unmarshal_header) e.protected) bad_header) _
            (or_err-Only _ _ tt)
            (λ (protected : JwsProtectedHeader).
              >>=-Only
                (fail_if (str_eq (new_signature_algorithm_jws protected.algorithm) "")
                  (unsupported_algorithm protected.algorithm))
                _ (fail_if-Only _ _ tt)
                (λ _.
                  >>=-Only
                    (or_err (decode_base64_url_json lib (lib.unmarshal_payload) e.payload)
                      bad_payload)
                    _ (or_err-Only _ _ tt)
                    (λ (payload : JwsPayload).
                      >>=-Only
                        (fail_if (not (descriptor_partial_equal desc payload.subject))
                          subject_changed)
                        _ (fail_if-Only _ _ tt)
                        (λ _.
                          >>=-Only
                            (check_leaf lib protected.algorithm
                              (str_append e.protected (str_append "." e.payload)) e.signature
                              e.header.cert_chain)
                            _ (check_leaf-Only lib _ _ _ _) (λ _. only_ok)))))))

pub envelope_of-Only : (parts : List String) (chain : List Bytes) → Only (envelope_of parts chain)
unfolding envelope_of
envelope_of-Only (a ∷ b ∷ c ∷ []) chain = only_ok
envelope_of-Only [] chain = only_err tt
envelope_of-Only (a ∷ []) chain = only_err tt
envelope_of-Only (a ∷ b ∷ []) chain = only_err tt
envelope_of-Only (a ∷ b ∷ c ∷ d ∷ l) chain = only_err tt
