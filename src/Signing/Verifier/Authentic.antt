-- ===== src/Signing/Verifier/Authentic.antt =====
-- The verifier accepts only authentic envelopes.
use notation_go.Prelude.{
  String, Bool, true, false, not, Option, none, some, List, [], ◌∷◌, Outcome, ok, map_err, or_err,
  fail_if, str_eq, length, ◌==◌, join, dot, if◌then◌else◌, IsElem, ◌≡◌, ◌≢◌, ◌⊎◌, refl, sym, ap,
  subst, ◌∙◌, >>=-eq-ok, map_err-eq-ok, or_err-eq-ok, fail_if-eq-ok, eq_iff, split-join-eq,
}
use notation_go.Timestamp.Cms.Vouched.{not-eq-false}
use notation_go.Signing.Algorithms.{PublicKey, signature_algorithm, key_spec_from_key}
use notation_go.Signing.Certificates.{Certificate}
use notation_go.Signing.Messages.{Bytes, Descriptor, JwsEnvelope}
use notation_go.Signing.Library.{SigningMethod}
use notation_go.Signing.Timestamps.Stamped.{verify_timestamp-IsStamped}
use notation_go.Signing.Verifier.{
  CertVerdict, trusted, expired, untrusted, Verifier, ReadClaims, VerifyError, Packages, bad_key,
  bad_stamp, no_certificates, invalid_envelope, missing_iat, invalid_base64, unexpected_method,
  parse_certs, split_chain, options_of, check_timestamp, require_trusted, require_method, key_func,
  resolve, stamped_time, verify_stamped, verify_signer_from_cert_chain, verify_envelope_signer,
  verify_token_jwt, verify_envelope,
}
use notation_go.Signing.Verifier.Accepted.{
  trusted_now, trusted_then, IsParser, IsTrusted, IsAuthentic,
}

require_trusted-ok : (c : CertVerdict) → require_trusted c ≡ ok tt → c ≡ trusted
unfolding require_trusted
require_trusted-ok trusted h = refl
require_trusted-ok expired h = cc
require_trusted-ok untrusted h = cc

check_timestamp-false :
    (c : CertVerdict) (enforce : Bool)
    → check_timestamp c enforce ≡ ok false
    → (c ≡ trusted) × (enforce ≡ false)
unfolding check_timestamp
check_timestamp-false trusted enforce h = (refl, cc)
check_timestamp-false expired enforce h = absurd (cc h)
check_timestamp-false untrusted enforce h = absurd (cc h)

split_chain-ok :
    (certs : List Certificate) (leaf : Certificate) (rest : List Certificate)
    → split_chain certs ≡ ok (leaf, rest)
    → certs ≡ leaf ∷ rest
unfolding split_chain
split_chain-ok [] leaf rest h = cc
split_chain-ok (cert ∷ certs) leaf rest h = cc

module _ {A : Type 0} where
  result-inj : {a b : A} → ◌≡◌ {A = Outcome VerifyError A} (ok a) (ok b) → a ≡ b
  result-inj h = cc

module _ (p : Packages) (v : Verifier) where
  verify_stamped-ok :
      (envelope : JwsEnvelope) (leaf : Certificate) (rest : List Certificate)
      → verify_stamped p v leaf
          (options_of v rest)
          envelope.header.time_stamp_token
          envelope.signature
        ≡ ok tt
      → IsTrusted p v envelope leaf rest
  unfolding verify_stamped stamped_time
  verify_stamped-ok envelope leaf rest h =
      let (time, stamp, h₁) =
        >>=-eq-ok (stamped_time p v envelope.header.time_stamp_token envelope.signature) _ h in
      let (content, decoded, h₂) =
        >>=-eq-ok (or_err (p.library.decode_base64 envelope.signature) invalid_base64) _ stamp in
      trusted_then (or_err-eq-ok _ _ decoded)
        (verify_timestamp-IsStamped p.library.stamping content _ _ time
          (map_err-eq-ok bad_stamp _ h₂))
        (require_trusted-ok _ h₁)

  chain-ok :
      (envelope : JwsEnvelope) (leaf : Certificate) (rest : List Certificate) (stamp : Bool)
      → check_timestamp (p.verify_certificate leaf (options_of v rest)) v.enforce_expiry_validation
        ≡ ok stamp
      → (if stamp
          then verify_stamped p v leaf
              (options_of v rest)
              envelope.header.time_stamp_token
              envelope.signature
          else ok tt)
        ≡ ok tt
      → IsTrusted p v envelope leaf rest
  chain-ok envelope leaf rest true h k = verify_stamped-ok envelope leaf rest k
  chain-ok envelope leaf rest false h k =
      let (now, free) = check_timestamp-false _ v.enforce_expiry_validation h in
      trusted_now now free

  signer-ok :
      (envelope : JwsEnvelope) (key : PublicKey)
      → verify_envelope_signer p v envelope ≡ ok key
      → (leaf : Certificate) × (rest : List Certificate) × (parse_certs p.library
            envelope.header.cert_chain
          ≡ ok (leaf ∷ rest))
        × IsTrusted p v envelope leaf rest
        × (leaf.public_key ≡ key)
  unfolding verify_envelope_signer verify_signer_from_cert_chain
  signer-ok envelope key h =
      let chain = envelope.header.cert_chain in
      let (_, _, h₁) = >>=-eq-ok (fail_if (length chain == 0) no_certificates) _ h in
      let (certs, parsed, h₂) = >>=-eq-ok (parse_certs p.library chain) _ h₁ in
      let ((leaf, rest), parts, h₃) = >>=-eq-ok (split_chain certs) _ h₂ in
      let (stamp, checked, h₄) =
        >>=-eq-ok
          (check_timestamp (p.verify_certificate leaf (options_of v rest))
            v.enforce_expiry_validation)
          _ h₃ in
      let (_, stamped, h₅) =
        >>=-eq-ok
          (if stamp
            then verify_stamped p v leaf (options_of v rest) envelope.header.time_stamp_token
                envelope.signature
            else ok tt)
          _ h₄ in
      (
        leaf,
        rest,
        parsed ∙ ap ok (split_chain-ok certs leaf rest parts),
        chain-ok envelope leaf rest stamp checked stamped,
        result-inj h₅,
      )

  jwt-ok :
      (key : PublicKey) (desc : Descriptor) (token : String)
      → verify_token_jwt p v key token ≡ ok desc
      → (key_spec : String) × (method : Option SigningMethod) × (claims : ReadClaims)
        × (key_spec_from_key key ≡ ok key_spec)
        × (resolve p v (signature_algorithm key_spec) ≡ ok method)
        × (p.parse_with_claims v.valid_methods token (key_func method key) ≡ ok claims)
        × (claims.issued_at ≢ none)
        × (claims.subject ≡ desc)
  unfolding verify_token_jwt
  jwt-ok key desc token h =
      let (key_spec, found, h₁) = >>=-eq-ok (map_err bad_key (key_spec_from_key key)) _ h in
      let (method, resolved, h₂) = >>=-eq-ok (resolve p v (signature_algorithm key_spec)) _ h₁ in
      let (claims, parsed, h₃) =
        >>=-eq-ok (p.parse_with_claims v.valid_methods token (key_func method key)) _ h₂ in
      let (issued, present, h₄) = >>=-eq-ok (or_err (claims.issued_at) missing_iat) _ h₃ in
      let issued_at = or_err-eq-ok (claims.issued_at) missing_iat present in
      (
        key_spec,
        method,
        claims,
        map_err-eq-ok bad_key _ found,
        resolved,
        parsed,
        (λ z. absurd (cc (sym z ∙ issued_at))),
        result-inj h₄,
      )

key_func-ok :
    (o : Option SigningMethod) (key : PublicKey) (alg : String) (method : SigningMethod)
    (key' : PublicKey)
    → key_func o key alg ≡ ok (method, key')
    → (o ≡ some method) × (method.alg ≡ alg) × (key ≡ key')
unfolding key_func require_method
key_func-ok none key alg method key' h = absurd (cc h)
key_func-ok (some m) key alg method key' h =
    let (_, same, h₁) =
      >>=-eq-ok (fail_if (not (str_eq alg m.alg)) (unexpected_method alg m.alg)) _ h in
    let pair = result-inj h₁ in
    let known = (eq_iff alg m.alg).0 (not-eq-false _ (fail_if-eq-ok _ _ same)) in
    (ap some (ap (λ x. x.0) pair), sym (ap (λ x. x.0.alg) pair) ∙ sym known, ap (λ x. x.1) pair)

parts-inj :
    {a b c x y z : String}
    → ◌≡◌ {A = List String} (a ∷ b ∷ c ∷ []) (x ∷ y ∷ z ∷ [])
    → (x ≡ a) × (y ≡ b) × (z ≡ c)
parts-inj h = (cc, cc, cc)

same_verdict :
    (m : SigningMethod) {h h' c c' s s' : String} {k k' : PublicKey}
    → h' ≡ h
    → c' ≡ c
    → s' ≡ s
    → k' ≡ k
    → m.verify (join dot (h' ∷ c' ∷ [])) s' k' ≡ true
    → m.verify (join dot (h ∷ c ∷ [])) s k ≡ true
same_verdict m eh ec es ek verified = rw (eh, ec, es, ek) at verified

-- With a JWT parser that accepts only signed tokens, Verify returns the descriptor of an envelope only
-- if the certificate chain is trusted at present (and expiry validation is not enforced), or at the
-- time of a verified time stamp of the signature whose accuracy is at most a minute as it is computed; the signature
-- verifies under the key of the leaf with the method for that key, over the header and the payload of
-- the envelope; and the payload has an issue time and the descriptor.
pub verify_envelope-IsAuthentic :
    (unmarshal_claims : String → Option ReadClaims) (p : Packages) (v : Verifier) (sig : Bytes)
    (desc : Descriptor)
    → IsParser unmarshal_claims p
    → verify_envelope p v sig ≡ ok desc
    → IsAuthentic unmarshal_claims p v sig desc
unfolding verify_envelope
verify_envelope-IsAuthentic unmarshal_claims p v sig desc parser h =
    let (envelope, opened, h₁) =
      >>=-eq-ok (or_err (p.library.unmarshal_envelope sig) invalid_envelope) _ h in
    let (key, signer, h₂) = >>=-eq-ok (verify_envelope_signer p v envelope) _ h₁ in
    let (leaf, rest, parsed, chain_trusted, leaf_key) = signer-ok p v envelope key signer in
    let token = join dot (envelope.protected ∷ envelope.payload ∷ envelope.signature ∷ []) in
    let (key_spec, o, claims, found, resolved, accepted, issued, subject) =
      jwt-ok p v key desc token h₂ in
    let a = parser v.valid_methods token (key_func o key) claims accepted in
    let (is_some, alg, same_key) = key_func-ok o key a.alg a.method a.key a.chosen in
    let (hx, hy, hz) = parts-inj (sym (split-join-eq dot _ _ _ (ap length a.parts)) ∙ a.parts) in
    record {
      envelope = envelope;
      opened = or_err-eq-ok _ _ opened;
      leaf = leaf;
      rest = rest;
      parsed = parsed;
      chain_trusted = chain_trusted;
      key_spec = key_spec;
      spec_found = ap key_spec_from_key leaf_key ∙ found;
      method = a.method;
      resolved = resolved ∙ ap ok is_some;
      valid = subst (λ x. (v.valid_methods ≡ []) ⊎ IsElem x v.valid_methods) (sym alg) a.valid;
      verified = same_verdict a.method hx hy hz (sym (leaf_key ∙ same_key)) a.verified;
      claims = claims;
      read = ap unmarshal_claims (sym hy) ∙ a.read;
      has_issue_time = issued;
      subject_is = subject;
    }
