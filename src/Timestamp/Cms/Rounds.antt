-- ===== src/Timestamp/Cms/Rounds.antt =====
-- The loop over the signers: what it keeps in its map, and its last error.
use notation_go.Prelude.{
  String, true, Option, none, some, List, [], ◌∷◌, Outcome, ok, err, All, Any, ◌≡◌, ◌≢◌, inl, inr,
  refl, arith, eq_iff, >>=-eq-ok, sym, subst, ◌⊎◌, Outcome-cases,
}
use notation_go.Signing.Messages.{Bytes}
use notation_go.Timestamp.Oids.{sha_256, compute_hash}
use notation_go.Timestamp.Cms.{
  SignerCertificate, VerifyOptions, SignerInfo, ParsedSignedData, CmsError, compute_hash_failed,
  Asn1, verify_signer,
}
use notation_go.Timestamp.Cms.Signers.{SignerMap, store, verify_signers}

-- Every signer fails, the last one with this error.
pub data IsRejected (lib : Asn1) (d : ParsedSignedData) (opts : VerifyOptions SignerCertificate)
    : List SignerInfo → CmsError → Type 0 where
  only :
      {s : SignerInfo} {e : CmsError}
      → verify_signer lib d opts s ≡ err e
      → IsRejected lib d opts (s ∷ []) e
  next :
      {s : SignerInfo} {ss : List SignerInfo} {e e' : CmsError}
      → verify_signer lib d opts s ≡ err e'
      → IsRejected lib d opts ss e
      → IsRejected lib d opts (s ∷ ss) e

pub store-All :
    (P : SignerCertificate → Type 0) (key : String) (cert : SignerCertificate) (m : SignerMap)
    → P cert
    → All (λ kc. P kc.1) m
    → All (λ kc. P kc.1) (store key cert m)
unfolding store
store-All P key cert [] p ps = (p, tt)
store-All P key cert ((k, c) ∷ m) p ps = ground (arith, eq_iff key k, store-All P key cert m p ps.1)

pub store-ne-nil : (key : String) (cert : SignerCertificate) (m : SignerMap) → store key cert m ≢ []
unfolding store
store-ne-nil key cert [] = λ z. cc z
store-ne-nil key cert ((k, c) ∷ m) = λ z. ground arith

-- The hash of the keys of the map is there.
pub record HasSha256 (lib : Asn1) : Type 0 where
  pub linked : lib.hashes.available sha_256 ≡ true
  pub computed : (message : Bytes) → lib.hashes.digest sha_256 message ≢ none

pub loop-eq :
    {m m' : SignerMap} {last last' : Option CmsError}
    → ◌≡◌ {A = Outcome CmsError (SignerMap × Option CmsError)} (ok (m, last)) (ok (m', last'))
    → (m ≡ m') × (last ≡ last')
loop-eq h = (cc, cc)

pub compute_hash-ne-err :
    (lib : Asn1) (message : Bytes) (e : CmsError)
    → HasSha256 lib
    → compute_hash lib.hashes sha_256 message compute_hash_failed ≢ err e
unfolding compute_hash
compute_hash-ne-err lib message e good = λ h. good.computed message (ground (arith, good.linked))

module _ (lib : Asn1) (d : ParsedSignedData) (opts : VerifyOptions SignerCertificate) where
  -- Induction over the signers, for a predicate that holds of what each of them gives.
  pub verify_signers-All :
      (P : SignerCertificate → Type 0) (ss : List SignerInfo)
      → ((s : SignerInfo)
          → (cert : SignerCertificate) → Any (λ t. t ≡ s) ss
          → verify_signer lib d opts s ≡ ok cert
          → P cert)
      → (m : SignerMap) → (last : Option CmsError) → (m' : SignerMap) → (last' : Option CmsError)
      → All (λ kc. P kc.1) m
      → verify_signers lib d opts ss m last ≡ ok (m', last')
      → All (λ kc. P kc.1) m'
  unfolding verify_signers
  verify_signers-All P [] each m last m' last' ps h =
      subst (λ l. All (λ kc. P kc.1) l) (loop-eq h).0 ps
  verify_signers-All P (s ∷ ss) each m last m' last' ps h =
      elim (Outcome-cases (verify_signer lib d opts s)) [
        | inl (cert, y) ↦
            let (thumbprint, _, h₁) =
              >>=-eq-ok (compute_hash lib.hashes sha_256 cert.raw compute_hash_failed) _
                (rw (verify_signers, y) at h) in
            verify_signers-All P ss (λ t c i. each t c (inr i)) _ last m' last'
              (store-All P _ cert m (each s cert (inl refl) y) ps) h₁
        | inr (inl (e, y)) ↦
            verify_signers-All P ss (λ t c i. each t c (inr i)) m (some e) m' last' ps
              (rw (verify_signers, y) at h)
        | inr (inr y) ↦ cc (rw (verify_signers, y) at h)
      ]

  -- An empty map at the end is left by signers that all fail.
  pub verify_signers-nil :
      (ss : List SignerInfo) (m : SignerMap) (last last' : Option CmsError)
      → verify_signers lib d opts ss m last ≡ ok ([], last')
      → (m ≡ [])
        × (((ss ≡ []) × (last ≡ last'))
            ⊎ ((e : CmsError) × (last' ≡ some e) × IsRejected lib d opts ss e))
  unfolding verify_signers
  verify_signers-nil [] m last last' h = ((loop-eq h).0, inl (refl, (loop-eq h).1))
  verify_signers-nil (s ∷ ss) m last last' h = elim (Outcome-cases (verify_signer lib d opts s)) [
    | inl (cert, y) ↦
        let (thumbprint, _, h₁) =
          >>=-eq-ok (compute_hash lib.hashes sha_256 cert.raw compute_hash_failed) _
            (rw (verify_signers, y) at h) in
        absurd (store-ne-nil _ cert m (verify_signers-nil ss _ last last' h₁).0)
    | inr (inl (e, y)) ↦
        let (empty, rest) = verify_signers-nil ss m (some e) last' (rw (verify_signers, y) at h) in
        (
          empty,
          inr (elim rest [
            | inl (none_left, same) ↦
                (e, sym same, subst (λ l. IsRejected lib d opts (s ∷ l) e) (sym none_left) (only y))
            | inr (e', same, rejected) ↦ (e', same, next y rejected)
          ]),
        )
    | inr (inr y) ↦ absurd (cc (rw (verify_signers, y) at h))
  ]

  pub verify_signers-IsRejected :
      (ss : List SignerInfo) (m : SignerMap) (last : Option CmsError) (e : CmsError)
      → IsRejected lib d opts ss e
      → verify_signers lib d opts ss m last ≡ ok (m, some e)
  unfolding verify_signers
  verify_signers-IsRejected [] m last e r = elim r [ ]
  verify_signers-IsRejected (s ∷ []) m last e (only y) = rw (verify_signers, y, verify_signers)
  verify_signers-IsRejected (s ∷ ss) m last e (next {e' = e'} y r) =
      rw (verify_signers, y) (verify_signers-IsRejected ss m (some e') e r)

  pub verify_signers-ne-err :
      HasSha256 lib
      → (ss : List SignerInfo) → (m : SignerMap) → (last : Option CmsError) → (e : CmsError)
      → verify_signers lib d opts ss m last ≢ err e
  unfolding verify_signers
  verify_signers-ne-err good [] m last e = λ h. cc h
  verify_signers-ne-err good (s ∷ ss) m last e = λ h.
      elim (Outcome-cases (verify_signer lib d opts s)) [
        | inl (cert, y) ↦
            elim (Outcome-cases (compute_hash lib.hashes sha_256 cert.raw compute_hash_failed)) [
              | inl (t, z) ↦
                  verify_signers-ne-err good ss (store (lib.encode_hex t) cert m) last e
                    (rw (verify_signers, y, z) at h)
              | inr (inl (e', z)) ↦ compute_hash-ne-err lib cert.raw e' good z
              | inr (inr z) ↦ cc (rw (verify_signers, y, z) at h)
            ]
        | inr (inl (e', y)) ↦
            verify_signers-ne-err good ss m (some e') e (rw (verify_signers, y) at h)
        | inr (inr y) ↦ cc (rw (verify_signers, y) at h)
      ]
