-- ===== src/Signing/Algorithms/Laws.antt =====
-- The tables fit together.
use notation_go.Prelude.{
  String, ◌≡◌, ◌≢◌, refl, ◌↔◌, ◌⊎◌, inl, inr, sym, ◌∙◌, List, [], ◌∷◌, ok, eq_iff, arith, All,
  IsElem, Bool-cases,
}
use notation_go.Verification.Names.{is_present}
use notation_go.Verification.Names.Laws.{is_present_iff}
use notation_go.Signing.Algorithms.{
  rsa_2048, rsa_3072, rsa_4096, ec_256, ec_384, ec_512, rsassa_pss_sha_256, rsassa_pss_sha_384,
  rsassa_pss_sha_512, ecdsa_sha_256, ecdsa_sha_384, ecdsa_sha_512, signature_algorithm, hash, jws,
  new_signature_algorithm_jws, PublicKey, rsa, ecdsa, other_key, key_spec_from_key,
}

abbrev pub key_specs : List String
key_specs = rsa_2048 ∷ rsa_3072 ∷ rsa_4096 ∷ ec_256 ∷ ec_384 ∷ ec_512 ∷ []

abbrev pub algorithms : List String
algorithms =
    rsassa_pss_sha_256 ∷ rsassa_pss_sha_384 ∷ rsassa_pss_sha_512 ∷ ecdsa_sha_256 ∷ ecdsa_sha_384
    ∷ ecdsa_sha_512 ∷ []

abbrev pub jws_names : List String
jws_names = "PS256" ∷ "PS384" ∷ "PS512" ∷ "ES256" ∷ "ES384" ∷ "ES512" ∷ []

IsElem-cases : (s : String) (l : List String) → IsElem s l ⊎ (¬ IsElem s l)
IsElem-cases s l = elim (Bool-cases (is_present s l)) [
  | inl h ↦ inl ((is_present_iff s l).0 h)
  | inr h ↦ inr (λ m. cc ((is_present_iff s l).1 m))
]

all-IsElem : (P : String → Type 0) (l : List String) → All P l → (s : String) → IsElem s l → P s
all-IsElem P [] h s m = absurd m
all-IsElem P (x ∷ l) (p, h) s (inl e) = rw (← e) p
all-IsElem P (x ∷ l) (p, h) s (inr m) = all-IsElem P l h s m

abbrev IsJws : String → Type 0
IsJws s = (jws s ≢ "") × (new_signature_algorithm_jws (jws s) ≡ s)

IsJws-known : (s : String) → IsElem s algorithms → IsJws s
unfolding jws new_signature_algorithm_jws
IsJws-known = all-IsElem IsJws algorithms (
  ((λ z. cc), refl),
  (
    ((λ z. cc), refl),
    (((λ z. cc), refl), (((λ z. cc), refl), (((λ z. cc), refl), (((λ z. cc), refl), tt)))),
  ),
)

abbrev IsNamed : String → Type 0
IsNamed a = (new_signature_algorithm_jws a ≢ "") × (jws (new_signature_algorithm_jws a) ≡ a)

IsNamed-known : (a : String) → IsElem a jws_names → IsNamed a
unfolding jws new_signature_algorithm_jws
IsNamed-known = all-IsElem IsNamed jws_names (
  ((λ z. cc), refl),
  (
    ((λ z. cc), refl),
    (((λ z. cc), refl), (((λ z. cc), refl), (((λ z. cc), refl), (((λ z. cc), refl), tt)))),
  ),
)

jws-unknown : (s : String) → (¬ IsElem s algorithms) → jws s ≡ ""
unfolding jws
jws-unknown s h = ground (
  arith,
  h,
  eq_iff s rsassa_pss_sha_256,
  eq_iff s rsassa_pss_sha_384,
  eq_iff s rsassa_pss_sha_512,
  eq_iff s ecdsa_sha_256,
  eq_iff s ecdsa_sha_384,
  eq_iff s ecdsa_sha_512,
)

named-unknown : (a : String) → (¬ IsElem a jws_names) → new_signature_algorithm_jws a ≡ ""
unfolding new_signature_algorithm_jws
named-unknown a h = ground (
  arith,
  h,
  eq_iff a "PS256",
  eq_iff a "PS384",
  eq_iff a "PS512",
  eq_iff a "ES256",
  eq_iff a "ES384",
  eq_iff a "ES512",
)

jws→named : (s a : String) → jws s ≡ a → a ≢ "" → (new_signature_algorithm_jws a ≡ s) × (s ≢ "")
unfolding jws
jws→named s a e n = elim (IsElem-cases s algorithms) [
  | inl m ↦ (rw (← e) ((IsJws-known s m).1), λ z. n (sym e ∙ rw z refl))
  | inr m ↦ absurd (n (sym e ∙ jws-unknown s m))
]

named→jws : (s a : String) → new_signature_algorithm_jws a ≡ s → s ≢ "" → (jws s ≡ a) × (a ≢ "")
unfolding new_signature_algorithm_jws
named→jws s a e n = elim (IsElem-cases a jws_names) [
  | inl m ↦ (rw (← e) ((IsNamed-known a m).1), λ z. n (sym e ∙ rw z refl))
  | inr m ↦ absurd (n (sym e ∙ named-unknown a m))
]

-- `JWS` and `NewSignatureAlgorithmJWS` are inverse to each other, where neither text is empty.
pub jws-new_signature_algorithm_jws_iff :
    (s a : String) → ((jws s ≡ a) × (a ≢ "")) ↔ ((new_signature_algorithm_jws a ≡ s) × (s ≢ ""))
jws-new_signature_algorithm_jws_iff s a = (λ (e, n). jws→named s a e n, λ (e, n). named→jws s a e n)

abbrev IsWhole : String → Type 0
IsWhole k =
    IsElem (signature_algorithm k) algorithms
    × IsElem (jws (signature_algorithm k)) jws_names
    × (hash (signature_algorithm k) ≢ "")

IsWhole-known : (k : String) → IsElem k key_specs → IsWhole k
unfolding jws signature_algorithm hash
IsWhole-known = all-IsElem IsWhole key_specs (
  (inl refl, inl refl, (λ z. cc)),
  (
    (inr (inl refl), inr (inl refl), (λ z. cc)),
    (
      (inr (inr (inl refl)), inr (inr (inl refl)), (λ z. cc)),
      (
        (inr (inr (inr (inl refl))), inr (inr (inr (inl refl))), (λ z. cc)),
        (
          (inr (inr (inr (inr (inl refl)))), inr (inr (inr (inr (inl refl)))), (λ z. cc)),
          (
            (
              inr (inr (inr (inr (inr (inl refl))))),
              inr (inr (inr (inr (inr (inl refl))))),
              (λ z. cc),
            ),
            tt,
          ),
        ),
      ),
    ),
  ),
)

whole-unknown : (k : String) → (¬ IsElem k key_specs) → signature_algorithm k ≡ ""
unfolding signature_algorithm
whole-unknown k h = ground (
  arith,
  h,
  eq_iff k rsa_2048,
  eq_iff k rsa_3072,
  eq_iff k rsa_4096,
  eq_iff k ec_256,
  eq_iff k ec_384,
  eq_iff k ec_512,
)

-- A key spec whose algorithm is not empty has an algorithm of the six, with one of the six JWS names
-- and a hash: the test of `generateSignature` for the empty text is enough.
pub signature_algorithm-IsWhole :
    (k : String)
    → signature_algorithm k ≢ ""
    → IsElem (signature_algorithm k) algorithms
      × IsElem (jws (signature_algorithm k)) jws_names
      × (hash (signature_algorithm k) ≢ "")
signature_algorithm-IsWhole k n = elim (IsElem-cases k key_specs) [
  | inl m ↦ IsWhole-known k m
  | inr m ↦ absurd (n (whole-unknown k m))
]

-- A supported JWS name is one of the six.
pub new_signature_algorithm_jws-IsElem :
    (a : String) → new_signature_algorithm_jws a ≢ "" → IsElem a jws_names
new_signature_algorithm_jws-IsElem a n = elim (IsElem-cases a jws_names) [
  | inl m ↦ m
  | inr m ↦ absurd (n (named-unknown a m))
]

pub jws-IsElem : (s : String) → jws s ≢ "" → IsElem (jws s) jws_names
jws-IsElem s n =
    new_signature_algorithm_jws-IsElem (jws s)
      (λ z. ((jws→named s (jws s) refl n).1 (sym (jws→named s (jws s) refl n).0 ∙ z)))

key_spec-IsElem : (key : PublicKey) (k : String) → key_spec_from_key key ≡ ok k → IsElem k key_specs
unfolding key_spec_from_key
key_spec-IsElem (rsa n bits) k h = ground arith
key_spec-IsElem (ecdsa n) k h = ground arith
key_spec-IsElem other_key k h = cc

-- `keySpecFromKey` gives only key specs that have an algorithm.
pub key_spec_from_key-signature_algorithm :
    (key : PublicKey) (k : String)
    → key_spec_from_key key ≡ ok k
    → IsElem (signature_algorithm k) algorithms
key_spec_from_key-signature_algorithm key k h = (IsWhole-known k (key_spec-IsElem key k h)).0
