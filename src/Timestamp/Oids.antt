-- ===== src/Timestamp/Oids.antt =====
-- internal/crypto/oid, internal/crypto/hashutil, and the choice of a signature algorithm in
-- internal/crypto/cms/signed.go.
use notation_go.Prelude.{
  ℕ, Bool, Option, none, some, List, [], ◌∷◌, Outcome, panic, or_err, if◌then◌else◌,
}
use notation_go.Signing.Certificates.{oid_equal}
use notation_go.Signing.Messages.{Bytes}

abbrev pub Oid : Type 0
Oid = List ℕ

abbrev pub sha1 : Oid
sha1 = 1 ∷ 3 ∷ 14 ∷ 3 ∷ 2 ∷ 26 ∷ []

abbrev pub sha256 : Oid
sha256 = 2 ∷ 16 ∷ 840 ∷ 1 ∷ 101 ∷ 3 ∷ 4 ∷ 2 ∷ 1 ∷ []

abbrev pub sha384 : Oid
sha384 = 2 ∷ 16 ∷ 840 ∷ 1 ∷ 101 ∷ 3 ∷ 4 ∷ 2 ∷ 2 ∷ []

abbrev pub sha512 : Oid
sha512 = 2 ∷ 16 ∷ 840 ∷ 1 ∷ 101 ∷ 3 ∷ 4 ∷ 2 ∷ 3 ∷ []

abbrev pub rsa_encryption : Oid
rsa_encryption = 1 ∷ 2 ∷ 840 ∷ 113549 ∷ 1 ∷ 1 ∷ 1 ∷ []

abbrev sha1_with_rsa_oid : Oid
sha1_with_rsa_oid = 1 ∷ 2 ∷ 840 ∷ 113549 ∷ 1 ∷ 1 ∷ 5 ∷ []

abbrev sha256_with_rsa_oid : Oid
sha256_with_rsa_oid = 1 ∷ 2 ∷ 840 ∷ 113549 ∷ 1 ∷ 1 ∷ 11 ∷ []

abbrev sha384_with_rsa_oid : Oid
sha384_with_rsa_oid = 1 ∷ 2 ∷ 840 ∷ 113549 ∷ 1 ∷ 1 ∷ 12 ∷ []

abbrev sha512_with_rsa_oid : Oid
sha512_with_rsa_oid = 1 ∷ 2 ∷ 840 ∷ 113549 ∷ 1 ∷ 1 ∷ 13 ∷ []

abbrev ecdsa_with_sha1_oid : Oid
ecdsa_with_sha1_oid = 1 ∷ 2 ∷ 840 ∷ 10045 ∷ 4 ∷ 1 ∷ []

abbrev ecdsa_with_sha256_oid : Oid
ecdsa_with_sha256_oid = 1 ∷ 2 ∷ 840 ∷ 10045 ∷ 4 ∷ 3 ∷ 2 ∷ []

abbrev ecdsa_with_sha384_oid : Oid
ecdsa_with_sha384_oid = 1 ∷ 2 ∷ 840 ∷ 10045 ∷ 4 ∷ 3 ∷ 3 ∷ []

abbrev ecdsa_with_sha512_oid : Oid
ecdsa_with_sha512_oid = 1 ∷ 2 ∷ 840 ∷ 10045 ∷ 4 ∷ 3 ∷ 4 ∷ []

abbrev pub signed_data_oid : Oid
signed_data_oid = 1 ∷ 2 ∷ 840 ∷ 113549 ∷ 1 ∷ 7 ∷ 2 ∷ []

abbrev pub content_type_oid : Oid
content_type_oid = 1 ∷ 2 ∷ 840 ∷ 113549 ∷ 1 ∷ 9 ∷ 3 ∷ []

abbrev pub message_digest_oid : Oid
message_digest_oid = 1 ∷ 2 ∷ 840 ∷ 113549 ∷ 1 ∷ 9 ∷ 4 ∷ []

abbrev pub signing_time_oid : Oid
signing_time_oid = 1 ∷ 2 ∷ 840 ∷ 113549 ∷ 1 ∷ 9 ∷ 5 ∷ []

abbrev pub tst_info_oid : Oid
tst_info_oid = 1 ∷ 2 ∷ 840 ∷ 113549 ∷ 1 ∷ 9 ∷ 16 ∷ 1 ∷ 4 ∷ []

-- The hashes of `crypto.Hash` that the program uses.
pub data Hash : Type 0 where
  sha_1 sha_256 sha_384 sha_512 : Hash

-- What the program uses of the hashes: whether one is linked, and what `Write` and `Sum` give.
pub record Hashes : Type 0 where
  pub available : Hash → Bool
  pub digest : Hash → Bytes → Option Bytes

-- The switch of `ConvertToHash`
unfoldable pub hash_of : Oid → Option Hash
unfolding oid_equal
hash_of alg =
    if oid_equal sha1 alg
    then some sha_1
    else if oid_equal sha256 alg
    then some sha_256
    else if oid_equal sha384 alg
    then some sha_384
    else if oid_equal sha512 alg
    then some sha_512
    else none

-- `ConvertToHash`; `none` stands for `false`.
unfoldable pub convert_to_hash : Hashes → Oid → Option Hash
unfolding hash_of
convert_to_hash hashes alg = elim (hash_of alg) [
  | none ↦ none
  | some hash ↦ if hashes.available hash then some hash else none
]

-- `ComputeHash`; `New` panics for a hash that is not linked.
unfoldable pub compute_hash {ℓ} : {E : Type ℓ} → Hashes → Hash → Bytes → E → Outcome E Bytes
compute_hash hashes hash message failed =
    if hashes.available hash then or_err (hashes.digest hash message) failed else panic

-- The algorithms of x509 that are chosen from.
pub data X509Algorithm : Type 0 where
  sha1_with_rsa sha256_with_rsa sha384_with_rsa sha512_with_rsa : X509Algorithm
  ecdsa_with_sha1 ecdsa_with_sha256 ecdsa_with_sha384 ecdsa_with_sha512 : X509Algorithm

-- The inner switch, on the digest.
unfoldable pub rsa_with : Oid → Option X509Algorithm
unfolding oid_equal
rsa_with digest_alg =
    if oid_equal sha1 digest_alg
    then some sha1_with_rsa
    else if oid_equal sha256 digest_alg
    then some sha256_with_rsa
    else if oid_equal sha384 digest_alg
    then some sha384_with_rsa
    else if oid_equal sha512 digest_alg
    then some sha512_with_rsa
    else none

-- `getSignatureAlgorithmFromOID`; `none` stands for the unknown algorithm.
unfoldable pub get_signature_algorithm_from_oid : Oid → Oid → Option X509Algorithm
unfolding oid_equal rsa_with
get_signature_algorithm_from_oid digest_alg sig_alg =
    if oid_equal rsa_encryption sig_alg
    then rsa_with digest_alg
    else if oid_equal sha1_with_rsa_oid sig_alg
    then some sha1_with_rsa
    else if oid_equal sha256_with_rsa_oid sig_alg
    then some sha256_with_rsa
    else if oid_equal sha384_with_rsa_oid sig_alg
    then some sha384_with_rsa
    else if oid_equal sha512_with_rsa_oid sig_alg
    then some sha512_with_rsa
    else if oid_equal ecdsa_with_sha1_oid sig_alg
    then some ecdsa_with_sha1
    else if oid_equal ecdsa_with_sha256_oid sig_alg
    then some ecdsa_with_sha256
    else if oid_equal ecdsa_with_sha384_oid sig_alg
    then some ecdsa_with_sha384
    else if oid_equal ecdsa_with_sha512_oid sig_alg
    then some ecdsa_with_sha512
    else none
