-- ===== src/Signing/Algorithms.antt =====
-- notation.go, jws.go and signature/jws/algorithm.go: the tables of key specs and algorithms. All of
-- them are texts in the source, and the empty text stands for none. The numbers of the standard
-- library's hashes are arguments.
pub mod Laws
use notation_go.Prelude.{ℕ, String, List, [], ◌∷◌, Outcome, ok, err, str_eq, ◌==◌, if◌then◌else◌}

abbrev pub rsa_2048 : String
rsa_2048 = "RSA_2048"

abbrev pub rsa_3072 : String
rsa_3072 = "RSA_3072"

abbrev pub rsa_4096 : String
rsa_4096 = "RSA_4096"

abbrev pub ec_256 : String
ec_256 = "EC_256"

abbrev pub ec_384 : String
ec_384 = "EC_384"

abbrev pub ec_512 : String
ec_512 = "EC_512"

abbrev pub rsassa_pss_sha_256 : String
rsassa_pss_sha_256 = "RSASSA_PSS_SHA_256"

abbrev pub rsassa_pss_sha_384 : String
rsassa_pss_sha_384 = "RSASSA_PSS_SHA_384"

abbrev pub rsassa_pss_sha_512 : String
rsassa_pss_sha_512 = "RSASSA_PSS_SHA_512"

abbrev pub ecdsa_sha_256 : String
ecdsa_sha_256 = "ECDSA_SHA_256"

abbrev pub ecdsa_sha_384 : String
ecdsa_sha_384 = "ECDSA_SHA_384"

abbrev pub ecdsa_sha_512 : String
ecdsa_sha_512 = "ECDSA_SHA_512"

-- `KeySpec.SignatureAlgorithm`
unfoldable pub signature_algorithm : String → String
signature_algorithm k =
    if str_eq k rsa_2048
    then rsassa_pss_sha_256
    else if str_eq k rsa_3072
    then rsassa_pss_sha_384
    else if str_eq k rsa_4096
    then rsassa_pss_sha_512
    else if str_eq k ec_256
    then ecdsa_sha_256
    else if str_eq k ec_384
    then ecdsa_sha_384
    else if str_eq k ec_512
    then ecdsa_sha_512
    else ""

-- `SignatureAlgorithm.Hash`
unfoldable pub hash : String → String
hash s =
    if str_eq s rsassa_pss_sha_256
    then "SHA_256"
    else if str_eq s ecdsa_sha_256
    then "SHA_256"
    else if str_eq s rsassa_pss_sha_384
    then "SHA_384"
    else if str_eq s ecdsa_sha_384
    then "SHA_384"
    else if str_eq s rsassa_pss_sha_512
    then "SHA_512"
    else if str_eq s ecdsa_sha_512
    then "SHA_512"
    else ""

-- `HashAlgorithm.HashFunc`
module _ (sha256 sha384 sha512 : ℕ) where
  unfoldable pub hash_func : String → ℕ
  hash_func h =
      if str_eq h "SHA_256"
      then sha256
      else if str_eq h "SHA_384"
      then sha384
      else if str_eq h "SHA_512"
      then sha512
      else 0

-- `SignatureAlgorithm.JWS`
unfoldable pub jws : String → String
jws s =
    if str_eq s rsassa_pss_sha_256
    then "PS256"
    else if str_eq s rsassa_pss_sha_384
    then "PS384"
    else if str_eq s rsassa_pss_sha_512
    then "PS512"
    else if str_eq s ecdsa_sha_256
    then "ES256"
    else if str_eq s ecdsa_sha_384
    then "ES384"
    else if str_eq s ecdsa_sha_512
    then "ES512"
    else ""

-- `NewSignatureAlgorithmJWS`
unfoldable pub new_signature_algorithm_jws : String → String
new_signature_algorithm_jws alg =
    if str_eq alg "PS256"
    then rsassa_pss_sha_256
    else if str_eq alg "PS384"
    then rsassa_pss_sha_384
    else if str_eq alg "PS512"
    then rsassa_pss_sha_512
    else if str_eq alg "ES256"
    then ecdsa_sha_256
    else if str_eq alg "ES384"
    then ecdsa_sha_384
    else if str_eq alg "ES512"
    then ecdsa_sha_512
    else ""

-- A public key: the size of an RSA modulus in bytes and in bits, or the bits of the order of a curve.
pub data PublicKey : Type 0 where
  rsa : ℕ → ℕ → PublicKey
  ecdsa : ℕ → PublicKey
  other_key : PublicKey

pub data KeyError : Type 0 where
  rsa_size : ℕ → KeyError
  ec_size : ℕ → KeyError
  unsupported_key : KeyError

-- `keySpecFromKey`, from the public key.
unfoldable pub key_spec_from_key : PublicKey → Outcome KeyError String
key_spec_from_key (rsa size bits) =
    if size == 256
    then ok rsa_2048
    else if size == 384
    then ok rsa_3072
    else if size == 512
    then ok rsa_4096
    else err (rsa_size size)
key_spec_from_key (ecdsa size) =
    if size == 256
    then ok ec_256
    else if size == 384
    then ok ec_384
    else if size == 521
    then ok ec_512
    else err (ec_size size)
key_spec_from_key other_key = err unsupported_key
