-- ===== src/Verification/Store.antt =====
-- verification/store.go: a trust store is a directory of certificate files.
pub mod Loaded
use notation_go.Prelude.{
  ℕ, String, Bool, true, false, not, ◌||◌, Option, none, some, List, [], ◌∷◌, ◌++◌, Outcome, ok,
  err, ◌>>=◌, ◌>>◌, or_err, fail_if, length, ltb,
}

-- The bits of a mode that are tested; a pipe or a device passes for a file, as in the source.
pub record FileMode : Type 0 where
  pub is_dir : Bool
  pub is_symlink : Bool

pub record StoreEntry : Type 0 where
  pub name : String
  pub mode : FileMode

-- What is read of a certificate.
pub record StoreCertificate : Type 0 where
  pub subject : String
  pub is_ca : Bool

-- The functions of os, path/filepath and notation-core-go.
pub record Disk : Type 0 where
  pub is_missing : String → Bool
  pub lstat : String → Option FileMode
  pub read_dir : String → Option (List StoreEntry)
  pub join_path : String → String → String
  pub base_name : String → String
  pub read_certificate_file : String → Option (List StoreCertificate)

pub record X509TrustStore : Type 0 where
  pub name : String
  pub path : String
  pub certificates : List StoreCertificate

pub data StoreError : Type 0 where
  does_not_exist not_regular_directory not_regular_file unreadable no_certificate :
      String → StoreError
  lstat_failed read_dir_failed no_certificates : String → StoreError
  not_ca : String → String → StoreError

-- The loop over the certificates of a file.
unfoldable pub check_cas : String → List StoreCertificate → Outcome StoreError (Unit {0})
check_cas path [] = ok tt
check_cas path (cert ∷ certs) =
    fail_if (not cert.is_ca) (not_ca cert.subject path) >> check_cas path certs

module _ (disk : Disk) where
  -- What a file of the directory adds.
  unfoldable pub load_file : String → StoreEntry → Outcome StoreError (List StoreCertificate)
  unfolding check_cas
  load_file joined_path file = do
    fail_if (file.mode.is_dir || file.mode.is_symlink) (not_regular_file joined_path)
    certs ← or_err (disk.read_certificate_file joined_path) (unreadable joined_path)
    fail_if (ltb (length certs) 1) (no_certificate joined_path)
    check_cas joined_path certs
    ok certs

  -- The loop over the files, with the certificates so far.
  unfoldable pub load_files :
      String → List StoreCertificate → List StoreEntry → Outcome StoreError (List StoreCertificate)
  unfolding load_file
  load_files path loaded [] = ok loaded
  load_files path loaded (file ∷ files) = do
    certs ← load_file (disk.join_path path file.name) file
    load_files path (loaded ++ certs) files

  -- `LoadX509TrustStore`
  unfoldable pub load_x509_trust_store : String → Outcome StoreError X509TrustStore
  unfolding load_files
  load_x509_trust_store path = do
    fail_if (disk.is_missing path) (does_not_exist path)
    mode ← or_err (disk.lstat path) (lstat_failed path)
    fail_if (not mode.is_dir || mode.is_symlink) (not_regular_directory path)
    files ← or_err (disk.read_dir path) (read_dir_failed path)
    certs ← load_files path [] files
    fail_if (ltb (length certs) 1) (no_certificates path)
    ok (record { name = disk.base_name path; path = path; certificates = certs })
