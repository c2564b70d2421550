-- ===== src/Verification/Store/Loaded.antt =====
-- What a trust store holds once it is loaded.
use notation_go.Prelude.{
  String, true, false, not, ◌||◌, some, List, [], ◌∷◌, ◌++◌, Outcome, ok, or_err, fail_if, length,
  ltb, All, ◌≡◌, ◌≢◌, ◌↔◌, refl, sym, ap, subst, ◌∙◌, append-nil, append_assoc, >>=-eq-ok,
  or_err-eq-ok, fail_if-eq-ok, arith,
}
use notation_go.Verification.Store.{
  StoreEntry, StoreCertificate, FileMode, Disk, X509TrustStore, StoreError, check_cas, load_file,
  load_files, load_x509_trust_store, not_regular_file, unreadable, no_certificate, does_not_exist,
  lstat_failed, not_regular_directory, read_dir_failed, no_certificates,
}

certs-inj :
    {a b : List StoreCertificate}
    → ◌≡◌ {A = Outcome StoreError (List StoreCertificate)} (ok a) (ok b)
    → a ≡ b
certs-inj h = cc

store-inj :
    {a b : X509TrustStore} → ◌≡◌ {A = Outcome StoreError X509TrustStore} (ok a) (ok b) → a ≡ b
store-inj h = cc

length-some : (certs : List StoreCertificate) → certs ≢ [] → ltb (length certs) 1 ≡ false
length-some [] n = absurd (n refl)
length-some (c ∷ certs) n = ground arith

module _ (disk : Disk) (path : String) where
  -- A regular file, with at least one certificate, and only of authorities.
  pub record IsCaFile (file : StoreEntry) (certs : List StoreCertificate) : Type 0 where
    pub not_dir : file.mode.is_dir ≡ false
    pub not_symlink : file.mode.is_symlink ≡ false
    pub read : disk.read_certificate_file (disk.join_path path file.name) ≡ some certs
    pub some_certs : certs ≢ []
    pub cas : All (λ cert. cert.is_ca ≡ true) certs

  -- The certificates of the files, in their order.
  pub data IsLoaded : List StoreEntry → List StoreCertificate → Type 0 where
    no_file : IsLoaded [] []
    next_file :
        {file : StoreEntry} {files : List StoreEntry} {certs rest : List StoreCertificate}
        → IsCaFile file certs
        → IsLoaded files rest
        → IsLoaded (file ∷ files) (certs ++ rest)

  check_cas_iff :
      (p : String) (certs : List StoreCertificate)
      → (check_cas p certs ≡ ok tt) ↔ All (λ cert. cert.is_ca ≡ true) certs
  unfolding check_cas
  check_cas_iff p [] = (λ _. tt, λ _. refl)
  check_cas_iff p (c ∷ certs) = ground (arith, check_cas_iff p certs)

  load_file-IsCaFile :
      (file : StoreEntry) (certs : List StoreCertificate)
      → load_file disk (disk.join_path path file.name) file ≡ ok certs
      → IsCaFile file certs
  unfolding load_file
  load_file-IsCaFile file certs h =
      let p = disk.join_path path file.name in
      let (_, plain, h₁) =
        >>=-eq-ok (fail_if (file.mode.is_dir || file.mode.is_symlink) (not_regular_file p)) _ h in
      let (found, read, h₂) =
        >>=-eq-ok (or_err (disk.read_certificate_file p) (unreadable p)) _ h₁ in
      let (_, many, h₃) = >>=-eq-ok (fail_if (ltb (length found) 1) (no_certificate p)) _ h₂ in
      let (_, cas, h₄) = >>=-eq-ok (check_cas p found) _ h₃ in
      let kinds = fail_if-eq-ok _ _ plain in
      subst (λ l. IsCaFile file l) (certs-inj h₄)
        (record {
          not_dir = ground arith;
          not_symlink = ground arith;
          read = or_err-eq-ok _ _ read;
          some_certs = λ z. absurd (ground (arith, fail_if-eq-ok _ _ many));
          cas = (check_cas_iff p found).0 cas;
        })

  IsCaFile-load_file :
      (file : StoreEntry) (certs : List StoreCertificate)
      → IsCaFile file certs
      → load_file disk (disk.join_path path file.name) file ≡ ok certs
  unfolding load_file
  IsCaFile-load_file file certs f =
      rw
        (
          f.not_dir,
          f.not_symlink,
          f.read,
          length-some certs f.some_certs,
          (check_cas_iff (disk.join_path path file.name) certs).1 f.cas,
        )
        refl

  load_files-IsLoaded :
      (files : List StoreEntry) (loaded out : List StoreCertificate)
      → load_files disk path loaded files ≡ ok out
      → (certs : List StoreCertificate) × IsLoaded files certs × (loaded ++ certs ≡ out)
  unfolding load_files
  load_files-IsLoaded [] loaded out h = ([], no_file, append-nil loaded ∙ certs-inj h)
  load_files-IsLoaded (file ∷ files) loaded out h =
      let (certs, read, h₁) = >>=-eq-ok (load_file disk (disk.join_path path file.name) file) _ h in
      let (rest, all, e) = load_files-IsLoaded files (loaded ++ certs) out h₁ in
      (
        certs ++ rest,
        next_file (load_file-IsCaFile file certs read) all,
        sym (append_assoc loaded certs rest) ∙ e,
      )

  IsLoaded-load_files :
      (files : List StoreEntry) (loaded certs : List StoreCertificate)
      → IsLoaded files certs
      → load_files disk path loaded files ≡ ok (loaded ++ certs)
  unfolding load_files
  IsLoaded-load_files [] loaded certs no_file = ap ok (sym (append-nil loaded))
  IsLoaded-load_files (file ∷ files) loaded _ (next_file {certs = certs} {rest = rest} f all) =
      rw (IsCaFile-load_file file certs f) (
        IsLoaded-load_files files (loaded ++ certs) rest all
        ∙ ap ok (append_assoc loaded certs rest))

  -- A directory that is no link, whose files are all files of authorities' certificates.
  pub record IsTrustStore (store : X509TrustStore) : Type 0 where
    pub exists : disk.is_missing path ≡ false
    pub mode : FileMode
    pub mode_read : disk.lstat path ≡ some mode
    pub is_directory : mode.is_dir ≡ true
    pub not_link : mode.is_symlink ≡ false
    pub files : List StoreEntry
    pub files_read : disk.read_dir path ≡ some files
    pub loaded : IsLoaded files store.certificates
    pub some_loaded : store.certificates ≢ []
    pub name_is : store.name ≡ disk.base_name path
    pub path_is : store.path ≡ path

  load-IsTrustStore :
      (store : X509TrustStore) → load_x509_trust_store disk path ≡ ok store → IsTrustStore store
  unfolding load_x509_trust_store
  load-IsTrustStore store h =
      let (_, there, h₁) = >>=-eq-ok (fail_if (disk.is_missing path) (does_not_exist path)) _ h in
      let (mode, mode_read, h₂) = >>=-eq-ok (or_err (disk.lstat path) (lstat_failed path)) _ h₁ in
      let (_, regular, h₃) =
        >>=-eq-ok (fail_if (not mode.is_dir || mode.is_symlink) (not_regular_directory path)) _
          h₂ in
      let (files, files_read, h₄) =
        >>=-eq-ok (or_err (disk.read_dir path) (read_dir_failed path)) _ h₃ in
      let (certs, loaded, h₅) = >>=-eq-ok (load_files disk path [] files) _ h₄ in
      let (_, many, h₆) = >>=-eq-ok (fail_if (ltb (length certs) 1) (no_certificates path)) _ h₅ in
      let (all, is_loaded, same) = load_files-IsLoaded files [] certs loaded in
      let kinds = fail_if-eq-ok _ _ regular in
      subst IsTrustStore (store-inj h₆) (record {
        exists = fail_if-eq-ok _ _ there;
        mode = mode;
        mode_read = or_err-eq-ok _ _ mode_read;
        is_directory = ground arith;
        not_link = ground arith;
        files = files;
        files_read = or_err-eq-ok _ _ files_read;
        loaded = subst (IsLoaded files) same is_loaded;
        some_loaded = λ z. absurd (ground (arith, fail_if-eq-ok _ _ many));
        name_is = refl;
        path_is = refl;
      })

  IsTrustStore-load :
      (store : X509TrustStore) → IsTrustStore store → load_x509_trust_store disk path ≡ ok store
  unfolding load_x509_trust_store
  IsTrustStore-load store s =
      rw
        (
          s.exists,
          s.mode_read,
          s.is_directory,
          s.not_link,
          s.files_read,
          IsLoaded-load_files s.files [] store.certificates s.loaded,
          length-some store.certificates s.some_loaded,
          sym s.name_is,
          sym s.path_is,
        )
        refl

-- LoadX509TrustStore succeeds exactly for a directory that exists and is no link and that has nothing
-- but regular files, each with at least one certificate and with certificates of authorities only; the
-- store then has the name and the path of the directory and the certificates of its files, in their
-- order, of which there is at least one.
pub load_x509_trust_store_iff :
    (disk : Disk) (path : String) (store : X509TrustStore)
    → (load_x509_trust_store disk path ≡ ok store) ↔ IsTrustStore disk path store
load_x509_trust_store_iff disk path store =
    (load-IsTrustStore disk path store, IsTrustStore-load disk path store)
