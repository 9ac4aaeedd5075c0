-- ===== src/Authority/Creation.antt =====
-- Making the authority, and opening what was made.
use doze_names.Prelude.{
  ℕ, ◌+◌, true, false, ◌&&◌, List, [], Option, none, some, ◌≡◌, ◌≢◌, refl, ltb, Bool-cases, inl,
  inr,
}
use doze_names.Text.{Bytes, Unicode}
use doze_names.Authority.{
  leaf_life, File, missing, unreadable, bytes, Folder, Ca, Crypto, Disk, create, created, load,
  nothing, broken, opened, read_previous, open_loaded, open_files, open_ca, make_ca, load_or_create,
}

-- What an encoding reads back as.
pub record IsReadable (crypto : Crypto) (cert key : Bytes) : Type 0 where
  pub cert_reads : crypto.read_cert (crypto.cert_pem cert) ≡ some cert
  pub key_reads : crypto.read_key (crypto.key_pem key) ≡ some key

-- how `create` ends, where it reports no error
pub create-well :
    (crypto : Crypto) (disk : Disk) (cert key : Bytes) (c : Ca) (f : Folder)
    → (create crypto disk (some (cert, key)) c f).well ≡ true
    → create crypto disk (some (cert, key)) c f ≡ record {
      well = true;
      ca = record c { cert = cert; key = key };
      folder = created disk (crypto.cert_pem cert) (crypto.key_pem key) f;
    }
unfolding create
create-well crypto disk cert key c f h = elim (Bool-cases (disk.certs_dir && disk.write_key)) [
  | inr shut ↦ let bad : false ≡ true = rw (shut, create) at h in absurd (cc)
  | inl one ↦ elim (Bool-cases disk.write_root) [
    | inr torn ↦ let bad : false ≡ true = rw (one, torn, create) at h in absurd (cc)
    | inl both ↦ rw (one, both, create) refl
  ]
]

module _ ⦃u : Unicode⦄ (crypto : Crypto) where
  pub load_written :
      (cert key : Bytes)
      → IsReadable crypto cert key
      → load crypto (crypto.cert_pem cert) (crypto.key_pem key) ≡ some (cert, key)
  unfolding load
  load_written cert key h = rw (h.cert_reads, h.key_reads, load) refl

  -- a folder whose root and key were written opens
  pub open_written :
      (now : ℕ) (cert key : Bytes) (f : Folder)
      → IsReadable crypto cert key
      → ltb (now + leaf_life) (crypto.expires cert) ≡ true
      → f.root ≡ bytes (crypto.cert_pem cert)
      → f.root_key ≡ bytes (crypto.key_pem key)
      → open_ca crypto now f
        ≡ opened
            (record { cert = cert; key = key; leafs = []; previous = read_previous f.previous })
  unfolding open_ca open_files open_loaded
  open_written now cert key f h lasts root root_key =
      rw (root, root_key, load_written cert key h, lasts) refl

  open_loaded_some :
      (now : ℕ) (pair : Option (Bytes × Bytes)) (raw : List Bytes)
      → open_loaded crypto now pair raw ≢ nothing
  unfolding open_loaded
  open_loaded_some now none raw h = cc
  open_loaded_some now (some (cert, key)) raw h =
      elim (Bool-cases (ltb (now + leaf_life) (crypto.expires cert))) [
        | inl lasts ↦ let bad : opened _ ≡ nothing = rw (lasts, open_loaded) at h in absurd (cc)
        | inr ends ↦ let bad : broken ≡ nothing = rw (ends, open_loaded) at h in absurd (cc)
      ]

  -- there is no authority where neither file is there
  open_files-nothing :
      (now : ℕ) (root root_key : File) (raw : List Bytes)
      → open_files crypto now root root_key raw ≡ nothing
      → (root ≡ missing) × (root_key ≡ missing)
  unfolding open_files
  open_files-nothing now missing missing raw h = (refl, refl)
  open_files-nothing now (bytes a) (bytes b) raw h = absurd (open_loaded_some now _ raw h)
  open_files-nothing now missing unreadable raw h = cc
  open_files-nothing now missing (bytes b) raw h = cc
  open_files-nothing now unreadable b raw h = cc
  open_files-nothing now (bytes a) missing raw h = cc
  open_files-nothing now (bytes a) unreadable raw h = cc

  open_nothing_later :
      (now later : ℕ) (f : Folder)
      → open_ca crypto now f ≡ nothing
      → open_ca crypto later f ≡ nothing
  unfolding open_ca open_files
  open_nothing_later now later f h =
      let (root, root_key) = open_files-nothing now f.root f.root_key f.previous h in
      rw (root, root_key) refl

  make_ca-well :
      (disk : Disk) (now : ℕ) (cert key : Bytes) (f : Folder)
      → open_ca crypto now f ≡ nothing
      → (create crypto disk
          (some (cert, key))
          (record { cert = []; key = []; leafs = []; previous = [] })
          f).well
        ≡ true
      → make_ca crypto disk now (some (cert, key)) f ≡ (
        opened (record { cert = cert; key = key; leafs = []; previous = [] }),
        created disk (crypto.cert_pem cert) (crypto.key_pem key) f,
      )
  unfolding make_ca
  make_ca-well disk now cert key f empty well =
      rw (empty, create-well crypto disk cert key _ f well, make_ca) refl

  make_ca-opened :
      (disk : Disk) (now : ℕ) (fresh : Option (Bytes × Bytes)) (f : Folder) (c : Ca)
      → open_ca crypto now f ≡ opened c
      → make_ca crypto disk now fresh f ≡ (opened c, f)
  unfolding make_ca
  make_ca-opened disk now fresh f c found = rw (found, make_ca) refl

  -- Two processes that both found no authority make one between them: the one that gets the lock second
  -- has the root and key that the first made, and changes nothing. The lock is got, what the first wrote
  -- reads back as it was, and the root lasts for more than a leaf's life.
  pub one_authority :
      (disk disk' : Disk) (now later : ℕ) (cert key : Bytes) (fresh : Option (Bytes × Bytes))
      (f : Folder)
      → open_ca crypto now f ≡ nothing
      → (create crypto disk
          (some (cert, key))
          (record { cert = []; key = []; leafs = []; previous = [] })
          f).well
        ≡ true
      → (disk.mkdir && disk.open_lock && disk.lock) ≡ true
      → (disk'.mkdir && disk'.open_lock && disk'.lock) ≡ true
      → IsReadable crypto cert key
      → ltb (later + leaf_life) (crypto.expires cert) ≡ true
      → (made : Folder) × (load_or_create crypto disk now (some (cert, key)) f f
          ≡ (opened (record { cert = cert; key = key; leafs = []; previous = [] }), made))
        × (load_or_create crypto disk' later fresh f made ≡ (
          opened
              (record { cert = cert; key = key; leafs = []; previous = read_previous f.previous }),
          made,
        ))
  unfolding load_or_create created
  one_authority disk disk' now later cert key fresh f empty well got got' reads lasts =
      let made = created disk (crypto.cert_pem cert) (crypto.key_pem key) f in
      let first = make_ca-well disk now cert key f empty well in
      let found = open_written later cert key made reads lasts refl refl in
      let second = make_ca-opened disk' later fresh made _ found in
      (
        made,
        rw (empty, got, first, load_or_create) refl,
        rw (open_nothing_later now later f empty, got', second, load_or_create) refl,
      )
