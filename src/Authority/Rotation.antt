-- ===== src/Authority/Rotation.antt =====
-- Replacing the authority.
use doze_names.Prelude.{
  ℕ, ◌+◌, true, false, ◌&&◌, ◌||◌, List, [], ◌∷◌, some, ◌≡◌, refl, ◌∙◌, arith, ltb, Bool-cases, inl,
  inr, All, All-append,
}
use doze_names.Text.{Bytes, Unicode, eq_bytes}
use doze_names.Text.Laws.{eq_bytes_iff, IsLower, to_lower-IsLower}
use doze_names.Strings.{member}
use doze_names.Strings.Members.{member-append}
use doze_names.Authority.{
  leaf_life, bytes, Folder, Ca, Crypto, Disk, valid_fingerprint, create, created, load, opened,
  read_previous, open_ca, open_files, open_loaded,
}
use doze_names.Authority.Replace.{append_unique, write_previous, keep_previous, rotate}
use doze_names.Authority.Creation.{IsReadable, create-well, open_written}

-- a fingerprint as it is made: 64 hexadecimal digits, in lower case
abbrev pub IsFingerprint : Bytes → Type 0
IsFingerprint fp = (valid_fingerprint fp ≡ true) × All IsLower fp

member-append_unique :
    (s fp : Bytes) (fps : List Bytes)
    → member s (append_unique fps fp) ≡ (eq_bytes fp s || member s fps)
unfolding append_unique member
member-append_unique s fp fps = elim (Bool-cases (member fp fps)) [
  | inl old ↦ elim (Bool-cases (eq_bytes fp s)) [
    | inl same ↦ let fp_is_s = (eq_bytes_iff fp s).0 same in rw (old, same, ← fp_is_s) old
    | inr other ↦ rw (old, other) refl
  ]
  | inr new ↦ rw (new, member-append s fps (fp ∷ [])) (ground arith)
]

All-append_unique :
    (P : Bytes → Type 0) (fp : Bytes) (fps : List Bytes)
    → P fp
    → All P fps
    → All P (append_unique fps fp)
unfolding append_unique
All-append_unique P fp fps p all = elim (Bool-cases (member fp fps)) [
  | inl old ↦ rw (old) all
  | inr new ↦ rw (new) (All-append P fps (fp ∷ []) all (p, tt))
]

module _ ⦃u : Unicode⦄ where
  -- what was listed is read back
  read_previous-id : (fps : List Bytes) → All IsFingerprint fps → read_previous fps ≡ fps
  unfolding read_previous
  read_previous-id [] all = refl
  read_previous-id (fp ∷ fps) ((valid, lower), all) =
      rw (valid, to_lower-IsLower fp lower, read_previous-id fps all) refl

module _ ⦃u : Unicode⦄ (crypto : Crypto) (disk : Disk) (cert key : Bytes) (c : Ca)
    (f : Folder) where
  keep_previous-previous : (fp : Bytes) → (keep_previous disk fp f).previous ≡ f.previous
  unfolding keep_previous
  keep_previous-previous fp = ground arith

  keep_previous-root : (fp : Bytes) → (keep_previous disk fp f).root ≡ f.root
  unfolding keep_previous
  keep_previous-root fp = ground arith

  rotated : Ca
  rotated = record {
    cert = cert;
    key = key;
    leafs = [];
    previous = append_unique c.previous (crypto.fingerprint c.cert);
  }

  rotate-well :
      (rotate crypto disk (some (cert, key)) c f).well ≡ true
      → rotate crypto disk (some (cert, key)) c f ≡ record {
        well = true;
        ca = rotated;
        folder =
            record (created disk
              (crypto.cert_pem cert)
              (crypto.key_pem key)
              (keep_previous disk (crypto.fingerprint c.cert) f)) {
                previous = append_unique c.previous (crypto.fingerprint c.cert);
              };
      }
  unfolding rotate write_previous rotated
  rotate-well h =
      let old = crypto.fingerprint c.cert in
      let c' : Ca = record c { leafs = [] } in
      let f' = keep_previous disk old f in
      elim (Bool-cases (create crypto disk (some (cert, key)) c' f').well) [
        | inr ill ↦ let bad : false ≡ true = rw (ill, rotate) at h in absurd (cc)
        | inl well ↦
            let made = create-well crypto disk cert key c' f' well in
            elim (Bool-cases disk.write_previous) [
              | inr unwritten ↦
                  let bad : false ≡ true = rw (made, unwritten, rotate) at h in absurd (cc)
              | inl written ↦ rw (made, written, rotate) refl
            ]
      ]

  -- After a rotation that reports no error, whoever opens the folder gets the authority that the rotating
  -- process has: the new root and key, no leaf of the old one, and among the roots to be untrusted the old
  -- one and those that were there, and no other. Fingerprints are 64 hexadecimal digits in lower case, what is written reads back as it
  -- was, and the new root lasts for more than a leaf's life.
  pub open_ca-rotate :
      (now : ℕ)
      → (rotate crypto disk (some (cert, key)) c f).well ≡ true
      → All IsFingerprint c.previous
      → IsFingerprint (crypto.fingerprint c.cert)
      → IsReadable crypto cert key
      → ltb (now + leaf_life) (crypto.expires cert) ≡ true
      → (open_ca crypto now (rotate crypto disk (some (cert, key)) c f).folder
          ≡ opened (rotate crypto disk (some (cert, key)) c f).ca)
        × ((rotate crypto disk (some (cert, key)) c f).ca.cert ≡ cert)
        × ((rotate crypto disk (some (cert, key)) c f).ca.leafs ≡ [])
        × ((fp : Bytes)
            → member fp (rotate crypto disk (some (cert, key)) c f).ca.previous
              ≡ (eq_bytes (crypto.fingerprint c.cert) fp || member fp c.previous))
  unfolding rotated created
  open_ca-rotate now well valid old reads lasts =
      let end = rotate-well well in
      let list = All-append_unique IsFingerprint (crypto.fingerprint c.cert) c.previous old valid in
      let again = open_written crypto now cert key _ reads lasts refl refl in
      rw (end) (
        again ∙ rw (read_previous-id _ list) refl,
        refl,
        refl,
        λ fp. member-append_unique fp (crypto.fingerprint c.cert) c.previous,
      )

  -- how a rotation ends that cannot write the root
  rotate-torn :
      (disk.certs_dir && disk.write_key) ≡ true
      → disk.write_root ≡ false
      → rotate crypto disk (some (cert, key)) c f ≡ record {
        well = false;
        ca = record c { leafs = [] };
        folder = record (keep_previous disk (crypto.fingerprint c.cert) f) {
          root_key = bytes (crypto.key_pem key);
        };
      }
  unfolding rotate create
  rotate-torn one torn = rw (one, torn, rotate, create) refl

  open_torn :
      (now : ℕ) (old_cert old_pem : Bytes) (g : Folder)
      → g.root ≡ bytes old_pem
      → g.root_key ≡ bytes (crypto.key_pem key)
      → crypto.read_cert old_pem ≡ some old_cert
      → crypto.read_key (crypto.key_pem key) ≡ some key
      → ltb (now + leaf_life) (crypto.expires old_cert) ≡ true
      → open_ca crypto now g
        ≡ opened
            (record { cert = old_cert; key = key; leafs = []; previous = read_previous g.previous })
  unfolding open_ca open_files open_loaded load
  open_torn now old_cert old_pem g root root_key reads reads_key lasts =
      rw (root, root_key, reads, reads_key, lasts, load, open_loaded) refl

  -- A rotation that cannot write the root's file, after the key's, reports an error and leaves the new key
  -- beside the old root, and whoever opens the folder then takes the two for the authority. The old root
  -- and the new key read, and the old root lasts for more than a leaf's life.
  pub rotate_torn :
      (now : ℕ) (old_cert old_pem : Bytes)
      → (disk.certs_dir && disk.write_key) ≡ true
      → disk.write_root ≡ false
      → f.root ≡ bytes old_pem
      → crypto.read_cert old_pem ≡ some old_cert
      → crypto.read_key (crypto.key_pem key) ≡ some key
      → ltb (now + leaf_life) (crypto.expires old_cert) ≡ true
      → ((rotate crypto disk (some (cert, key)) c f).well ≡ false)
        × (open_ca crypto now (rotate crypto disk (some (cert, key)) c f).folder
            ≡ opened (record {
              cert = old_cert;
              key = key;
              leafs = [];
              previous = read_previous f.previous;
            }))
  rotate_torn now old_cert old_pem one torn root reads reads_key lasts =
      let fp = crypto.fingerprint c.cert in
      let found =
        open_torn now old_cert old_pem
          (record (keep_previous disk fp f) { root_key = bytes (crypto.key_pem key) })
          (keep_previous-root fp ∙ root) refl reads reads_key lasts in
      rw (rotate-torn one torn) (refl, found ∙ rw (keep_previous-previous fp) refl)
