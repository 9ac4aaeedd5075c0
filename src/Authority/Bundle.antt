-- ===== src/Authority/Bundle.antt =====
-- ca.go: the bundle of roots that a client's trust store is replaced with; and of trust_darwin.go, the
-- roots of a Mac that go into it.
use doze_names.Prelude.{
  ℕ, zero, suc, Bool, true, false, not, ◌&&◌, ◌||◌, List, [], ◌∷◌, ◌++◌, Option, none, some, ltb,
  if◌then◌else◌, length,
}
use doze_names.Text.{Bytes, codes, eq_bytes, has_prefix}
use doze_names.Authority.{File, bytes}

-- `pem.Block`, its headers as text
pub record Block : Type 0 where
  pub kind : Bytes
  pub headers : Bytes
  pub body : Bytes

-- encoding/pem and crypto/x509: the next block of a text with what stands behind it, the text of a
-- block, and of a certificate that parses the common name of its subject and whether it may sign.
pub record Pem : Type 0 where
  pub decode : Bytes → Option (Block × Bytes)
  pub encode : Block → Bytes
  pub subject : Bytes → Option Bytes
  pub is_ca : Bytes → Bool

module _ (pem : Pem) where
  -- a certificate whose subject begins as a doze authority's does
  unfoldable pub is_doze : Bytes → Bool
  is_doze der = elim (pem.subject der) [
    | none ↦ false
    | some name ↦ has_prefix name (codes "doze local CA")
  ]

  unfoldable pub is_doze_root : Block → Bool
  is_doze_root b = eq_bytes b.kind (codes "CERTIFICATE") && is_doze b.body

  -- the loop of `withoutDozeRoots`; each round takes a block off the text
  unfoldable pub without_roots : ℕ → Bytes → Bytes
  without_roots zero s = []
  without_roots (suc fuel) s = elim (pem.decode s) [
    | none ↦ []
    | some (b, rest) ↦
        let later = without_roots fuel rest in
        if is_doze_root b then later else pem.encode b ++ later
  ]

  -- `withoutDozeRoots`
  unfoldable pub without_doze_roots : Bytes → Bytes
  without_doze_roots s = without_roots (suc (length s)) s

  -- the text of the bundle: the machine's roots, those of an inherited SSL_CERT_FILE, and the root
  unfoldable pub bundle_text :
      (system : Bytes) → (inherited : Option Bytes) → (root : Bytes) → Bytes
  bundle_text system none root = without_doze_roots system ++ (10 ∷ root)
  bundle_text system (some extra) root =
      without_doze_roots system ++ (10 ∷ (without_doze_roots extra ++ (10 ∷ root)))

  -- a certificate authority that the machine trusts and that is not doze's; `written` says that the
  -- temporary file could be made, `trusted` what the keychain says of it
  unfoldable pub is_anchor : (written trusted : Block → Bool) → Block → Bool
  is_anchor written trusted b = elim (pem.subject b.body) [
    | none ↦ false
    | some name ↦
        eq_bytes b.kind (codes "CERTIFICATE")
        && pem.is_ca b.body
        && not (has_prefix name (codes "doze local CA"))
        && written b
        && trusted b
  ]

  unfoldable pub anchors : (written trusted : Block → Bool) → ℕ → Bytes → Bytes
  anchors written trusted zero s = []
  anchors written trusted (suc fuel) s = elim (pem.decode s) [
    | none ↦ []
    | some (b, rest) ↦
        let later = anchors written trusted fuel rest in
        if is_anchor written trusted b then pem.encode b ++ later else later
  ]

  -- `trustedAnchorsIn`
  unfoldable pub trusted_anchors_in : (written trusted : Block → Bool) → Bytes → Bytes
  trusted_anchors_in written trusted s = anchors written trusted (suc (length s)) s

  -- `platformRootsPEM` of a Mac, for the curated file, and what `security` lists of the system's
  -- roots and of the System keychain
  unfoldable pub darwin_roots :
      (written trusted : Block → Bool) → (curated roots keychain : Option Bytes) → Bytes
  darwin_roots written trusted curated roots none = elim curated [
    | none ↦ elim roots [ none ↦ [] | some b ↦ b ]
    | some b ↦ b
  ]
  darwin_roots written trusted curated roots (some found) =
      (elim curated [ none ↦ elim roots [ none ↦ [] | some b ↦ b ] | some b ↦ b ])
      ++ trusted_anchors_in written trusted found

-- the files of `systemRootsPEM`
abbrev pub root_files : List Bytes
root_files =
    codes "/etc/ssl/certs/ca-certificates.crt"
    ∷ codes "/etc/pki/tls/certs/ca-bundle.crt"
    ∷ codes "/etc/ssl/ca-bundle.pem"
    ∷ codes "/etc/ssl/cert.pem"
    ∷ []

unfoldable pub first_read : (read : Bytes → Option Bytes) → List Bytes → Bytes
first_read read [] = []
first_read read (p ∷ ps) =
    let later = first_read read ps in elim (read p) [ none ↦ later | some b ↦ b ]

-- `systemRootsPEM`
unfoldable pub system_roots : (platform : Bytes) → (read : Bytes → Option Bytes) → Bytes
system_roots platform read =
    if not (eq_bytes platform []) then platform else first_read read root_files

-- the roots of the SSL_CERT_FILE that the process inherited; `same_file` says that it is the bundle
unfoldable pub inherited : (name : Bytes) → (same_file : Bool) → File → Option Bytes
inherited name same_file (bytes b) =
    if not (eq_bytes name []) && not same_file then some b else none
inherited name same_file _ = none

-- `Bundle`: the text of bundle.pem, if it is written; `locked` says that the lock was opened and taken
unfoldable pub bundle :
    Pem
    → (locked : Bool) → (root : File) → (system : Bytes) → Option Bytes
    → (written : Bool) → Option Bytes
bundle pem locked (bytes root) system extra written =
    if locked && written then some (bundle_text pem system extra root) else none
bundle pem locked _ system extra written = none

-- `EnsureBundle`: is a new bundle written; of the bundle and the root, the time of the last change,
-- and of the bundle the size
unfoldable pub makes_bundle : (bundle : Option (ℕ × ℕ)) → (root : Option ℕ) → Bool
makes_bundle (some (at, size)) (some root_at) = ltb at root_at || not (ltb 0 size)
makes_bundle _ _ = true
