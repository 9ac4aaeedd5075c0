-- ===== src/Authority.antt =====
-- ca.go: the machine's certificate authority, as the files under its folder and what a process holds of
-- it. Keys, certificates and their checks are crypto/x509's and crypto/tls's, which are the arguments
-- `Crypto`; a certificate is its DER bytes, what is generated is an argument, and time is a number of
-- nanoseconds.
pub mod Replace
pub mod Serving
pub mod Leaves
pub mod Creation
pub mod Rotation
pub mod Bundle
pub mod Roots
use doze_names.Prelude.{
  ℕ, ◌+◌, Bool, true, false, not, ◌&&◌, ◌||◌, List, [], ◌∷◌, ◌++◌, Option, none, some, ltb, leb,
  ◌==◌, if◌then◌else◌, length, take,
}
use doze_names.Text.{Bytes, Unicode, codes, eq_bytes, to_lower}
use doze_names.Table.{Table, lookup, insert, delete, keep_if}
use doze_names.Strings.{member}
use doze_names.Domains.{wildcard, route_domain}

-- `leafLife` and `leafRenewAt`
abbrev pub leaf_life : ℕ
leaf_life = 2592000000000000

abbrev pub leaf_renew_at : ℕ
leaf_renew_at = 604800000000000

-- a file that is read
pub data File : Type 0 where
  missing unreadable : File
  bytes : Bytes → File

-- The authority's folder: the root and its key, what the JSON of previous.json decodes to (nothing,
-- if it is not there), the fingerprints with a file under previous/, and under certs/ the pairs that
-- load, by their name.
pub record Folder : Type 0 where
  pub root : File
  pub root_key : File
  pub previous : List Bytes
  pub kept : List Bytes
  pub certs : Table Bytes

-- `CA`; `leafs` are by the domain they were minted for
pub record Ca : Type 0 where
  pub cert : Bytes
  pub key : Bytes
  pub leafs : Table Bytes
  pub previous : List Bytes

-- what the names and times of a leaf are asked to be
pub record Template : Type 0 where
  pub common_name : Bytes
  pub dns_names : List Bytes
  pub not_after : ℕ

-- Reading and writing PEM of a certificate and of a key, the SHA-256 in hex, the end of a certificate's
-- life, whether one certificate signed another, and the signing of a leaf.
pub record Crypto : Type 0 where
  pub read_cert : Bytes → Option Bytes
  pub read_key : Bytes → Option Bytes
  pub cert_pem : Bytes → Bytes
  pub key_pem : Bytes → Bytes
  pub fingerprint : Bytes → Bytes
  pub expires : Bytes → ℕ
  pub signed_by : (root leaf : Bytes) → Bool
  pub sign : (root key : Bytes) → Template → Option Bytes

-- Which of the system's calls succeed; `removable` is of the files under certs/. That previous.json
-- is not there is no failure of its removal.
pub record Disk : Type 0 where
  pub mkdir : Bool
  pub open_lock : Bool
  pub lock : Bool
  pub certs_dir : Bool
  pub write_key : Bool
  pub write_root : Bool
  pub keep_root : Bool
  pub write_previous : Bool
  pub removable : Bytes → Bool
  pub write_leaf_key : Bool
  pub write_leaf : Bool

-- an operation's end: does it report an error, and the state and the folder after it
pub record Result : Type 0 where
  pub well : Bool
  pub ca : Ca
  pub folder : Folder

unfoldable pub is_hex : ℕ → Bool
is_hex c = leb b'0' c && leb c b'9' || leb b'a' c && leb c b'f' || leb b'A' c && leb c b'F'

unfoldable pub all_hex : Bytes → Bool
all_hex [] = true
all_hex (c ∷ s) = is_hex c && all_hex s

-- `validFingerprint`
unfoldable pub valid_fingerprint : Bytes → Bool
valid_fingerprint fp = length fp == 64 && all_hex fp

-- the end of `create`, where both files are written
unfoldable pub created : Disk → Bytes → Bytes → Folder → Folder
created disk root key f = record f {
  root = bytes root;
  root_key = bytes key;
  certs = keep_if (λ name pair. not (disk.removable name)) f.certs;
}

module _ ⦃u : Unicode⦄ where
  -- `readPrevious`
  unfoldable pub read_previous : List Bytes → List Bytes
  read_previous [] = []
  read_previous (fp ∷ raw) =
      let rest = read_previous raw in if valid_fingerprint fp then to_lower fp ∷ rest else rest

module _ (crypto : Crypto) where
  -- `create`; `fresh` is the new root and its key, if they could be made
  unfoldable pub create : Disk → Option (Bytes × Bytes) → Ca → Folder → Result
  create disk none c f = record { well = false; ca = c; folder = f }
  create disk (some (cert, key)) c f =
      if not (disk.certs_dir && disk.write_key)
      then record { well = false; ca = c; folder = f }
      else if not disk.write_root
      then record {
        well = false;
        ca = c;
        folder = record f { root_key = bytes (crypto.key_pem key) };
      }
      else record {
        well = true;
        ca = record c { cert = cert; key = key };
        folder = created disk (crypto.cert_pem cert) (crypto.key_pem key) f;
      }

  -- `load`
  unfoldable pub load : Bytes → Bytes → Option (Bytes × Bytes)
  load cert key = elim (crypto.read_cert cert) [
    | none ↦ none
    | some c ↦ elim (crypto.read_key key) [ none ↦ none | some k ↦ some (c, k) ]
  ]

-- what `openCA` finds: no authority, one that cannot be used, or one
pub data Opened : Type 0 where
  nothing broken : Opened
  opened : Ca → Opened

module _ ⦃u : Unicode⦄ (crypto : Crypto) where
  -- a loaded root, unless it is expiring
  unfoldable pub open_loaded : ℕ → Option (Bytes × Bytes) → List Bytes → Opened
  open_loaded now none raw = broken
  open_loaded now (some (cert, key)) raw =
      if not (ltb (now + leaf_life) (crypto.expires cert))
      then broken
      else opened (record { cert = cert; key = key; leafs = []; previous = read_previous raw })

  unfoldable pub open_files : ℕ → File → File → List Bytes → Opened
  open_files now missing missing raw = nothing
  open_files now (bytes cert) (bytes key) raw = open_loaded now (load crypto cert key) raw
  open_files now _ _ raw = broken

  -- `openCA`
  unfoldable pub open_ca : ℕ → Folder → Opened
  open_ca now f = open_files now f.root f.root_key f.previous

  -- `ProbeCA`: `broken` is its error, and `nothing` its nil
  unfoldable pub probe_ca : ℕ → Folder → Opened
  probe_ca now f = open_ca now f

  -- the part of `LoadOrCreateCA` under the lock
  unfoldable pub make_ca : Disk → ℕ → Option (Bytes × Bytes) → Folder → Opened × Folder
  make_ca disk now fresh f = elim (open_ca now f) [
    | opened c ↦ (opened c, f)
    | broken ↦ (broken, f)
    | nothing ↦
        let made =
          create crypto disk fresh (record { cert = []; key = []; leafs = []; previous = [] }) f in
        (if made.well then opened made.ca else broken, made.folder)
  ]

  -- `LoadOrCreateCA`: `seen` is the folder as it was at first, `f` as it is under the lock
  unfoldable pub load_or_create :
      Disk → ℕ → Option (Bytes × Bytes) → (seen : Folder) → Folder → Opened × Folder
  load_or_create disk now fresh seen f = elim (open_ca now seen) [
    | opened c ↦ (opened c, f)
    | broken ↦ (broken, f)
    | nothing ↦
        if not (disk.mkdir && disk.open_lock && disk.lock)
        then (broken, f)
        else make_ca disk now fresh f
  ]
