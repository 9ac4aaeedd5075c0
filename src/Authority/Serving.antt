-- ===== src/Authority/Serving.antt =====
-- ca.go: the leaves that are served, and the copy of the authority that a server keeps.
use doze_names.Prelude.{
  ℕ, ◌+◌, Bool, true, false, not, ◌&&◌, ◌||◌, [], ◌∷◌, ◌++◌, Option, none, some, ltb, ◌==◌,
  if◌then◌else◌,
}
use doze_names.Text.{Bytes, Unicode, codes, eq_bytes}
use doze_names.Table.{Table, lookup, insert, delete}
use doze_names.Domains.{wildcard, route_domain}
use doze_names.Authority.{
  Folder, Ca, Template, Crypto, Disk, leaf_life, leaf_renew_at, Opened, nothing, probe_ca,
}

-- `strings.ReplaceAll(domain, "*", "_wildcard")`
unfoldable pub file_name : Bytes → Bytes
file_name [] = []
file_name (c ∷ s) =
    let rest = file_name s in if c == b'*' then codes "_wildcard" ++ rest else c ∷ rest

-- the template of `mint`
unfoldable pub leaf_template : ℕ → Bytes → Template
leaf_template now domain = record {
  common_name = route_domain domain;
  dns_names = if wildcard domain then domain ∷ route_domain domain ∷ [] else domain ∷ [];
  not_after = now + leaf_life;
}

-- the pair under certs/ after `mint`: a key and a certificate of two leaves do not load
unfoldable pub store_leaf : Disk → Bytes → Bytes → Table Bytes → Table Bytes
store_leaf disk name crt m =
    if disk.write_leaf_key && disk.write_leaf
    then insert name crt m
    else if disk.write_leaf_key || disk.write_leaf
    then delete name m
    else m

-- the leaf and the state after it
pub record Served : Type 0 where
  pub leaf : Option Bytes
  pub ca : Ca
  pub folder : Folder

-- keeping a leaf in memory
unfoldable pub remembered : Bytes → Bytes → Ca → Ca
remembered domain crt c = record c { leafs = insert domain crt c.leafs }

module _ (crypto : Crypto) where
  -- `leafFresh`
  unfoldable pub leaf_fresh : ℕ → Bytes → Bool
  leaf_fresh now crt = ltb (now + leaf_renew_at) (crypto.expires crt)

module _ (crypto : Crypto) where
  -- a leaf that may be served: from memory, where it is fresh
  unfoldable pub fresh_leaf : ℕ → Option Bytes → Option Bytes
  fresh_leaf now none = none
  fresh_leaf now (some crt) = if leaf_fresh crypto now crt then some crt else none

  -- a leaf from the folder, where it is fresh and the root signed it
  unfoldable pub stored_leaf : ℕ → Bytes → Option Bytes → Option Bytes
  stored_leaf now root none = none
  stored_leaf now root (some crt) =
      if leaf_fresh crypto now crt && crypto.signed_by root crt then some crt else none

  -- `mint` and what `Leaf` does with it
  unfoldable pub mint : Disk → ℕ → Bytes → Ca → Folder → Served
  mint disk now domain c f =
      if not disk.certs_dir
      then record { leaf = none; ca = c; folder = f }
      else elim (crypto.sign c.cert c.key (leaf_template now domain)) [
        | none ↦ record { leaf = none; ca = c; folder = f }
        | some crt ↦ record {
          leaf = some crt;
          ca = remembered domain crt c;
          folder = record f { certs = store_leaf disk (file_name domain) crt f.certs };
        }
      ]

  -- `Leaf`
  unfoldable pub leaf : Disk → ℕ → Bytes → Ca → Folder → Served
  leaf disk now domain c f = elim (fresh_leaf now (lookup domain c.leafs)) [
    | some crt ↦ record { leaf = some crt; ca = c; folder = f }
    | none ↦ elim (stored_leaf now c.cert (lookup (file_name domain) f.certs)) [
      | some crt ↦ record { leaf = some crt; ca = remembered domain crt c; folder = f }
      | none ↦ mint disk now domain c f
    ]
  ]

-- `caCache`: when the root was looked at last, the stamp of its file then, and what was found
pub record Cache : Type 0 where
  pub at : ℕ
  pub stamp : Bytes
  pub found : Opened

-- `currentCAEvery`
abbrev pub current_ca_every : ℕ
current_ca_every = 2000000000

unfoldable pub is_nothing : Opened → Bool
is_nothing nothing = true
is_nothing _ = false

module _ ⦃u : Unicode⦄ (crypto : Crypto) where
  -- `CurrentCA`, of one folder; `stamp` is of the root's file now, and empty without one
  unfoldable pub current_ca : ℕ → (stamp : Bytes) → Folder → Cache → Cache
  current_ca now stamp f c =
      if ltb now (c.at + current_ca_every)
      then c
      else if eq_bytes stamp c.stamp && not (is_nothing c.found)
      then record c { at = now }
      else record { at = now; stamp = stamp; found = probe_ca crypto now f }
