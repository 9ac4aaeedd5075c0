-- ===== src/Registry/Lookups.antt =====
-- `lookup` and `Resolve` of registry.go, and `lookupDomain` of domains.go: which entry owns a host.
-- Each loop drops a label and its dot, so the length of the text is fuel enough.
pub mod Walk
pub mod Domains
use doze_names.Prelude.{
  ℕ, zero, suc, Bool, true, false, not, ◌||◌, [], ◌∷◌, ◌++◌, Option, none, some, length,
  if◌then◌else◌,
}
use doze_names.Text.{Bytes, Unicode, codes, eq_bytes, has_prefix, cut, contains_byte}
use doze_names.Table.{Table, lookup}
use doze_names.Names.{Tier, suffix, normalize, in_zone}
use doze_names.Net.{Ip, parse_ip}
use doze_names.Registry.{Entry, Content, Io, Process}
use doze_names.Registry.Update.{snapshot}

-- the loop of `lookup`, from `h`
unfoldable pub walk : ℕ → Bytes → Table Entry → Option Entry
walk zero h m = none
walk (suc fuel) h m = if eq_bytes h suffix then none else elim (lookup h m) [
  | some e ↦ some e
  | none ↦ elim (cut b'.' h) [ none ↦ none | some (_, rest) ↦ walk fuel rest m ]
]

abbrev wildcard_of : Bytes → Bytes
wildcard_of h = b'*' ∷ b'.' ∷ h

-- an entry that is a domain's
unfoldable pub if_domain : Option Entry → Option Entry
if_domain none = none
if_domain (some e) = elim e.tier [ Tier.domain ↦ some e | _ ↦ none ]

-- the loop of `lookupDomain`, from `h`
unfoldable pub walk_domain : ℕ → Bytes → Table Entry → Option (Entry × Bytes)
walk_domain zero h m = none
walk_domain (suc fuel) h m = elim (cut b'.' h) [
  | none ↦ none
  | some (_, rest) ↦
      if not (contains_byte b'.' rest)
      then none
      else elim (if_domain (lookup (wildcard_of rest) m)) [
        | some e ↦ some (e, wildcard_of rest)
        | none ↦ walk_domain fuel rest m
      ]
]

-- `lookupDomain`
unfoldable pub lookup_domain : Table Entry → Bytes → Option (Entry × Bytes)
lookup_domain m host =
    let h = normalize host in
    elim (if_domain (lookup h m)) [
      | some e ↦ some (e, h)
      | none ↦ elim (if_domain (lookup (wildcard_of h) m)) [
        | some e ↦ some (e, wildcard_of h)
        | none ↦ walk_domain (length h) h m
      ]
    ]

module _ ⦃u : Unicode⦄ where
  -- `Registry.lookup`, on a snapshot
  unfoldable pub find_owner : Table Entry → Bytes → Option Entry
  find_owner m host =
      if in_zone host
      then walk (suc (length (normalize host))) (normalize host) m
      else elim (lookup_domain m host) [ none ↦ none | some (e, _) ↦ some e ]

  -- `Resolve`, on a snapshot
  unfoldable pub resolve_in : Table Entry → Bytes → Option Ip
  resolve_in m host = elim (find_owner m host) [ none ↦ none | some e ↦ parse_ip e.ip ]

  -- `Resolve`: outside is `none` where the snapshot panics
  unfoldable pub resolve : (ℕ → Bool) → Io → Process → Content Entry → Bytes → Option (Option Ip)
  resolve alive io self file host = elim (snapshot alive io self file) [
    | none ↦ none
    | some m ↦ some (resolve_in m host)
  ]
