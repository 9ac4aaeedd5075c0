-- ===== src/Domains.antt =====
-- domains.go: a stack's own domains. `CheckCertificate` asks crypto/x509 and is left out. A text with
-- colons, which `net.ParseIP` may read as an IPv6 address, is no domain either way: its error is then
-- that of its labels.
pub mod Routes
pub mod Listing
use doze_names.Prelude.{
  ℕ, suc, Bool, true, false, not, ◌&&◌, ◌||◌, List, [], ◌∷◌, ◌++◌, Option, none, some, ltb, ◌==◌,
  if◌then◌else◌, length, drop,
}
use doze_names.Text.{Bytes, Unicode, codes, eq_bytes, has_prefix, has_suffix, split}
use doze_names.Table.{Table}
use doze_names.Strings.{member, sort_strings}
use doze_names.Names.{Name, Tier, normalize, in_zone, label}
use doze_names.Net.{parse_ip, split_host_port}
use doze_names.Registry.{Entry}
use doze_names.Registry.Lookups.{lookup_domain}

-- why a text is no domain
pub data DomainError : Type 0 where
  empty_host is_address is_doze_name is_localhost no_top_level inner_wildcard : DomainError
  bare_wildcard : DomainError
  bad_label : Bytes → DomainError

abbrev pub star : Bytes
star = b'*' ∷ []

abbrev pub wildcard_prefix : Bytes
wildcard_prefix = b'*' ∷ b'.' ∷ []

-- `strings.TrimPrefix(s, t)`
unfoldable pub trim_prefix : Bytes → Bytes → Bytes
trim_prefix s t = if has_prefix s t then drop (length t) s else s

-- `DomainName`
unfoldable pub domain_name : Bytes → Name
domain_name host = record { host = normalize host; tier = Tier.domain }

-- `Wildcard`
unfoldable pub wildcard : Bytes → Bool
wildcard host = has_prefix (normalize host) wildcard_prefix

-- `RouteDomain`
unfoldable pub route_domain : Bytes → Bytes
route_domain host = trim_prefix (normalize host) wildcard_prefix

-- the loop of `RouteDomains`: those not seen yet
unfoldable pub unseen_routes : List Bytes → List Bytes → List Bytes
unseen_routes seen [] = []
unseen_routes seen (d ∷ ds) =
    let rd = route_domain d in
    let rest = unseen_routes (rd ∷ seen) ds in
    let same = unseen_routes seen ds in if member rd seen then same else rd ∷ rest

-- `RouteDomains`
unfoldable pub route_domains : List Bytes → List Bytes
route_domains ds = sort_strings (unseen_routes [] ds)

unfoldable pub domain_hosts : Table Entry → List Bytes
domain_hosts [] = []
domain_hosts ((host, e) ∷ m) =
    let rest = domain_hosts m in elim e.tier [ Tier.domain ↦ host ∷ rest | _ ↦ rest ]

-- `Domains`, on a snapshot
unfoldable pub domains : Table Entry → List Bytes
domains m = sort_strings (domain_hosts m)

-- a host without its port, if it has one
unfoldable pub host_only : Bytes → Bytes
host_only host = elim (split_host_port host) [ none ↦ host | some (h, _) ↦ h ]

module _ ⦃u : Unicode⦄ where
  -- the loop over the labels, of which the first has the number 0
  unfoldable pub check_labels : ℕ → List Bytes → Option DomainError
  check_labels i [] = none
  check_labels i (l ∷ ls) =
      let rest = check_labels (suc i) ls in
      if eq_bytes l star
      then (if i == 0 then rest else some inner_wildcard)
      else if eq_bytes l [] || not (eq_bytes l (label l)) || ltb 63 (length l)
      then some (bad_label l)
      else rest

  -- is it `*` and fewer than two labels?
  unfoldable pub check_wildcard : List Bytes → Option DomainError
  check_wildcard [] = none
  check_wildcard (l ∷ ls) =
      if eq_bytes l star && ltb (length ls) 2 then some bare_wildcard else none

  unfoldable pub check_split : List Bytes → Option DomainError
  check_split labels =
      if ltb (length labels) 2
      then some no_top_level
      else elim (check_labels 0 labels) [ some e ↦ some e | none ↦ check_wildcard labels ]

  unfoldable pub is_local : Bytes → Bool
  is_local h = eq_bytes h (codes "localhost") || has_suffix h (codes ".localhost")

  -- `ValidDomain`: `none` where it is one
  unfoldable pub valid_domain : Bytes → Option DomainError
  valid_domain host =
      let h = normalize host in
      if eq_bytes h [] then some empty_host else elim (parse_ip h) [
        | some ip ↦ some is_address
        | none ↦
            if in_zone h
            then some is_doze_name
            else if is_local h
            then some is_localhost
            else check_split (split b'.' h)
      ]

  -- `IsDomain`, on a snapshot
  unfoldable pub is_domain : Table Entry → Bytes → Bool
  is_domain m host =
      if in_zone (host_only host)
      then false
      else elim (lookup_domain m (host_only host)) [ none ↦ false | some _ ↦ true ]
