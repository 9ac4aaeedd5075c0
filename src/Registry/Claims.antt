-- ===== src/Registry/Claims.antt =====
-- `Claim`, `ClaimAt`, `Twin` and `Release` on the registry file. What they do to the ports file and
-- to the forwards that the process remembers is in Ports.
pub mod Grants
use doze_names.Prelude.{
  ℕ, Bool, true, false, not, ◌&&◌, List, [], ◌∷◌, Option, none, some, ◌==◌, if◌then◌else◌,
}
use doze_names.Text.{Bytes, eq_bytes}
use doze_names.Table.{Table, lookup, insert, delete}
use doze_names.Names.{Name}
use doze_names.Net.{Ip, ip_text}
use doze_names.Pool.{Network, Choice, found, unreserved, full, address_for, in_pool, is_taken}
use doze_names.Registry.{
  Entry, blank_entry, Content, Failure, held, addr_taken, no_reserved_address, pool_full, Io,
  Process, Edit, refuse, accept, Outcome,
}
use doze_names.Registry.Update.{update}

-- `taken`: the addresses of the other names
unfoldable pub taken_by_others : Bytes → Table Entry → List Bytes
taken_by_others host [] = []
taken_by_others host ((j, e) ∷ m) =
    let rest = taken_by_others host m in
    if not (eq_bytes j host) && not (eq_bytes e.ip []) then e.ip ∷ rest else rest

-- the first other name at an address that stands in the way of a claim
unfoldable pub in_the_way : Process → Bytes → Bytes → Bool → Table Entry → Option (Bytes × Entry)
in_the_way self host ip shared [] = none
in_the_way self host ip shared ((j, e) ∷ m) =
    let rest = in_the_way self host ip shared m in
    if not (eq_bytes j host) && eq_bytes e.ip ip && not (shared && e.pid == self.pid)
    then some (j, e)
    else rest

-- the live process that holds the name, if it is another
unfoldable pub holder : (ℕ → Bool) → Process → Option Entry → Option Entry
holder alive self none = none
holder alive self (some cur) = if not (cur.pid == self.pid) && alive cur.pid then some cur else none

-- what this process published under the name before
unfoldable pub mine : Process → Option Entry → Option Entry
mine self none = none
mine self (some cur) = if cur.pid == self.pid then some cur else none

abbrev pub fresh_entry : Process → Name → Ip → Entry
fresh_entry self n ip = record blank_entry {
  ip = ip_text ip;
  pid = self.pid;
  owner = self.owner;
  tier = n.tier;
}

-- the new entry, and whether the name has moved
unfoldable pub renewed : Process → Name → Ip → Option Entry → Entry × Bool
renewed self n ip none = (fresh_entry self n ip, false)
renewed self n ip (some cur) =
    if eq_bytes cur.ip (ip_text ip)
    then (record (fresh_entry self n ip) { target = cur.target; ports = cur.ports }, false)
    else (record (fresh_entry self n ip) { target = cur.target }, true)

-- the claim is granted at an address
unfoldable pub grant : Process → Name → Ip → Table Entry → Edit (Ip × Bool)
grant self n ip m =
    let (e, moved) = renewed self n ip (mine self (lookup n.host m)) in
    accept (ip, moved) (insert n.host e m)

unfoldable pub grant_choice : Process → Name → Table Entry → Choice → Edit (Ip × Bool)
grant_choice self n m (found ip) = grant self n ip m
grant_choice self n m unreserved = refuse (no_reserved_address n.host)
grant_choice self n m full = refuse pool_full

unfoldable pub grant_unless :
    Process → Name → Ip → Table Entry → Option (Bytes × Entry) → Edit (Ip × Bool)
grant_unless self n ip m none = grant self n ip m
grant_unless self n ip m (some (j, e)) = refuse (addr_taken (ip_text ip) j e.pid e.owner)

-- the address is the pool's choice, or the caller's
unfoldable pub place : Network → Process → Name → Option Ip → Bool → Table Entry → Edit (Ip × Bool)
place net self n none shared m =
    grant_choice self n m (address_for net n (taken_by_others n.host m))
place net self n (some ip) shared m =
    if in_pool net ip && is_taken (taken_by_others n.host m) (ip_text ip)
    then grant_unless self n ip m (in_the_way self n.host (ip_text ip) shared m)
    else grant self n ip m

-- the function that `claim` runs
unfoldable pub claim_edit :
    Network → (ℕ → Bool) → Process → Name → Option Ip → Bool → Table Entry → Edit (Ip × Bool)
claim_edit net alive self n want shared m = elim (holder alive self (lookup n.host m)) [
  | some cur ↦ refuse (held n.host cur.pid cur.owner)
  | none ↦ place net self n want shared m
]

-- the function that `Release` runs
unfoldable pub release_edit : Process → Bytes → Table Entry → Edit (Unit {0})
release_edit self host m = elim (mine self (lookup host m)) [
  | none ↦ accept tt m
  | some e ↦ accept tt (delete host m)
]
