-- ===== src/Ports.antt =====
-- Translated ports. `setPort` of listen.go, `remember`, `heal` and `forget` of heal.go, and the ports
-- file of portsfile.go. What `heal` runs is one tick of its timer; the timer and the goroutine are
-- left out. What `claim` and `Release` do with it is in Leases, how a service listens in Listen.
pub mod Store
pub mod Listen
pub mod Reached
pub mod Leases
pub mod Leased
pub mod Files
pub mod Daemon
pub mod Rows
use doze_names.Prelude.{
  ℕ, Bool, true, false, not, ◌&&◌, ◌||◌, List, [], ◌∷◌, Option, none, some, ltb, leb, ◌==◌,
  if◌then◌else◌,
}
use doze_names.Text.{Bytes, eq_bytes}
use doze_names.Table.{Table, lookup, insert, delete}
use doze_names.Decimal.{itoa}
use doze_names.Registry.{
  Entry, Content, absent, unreadable, garbled, null, holds, Failure, bad_port, not_held, Process,
  Edit, refuse, accept,
}
use doze_names.Registry.Claims.{mine}

-- `ports[strconv.Itoa(public)] = private`, or its deletion where `private` is 0
unfoldable pub with_port : ℕ → ℕ → Table ℕ → Table ℕ
with_port public private ports =
    if private == 0 then delete (itoa public) ports else insert (itoa public) private ports

-- is it a port?
unfoldable pub is_port : ℕ → Bool
is_port p = ltb 0 p && ltb p 65536

-- the function that `setPort` runs; it leaves the new ports with its caller
unfoldable pub set_port_edit : Process → Bytes → ℕ → ℕ → Table Entry → Edit (Table ℕ)
set_port_edit self host public private m = elim (mine self (lookup host m)) [
  | none ↦ refuse (not_held host)
  | some e ↦
      accept (with_port public private e.ports)
        (insert host (record e { ports = with_port public private e.ports }) m)
]

-- `remember`: what the process keeps of its own forwards
unfoldable pub remember : Bytes → ℕ → ℕ → Table (Table ℕ) → Table (Table ℕ)
remember host public private forwards =
    let own : Table ℕ = elim (lookup host forwards) [ none ↦ [] | some ports ↦ ports ] in
    if private == 0
    then (elim (delete (itoa public) own) [
      | [] ↦ delete host forwards
      | p ∷ ps ↦ insert host (delete (itoa public) own) forwards
    ])
    else insert host (insert (itoa public) private own) forwards

-- every port of the second map, put into the first
unfoldable pub merge_ports : Table ℕ → Table ℕ → Table ℕ
merge_ports base [] = base
merge_ports base ((k, v) ∷ more) = merge_ports (insert k v base) more

-- is one of the ports not as it should be? A missing port reads as 0.
unfoldable pub some_missing : Table ℕ → Table ℕ → Bool
some_missing have [] = false
some_missing have ((k, v) ∷ more) =
    not (elim (lookup k have) [ none ↦ 0 == v | some w ↦ w == v ]) || some_missing have more

-- `heal` on one name
unfoldable pub heal_name : Process → Bytes → Table ℕ → Table Entry → Table Entry
heal_name self host want m = elim (mine self (lookup host m)) [
  | none ↦ m
  | some e ↦
      if some_missing e.ports want
      then insert host (record e { ports = merge_ports e.ports want }) m
      else m
]

unfoldable pub heal_names : Process → Table (Table ℕ) → Table Entry → Table Entry
heal_names self [] m = m
heal_names self ((host, want) ∷ more) m = heal_names self more (heal_name self host want m)

-- the function that `heal` runs
unfoldable pub heal_edit : Process → Table (Table ℕ) → Table Entry → Edit (Unit {0})
heal_edit self forwards m = accept tt (heal_names self forwards m)
