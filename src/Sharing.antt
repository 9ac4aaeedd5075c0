-- ===== src/Sharing.antt =====
-- Every operation of the package on the registry file as one step of one process, and what holds of
-- the file after any sequence of such steps, by any processes in any order.
pub mod Exclusive
pub mod Edits
pub mod Steps
use doze_names.Prelude.{ℕ, Bool, List, [], ◌∷◌, Option, none, some}
use doze_names.Text.{Bytes, Unicode}
use doze_names.Table.{Table}
use doze_names.Names.{Name}
use doze_names.Net.{Ip}
use doze_names.Pool.{Network}
use doze_names.Registry.{
  Entry, Content, Failure, Io, Process, Edit, refuse, accept, Outcome, crash, done,
}
use doze_names.Registry.Update.{update, copy_all}
use doze_names.Registry.Claims.{claim_edit, release_edit}
use doze_names.Registry.Doors.{
  claim_port_edit, release_port_edit, route_edit, route_for_edit, certificate_edit,
}
use doze_names.Registry.Stacks.{claim_stack_edit, release_stack_edit}
use doze_names.Ports.{set_port_edit, heal_edit}

-- One call on the registry.
pub data Op : Type 0 where
  read : Op
  claim : Name → Option Ip → (shared : Bool) → Op
  release : (host : Bytes) → Op
  release_port release_stack : Bytes → Op
  hold_port : (key addr : Bytes) → Op
  route route_for : (host target : Bytes) → Op
  certificate : (host cert key : Bytes) → Op
  claim_stack : (name dir : Bytes) → Op
  set_port : (host : Bytes) → (public private : ℕ) → Op
  heal : Table (Table ℕ) → Op

abbrev pub drop_value {ℓ} : {A : Type ℓ} → Edit A → Edit (Unit {0})
drop_value (refuse e) = refuse e
drop_value (accept a m) = accept tt m

module _ ⦃u : Unicode⦄ (net : Network) where
  -- the function that the call runs under the lock
  unfoldable pub edit_of : (ℕ → Bool) → Process → Op → Table Entry → Edit (Unit {0})
  edit_of alive self read m = drop_value (copy_all m)
  edit_of alive self (claim n want shared) m =
      drop_value (claim_edit net alive self n want shared m)
  edit_of alive self (release host) m = release_edit self host m
  edit_of alive self (release_port key) m = release_port_edit self key m
  edit_of alive self (release_stack name) m = release_stack_edit self name m
  edit_of alive self (hold_port key addr) m = claim_port_edit self key addr m
  edit_of alive self (route host target) m = route_edit self host target m
  edit_of alive self (route_for host target) m = route_for_edit self host target m
  edit_of alive self (certificate host cert key) m = certificate_edit self host cert key m
  edit_of alive self (claim_stack name dir) m = claim_stack_edit self name dir m
  edit_of alive self (set_port host public private) m =
      drop_value (set_port_edit self host public private m)
  edit_of alive self (heal forwards) m = heal_edit self forwards m

-- A panic leaves the file as it is.
unfoldable pub file_after : Content Entry → Outcome (Unit {0}) → Content Entry
file_after file crash = file
file_after file (done _ _ file') = file'

-- One call: which processes run, which system calls succeed, who calls, and what.
pub record Step : Type 0 where
  pub alive : ℕ → Bool
  pub io : Io
  pub self : Process
  pub op : Op

module _ ⦃u : Unicode⦄ (net : Network) where
  unfoldable pub step : Step → Content Entry → Content Entry
  step s file = file_after file (update s.alive s.io s.self (edit_of net s.alive s.self s.op) file)

  unfoldable pub run : List Step → Content Entry → Content Entry
  run [] file = file
  run (s ∷ ss) file = run ss (step s file)
