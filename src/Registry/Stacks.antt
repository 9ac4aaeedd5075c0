-- ===== src/Registry/Stacks.antt =====
-- `ClaimStack`, the release that it returns, and `ReservedStack`.
pub mod Names
use doze_names.Prelude.{
  ℕ, Bool, true, false, not, ◌&&◌, ◌++◌, Option, none, some, ◌==◌, if◌then◌else◌,
}
use doze_names.Text.{Bytes, Unicode, codes, eq_bytes}
use doze_names.Table.{Table, lookup, insert}
use doze_names.Names.{label}
use doze_names.Pool.{apex_offset}
use doze_names.Registry.{Entry, blank_entry, stack_taken, Process, Edit, refuse, accept}
use doze_names.Registry.Doors.{release_port_edit}

-- `stackPrefix`
abbrev pub stack_prefix : Bytes
stack_prefix = codes "_stack."

-- the other project that has the name
unfoldable pub other_project : Process → Bytes → Option Entry → Option Entry
other_project self dir none = none
other_project self dir (some cur) =
    if not (cur.pid == self.pid) && not (eq_bytes cur.target dir) then some cur else none

module _ ⦃u : Unicode⦄ where
  unfoldable pub stack_key : Bytes → Bytes
  stack_key name = stack_prefix ++ label name

  -- the function that `ClaimStack` runs
  unfoldable pub claim_stack_edit : Process → Bytes → Bytes → Table Entry → Edit (Unit {0})
  claim_stack_edit self name dir m = elim (other_project self dir (lookup (stack_key name) m)) [
    | some cur ↦ refuse (stack_taken name cur.target cur.pid)
    | none ↦ accept tt (
        insert (stack_key name)
          (record blank_entry { pid = self.pid; owner = self.owner; target = dir }) m)
  ]

  -- the function that the release runs
  unfoldable pub release_stack_edit : Process → Bytes → Table Entry → Edit (Unit {0})
  release_stack_edit self name = release_port_edit self (stack_key name)

  -- `ReservedStack`
  unfoldable pub reserved_stack : Bytes → Bool
  reserved_stack name = elim (apex_offset (label name)) [ none ↦ false | some off ↦ true ]
