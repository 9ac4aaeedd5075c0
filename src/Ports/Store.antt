-- ===== src/Ports/Store.antt =====
-- `setPort` of listen.go in full: the registry, the forwards that the process keeps, the ports file.
use doze_names.Prelude.{ℕ, Bool, Option, none, some, if◌then◌else◌}
use doze_names.Text.{Bytes}
use doze_names.Table.{Table}
use doze_names.Registry.{Entry, Content, Failure, bad_port, Io, Process, Outcome}
use doze_names.Registry.Update.{update}
use doze_names.Ports.{is_port, set_port_edit, remember}
use doze_names.Ports.Files.{PortsEntry, Written, write_ports}

-- the two files, and what the process keeps
pub record Forwarding : Type 0 where
  pub registry : Content Entry
  pub side : Content PortsEntry
  pub kept : Table (Table ℕ)

-- the error, if there is one; `none` where the run panics
abbrev pub Ended : Type 0
Ended = Option (Option Failure × Forwarding)

unfoldable pub after_side : Forwarding → Content Entry → Table (Table ℕ) → Written → Ended
after_side s registry kept Written.crash = none
after_side s registry kept (Written.done failed side) =
    some (failed, record { registry = registry; side = side; kept = kept })

unfoldable pub after_update :
    (ℕ → Bool) → Io → Process → Bytes → Bytes → ℕ → ℕ → Forwarding → Outcome (Table ℕ) → Ended
after_update alive io self host ip public private s Outcome.crash = none
after_update alive io self host ip public private s (Outcome.done (some e) v file) =
    some (some e, record s { registry = file })
after_update alive io self host ip public private s (Outcome.done none none file) =
    some (none, record s { registry = file })
after_update alive io self host ip public private s (Outcome.done none (some ports) file) =
    after_side s file (remember host public private s.kept)
      (write_ports alive io host (record { pid = self.pid; ip = ip; ports = ports }) s.side)

-- `setPort`; the first `Io` is of the registry, the second of the ports file
unfoldable pub set_port :
    (ℕ → Bool) → Io → Io → Process → Bytes → Bytes → ℕ → ℕ → Forwarding → Ended
set_port alive io io' self host ip public private s =
    if is_port public
    then after_update alive io' self host ip public private s
        (update alive io self (set_port_edit self host public private) s.registry)
    else some (some (bad_port public), s)
