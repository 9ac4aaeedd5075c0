-- ===== src/Registry/Update.antt =====
-- `Registry.update` and `Registry.Snapshot`.
pub mod Atomic
use doze_names.Prelude.{
  ℕ, Bool, true, false, ◌&&◌, List, [], ◌∷◌, Option, none, some, ltb, if◌then◌else◌,
}
use doze_names.Text.{Bytes}
use doze_names.Table.{Table, lookup, insert, keep_if, delete}
use doze_names.Registry.{
  Entry, blank_entry, Content, absent, unreadable, garbled, null, holds, Failure, io_error,
  newer_format, Io, Process, Edit, refuse, accept, Outcome, crash, done, format_key, format_version,
}

-- the entry that records the version
abbrev pub stamp : Process → Entry
stamp self = record blank_entry { pid = self.pid; owner = self.owner; format = format_version }

-- the entries whose process is alive, the version's taken out
unfoldable pub prune : (ℕ → Bool) → Table Entry → Table Entry
prune alive m = keep_if (λ host e. alive e.pid) (delete format_key m)

-- does the file come from a newer program?
unfoldable pub newer : Option Entry → Option ℕ
newer none = none
newer (some e) = if ltb format_version e.format then some e.format else none

module _ {ℓ} {A : Type ℓ} where
  -- from the function's result to the end of `update`, on a map
  unfoldable pub write_back : Io → Process → Content Entry → Edit A → Outcome A
  write_back io self file (refuse e) = done (some e) none file
  write_back io self file (accept a m) =
      if io.write && io.rename
      then done none (some a) (holds (insert format_key (stamp self) m))
      else done (some io_error) (some a) file

  -- the same where the map is nil: writing the version panics, if the function has not before
  unfoldable pub write_nil : Edit A → Outcome A
  write_nil (refuse e) = done (some e) none null
  write_nil (accept a m) = crash

  -- on the map that was read
  unfoldable pub edit_map :
      (ℕ → Bool) → Io → Process → (Table Entry → Edit A) → Content Entry → Table Entry → Outcome A
  edit_map alive io self fn file m = elim (newer (lookup format_key m)) [
    | some have ↦ done (some (newer_format have)) none file
    | none ↦ write_back io self file (fn (prune alive m))
  ]

  unfoldable pub edit_content :
      (ℕ → Bool) → Io → Process → (Table Entry → Edit A) → Content Entry → Outcome A
  edit_content alive io self fn absent = edit_map alive io self fn absent []
  edit_content alive io self fn unreadable = done (some io_error) none unreadable
  edit_content alive io self fn garbled = edit_map alive io self fn garbled []
  edit_content alive io self fn null = write_nil (fn [])
  edit_content alive io self fn (holds m) = edit_map alive io self fn (holds m) m

  -- `update`: `alive` says which processes run
  unfoldable pub update :
      (ℕ → Bool) → Io → Process → (Table Entry → Edit A) → Content Entry → Outcome A
  update alive io self fn file =
      if io.mkdir && io.open_lock && io.lock
      then edit_content alive io self fn file
      else done (some io_error) none file

-- the copy that `Snapshot` makes
unfoldable pub copy_all : Table Entry → Edit (Table Entry)
copy_all m = accept m m

-- `Snapshot`: the file is pruned and written back; the error is dropped
unfoldable pub snapshot_run : (ℕ → Bool) → Io → Process → Content Entry → Outcome (Table Entry)
snapshot_run alive io self file = update alive io self copy_all file

-- `none` where the run panics; nothing is copied where the function did not run
unfoldable pub copied : Outcome (Table Entry) → Option (Table Entry)
copied crash = none
copied (done _ none _) = some []
copied (done _ (some m) _) = some m

unfoldable pub snapshot : (ℕ → Bool) → Io → Process → Content Entry → Option (Table Entry)
snapshot alive io self file = copied (snapshot_run alive io self file)
