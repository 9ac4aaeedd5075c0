-- ===== src/Registry/Update/Atomic.antt =====
-- What a run of `update` leaves in the file.
use doze_names.Prelude.{
  ℕ, Bool, true, ◌&&◌, [], ◌∷◌, Option, none, some, ◌≡◌, refl, ap, ◌∙◌, arith, Bool-cases,
  Option-cases, inl, inr,
}
use doze_names.Text.{Bytes}
use doze_names.Text.Laws.{eq_bytes_refl}
use doze_names.Table.{Table, lookup, insert, delete}
use doze_names.Table.Laws.{lookup-insert}
use doze_names.Registry.{
  Entry, Content, absent, unreadable, garbled, null, holds, Io, Process, Edit, refuse, accept,
  Outcome, crash, done, format_key,
}
use doze_names.Registry.Update.{
  stamp, prune, newer, write_back, write_nil, edit_map, edit_content, update, copy_all,
  snapshot_run, copied, snapshot,
}

-- the map that the file holds; a file that holds none is read as the empty map
abbrev pub table_of : Content Entry → Table Entry
table_of (holds m) = m
table_of _ = []

module _ {A : Type 0} (alive : ℕ → Bool) (io : Io) (self : Process)
    (fn : Table Entry → Edit A) where
  -- What a run may do: panic on the JSON text `null`; fail, and leave the file alone; or write the
  -- whole result of the function on the live entries of the file, with the version's entry.
  abbrev pub Ends : Content Entry → Outcome A → Type 0
  Ends file crash = file ≡ null
  Ends file (done (some f) v file') = file' ≡ file
  Ends file (done none v file') =
      (a : A) × (m : Table Entry) × (v ≡ some a)
      × (fn (prune alive (table_of file)) ≡ accept a m)
      × (file' ≡ holds (insert format_key (stamp self) m))

  write_back-Ends :
      (file : Content Entry) (e : Edit A)
      → fn (prune alive (table_of file)) ≡ e
      → Ends file (write_back io self file e)
  unfolding write_back
  write_back-Ends file (refuse f) p = refl
  write_back-Ends file (accept a m) p = elim (Bool-cases (io.write && io.rename)) [
    | inl well ↦ rw (well, Ends) (a, m, refl, p, refl)
    | inr ill ↦ rw (ill, Ends) refl
  ]

  edit_map-Ends :
      (file : Content Entry) → Ends file (edit_map alive io self fn file (table_of file))
  unfolding edit_map
  edit_map-Ends file = elim (Option-cases (newer (lookup format_key (table_of file)))) [
    | inl known ↦ rw (known, Ends) (write_back-Ends file _ refl)
    | inr (have, future) ↦ rw (future, Ends) refl
  ]

  write_nil-Ends : (e : Edit A) → Ends null (write_nil e)
  unfolding write_nil
  write_nil-Ends (refuse f) = refl
  write_nil-Ends (accept a m) = refl

  edit_content-Ends : (file : Content Entry) → Ends file (edit_content alive io self fn file)
  unfolding edit_content
  edit_content-Ends absent = edit_map-Ends absent
  edit_content-Ends unreadable = refl
  edit_content-Ends garbled = edit_map-Ends garbled
  edit_content-Ends null = write_nil-Ends (fn [])
  edit_content-Ends (holds m) = edit_map-Ends (holds m)

  -- Every run of `update` ends in one of three ways. It panics, which happens only on a file that
  -- holds the JSON text `null`; or it reports an error and leaves the file as it was; or it reports
  -- none, and the file holds the version's entry and all that the function made of the live entries.
  pub update-Ends : (file : Content Entry) → Ends file (update alive io self fn file)
  unfolding update
  update-Ends file = elim (Bool-cases (io.mkdir && io.open_lock && io.lock)) [
    | inl well ↦ rw (well, Ends) (edit_content-Ends file)
    | inr ill ↦ rw (ill, Ends) refl
  ]

  -- On a file that holds the JSON text `null`, a run that gets the lock panics whenever its function
  -- makes a change.
  pub update_null :
      (a : A) (m : Table Entry)
      → (io.mkdir && io.open_lock && io.lock) ≡ true
      → fn [] ≡ accept a m
      → update alive io self fn null ≡ crash
  unfolding update edit_content write_nil
  update_null a m well p = rw (well, p) refl

delete-insert : (k : Bytes) (v : Entry) (m : Table Entry) → delete k (insert k v m) ≡ delete k m
unfolding delete insert
delete-insert k v [] = ground (arith, eq_bytes_refl k)
delete-insert k v ((j, w) ∷ m) = ground (arith, eq_bytes_refl k, delete-insert k v m)

prune-insert :
    (alive : ℕ → Bool) (e : Entry) (m : Table Entry)
    → prune alive (insert format_key e m) ≡ prune alive m
unfolding prune
prune-insert alive e m = rw (delete-insert format_key e m)

stamp_not_newer :
    (self : Process) (m : Table Entry)
    → newer (lookup format_key (insert format_key (stamp self) m)) ≡ none
unfolding newer
stamp_not_newer self m =
    rw (lookup-insert format_key format_key (stamp self) m, eq_bytes_refl format_key) refl

copied-write_back :
    (io : Io) (self : Process) (file : Content Entry) (m : Table Entry)
    → copied (write_back io self file (accept m m)) ≡ some m
unfolding copied write_back
copied-write_back io self file m = ground arith

snapshot_known :
    (alive : ℕ → Bool) (io : Io) (self : Process) (m : Table Entry)
    → (io.mkdir && io.open_lock && io.lock) ≡ true
    → newer (lookup format_key m) ≡ none
    → snapshot alive io self (holds m) ≡ some (prune alive m)
unfolding snapshot snapshot_run update edit_content edit_map copy_all copied
snapshot_known alive io self m well known =
    rw well (rw (known, copied) (copied-write_back io self (holds m) (prune alive m)))

-- What a run wrote is what any process reads next that gets the lock: the map that the function
-- made, without the entries of the processes that have ended since. Nothing else of it is lost,
-- whether the reader's own write works or not.
pub snapshot-update :
    {A : Type 0} (alive later : ℕ → Bool) (io io' : Io) (self reader : Process)
    (fn : Table Entry → Edit A) (file : Content Entry) {v : Option A} {file' : Content Entry}
    → update alive io self fn file ≡ done none v file'
    → (io'.mkdir && io'.open_lock && io'.lock) ≡ true
    → (a : A) × (m : Table Entry) × (fn (prune alive (table_of file)) ≡ accept a m)
      × (snapshot later io' reader file' ≡ some (prune later m))
snapshot-update alive later io io' self reader fn file {v} {file'} e well =
    let (a, m, left, accepted, written) = rw e at (update-Ends alive io self fn file) in
    (
      a,
      m,
      accepted,
      rw written (
          snapshot_known later io' reader (insert format_key (stamp self) m) well
            (stamp_not_newer self m)
          ∙ ap some (prune-insert later (stamp self) m)),
    )
