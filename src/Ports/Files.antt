-- ===== src/Ports/Files.antt =====
-- portsfile.go, and `forget` of heal.go: the file beside the registry that holds the translated ports
-- alone. The JSON text `null` reads as a nil map, which can be read but not written to.
use doze_names.Prelude.{
  ℕ, Bool, true, false, ◌&&◌, [], ◌∷◌, Option, none, some, ◌≡◌, refl, sym, ◌∙◌, arith, ◌==◌,
  if◌then◌else◌, Bool-cases, inl, inr,
}
use doze_names.Text.{Bytes, eq_bytes}
use doze_names.Text.Laws.{eq_bytes_refl}
use doze_names.Table.{Table, lookup, insert, delete, keep_if}
use doze_names.Table.Laws.{lookup-insert, lookup-keep_if_kept}
use doze_names.Registry.{Content, absent, unreadable, garbled, null, holds, Failure, io_error, Io}

-- `portsEntry`
pub record PortsEntry : Type 0 where
  pub pid : ℕ
  pub ip : Bytes
  pub ports : Table ℕ

-- `readPorts`
unfoldable pub read_ports : Content PortsEntry → Table PortsEntry
read_ports (holds m) = m
read_ports _ = []

unfoldable pub is_null : Content PortsEntry → Bool
is_null null = true
is_null _ = false

-- how a run ends: with a panic, or with an error or none, and the file
pub data Written : Type 0 where
  crash : Written
  done : (failed : Option Failure) (file : Content PortsEntry) → Written

-- an entry of the process is taken out
unfoldable pub drop_mine : ℕ → Bytes → Table PortsEntry → Table PortsEntry
drop_mine pid host m = elim (lookup host m) [
  | none ↦ m
  | some e ↦ if e.pid == pid then delete host m else m
]

-- a nil map is written as it was read
unfoldable pub as_text : Content PortsEntry → Table PortsEntry → Content PortsEntry
as_text null m = null
as_text _ m = holds m

unfoldable pub finish : Io → Content PortsEntry → Table PortsEntry → Written
finish io file m =
    if io.write && io.rename then done none (as_text file m) else done (some io_error) file

-- what is written, from the file's map
unfoldable pub put_ports : Io → Bytes → PortsEntry → Content PortsEntry → Table PortsEntry → Written
put_ports io host e file m = elim e.ports [
  | [] ↦ finish io file (drop_mine e.pid host m)
  | p ∷ ps ↦ if is_null file then crash else finish io file (insert host e m)
]

-- `writePorts`, of the entry's process, address and ports
unfoldable pub write_ports : (ℕ → Bool) → Io → Bytes → PortsEntry → Content PortsEntry → Written
write_ports alive io host e file =
    if io.mkdir && io.open_lock && io.lock
    then put_ports io host e file (keep_if (λ h old. alive old.pid) (read_ports file))
    else done (some io_error) file

-- `forget`: the forwards that the process keeps, and the file, without the name
unfoldable pub forget :
    (ℕ → Bool) → Io → ℕ → Bytes → Table (Table ℕ) → Content PortsEntry → Table (Table ℕ) × Written
forget alive io pid host forwards file = elim (lookup host forwards) [
  | none ↦ (delete host forwards, done none file)
  | some kept ↦ (
    delete host forwards,
    write_ports alive io host (record { pid = pid; ip = []; ports = [] }) file,
  )
]

as_text-map :
    (file : Content PortsEntry) (m : Table PortsEntry)
    → is_null file ≡ false
    → as_text file m ≡ holds m
unfolding as_text is_null
as_text-map null m map = cc
as_text-map absent m map = refl
as_text-map unreadable m map = refl
as_text-map garbled m map = refl
as_text-map (holds old) m map = refl

module _ (alive : ℕ → Bool) (io : Io) (host : Bytes) (e : PortsEntry)
    (file file' : Content PortsEntry) where
  kept : Table PortsEntry
  kept = keep_if (λ h old. alive old.pid) (read_ports file)

  crash-done {ℓ} : {o : Option Failure} {c : Content PortsEntry} {A : Type ℓ} → crash ≡ done o c → A
  crash-done h = cc

  finish-none :
      (m : Table PortsEntry)
      → is_null file ≡ false
      → finish io file m ≡ done none file'
      → file' ≡ holds m
  unfolding finish
  finish-none m map h = elim (Bool-cases (io.write && io.rename)) [
    | inl well ↦
        let written : done none (as_text file m) ≡ done none file' = rw (well, finish) at h in
        let same : as_text file m ≡ file' = ground (arith, written) in
        sym same ∙ as_text-map file m map
    | inr ill ↦ cc
  ]

  write_ports-none :
      (p : Bytes × ℕ) (ps : Table ℕ)
      → e.ports ≡ p ∷ ps
      → write_ports alive io host e file ≡ done none file'
      → file' ≡ holds (insert host e kept)
  unfolding kept write_ports put_ports
  write_ports-none p ps some_ports h = elim (Bool-cases (io.mkdir && io.open_lock && io.lock)) [
    | inr ill ↦
        let failed : done (some io_error) file ≡ done none file' = rw (ill, write_ports) at h in
        absurd (cc)
    | inl well ↦ elim (Bool-cases (is_null file)) [
      | inl nil ↦
          let failed : crash ≡ done none file' =
            rw (well, some_ports, nil, write_ports, put_ports) at h in
          absurd (cc)
      | inr map ↦
          finish-none (insert host e kept) map
            (rw (well, some_ports, map, write_ports, put_ports) at h)
    ]
  ]

  -- Where a process writes ports that are not empty and no error is reported, the name reads as the
  -- entry that was written, and every other name of a live process as before.
  pub read_ports-write_ports :
      (p : Bytes × ℕ) (ps : Table ℕ)
      → e.ports ≡ p ∷ ps
      → write_ports alive io host e file ≡ done none file'
      → (lookup host (read_ports file') ≡ some e)
        × ((other : Bytes) (old : PortsEntry)
            → eq_bytes host other ≡ false
            → lookup other (read_ports file) ≡ some old
            → alive old.pid ≡ true
            → lookup other (read_ports file') ≡ some old)
  unfolding read_ports kept
  read_ports-write_ports p ps some_ports h =
      let written = write_ports-none p ps some_ports h in
      (
        rw (written, lookup-insert host host e kept, eq_bytes_refl host) refl,
        λ other old apart before living.
            rw (written, lookup-insert host other e kept, apart)
              (lookup-keep_if_kept (λ h old. alive old.pid) other (read_ports file) before living),
      )
