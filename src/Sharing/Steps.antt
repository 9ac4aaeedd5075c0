-- ===== src/Sharing/Steps.antt =====
-- The invariant after any sequence of calls.
use doze_names.Prelude.{ℕ, Bool, ◌&&◌, List, [], ◌∷◌, All, refl, Bool-cases, Option-cases, inl, inr}
use doze_names.Text.{Unicode}
use doze_names.Table.{Table, lookup}
use doze_names.Pool.{Network}
use doze_names.Pool.Slots.{IsNetwork}
use doze_names.Registry.{
  Entry, Content, absent, unreadable, garbled, null, holds, Io, Process, Edit, refuse, accept,
  format_key,
}
use doze_names.Registry.Update.{
  update, edit_content, edit_map, write_back, write_nil, newer, prune, stamp,
}
use doze_names.Sharing.{Step, file_after, edit_of, step, run}
use doze_names.Sharing.Edits.{OpIsValid, edit_of-IsSound}
use doze_names.Sharing.Edits.Place.{EditIsSound}
use doze_names.Sharing.Exclusive.{
  IsSound, FileIsSound, Fits-blank, insert-IsSound, prune-IsSound, IsSound-nil,
}

module _ {net : Network} (alive : ℕ → Bool) (io : Io) (self : Process)
    (fn : Table Entry → Edit (Unit {0}))
    (keeps : (m : Table Entry) → IsSound net m → EditIsSound net (fn m)) where
  write_back-IsSound :
      (file : Content Entry) (e : Edit (Unit {0}))
      → FileIsSound net file
      → EditIsSound net e
      → FileIsSound net (file_after file (write_back io self file e))
  unfolding write_back file_after
  write_back-IsSound file (refuse f) before s = before
  write_back-IsSound file (accept a m) before s = elim (Bool-cases (io.write && io.rename)) [
    | inl well ↦
        rw (well, file_after)
          (insert-IsSound format_key (stamp self) s (Fits-blank format_key (stamp self) refl))
    | inr ill ↦ rw (ill, file_after) before
  ]

  edit_map-IsSound :
      (file : Content Entry) (m : Table Entry)
      → FileIsSound net file
      → IsSound net m
      → FileIsSound net (file_after file (edit_map alive io self fn file m))
  unfolding edit_map file_after
  edit_map-IsSound file m before s = elim (Option-cases (newer (lookup format_key m))) [
    | inl known ↦
        rw (known, file_after)
          (write_back-IsSound file (fn (prune alive m)) before
            (keeps (prune alive m) (prune-IsSound alive m s)))
    | inr (have, future) ↦ rw (future, file_after) before
  ]

  write_nil-IsSound : (e : Edit (Unit {0})) → FileIsSound net (file_after null (write_nil e))
  unfolding write_nil file_after
  write_nil-IsSound (refuse f) = tt
  write_nil-IsSound (accept a m) = tt

  edit_content-IsSound :
      (file : Content Entry)
      → FileIsSound net file
      → FileIsSound net (file_after file (edit_content alive io self fn file))
  unfolding edit_content
  edit_content-IsSound absent s = edit_map-IsSound absent [] tt (IsSound-nil net)
  edit_content-IsSound unreadable s = unfold file_after in tt
  edit_content-IsSound garbled s = edit_map-IsSound garbled [] tt (IsSound-nil net)
  edit_content-IsSound null s = write_nil-IsSound (fn [])
  edit_content-IsSound (holds m) s = edit_map-IsSound (holds m) m s s

  update-IsSound :
      (file : Content Entry)
      → FileIsSound net file
      → FileIsSound net (file_after file (update alive io self fn file))
  unfolding update
  update-IsSound file s = elim (Bool-cases (io.mkdir && io.open_lock && io.lock)) [
    | inl well ↦ rw well (edit_content-IsSound file s)
    | inr ill ↦ rw ill (unfold file_after in s)
  ]

module _ ⦃u : Unicode⦄ (net : Network) (wf : IsNetwork net) where
  step-IsSound :
      (s : Step) (file : Content Entry)
      → OpIsValid s.op
      → FileIsSound net file
      → FileIsSound net (step net s file)
  unfolding step
  step-IsSound s file v =
      update-IsSound s.alive s.io s.self (edit_of net s.alive s.self s.op)
        (λ m. edit_of-IsSound net s.alive s.self s.op m wf v) file

  -- After any sequence of calls, by any processes in any order, whichever processes live at each
  -- call and whichever system calls fail, a file that was sound is sound: no name stands in it
  -- twice, and two names at one hashed address belong to one process. The addresses that `ClaimAt`
  -- is asked for have four octets.
  pub run-IsSound :
      (steps : List Step) (file : Content Entry)
      → All (λ s. OpIsValid s.op) steps
      → FileIsSound net file
      → FileIsSound net (run net steps file)
  unfolding run
  run-IsSound [] file v h = h
  run-IsSound (s ∷ steps) file v h =
      run-IsSound steps (step net s file) v.1 (step-IsSound s file v.0 h)
