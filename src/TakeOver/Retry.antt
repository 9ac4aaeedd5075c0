-- ===== src/TakeOver/Retry.antt =====
-- That nothing but its end takes a process out of the loop, and that it can always take a free port.
use doze_names.Prelude.{
  ℕ, Bool, true, false, not, ◌||◌, ◌==◌, ◌≡◌, refl, ap, ◌∙◌, arith, Bool-cases, inl, inr,
}
use doze_names.Text.{Bytes}
use doze_names.Table.{Table}
use doze_names.Registry.{Entry}
use doze_names.TakeOver.{
  free, held_by, Phase, trying, binding, serving, closing, waiting, gone, Peer, World, set_peer,
  owns, announce, stand_by, begin_serving, after_release, claimed, released, Step, takes, misses,
  claims, ends, releases, wakes, leaves, cancels, dies, sweeps, stranger_takes, stranger_leaves,
  Steps, stays, goes_on, start,
}
use doze_names.TakeOver.Tidy.{has_port, is_serving}
use doze_names.TakeOver.Holder.{run-IsOrderly, start-IsOrderly}

-- out of the loop?
unfoldable pub is_out : Phase → Bool
is_out gone = true
is_out _ = false

-- a process that is out of the loop was told to stop, or is dead
unfoldable is_kept : Peer → Bool
is_kept x = not (is_out x.phase) || x.cancelled || x.dead

set_peer_kept :
    (p : ℕ) (x : Peer) (peers : ℕ → Peer) (q : ℕ)
    → (is_kept (peers p) ≡ true → is_kept x ≡ true)
    → ((r : ℕ) → is_kept (peers r) ≡ true)
    → is_kept (set_peer p x peers q) ≡ true
unfolding set_peer
set_peer_kept p x peers q own all = elim (Bool-cases (q == p)) [
  | inl same ↦ rw same (own (all p))
  | inr other ↦ rw other (all q)
]

module _ (key addr : Bytes) (owner : ℕ → Bytes) where
  AllKept : World → Type 0
  AllKept w = (q : ℕ) → is_kept (w.peers q) ≡ true

  step-AllKept : (w w' : World) → Step key addr owner w w' → AllKept w → AllKept w'
  unfolding AllKept is_kept is_out stand_by announce begin_serving after_release
  step-AllKept _ _ (takes w p here idle) all q = set_peer_kept p _ w.peers q (λ h. refl) all
  step-AllKept _ _ (misses w p here) all q = set_peer_kept p _ w.peers q (λ h. refl) all
  step-AllKept _ _ (claims w p written here) all q = set_peer_kept p _ w.peers q (λ h. refl) all
  step-AllKept _ _ (ends w p here) all q = set_peer_kept p _ w.peers q (λ h. refl) all
  step-AllKept _ _ (releases w p written here) all q =
      set_peer_kept p _ w.peers q (λ h. ground arith) all
  step-AllKept _ _ (wakes w p here) all q = set_peer_kept p _ w.peers q (λ h. refl) all
  step-AllKept _ _ (leaves w p here stopped) all q =
      set_peer_kept p _ w.peers q (λ h. ground (arith, stopped)) all
  step-AllKept _ _ (cancels w p) all q = set_peer_kept p _ w.peers q (λ h. ground arith) all
  step-AllKept _ _ (dies w p) all q = set_peer_kept p _ w.peers q (λ h. ground arith) all
  step-AllKept _ _ (sweeps w p e over found of_p) all q = all q
  step-AllKept _ _ (stranger_takes w idle) all q = all q
  step-AllKept _ _ (stranger_leaves w held) all q = all q

  run-AllKept : (w w' : World) → Steps key addr owner w w' → AllKept w → AllKept w'
  run-AllKept _ _ (stays w) all = all
  run-AllKept _ _ (goes_on w w' w'' s more) all = run-AllKept w' w'' more (step-AllKept w w' s all)

  set_peer_same : (p : ℕ) (x : Peer) (peers : ℕ → Peer) → set_peer p x peers p ≡ x
  unfolding set_peer
  set_peer_same p x peers = ground arith

  -- steps of some processes after which one has the port and serves
  abbrev pub CanServe : ℕ → World → Type 0
  CanServe p w =
      (w' : World) × Steps key addr owner w w'
      × (w'.socket ≡ held_by p)
      × (is_serving (w'.peers p).phase ≡ true)

  from_trying : (p : ℕ) (w : World) → (w.peers p).phase ≡ trying → w.socket ≡ free → CanServe p w
  unfolding begin_serving is_serving
  from_trying p w here idle =
      let x = record (w.peers p) { phase = binding } in
      let taken : World = record w { socket = held_by p; peers = set_peer p x w.peers } in
      let bound : (taken.peers p).phase ≡ binding = ap (λ y. y.phase) (set_peer_same p x w.peers) in
      let now : World = record taken {
        map = claimed key addr owner true p taken.map;
        peers = set_peer p (begin_serving true (taken.peers p)) taken.peers;
      } in
      (
        now,
        goes_on w taken now (takes w p here idle)
            (goes_on taken now now (claims taken p true bound) (stays now)),
        refl,
        ap (λ y. is_serving y.phase)
            (set_peer_same p (begin_serving true (taken.peers p)) taken.peers),
      )

  from_waiting : (p : ℕ) (w : World) → (w.peers p).phase ≡ waiting → w.socket ≡ free → CanServe p w
  from_waiting p w here idle =
      let x = record (w.peers p) { phase = trying } in
      let woken : World = record w { peers = set_peer p x w.peers } in
      let (w', steps, held, serves) =
        from_trying p woken (ap (λ y. y.phase) (set_peer_same p x w.peers)) idle in
      (w', goes_on w woken w' (wakes w p here) steps, held, serves)

  from_closing :
      (p : ℕ) (w : World)
      → (w.peers p).phase ≡ closing
      → (w.peers p).cancelled ≡ false
      → w.socket ≡ free
      → CanServe p w
  unfolding after_release
  from_closing p w here going idle =
      let x = after_release (w.peers p) in
      let over : World = record w {
        map = released key addr owner true p w.map;
        peers = set_peer p x w.peers;
      } in
      let waits : (over.peers p).phase ≡ waiting =
        ap (λ y. y.phase) (set_peer_same p x w.peers) ∙ (rw going refl) in
      let (w', steps, held, serves) = from_waiting p over waits idle in
      (w', goes_on w over w' (releases w p true here) steps, held, serves)

  by_phase :
      (p : ℕ) (w : World) (h : Phase)
      → (w.peers p).phase ≡ h
      → has_port h ≡ false
      → is_out h ≡ false
      → (w.peers p).cancelled ≡ false
      → w.socket ≡ free
      → CanServe p w
  unfolding has_port is_out
  by_phase p w trying here off inside going idle = from_trying p w here idle
  by_phase p w waiting here off inside going idle = from_waiting p w here idle
  by_phase p w closing here off inside going idle = from_closing p w here going idle
  by_phase p w binding here off inside going idle = absurd (cc)
  by_phase p w serving here off inside going idle = absurd (cc)
  by_phase p w gone here off inside going idle = absurd (cc)

  -- A process that is neither told to stop nor dead is in the loop, and never at a dead end: whatever
  -- peers, other programs and deaths did before, in any order, from a free port, and however often its
  -- tries missed, where the port is free some steps lead on to a world in which it has the port and
  -- serves.
  pub always_takes :
      (m : Table Entry) (w : World) (p : ℕ)
      → Steps key addr owner (start m) w
      → (w.peers p).cancelled ≡ false
      → (w.peers p).dead ≡ false
      → w.socket ≡ free
      → (is_out (w.peers p).phase ≡ false) × CanServe p w
  unfolding AllKept is_kept start is_out owns
  always_takes m w p steps going lives idle =
      let kept = run-AllKept (start m) w steps (λ q. refl) p in
      let tidy =
        run-IsOrderly key addr owner (start m) w steps (start-IsOrderly key addr owner m) p in
      let in_loop : is_out (w.peers p).phase ≡ false = ground (arith, kept) in
      let without : has_port (w.peers p).phase ≡ false = tidy.owned ∙ ap (λ s. owns s p) idle in
      (in_loop, by_phase p w (w.peers p).phase refl without in_loop going idle)
