-- ===== src/Resolver/Leak.antt =====
-- What follows when a read fails though nobody told the process to stop.
use doze_names.Prelude.{
  ℕ, Bool, true, false, not, ◌&&◌, ◌||◌, ◌==◌, ◌≡◌, refl, sym, ap, ◌∙◌, subst, arith, Bool-cases,
  inl, inr,
}
use doze_names.Text.{Bytes}
use doze_names.Table.{Table}
use doze_names.Registry.{Entry}
use doze_names.TakeOver.{
  Socket, free, held_by, Phase, trying, binding, closing, gone, Peer, World, set_peer, owns, let_go,
  announce, stand_by, begin_serving, after_release, start,
}
use doze_names.TakeOver.Tidy.{is_serving, has_port, owns-let_go, owned_by_one, serving_has_port}
use doze_names.Resolver.{
  Step, takes, misses, claims, closes, stops_reading, releases, wakes, leaves, cancels, dies,
  sweeps, stranger_takes, stranger_leaves, Steps, stays, goes_on,
}
use doze_names.Resolver.Servers.{run-AllSteady, start-AllSteady}

unfoldable pub is_gone : Phase → Bool
is_gone gone = true
is_gone _ = false

-- the process is told to stop, or out of the loop, or has the socket and does not read from it
unfoldable pub is_stuck : Socket → Peer → ℕ → Bool
is_stuck s x p = x.cancelled || is_gone x.phase || (owns s p && not (has_port x.phase))

module _ (addr : Bytes) (owner : ℕ → Bytes) (in_registry : ℕ → Bool) (p : ℕ) where
  abbrev StaysStuck : World → Type 0
  StaysStuck w = is_stuck w.socket (w.peers p) p ≡ true

  -- a step that changes one process
  set_peer-StaysStuck :
      (w : World) (s : Socket) (r : ℕ) (x : Peer)
      → StaysStuck w
      → (is_stuck w.socket (w.peers r) r ≡ true → is_stuck s x r ≡ true)
      → ((p == r) ≡ false → owns w.socket p ≡ true → owns s p ≡ true)
      → is_stuck s (set_peer r x w.peers p) p ≡ true
  unfolding set_peer is_stuck
  set_peer-StaysStuck w s r x stuck own others = elim (Bool-cases (p == r)) [
    | inl same ↦
        let r_is_p : p ≡ r = ground arith in
        rw same (
          subst (λ k. is_stuck s x k ≡ true) (sym r_is_p)
            (own (subst (λ k. is_stuck w.socket (w.peers k) k ≡ true) r_is_p stuck)))
    | inr other ↦ rw other (ground (arith, stuck, others other))
  ]

  -- and leaves the socket as it is
  aside-StaysStuck :
      (w : World) (r : ℕ) (x : Peer)
      → StaysStuck w
      → (is_stuck w.socket (w.peers r) r ≡ true → is_stuck w.socket x r ≡ true)
      → is_stuck w.socket (set_peer r x w.peers p) p ≡ true
  aside-StaysStuck w r x stuck own = set_peer-StaysStuck w w.socket r x stuck own (λ other h. h)

  owns-let_go_other :
      (r : ℕ) (s : Socket) → (p == r) ≡ false → owns s p ≡ true → owns (let_go r s) p ≡ true
  owns-let_go_other r s other h = owns-let_go r p s ∙ rw other h

  closes-StaysStuck :
      (w : World) (r : ℕ)
      → (w.peers r).cancelled ≡ true
      → StaysStuck w
      → is_stuck (let_go r w.socket) (w.peers p) p ≡ true
  unfolding is_stuck
  closes-StaysStuck w r stopped stuck = elim (Bool-cases (p == r)) [
    | inl same ↦
        let r_is_p : p ≡ r = ground arith in
        let told : (w.peers p).cancelled ≡ true = rw r_is_p stopped in ground (arith, told)
    | inr other ↦ ground (arith, stuck, owns-let_go_other r w.socket other)
  ]

  takes-StaysStuck :
      (w : World) (r : ℕ)
      → (w.peers r).phase ≡ trying
      → w.socket ≡ free
      → StaysStuck w
      → is_stuck (held_by r) (set_peer r (record (w.peers r) { phase = binding }) w.peers p) p
        ≡ true
  unfolding is_stuck is_gone has_port owns
  takes-StaysStuck w r here idle stuck =
      let nothing : (k : ℕ) → owns w.socket k ≡ false = λ k. ap (λ s. owns s k) idle in
      set_peer-StaysStuck w (held_by r) r (record (w.peers r) { phase = binding }) stuck
        (λ h. ground (arith, h, nothing r, ap is_gone here))
        (λ other h. ground (arith, h, nothing p))

  step-StaysStuck : (w w' : World) → Step addr owner in_registry w w' → StaysStuck w → StaysStuck w'
  unfolding is_stuck is_gone has_port stand_by announce begin_serving after_release owns
  step-StaysStuck _ _ (takes w r here idle) stuck = takes-StaysStuck w r here idle stuck
  step-StaysStuck _ _ (misses w r here) stuck =
      aside-StaysStuck w r _ stuck (λ h. ground (arith, h, ap is_gone here, ap has_port here))
  step-StaysStuck _ _ (claims w r written here) stuck =
      aside-StaysStuck w r _ stuck (λ h. ground (arith, h, ap is_gone here, ap has_port here))
  step-StaysStuck _ _ (closes w r b stopped) stuck = closes-StaysStuck w r stopped stuck
  step-StaysStuck _ _ (stops_reading w r here) stuck =
      aside-StaysStuck w r _ stuck (λ h. ground (arith, h, ap is_gone here, ap has_port here))
  step-StaysStuck _ _ (releases w r written here) stuck =
      aside-StaysStuck w r _ stuck (λ h. ground (arith, h, ap is_gone here, ap has_port here))
  step-StaysStuck _ _ (wakes w r here) stuck =
      aside-StaysStuck w r _ stuck (λ h. ground (arith, h, ap is_gone here, ap has_port here))
  step-StaysStuck _ _ (leaves w r here stopped) stuck =
      aside-StaysStuck w r _ stuck (λ h. ground (arith, h, stopped))
  step-StaysStuck _ _ (cancels w r) stuck = aside-StaysStuck w r _ stuck (λ h. refl)
  step-StaysStuck _ _ (dies w r) stuck =
      set_peer-StaysStuck w (let_go r w.socket) r _ stuck (λ h. ground arith)
        (owns-let_go_other r w.socket)
  step-StaysStuck _ _ (sweeps w r e over found of_p) stuck = stuck
  step-StaysStuck _ _ (stranger_takes w idle) stuck =
      let nothing : owns w.socket p ≡ false = ap (λ s. owns s p) idle in
      ground (arith, stuck, nothing)
  step-StaysStuck _ _ (stranger_leaves w held) stuck =
      let nothing : owns w.socket p ≡ false = ap (λ s. owns s p) held in
      ground (arith, stuck, nothing)

  run-StaysStuck : (w w' : World) → Steps addr owner in_registry w w' → StaysStuck w → StaysStuck w'
  run-StaysStuck _ _ (stays w) stuck = stuck
  run-StaysStuck _ _ (goes_on w w' w'' s more) stuck =
      run-StaysStuck w' w'' more (step-StaysStuck w w' s stuck)

  -- A read that fails while the connection is open leaves the zone unserved: from a process behind its
  -- failed read, with the socket still its own, no steps of any processes and programs lead to a world
  -- in which another process serves that is not told to stop, or the socket is free, unless the first
  -- process is told to stop, leaves the loop or dies.
  pub failed_read_blocks :
      (m : Table Entry) (w w' : World) (q : ℕ)
      → Steps addr owner in_registry (start m) w
      → (w.peers p).phase ≡ closing
      → owns w.socket p ≡ true
      → Steps addr owner in_registry w w'
      → (w'.peers p).cancelled ≡ false
      → is_gone (w'.peers p).phase ≡ false
      → (owns w'.socket p ≡ true)
        × ((is_serving (w'.peers q).phase && not (w'.peers q).cancelled) ≡ false)
  unfolding is_stuck has_port is_gone
  failed_read_blocks m w w' q before here owned steps going present =
      let stuck : StaysStuck w = ground (arith, owned, ap has_port here) in
      let after = run-StaysStuck w w' steps stuck in
      let all = run-AllSteady addr owner in_registry w w' steps (
        run-AllSteady addr owner in_registry (start m) w before
          (start-AllSteady addr owner in_registry m)) in
      let mine_now : owns w'.socket p ≡ true = ground (arith, after) in
      let at_q = all q in
      (
        mine_now,
        elim (Bool-cases (q == p)) [
          | inl same ↦
              let q_is_p : q ≡ p = ground arith in
              let idle : has_port (w'.peers p).phase ≡ false = ground (arith, after) in
              rw q_is_p (ground (arith, idle, serving_has_port (w'.peers p).phase))
          | inr other ↦ ground (arith, at_q.served, owned_by_one w'.socket p q mine_now other)
        ],
      )
