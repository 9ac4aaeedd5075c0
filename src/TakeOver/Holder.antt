-- ===== src/TakeOver/Holder.antt =====
-- Who has the port, whatever the steps.
use doze_names.Prelude.{
  ℕ, Bool, true, false, some, ◌==◌, ◌≡◌, refl, sym, ap, ◌∙◌, arith, if◌then◌else◌, Bool-cases, inl,
  inr,
}
use doze_names.Text.{Bytes}
use doze_names.Table.{Table, lookup, delete}
use doze_names.Registry.{Entry}
use doze_names.TakeOver.{
  Socket, free, foreign, held_by, Phase, trying, binding, closing, waiting, gone, Peer, World,
  set_peer, owns, let_go, announce, stand_by, begin_serving, after_release, claimed, released, Step,
  takes, misses, claims, ends, releases, wakes, leaves, cancels, dies, sweeps, stranger_takes,
  stranger_leaves, Steps, stays, goes_on, start,
}
use doze_names.TakeOver.Tidy.{
  has_port, is_serving, names, IsTidy, owns-let_go, owned_by_one, serving_has_port, set_peer-IsTidy,
  out-IsTidy, announce_once, names-claimed, names-released,
}

module _ (key addr : Bytes) (owner : ℕ → Bytes) where
  -- every process is tidy
  abbrev pub IsOrderly : World → Type 0
  IsOrderly w = (q : ℕ) → IsTidy w.socket (lookup key w.map) (w.peers q) q

  module _ (w : World) (p : ℕ) (tidy : IsOrderly w) where
    -- what a phase says of the port
    owned_in : (h : Phase) → (w.peers p).phase ≡ h → owns w.socket p ≡ has_port h
    owned_in h here = sym (tidy p).owned ∙ ap has_port here

    -- a step in which the process has the port neither before nor after it, and the others see nothing
    aside-IsOrderly :
        (x : Peer)
        → owns w.socket p ≡ false
        → has_port x.phase ≡ false
        → x.told ≡ (if x.announced then 1 else 0)
        → IsOrderly (record w { peers = set_peer p x w.peers })
    aside-IsOrderly x nothing_owned out once q =
        set_peer-IsTidy w.socket (lookup key w.map) p x w.peers q
          (out-IsTidy w.socket (lookup key w.map) x p out nothing_owned once) (λ other. tidy q)

    -- a step in which the process lets go of the port
    let_go-IsOrderly :
        (x : Peer)
        → has_port x.phase ≡ false
        → x.told ≡ (if x.announced then 1 else 0)
        → IsOrderly (record w { socket = let_go p w.socket; peers = set_peer p x w.peers })
    let_go-IsOrderly x out once q =
        set_peer-IsTidy (let_go p w.socket) (lookup key w.map) p x w.peers q
          (out-IsTidy (let_go p w.socket) (lookup key w.map) x p out
            (ground (arith, owns-let_go p p w.socket)) once)
          (λ other.
            let old = tidy q in
            record {
              owned = ground (arith, old.owned, owns-let_go p q w.socket);
              named = old.named;
              once = old.once;
            })

    takes-IsOrderly :
        w.socket ≡ free
        → IsOrderly (record w {
          socket = held_by p;
          peers = set_peer p (record (w.peers p) { phase = binding }) w.peers;
        })
    unfolding has_port is_serving owns
    takes-IsOrderly idle q =
        set_peer-IsTidy (held_by p) (lookup key w.map) p _ w.peers q
          (record { owned = ground arith; named = refl; once = (tidy p).once })
          (λ other.
            let old = tidy q in
            let before : has_port (w.peers q).phase ≡ false = old.owned ∙ ap (λ s. owns s q) idle in
            record { owned = before ∙ ground arith; named = old.named; once = old.once })

    claims-IsOrderly :
        (written : Bool)
        → (w.peers p).phase ≡ binding
        → IsOrderly (record w {
          map = claimed key addr owner written p w.map;
          peers = set_peer p (begin_serving written (w.peers p)) w.peers;
        })
    unfolding has_port is_serving begin_serving
    claims-IsOrderly written here q =
        let mine_now = owned_in binding here in
        set_peer-IsTidy w.socket _ p _ w.peers q
          (record {
            owned = sym mine_now;
            named = elim (Bool-cases written) [
              | inl kept ↦ rw (kept, names-claimed key addr owner p p w.map) (ground arith)
              | inr lost ↦ rw lost refl
            ];
            once = refl;
          })
          (λ other.
            let old = tidy q in
            let away = owned_by_one w.socket p q mine_now other in
            out-IsTidy w.socket _ (w.peers q) q (old.owned ∙ away) away old.once)

    releases-IsOrderly :
        (written : Bool)
        → (w.peers p).phase ≡ closing
        → IsOrderly (record w {
          map = released key addr owner written p w.map;
          peers = set_peer p (after_release (w.peers p)) w.peers;
        })
    unfolding has_port is_serving after_release
    releases-IsOrderly written here q =
        set_peer-IsTidy w.socket _ p _ w.peers q
          (out-IsTidy w.socket _ (after_release (w.peers p)) p (ground arith)
            (owned_in closing here) (tidy p).once)
          (λ other.
            let old = tidy q in
            record {
              owned = old.owned;
              named =
                  ground (arith, old.named, names-released key addr owner written p q w.map other);
              once = old.once;
            })

    cancels-IsOrderly :
        IsOrderly
          (record w { peers = set_peer p (record (w.peers p) { cancelled = true }) w.peers })
    cancels-IsOrderly q =
        let own = tidy p in
        set_peer-IsTidy w.socket _ p _ w.peers q
          (record { owned = own.owned; named = own.named; once = own.once }) (λ other. tidy q)

    sweeps-IsOrderly :
        (e : Entry)
        → (w.peers p).phase ≡ gone
        → lookup key w.map ≡ some e
        → e.pid ≡ p
        → IsOrderly (record w { map = delete key w.map })
    unfolding is_serving names
    sweeps-IsOrderly e over found of_p q =
        let old = tidy q in
        record {
          owned = old.owned;
          named = elim (Bool-cases (is_serving (w.peers q).phase)) [
            | inr off ↦ rw (off) refl
            | inl on ↦ elim (Bool-cases (q == p)) [
              | inl same ↦
                  let q_is_p : q ≡ p = ground arith in
                  let off : is_serving (w.peers q).phase ≡ false =
                    rw (q_is_p) (ap is_serving over) in
                  ground arith
              | inr other ↦
                  let not_named : names (lookup key w.map) q ≡ false =
                    rw (found, names) (ground arith) in
                  ground (arith, old.named, not_named)
            ]
          ];
          once = old.once;
        }

  -- another program takes or leaves the port
  stranger-IsOrderly :
      (w : World) (s : Socket)
      → IsOrderly w
      → ((q : ℕ) → owns w.socket q ≡ owns s q)
      → IsOrderly (record w { socket = s })
  stranger-IsOrderly w s tidy same q =
      let old = tidy q in record { owned = old.owned ∙ same q; named = old.named; once = old.once }

  step-IsOrderly : (w w' : World) → Step key addr owner w w' → IsOrderly w → IsOrderly w'
  unfolding has_port stand_by announce owns
  step-IsOrderly _ _ (takes w p here idle) tidy = takes-IsOrderly w p tidy idle
  step-IsOrderly _ _ (misses w p here) tidy =
      aside-IsOrderly w p tidy (stand_by (w.peers p)) (owned_in w p tidy trying here) refl
        (announce_once (w.peers p) (tidy p).once)
  step-IsOrderly _ _ (claims w p written here) tidy = claims-IsOrderly w p tidy written here
  step-IsOrderly _ _ (ends w p here) tidy = let_go-IsOrderly w p tidy _ refl (tidy p).once
  step-IsOrderly _ _ (releases w p written here) tidy = releases-IsOrderly w p tidy written here
  step-IsOrderly _ _ (wakes w p here) tidy =
      aside-IsOrderly w p tidy _ (owned_in w p tidy waiting here) refl (tidy p).once
  step-IsOrderly _ _ (leaves w p here stopped) tidy =
      aside-IsOrderly w p tidy _ (owned_in w p tidy waiting here) refl (tidy p).once
  step-IsOrderly _ _ (cancels w p) tidy = cancels-IsOrderly w p tidy
  step-IsOrderly _ _ (dies w p) tidy = let_go-IsOrderly w p tidy _ refl (tidy p).once
  step-IsOrderly _ _ (sweeps w p e over found of_p) tidy =
      sweeps-IsOrderly w p tidy e over found of_p
  step-IsOrderly _ _ (stranger_takes w idle) tidy =
      stranger-IsOrderly w foreign tidy (λ q. ap (λ s. owns s q) idle)
  step-IsOrderly _ _ (stranger_leaves w held) tidy =
      stranger-IsOrderly w free tidy (λ q. ap (λ s. owns s q) held)

  pub run-IsOrderly : (w w' : World) → Steps key addr owner w w' → IsOrderly w → IsOrderly w'
  run-IsOrderly _ _ (stays w) tidy = tidy
  run-IsOrderly _ _ (goes_on w w' w'' s more) tidy =
      run-IsOrderly w' w'' more (step-IsOrderly w w' s tidy)

  pub start-IsOrderly : (m : Table Entry) → IsOrderly (start m)
  unfolding has_port is_serving owns start
  start-IsOrderly m q = record { owned = refl; named = refl; once = refl }

  -- Whatever peers, other programs and deaths do, in any order, from a free port: while a process serves
  -- on the port no other has it, the registry's entry for the port names that process if the write of its
  -- claim worked, whichever other writes did, and each process has said at most once that it stands by
  -- since it last had the port.
  pub one_holder :
      (m : Table Entry) (w : World) (p q : ℕ)
      → Steps key addr owner (start m) w
      → is_serving (w.peers p).phase ≡ true
      → (has_port (w.peers q).phase ≡ (q == p))
        × ((w.peers p).listed ≡ true → names (lookup key w.map) p ≡ true)
        × ((w.peers q).told ≡ (if (w.peers q).announced then 1 else 0))
  one_holder m w p q steps serves =
      let tidy = run-IsOrderly (start m) w steps (start-IsOrderly m) in
      let at_p = tidy p in
      let has = serving_has_port (w.peers p).phase serves in
      let mine_now : owns w.socket p ≡ true = sym at_p.owned ∙ has in
      (
        elim (Bool-cases (q == p)) [
          | inl same ↦
              let q_is_p : q ≡ p = ground arith in
              ap (λ r. has_port (w.peers r).phase) q_is_p ∙ has ∙ sym same
          | inr other ↦ (tidy q).owned ∙ owned_by_one w.socket p q mine_now other ∙ sym other
        ],
        λ kept. ground (arith, at_p.named),
        (tidy q).once,
      )
