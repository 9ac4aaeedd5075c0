-- ===== src/Resolver/Servers.antt =====
-- Who serves the zone, whatever the steps.
use doze_names.Prelude.{
  ℕ, Bool, true, false, not, ◌||◌, Option, some, ◌==◌, ◌≡◌, refl, sym, ap, ◌∙◌, subst, arith,
  if◌then◌else◌, Bool-cases, inl, inr,
}
use doze_names.Text.{Bytes}
use doze_names.Table.{Table, lookup, delete}
use doze_names.Registry.{Entry}
use doze_names.Registry.Doors.{resolver_key}
use doze_names.TakeOver.{
  Socket, free, foreign, held_by, binding, closing, gone, Peer, World, set_peer, owns, let_go,
  announce, stand_by, begin_serving, after_release, start,
}
use doze_names.TakeOver.Tidy.{
  is_serving, names, owns-let_go, owned_by_one, names-claimed, names-released, announce_once,
}
use doze_names.Resolver.{
  is_binding, recorded, forgotten, Step, takes, misses, claims, closes, stops_reading, releases,
  wakes, leaves, cancels, dies, sweeps, stranger_takes, stranger_leaves, Steps, stays, goes_on,
}

-- What holds of one process: with the socket opened and nothing read it has the socket; while it serves
-- and is not told to stop it has the socket, and the entry names it if it gave a registry (`listed`) and its claim was written;
-- and it gave one message, if any, about standing by.
pub record IsSteady (socket : Socket) (holder : Option Entry) (listed : Bool) (x : Peer) (p : ℕ)
    : Type 0 where
  pub opened : (not (is_binding x.phase) || owns socket p) ≡ true
  pub served : (not (is_serving x.phase) || x.cancelled || owns socket p) ≡ true
  pub named :
      (not (is_serving x.phase) || x.cancelled || not listed || not x.listed || names holder p)
      ≡ true
  pub once : x.told ≡ (if x.announced then 1 else 0)

-- a process that neither opens nor reads
idle-IsSteady :
    (socket : Socket) (holder : Option Entry) (listed : Bool) (x : Peer) (p : ℕ)
    → is_binding x.phase ≡ false
    → is_serving x.phase ≡ false
    → x.told ≡ (if x.announced then 1 else 0)
    → IsSteady socket holder listed x p
idle-IsSteady socket holder listed x p b s once = record {
  opened = rw b refl;
  served = rw s refl;
  named = rw s refl;
  once = once;
}

set_peer-IsSteady :
    (socket : Socket) (holder : Option Entry) (listed : ℕ → Bool) (p : ℕ) (x : Peer)
    (peers : ℕ → Peer) (q : ℕ)
    → IsSteady socket holder (listed p) x p
    → ((q == p) ≡ false → IsSteady socket holder (listed q) (peers q) q)
    → IsSteady socket holder (listed q) (set_peer p x peers q) q
unfolding set_peer
set_peer-IsSteady socket holder listed p x peers q own others = elim (Bool-cases (q == p)) [
  | inl same ↦
      let q_is_p : q ≡ p = ground arith in
      rw (same) (subst (λ r. IsSteady socket holder (listed r) x r) (sym q_is_p) own)
  | inr other ↦ rw (other) (others other)
]

module _ (addr : Bytes) (owner : ℕ → Bytes) (in_registry : ℕ → Bool) where
  abbrev pub AllSteady : World → Type 0
  AllSteady w =
      (q : ℕ) → IsSteady w.socket (lookup resolver_key w.map) (in_registry q) (w.peers q) q

  module _ (w : World) (p : ℕ) (steady : AllSteady w) where
    -- a step that changes one process, and leaves it neither opening nor reading
    aside-AllSteady :
        (x : Peer)
        → is_binding x.phase ≡ false
        → is_serving x.phase ≡ false
        → x.told ≡ (if x.announced then 1 else 0)
        → AllSteady (record w { peers = set_peer p x w.peers })
    aside-AllSteady x b s once q =
        set_peer-IsSteady w.socket (lookup resolver_key w.map) in_registry p x w.peers q
          (idle-IsSteady w.socket (lookup resolver_key w.map) (in_registry p) x p b s once)
          (λ other. steady q)

    -- who had nothing to do with the process keeps what it has when that lets go
    let_go-IsSteady :
        (q : ℕ)
        → (q == p) ≡ false
        → IsSteady (let_go p w.socket) (lookup resolver_key w.map) (in_registry q) (w.peers q) q
    let_go-IsSteady q other =
        let old = steady q in
        let same : owns (let_go p w.socket) q ≡ owns w.socket q =
          owns-let_go p q w.socket ∙ (rw other refl) in
        record {
          opened = rw same old.opened;
          served = rw same old.served;
          named = old.named;
          once = old.once;
        }

    takes-AllSteady :
        w.socket ≡ free
        → AllSteady (record w {
          socket = held_by p;
          peers = set_peer p (record (w.peers p) { phase = binding }) w.peers;
        })
    unfolding is_binding is_serving owns
    takes-AllSteady idle q =
        set_peer-IsSteady (held_by p) (lookup resolver_key w.map) in_registry p _ w.peers q
          (record { opened = ground arith; served = refl; named = refl; once = (steady p).once })
          (λ other.
            let old = steady q in
            let none_owned : owns w.socket q ≡ false = ap (λ s. owns s q) idle in
            record {
              opened = ground (arith, old.opened, none_owned);
              served = ground (arith, old.served, none_owned);
              named = old.named;
              once = old.once;
            })

    closes-AllSteady :
        is_binding (w.peers p).phase ≡ false
        → (w.peers p).cancelled ≡ true
        → AllSteady (record w { socket = let_go p w.socket })
    closes-AllSteady b stopped q = elim (Bool-cases (q == p)) [
      | inl same ↦
          let q_is_p : q ≡ p = ground arith in
          rw q_is_p (record {
            opened = rw b refl;
            served = rw stopped (ground arith);
            named = rw stopped (ground arith);
            once = (steady p).once;
          })
      | inr other ↦ let_go-IsSteady q other
    ]

    dies-AllSteady : AllSteady (record w {
      socket = let_go p w.socket;
      peers = set_peer p (record (w.peers p) { phase = gone; dead = true }) w.peers;
    })
    unfolding is_binding is_serving
    dies-AllSteady q =
        set_peer-IsSteady (let_go p w.socket) (lookup resolver_key w.map) in_registry p _ w.peers q
          (idle-IsSteady (let_go p w.socket) _ (in_registry p) _ p refl refl (steady p).once)
          (let_go-IsSteady q)

    claims-AllSteady :
        (written : Bool)
        → (w.peers p).phase ≡ binding
        → AllSteady (record w {
          map = recorded addr owner in_registry written p w.map;
          peers = set_peer p (begin_serving written (w.peers p)) w.peers;
        })
    unfolding is_binding is_serving begin_serving recorded
    claims-AllSteady written here q =
        let mine_now : owns w.socket p ≡ true =
          ground (arith, (steady p).opened, ap is_binding here) in
        set_peer-IsSteady w.socket _ in_registry p _ w.peers q
          (record {
            opened = refl;
            served = rw mine_now (ground arith);
            named = elim (Bool-cases (in_registry p)) [
              | inl listed ↦ elim (Bool-cases written) [
                | inl kept ↦
                    rw (listed, kept, names-claimed resolver_key addr owner p p w.map)
                      (ground arith)
                | inr lost ↦ rw (listed, lost) (ground arith)
              ]
              | inr unlisted ↦ rw unlisted (ground arith)
            ];
            once = refl;
          })
          (λ other.
            let old = steady q in
            let away : owns w.socket q ≡ false = owned_by_one w.socket p q mine_now other in
            record {
              opened = old.opened;
              served = old.served;
              named = ground (arith, old.served, away);
              once = old.once;
            })

    releases-AllSteady :
        (written : Bool)
        → (w.peers p).phase ≡ closing
        → AllSteady (record w {
          map = forgotten addr owner in_registry written p w.map;
          peers = set_peer p (after_release (w.peers p)) w.peers;
        })
    unfolding is_binding is_serving after_release forgotten
    releases-AllSteady written here q =
        set_peer-IsSteady w.socket _ in_registry p _ w.peers q
          (idle-IsSteady w.socket _ (in_registry p) (after_release (w.peers p)) p (ground arith)
            (ground arith) (steady p).once)
          (λ other.
            let old = steady q in
            record {
              opened = old.opened;
              served = old.served;
              named = elim (Bool-cases (in_registry p)) [
                | inl listed ↦ rw listed (
                    ground (
                      arith,
                      old.named,
                      names-released resolver_key addr owner written p q w.map other,
                    ))
                | inr unlisted ↦ rw unlisted old.named
              ];
              once = old.once;
            })

    cancels-AllSteady :
        AllSteady
          (record w { peers = set_peer p (record (w.peers p) { cancelled = true }) w.peers })
    cancels-AllSteady q =
        let own = steady p in
        set_peer-IsSteady w.socket _ in_registry p _ w.peers q
          (record {
            opened = own.opened;
            served = ground arith;
            named = ground arith;
            once = own.once;
          })
          (λ other. steady q)

    sweeps-AllSteady :
        (e : Entry)
        → (w.peers p).phase ≡ gone
        → lookup resolver_key w.map ≡ some e
        → e.pid ≡ p
        → AllSteady (record w { map = delete resolver_key w.map })
    unfolding is_serving names
    sweeps-AllSteady e over found of_p q =
        let old = steady q in
        record {
          opened = old.opened;
          served = old.served;
          named = elim (Bool-cases (q == p)) [
            | inl same ↦
                let q_is_p : q ≡ p = ground arith in
                let off : is_serving (w.peers q).phase ≡ false = rw (q_is_p) (ap is_serving over) in
                rw off refl
            | inr other ↦
                let not_named : names (lookup resolver_key w.map) q ≡ false =
                  rw (found, names) (ground arith) in
                ground (arith, old.named, not_named)
          ];
          once = old.once;
        }

  -- another program takes or leaves the address
  stranger-AllSteady :
      (w : World) (s : Socket)
      → AllSteady w
      → ((q : ℕ) → owns w.socket q ≡ owns s q)
      → AllSteady (record w { socket = s })
  stranger-AllSteady w s steady same q =
      let old = steady q in
      record {
        opened = rw (sym (same q)) old.opened;
        served = rw (sym (same q)) old.served;
        named = old.named;
        once = old.once;
      }

  step-AllSteady : (w w' : World) → Step addr owner in_registry w w' → AllSteady w → AllSteady w'
  unfolding is_binding is_serving stand_by announce owns
  step-AllSteady _ _ (takes w p here idle) steady = takes-AllSteady w p steady idle
  step-AllSteady _ _ (misses w p here) steady =
      aside-AllSteady w p steady (stand_by (w.peers p)) refl refl
        (announce_once (w.peers p) (steady p).once)
  step-AllSteady _ _ (claims w p written here) steady = claims-AllSteady w p steady written here
  step-AllSteady _ _ (closes w p b stopped) steady = closes-AllSteady w p steady b stopped
  step-AllSteady _ _ (stops_reading w p here) steady =
      aside-AllSteady w p steady _ refl refl (steady p).once
  step-AllSteady _ _ (releases w p written here) steady = releases-AllSteady w p steady written here
  step-AllSteady _ _ (wakes w p here) steady =
      aside-AllSteady w p steady _ refl refl (steady p).once
  step-AllSteady _ _ (leaves w p here stopped) steady =
      aside-AllSteady w p steady _ refl refl (steady p).once
  step-AllSteady _ _ (cancels w p) steady = cancels-AllSteady w p steady
  step-AllSteady _ _ (dies w p) steady = dies-AllSteady w p steady
  step-AllSteady _ _ (sweeps w p e over found of_p) steady =
      sweeps-AllSteady w p steady e over found of_p
  step-AllSteady _ _ (stranger_takes w idle) steady =
      stranger-AllSteady w foreign steady (λ q. ap (λ s. owns s q) idle)
  step-AllSteady _ _ (stranger_leaves w held) steady =
      stranger-AllSteady w free steady (λ q. ap (λ s. owns s q) held)

  pub run-AllSteady :
      (w w' : World) → Steps addr owner in_registry w w' → AllSteady w → AllSteady w'
  run-AllSteady _ _ (stays w) steady = steady
  run-AllSteady _ _ (goes_on w w' w'' s more) steady =
      run-AllSteady w' w'' more (step-AllSteady w w' s steady)

  pub start-AllSteady : (m : Table Entry) → AllSteady (start m)
  unfolding is_binding is_serving owns start
  start-AllSteady m q = record { opened = refl; served = refl; named = refl; once = refl }

  -- Whatever peers, other programs and deaths do, in any order, from a free address: a process that
  -- serves the zone and is not told to stop has the socket, so that no other such process serves, the
  -- registry names it if it gave one and the write of its claim worked, and each process has said at most once that it stands by since
  -- it last had the socket.
  pub one_server :
      (m : Table Entry) (w : World) (p q : ℕ)
      → Steps addr owner in_registry (start m) w
      → is_serving (w.peers p).phase ≡ true
      → (w.peers p).cancelled ≡ false
      → (owns w.socket p ≡ true)
        × (is_serving (w.peers q).phase ≡ true → (w.peers q).cancelled ≡ false → q ≡ p)
        × (in_registry p ≡ true
            → (w.peers p).listed ≡ true
            → names (lookup resolver_key w.map) p ≡ true)
        × ((w.peers q).told ≡ (if (w.peers q).announced then 1 else 0))
  one_server m w p q steps on going =
      let steady = run-AllSteady (start m) w steps (start-AllSteady m) in
      let at_p = steady p in
      let at_q = steady q in
      let mine_now : owns w.socket p ≡ true = ground (arith, at_p.served) in
      (
        mine_now,
        λ q_on q_going. elim (Bool-cases (q == p)) [
          | inl same ↦ ground arith
          | inr other ↦
              absurd (ground (arith, at_q.served, owned_by_one w.socket p q mine_now other))
        ],
        λ listed kept. ground (arith, at_p.named),
        at_q.once,
      )
