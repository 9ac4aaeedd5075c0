-- ===== src/Ports/Reached.antt =====
-- What a listener that Listen opened says, and where the registry sends its port.
use doze_names.Prelude.{
  ℕ, Bool, true, false, ◌&&◌, Option, none, some, ◌≡◌, refl, sym, ap, ◌∙◌, arith, ◌==◌, Bool-cases,
  Option-cases, inl, inr,
}
use doze_names.Text.{Bytes}
use doze_names.Text.Laws.{eq_bytes_refl}
use doze_names.Table.{Table, lookup, insert}
use doze_names.Table.Laws.{lookup-insert}
use doze_names.Decimal.{itoa}
use doze_names.Net.{Ip, ip_text}
use doze_names.Pool.{Network, gateway}
use doze_names.Registry.{Entry, refuse, accept, Content, Io, Process, Outcome, crash, done}
use doze_names.Registry.Claims.{mine}
use doze_names.Registry.Update.{update, prune, snapshot}
use doze_names.Registry.Update.Atomic.{snapshot-update}
use doze_names.Ports.{is_port, set_port_edit, with_port}
use doze_names.Ports.Files.{Written}
use doze_names.Ports.Store.{Forwarding, set_port, after_update, after_side}
use doze_names.Ports.Listen.{
  Lease, Listener, standing_for, listens, Sockets, translated, shown, after_forward-listens,
  forward, listen,
}

after_side-registry :
    (s s' : Forwarding) (file : Content Entry) (kept : Table (Table ℕ)) (w : Written)
    → after_side s file kept w ≡ some (none, s')
    → s'.registry ≡ file
unfolding after_side
after_side-registry s s' file kept Written.crash e = cc
after_side-registry s s' file kept (Written.done none side) e = ground (arith, e)
after_side-registry s s' file kept (Written.done (some f) side) e = cc

after_update-registry :
    (alive : ℕ → Bool) (io : Io) (self : Process) (host ip : Bytes) (public private : ℕ)
    (s s' : Forwarding) (o : Outcome (Table ℕ))
    → after_update alive io self host ip public private s o ≡ some (none, s')
    → (v : Option (Table ℕ)) × (o ≡ done none v s'.registry)
unfolding after_update
after_update-registry alive io self host ip public private s s' crash e = cc
after_update-registry alive io self host ip public private s s' (done (some f) v file) e = cc
after_update-registry alive io self host ip public private s s' (done none none file) e =
    let same : file ≡ s'.registry = ground (arith, e) in (none, ap (done none none) same)
after_update-registry alive io self host ip public private s s' (done none (some ports) file) e =
    (some ports, ap (done none (some ports)) (sym (after_side-registry s s' file _ _ e)))

mine-some :
    (self : Process) (o : Option Entry) (e : Entry) → mine self o ≡ some e → e.pid ≡ self.pid
unfolding mine
mine-some self none e h = cc
mine-some self (some d) e h = ground (arith, h)

module _ (self : Process) (host : Bytes) (public private : ℕ) where
  -- what the function that setPort runs accepts, for a private port that is not 0
  set_port_edit-accept :
      (m m' : Table Entry) (ports : Table ℕ)
      → (private == 0) ≡ false
      → set_port_edit self host public private m ≡ accept ports m'
      → (e : Entry) × (lookup host m' ≡ some e)
        × (e.pid ≡ self.pid)
        × (lookup (itoa public) e.ports ≡ some private)
  unfolding set_port_edit with_port
  set_port_edit-accept m m' ports nonzero h = elim (Option-cases (mine self (lookup host m))) [
    | inl not_mine ↦ let bad : refuse _ ≡ accept ports m' = rw (not_mine, set_port_edit) at h in cc
    | inr (e, own) ↦
        let new : Entry = record e { ports = with_port public private e.ports } in
        let accepted : accept (with_port public private e.ports) (insert host new m)
            ≡ accept ports m' =
          rw (own, set_port_edit) at h in
        let map_is : insert host new m ≡ m' = ground (arith, accepted) in
        (
          new,
          rw (sym map_is) (lookup-insert host host new m ∙ rw (eq_bytes_refl host) refl),
          mine-some self (lookup host m) e own,
          rw (nonzero, with_port)
              (lookup-insert (itoa public) (itoa public) private e.ports
                ∙ rw (eq_bytes_refl (itoa public)) refl),
        )
  ]

module _ (net : Network) (alive : ℕ → Bool) (io io' : Io) (self : Process) (l : Lease)
    (port : ℕ) where
  forward-update :
      (private : ℕ) (s s' : Forwarding)
      → translated net l ≡ true
      → forward net alive io io' self l port private s ≡ some (none, s')
      → (v : Option (Table ℕ)) × (update alive io self
            (set_port_edit self l.name.host port private)
            s.registry
          ≡ done none v s'.registry)
  unfolding forward set_port
  forward-update private s s' virtual e = elim (Bool-cases (is_port port)) [
    | inr bad_one ↦ let bad = rw (virtual, forward, bad_one) at e in absurd (cc)
    | inl good ↦
        after_update-registry alive io' self l.name.host (ip_text l.ip) port private s s' _
          (rw (virtual, forward, good) at e)
  ]

  forward-snapshot :
      (private : ℕ) (s s' : Forwarding)
      → translated net l ≡ true
      → (private == 0) ≡ false
      → forward net alive io io' self l port private s ≡ some (none, s')
      → (later : ℕ → Bool) (again : Io) (reader : Process)
      → (again.mkdir && again.open_lock && again.lock) ≡ true
      → (m : Table Entry) × (e : Entry) × (snapshot later again reader s'.registry
          ≡ some (prune later m))
        × (lookup l.name.host m ≡ some e)
        × (e.pid ≡ self.pid)
        × (lookup (itoa port) e.ports ≡ some private)
  forward-snapshot private s s' virtual nonzero h later again reader well =
      let (v, updated) = forward-update private s s' virtual h in
      let (ports, m, accepted, read) =
        snapshot-update alive later io again self reader
          (set_port_edit self l.name.host port private) s.registry updated well in
      let (e, found, own, sent) =
        set_port_edit-accept self l.name.host port private _ m ports nonzero accepted in
      (m, e, read, found, own, sent)

  -- A listener that Listen opened for an address that is translated, at whatever files, shows that
  -- address and the port that was asked for, and stands for a private port. Whoever reads the registry
  -- after that, as long as its lock and its files can be had, reads it from a map in which the name is
  -- this process's and its port is forwarded to that private port, less the names of processes that do
  -- not run. The system's free ports are not 0.
  pub listen-shown :
      (system : Sockets) (s s' : Forwarding) (x : Listener) (later : ℕ → Bool) (again : Io)
      (reader : Process)
      → ((ip : Ip) (p : ℕ) → system.listen_any ip ≡ some p → (p == 0) ≡ false)
      → translated net l ≡ true
      → (again.mkdir && again.open_lock && again.lock) ≡ true
      → listen net alive io io' self system l port s ≡ listens x s'
      → (private : ℕ) × (m : Table Entry) × (e : Entry) × (x ≡ standing_for l.ip port private)
        × (shown x ≡ (l.ip, port))
        × (snapshot later again reader s'.registry ≡ some (prune later m))
        × (lookup l.name.host m ≡ some e)
        × (e.pid ≡ self.pid)
        × (lookup (itoa port) e.ports ≡ some private)
  unfolding listen shown
  listen-shown system s s' x later again reader nonzero virtual well h =
      elim (Option-cases (system.listen_any (gateway net))) [
        | inl shut ↦ let bad = rw (virtual, shut, listen) at h in absurd (cc)
        | inr (private, free_port) ↦
            let opened = rw (virtual, free_port, listen) at h in
            let (stands, forwarded) = after_forward-listens l.ip port private _ x s' opened in
            let (m, e, read, found, mine_now, sent) =
              forward-snapshot private s s' virtual (nonzero (gateway net) private free_port)
                forwarded later again reader well in
            (private, m, e, stands, rw stands refl, read, found, mine_now, sent)
      ]
