-- ===== src/Ports/Leased.antt =====
-- What stands once `claim` has given out a lease, and once `Release` has dropped one.
use doze_names.Prelude.{ℕ, Bool, true, false, ◌&&◌, Option, none, some, ◌≡◌, refl, ap, ◌∙◌, arith}
use doze_names.Text.{Bytes}
use doze_names.Table.{Table, lookup}
use doze_names.Names.{Name}
use doze_names.Net.{Ip}
use doze_names.Pool.{Network}
use doze_names.Registry.{Entry, accept, Failure, Io, Process, Outcome, crash, done}
use doze_names.Registry.Claims.{mine, claim_edit, release_edit}
use doze_names.Registry.Claims.Grants.{Granted, claim-Granted}
use doze_names.Registry.Update.{prune, snapshot}
use doze_names.Registry.Update.Atomic.{snapshot-update, update-Ends, table_of}
use doze_names.Ports.Store.{Forwarding, Ended}
use doze_names.Ports.Leases.{
  leased, after_move, release_ended, release, claim_ended, claim, release_edit-accept, forget-kept,
}

after_move-leased :
    (ip ip' : Ip) (r : Ended) (s' : Forwarding)
    → after_move ip r ≡ leased (some ip') s'
    → (ip ≡ ip') × (failed : Option Failure) × (r ≡ some (failed, s'))
unfolding after_move
after_move-leased ip ip' none s' e = absurd (cc)
after_move-leased ip ip' (some (failed, s)) s' e = (ground (arith, e), failed, ground (arith, e))

module _ (alive : ℕ → Bool) (io' : Io) (self : Process) (host : Bytes) (s s' : Forwarding) where
  claim_ended-leased :
      (ip : Ip) (o : Outcome (Ip × Bool))
      → claim_ended alive io' self host s o ≡ leased (some ip) s'
      → (moved : Bool) × (o ≡ done none (some (ip, moved)) s'.registry)
  unfolding claim_ended
  claim_ended-leased ip crash e = absurd (cc)
  claim_ended-leased ip (done (some f) v file) e = absurd (cc)
  claim_ended-leased ip (done none none file) e = absurd (cc)
  claim_ended-leased ip (done none (some (at, false)) file) e =
      let same : at ≡ ip = ground (arith, e) in
      let here : file ≡ s'.registry = ground (arith, e) in (false, rw (same, here) refl)
  claim_ended-leased ip (done none (some (at, true)) file) e =
      let (same, failed, over) = after_move-leased at ip _ s' e in
      let (_, here, _) = forget-kept alive io' self host s s' file none failed over in
      (true, rw (same, here) refl)

  release_ended-done :
      {A : Type 0} (o : Outcome A)
      → release_ended alive io' self host s o ≡ some (none, s')
      → (v : Option A) × (o ≡ done none v s'.registry) × (lookup host s'.kept ≡ none)
  unfolding release_ended
  release_ended-done crash e = absurd (cc)
  release_ended-done (done failed v file) e =
      let (well, here, gone) = forget-kept alive io' self host s s' file failed none e in
      (v, rw (well, here) refl, gone)

module _ (alive : ℕ → Bool) (io io' : Io) (self : Process) (s s' : Forwarding) (later : ℕ → Bool)
    (again : Io) (reader : Process) where
  -- A lease that `claim` has given out stands in the registry: whoever reads it next, as long as its
  -- lock and its files can be had, reads it from a map in which the name is at the lease's address and
  -- belongs to the process, less the names of processes that do not run. In the map that the claim
  -- found, less the processes that had ended then, no other live process held the name, and every other
  -- name is as it was.
  pub lease_stands :
      (net : Network) (n : Name) (want : Option Ip) (shared : Bool) (ip : Ip)
      → (again.mkdir && again.open_lock && again.lock) ≡ true
      → claim net alive io io' self n want shared s ≡ leased (some ip) s'
      → (m : Table Entry) × Granted alive self n ip (prune alive (table_of s.registry)) m
        × (snapshot later again reader s'.registry ≡ some (prune later m))
  unfolding claim
  lease_stands net n want shared ip well e =
      let edit = claim_edit net alive self n want shared in
      let (moved, updated) = claim_ended-leased alive io' self n.host s s' ip _ e in
      let (a, m, left, accepted, written) =
        rw updated at (update-Ends alive io self edit s.registry) in
      let (a', m', accepted', read) =
        snapshot-update alive later io again self reader edit s.registry updated well in
      let at : a' ≡ (ip, moved) = ground (arith, left, accepted, accepted') in
      (
        m',
        claim-Granted net alive self n want shared _ (accepted' ∙ ap (λ x. accept x m') at),
        read,
      )

  -- Once `Release` has returned without an error, the process keeps no forward of the name, so that
  -- its healer does not put one back, and whoever reads the registry next, as long as its lock and its
  -- files can be had, reads it from a map in which the name is not the process's.
  pub release_forgets :
      (host : Bytes)
      → (again.mkdir && again.open_lock && again.lock) ≡ true
      → release alive io io' self host s ≡ some (none, s')
      → (m : Table Entry) × (lookup host s'.kept ≡ none)
        × (mine self (lookup host m) ≡ none)
        × (snapshot later again reader s'.registry ≡ some (prune later m))
  unfolding release
  release_forgets host well e =
      let (v, updated, gone) = release_ended-done alive io' self host s s' _ e in
      let (a, m, accepted, read) =
        snapshot-update alive later io again self reader (release_edit self host) s.registry updated
          well in
      (m, gone, release_edit-accept self host _ m a accepted, read)
