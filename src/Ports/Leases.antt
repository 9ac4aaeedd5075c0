-- ===== src/Ports/Leases.antt =====
-- `claim` and `Release` of registry.go in full: the registry, and what the process and the ports file
-- keep of the name's forwards. An error of `forget` is dropped.
use doze_names.Prelude.{
  ℕ, Bool, Option, none, some, ◌≡◌, refl, sym, ◌∙◌, arith, if◌then◌else◌, Option-cases, inl, inr,
}
use doze_names.Text.{Bytes}
use doze_names.Text.Laws.{eq_bytes_refl}
use doze_names.Table.{Table, lookup, delete}
use doze_names.Table.Laws.{lookup-delete}
use doze_names.Names.{Name}
use doze_names.Net.{Ip}
use doze_names.Pool.{Network}
use doze_names.Registry.{Entry, accept, Content, Failure, Io, Process, Outcome, crash, done}
use doze_names.Registry.Claims.{mine, claim_edit, release_edit}
use doze_names.Registry.Update.{update}
use doze_names.Ports.Files.{Written, forget}
use doze_names.Ports.Store.{Forwarding, Ended}

unfoldable pub after_forget : Content Entry → Option Failure → Table (Table ℕ) × Written → Ended
after_forget file failed (kept, Written.crash) = none
after_forget file failed (kept, Written.done ignored side) =
    some (failed, record { registry = file; side = side; kept = kept })

-- `claim`'s end: an error, or a lease of an address, which is nil where the function did not run
pub data Claimed : Type 0 where
  panics : Claimed
  refused : Failure → Forwarding → Claimed
  leased : Option Ip → Forwarding → Claimed

unfoldable pub after_move : Ip → Ended → Claimed
after_move ip none = panics
after_move ip (some (failed, s)) = leased (some ip) s

module _ (alive : ℕ → Bool) (io' : Io) (self : Process) (host : Bytes) (s : Forwarding) where
  unfoldable pub release_ended : {A : Type 0} → Outcome A → Ended
  release_ended crash = none
  release_ended (done failed v file) =
      after_forget file failed (forget alive io' self.pid host s.kept s.side)

  unfoldable pub claim_ended : Outcome (Ip × Bool) → Claimed
  claim_ended crash = panics
  claim_ended (done (some failed) v file) = refused failed (record s { registry = file })
  claim_ended (done none none file) = leased none (record s { registry = file })
  claim_ended (done none (some (ip, moved)) file) =
      if moved
      then after_move ip (after_forget file none (forget alive io' self.pid host s.kept s.side))
      else leased (some ip) (record s { registry = file })

-- `Release`
unfoldable pub release : (ℕ → Bool) → Io → Io → Process → Bytes → Forwarding → Ended
release alive io io' self host s =
    release_ended alive io' self host s (update alive io self (release_edit self host) s.registry)

-- `claim`
unfoldable pub claim :
    Network → (ℕ → Bool) → Io → Io → Process → Name → Option Ip → Bool → Forwarding → Claimed
claim net alive io io' self n want shared s =
    claim_ended alive io' self n.host s
      (update alive io self (claim_edit net alive self n want shared) s.registry)

pub after_forget-registry :
    (file : Content Entry) (failed r : Option Failure) (t : Table (Table ℕ)) (w : Written)
    (s' : Forwarding)
    → after_forget file failed (t, w) ≡ some (r, s')
    → (failed ≡ r) × (file ≡ s'.registry) × (t ≡ s'.kept)
unfolding after_forget
after_forget-registry file failed r t Written.crash s' e = cc
after_forget-registry file failed r t (Written.done ignored side) s' e =
    (ground (arith, e), ground (arith, e), ground (arith, e))

pub release_edit-accept :
    (self : Process) (host : Bytes) (m m' : Table Entry) (v : Unit {0})
    → release_edit self host m ≡ accept v m'
    → mine self (lookup host m') ≡ none
unfolding mine release_edit
release_edit-accept self host m m' v h = elim (Option-cases (mine self (lookup host m))) [
  | inl not_mine ↦
      let accepted : accept tt m ≡ accept v m' = rw (not_mine, release_edit) at h in
      let same : m ≡ m' = ground (arith, accepted) in rw (sym same) not_mine
  | inr (e, own) ↦
      let accepted : accept tt (delete host m) ≡ accept v m' = rw (own, release_edit) at h in
      let same : delete host m ≡ m' = ground (arith, accepted) in
      rw (sym same, lookup-delete host host m, eq_bytes_refl host) refl
]

module _ (alive : ℕ → Bool) (io' : Io) (self : Process) (host : Bytes) (s s' : Forwarding) where
  pub forget-kept :
      (file : Content Entry) (failed r : Option Failure)
      → after_forget file failed (forget alive io' self.pid host s.kept s.side) ≡ some (r, s')
      → (failed ≡ r) × (file ≡ s'.registry) × (lookup host s'.kept ≡ none)
  unfolding forget
  forget-kept file failed r e =
      let gone : lookup host (delete host s.kept) ≡ none =
        lookup-delete host host s.kept ∙ rw (eq_bytes_refl host) refl in
      elim (Option-cases (lookup host s.kept)) [
        | inl nothing ↦
            let (same, here, left) =
              after_forget-registry file failed r _ _ s' (rw (nothing, forget) at e) in
            (same, here, rw (sym left) gone)
        | inr (ports, had) ↦
            let (same, here, left) =
              after_forget-registry file failed r _ _ s' (rw (had, forget) at e) in
            (same, here, rw (sym left) gone)
      ]
