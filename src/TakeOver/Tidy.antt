-- ===== src/TakeOver/Tidy.antt =====
-- What holds of one process at any time, and what keeps it.
use doze_names.Prelude.{
  ℕ, Bool, true, false, not, ◌||◌, Option, none, some, ◌==◌, ◌≡◌, refl, sym, ◌∙◌, subst, arith,
  if◌then◌else◌, Bool-cases, Option-cases, inl, inr,
}
use doze_names.Text.{Bytes}
use doze_names.Text.Laws.{eq_bytes_refl}
use doze_names.Table.{Table, lookup}
use doze_names.Table.Laws.{lookup-insert}
use doze_names.Registry.{Entry}
use doze_names.Registry.Claims.{mine}
use doze_names.Registry.Doors.{claim_port_edit, release_port_edit}
use doze_names.TakeOver.{
  Socket, free, foreign, held_by, Phase, trying, binding, serving, closing, waiting, gone, Peer,
  set_peer, owns, let_go, announce, edited, claimed, released,
}

-- does a process in the phase have the port?
unfoldable pub has_port : Phase → Bool
has_port binding = true
has_port serving = true
has_port _ = false

unfoldable pub is_serving : Phase → Bool
is_serving serving = true
is_serving _ = false

-- does the entry name the process?
unfoldable pub names : Option Entry → ℕ → Bool
names none p = false
names (some e) p = e.pid == p

-- what holds of one process: it has the port in the phases in which it should; the entry names it where it
-- serves and its claim was written; and it gave one message, if any, about standing by
pub record IsTidy (socket : Socket) (holder : Option Entry) (x : Peer) (p : ℕ) : Type 0 where
  pub owned : has_port x.phase ≡ owns socket p
  pub named : (not (is_serving x.phase) || not x.listed || names holder p) ≡ true
  pub once : x.told ≡ (if x.announced then 1 else 0)

-- who lets go has nothing, and others have what they had
pub owns-let_go :
    (p q : ℕ) (s : Socket) → owns (let_go p s) q ≡ (if q == p then false else owns s q)
unfolding owns let_go
owns-let_go p q free = ground arith
owns-let_go p q foreign = ground arith
owns-let_go p q (held_by r) = elim (Bool-cases (r == p)) [
  | inl same ↦ rw (same) (ground arith)
  | inr other ↦ rw (other) (ground arith)
]

pub owned_by_one : (s : Socket) (p q : ℕ) → owns s p ≡ true → (q == p) ≡ false → owns s q ≡ false
unfolding owns
owned_by_one free p q h other = refl
owned_by_one foreign p q h other = refl
owned_by_one (held_by r) p q h other = ground arith

pub serving_has_port : (h : Phase) → is_serving h ≡ true → has_port h ≡ true
unfolding is_serving has_port
serving_has_port serving e = refl
serving_has_port trying e = cc
serving_has_port binding e = cc
serving_has_port closing e = cc
serving_has_port waiting e = cc
serving_has_port gone e = cc

-- a step of one process is tidy for it and for the others
pub set_peer-IsTidy :
    (socket : Socket) (holder : Option Entry) (p : ℕ) (x : Peer) (peers : ℕ → Peer) (q : ℕ)
    → IsTidy socket holder x p
    → ((q == p) ≡ false → IsTidy socket holder (peers q) q)
    → IsTidy socket holder (set_peer p x peers q) q
unfolding set_peer
set_peer-IsTidy socket holder p x peers q own others = elim (Bool-cases (q == p)) [
  | inl same ↦
      let q_is_p : q ≡ p = ground arith in
      rw (same) (subst (λ r. IsTidy socket holder x r) (sym q_is_p) own)
  | inr other ↦ rw (other) (others other)
]

-- a process without the port has the rest for nothing
pub out-IsTidy :
    (socket : Socket) (holder : Option Entry) (x : Peer) (p : ℕ)
    → has_port x.phase ≡ false
    → owns socket p ≡ false
    → x.told ≡ (if x.announced then 1 else 0)
    → IsTidy socket holder x p
unfolding has_port is_serving
out-IsTidy socket holder x p out nothing_owned once = record {
  owned = out ∙ sym nothing_owned;
  named = ground (arith, serving_has_port x.phase);
  once = once;
}

-- who stands by has told it once
pub announce_once :
    (x : Peer)
    → x.told ≡ (if x.announced then 1 else 0)
    → (announce x).told ≡ (if (announce x).announced then 1 else 0)
unfolding announce
announce_once x once = ground arith

module _ (key addr : Bytes) (owner : ℕ → Bytes) where
  pub names-claimed :
      (p q : ℕ) (m : Table Entry)
      → names (lookup key (claimed key addr owner true p m)) q ≡ (p == q)
  unfolding claimed edited claim_port_edit names
  names-claimed p q m = rw (lookup-insert key key _ m, eq_bytes_refl key) refl

  -- what names another process is not deleted
  released_other :
      (p : ℕ) (m : Table Entry) (e : Entry)
      → lookup key m ≡ some e
      → (e.pid == p) ≡ false
      → released key addr owner true p m ≡ m
  unfolding released edited release_port_edit mine
  released_other p m e found other =
      rw (found, other, released, edited, release_port_edit, mine) refl

  pub names-released :
      (written : Bool) (p q : ℕ) (m : Table Entry)
      → (q == p) ≡ false
      → names (lookup key m) q ≡ true
      → names (lookup key (released key addr owner written p m)) q ≡ true
  unfolding names released
  names-released false p q m other h = h
  names-released true p q m other h = elim (Option-cases (lookup key m)) [
    | inl empty ↦ let bad : false ≡ true = rw (empty, names) at h in absurd (cc)
    | inr (e, found) ↦
        let at_q : (e.pid == q) ≡ true = rw (found, names) at h in
        rw (released_other p m e found (ground arith)) h
  ]
