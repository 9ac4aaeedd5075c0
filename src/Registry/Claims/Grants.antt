-- ===== src/Registry/Claims/Grants.antt =====
-- What a claim that is granted leaves in the map, and who is refused.
use doze_names.Prelude.{
  ℕ, Bool, true, false, ◌&&◌, Option, none, some, ◌≡◌, ◌≢◌, ◌⊎◌, inl, inr, refl, sym, ap, ◌∙◌,
  arith, Bool-cases, Option-cases,
}
use doze_names.Text.{Bytes}
use doze_names.Text.Laws.{eq_bytes_refl, eq_bytes_ne}
use doze_names.Table.{Table, lookup, insert, delete}
use doze_names.Table.Laws.{lookup-insert, lookup-delete, lookup-keep_if_kept}
use doze_names.Names.{Name, Tier, service}
use doze_names.Net.{Ip, ip_text}
use doze_names.Pool.{
  Network, Choice, found, unreserved, full, address_for, apex_addr, choose, apex_choice, in_pool,
  is_taken,
}
use doze_names.Registry.Update.{prune}
use doze_names.Registry.{Entry, Process, format_key, held, refuse, accept}
use doze_names.Registry.Claims.{
  taken_by_others, holder, mine, renewed, grant, grant_choice, grant_unless, place, claim_edit,
}

-- What a granted claim says: the name is at the address and belongs to the process, it was held by
-- no other live process, and every other name is as it was.
pub record Granted (alive : ℕ → Bool) (self : Process) (n : Name) (ip : Ip) (m m' : Table Entry)
    : Type 0 where
  pub entry : Entry
  pub stands : lookup n.host m' ≡ some entry
  pub at_ip : entry.ip ≡ ip_text ip
  pub owned : (entry.pid ≡ self.pid) × (entry.owner ≡ self.owner)
  pub unheld :
      (cur : Entry) → lookup n.host m ≡ some cur → (cur.pid ≡ self.pid) ⊎ (alive cur.pid ≡ false)
  pub others : (k : Bytes) → n.host ≢ k → lookup k m' ≡ lookup k m

holder-none :
    (alive : ℕ → Bool) (self : Process) (o : Option Entry) (cur : Entry)
    → holder alive self o ≡ none
    → o ≡ some cur
    → (cur.pid ≡ self.pid) ⊎ (alive cur.pid ≡ false)
unfolding holder
holder-none alive self none cur h e = absurd (cc)
holder-none alive self (some c) cur h e = elim (Bool-cases (alive cur.pid)) [
  | inr gone ↦ inr gone
  | inl lives ↦ inl (ground arith)
]

-- the new entry, whatever stood there
renewed_fields :
    (self : Process) (n : Name) (ip : Ip) (o : Option Entry)
    → ((renewed self n ip o).0.ip ≡ ip_text ip)
      × ((renewed self n ip o).0.pid ≡ self.pid)
      × ((renewed self n ip o).0.owner ≡ self.owner)
unfolding renewed
renewed_fields self n ip none = (refl, refl, refl)
renewed_fields self n ip (some cur) = ground arith

module _ (alive : ℕ → Bool) (self : Process) (n : Name) (m : Table Entry)
    (free : holder alive self (lookup n.host m) ≡ none) where
  grant-Granted :
      (ip' ip : Ip) {moved : Bool} {m' : Table Entry}
      → grant self n ip' m ≡ accept (ip, moved) m'
      → Granted alive self n ip m m'
  unfolding grant
  grant-Granted ip' ip {moved} {m'} e =
      let o = mine self (lookup n.host m) in
      let new = (renewed self n ip' o).0 in
      let at : ip' ≡ ip = ground arith in
      let result : insert n.host new m ≡ m' = ground arith in
      let fields = renewed_fields self n ip' o in
      record {
        entry = new;
        stands = rw (← result, lookup-insert n.host n.host new m, eq_bytes_refl n.host) refl;
        at_ip = fields.0 ∙ ap ip_text at;
        owned = (fields.1, fields.2);
        unheld = λ cur here. holder-none alive self (lookup n.host m) cur free here;
        others = λ k ne. rw (← result, lookup-insert n.host k new m, eq_bytes_ne n.host k ne) refl;
      }

  choice-Granted :
      (c : Choice) (ip : Ip) {moved : Bool} {m' : Table Entry}
      → grant_choice self n m c ≡ accept (ip, moved) m'
      → Granted alive self n ip m m'
  unfolding grant_choice
  choice-Granted (found ip') ip e = grant-Granted ip' ip e
  choice-Granted unreserved ip e = absurd (cc)
  choice-Granted full ip e = absurd (cc)

  unless-Granted :
      (ip' ip : Ip) (w : Option (Bytes × Entry)) {moved : Bool} {m' : Table Entry}
      → grant_unless self n ip' m w ≡ accept (ip, moved) m'
      → Granted alive self n ip m m'
  unfolding grant_unless
  unless-Granted ip' ip none e = grant-Granted ip' ip e
  unless-Granted ip' ip (some (j, d)) e = absurd (cc)

  place-Granted :
      (net : Network) (want : Option Ip) (shared : Bool) (ip : Ip) {moved : Bool} {m' : Table Entry}
      → place net self n want shared m ≡ accept (ip, moved) m'
      → Granted alive self n ip m m'
  unfolding place
  place-Granted net none shared ip e = choice-Granted _ ip e
  place-Granted net (some ip') shared ip e =
      elim (Bool-cases (in_pool net ip' && is_taken (taken_by_others n.host m) (ip_text ip'))) [
        | inl busy ↦ unless-Granted ip' ip _ (rw busy at e)
        | inr free ↦ grant-Granted ip' ip (rw free at e)
      ]

-- A claim that is granted leaves the name at the address it returns, belonging to the process. The
-- name was held by no other live process, and no other name changes.
pub claim-Granted :
    (net : Network) (alive : ℕ → Bool) (self : Process) (n : Name) (want : Option Ip)
    (shared : Bool) (m : Table Entry) {ip : Ip} {moved : Bool} {m' : Table Entry}
    → claim_edit net alive self n want shared m ≡ accept (ip, moved) m'
    → Granted alive self n ip m m'
unfolding claim_edit
claim-Granted net alive self n want shared m {ip} e =
    elim (Option-cases (holder alive self (lookup n.host m))) [
      | inl free ↦ place-Granted alive self n m free net want shared ip (rw (free, claim_edit) at e)
      | inr (cur, taken) ↦ absurd (cc (e, taken))
    ]

-- First come: once a claim is granted, a claim of the same name by another process is refused on every
-- map in which the first one's entry stands as that claim left it, whatever else has become of the map,
-- less the names of the processes that have ended, as long as the first lives; and it is told who holds
-- the name. The name is not the key of the format.
pub claim_first_come :
    (net : Network) (alive later : ℕ → Bool) (self other : Process) (n n' : Name)
    (want want' : Option Ip) (shared shared' : Bool) (m now : Table Entry) {ip : Ip} {moved : Bool}
    {m' : Table Entry}
    → claim_edit net alive self n want shared m ≡ accept (ip, moved) m'
    → lookup n.host now ≡ lookup n.host m'
    → n.host ≢ format_key
    → n'.host ≡ n.host
    → other.pid ≢ self.pid
    → later self.pid ≡ true
    → claim_edit net later other n' want' shared' (prune later now)
      ≡ refuse (held n.host self.pid self.owner)
unfolding claim_edit holder prune
claim_first_come net alive later self other n n' want want' shared shared' m now {m' = m'} e stands
      named same ne lives =
    let g = claim-Granted net alive self n want shared m e in
    let there : lookup n.host (delete format_key now) ≡ some g.entry =
      lookup-delete format_key n.host now
      ∙ rw (eq_bytes_ne format_key n.host (λ x. named (sym x))) (stands ∙ g.stands) in
    let kept : lookup n.host (prune later now) ≡ some g.entry =
      lookup-keep_if_kept (λ host d. later d.pid) n.host (delete format_key now) there
        (ap later (g.owned.0) ∙ lives) in
    let found : lookup n'.host (prune later now) ≡ some g.entry = rw same kept in
    let taken : holder later other (lookup n'.host (prune later now)) ≡ some g.entry =
      rw found (ground (arith, g.owned)) in
    ground (arith, taken, g.owned, same)

-- An apex claim looks at no other name: while no other live process holds the name itself, it is
-- granted at the service's fixed address, whichever names are at that address already.
pub claim_apex :
    (net : Network) (alive : ℕ → Bool) (self : Process) (n : Name) (shared : Bool) (m : Table Entry)
    {ip : Ip}
    → n.tier ≡ Tier.apex
    → apex_addr net (service n) ≡ some ip
    → holder alive self (lookup n.host m) ≡ none
    → (moved : Bool) × (m' : Table Entry) × (claim_edit net alive self n none shared m
        ≡ accept (ip, moved) m')
      × ((k : Bytes) (d : Entry) → n.host ≢ k → lookup k m ≡ some d → lookup k m' ≡ some d)
unfolding claim_edit place address_for choose apex_choice grant_choice grant
claim_apex net alive self n shared m {ip} t known free =
    let (e, moved) = renewed self n ip (mine self (lookup n.host m)) in
    (
      moved,
      insert n.host e m,
      ground (arith, t, known, free),
      λ k d ne here. rw (lookup-insert n.host k e m, eq_bytes_ne n.host k ne) here,
    )
