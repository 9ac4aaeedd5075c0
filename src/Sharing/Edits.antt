-- ===== src/Sharing/Edits.antt =====
-- Each operation's change to the map keeps the invariant.
pub mod Place
use doze_names.Prelude.{
  ℕ, Bool, true, false, not, ◌&&◌, List, [], ◌∷◌, Option, none, some, ◌==◌, if◌then◌else◌, ◌≡◌, ◌≢◌,
  refl, sym, ap, ◌∙◌, arith, Bool-cases, Option-cases, inl, inr,
}
use doze_names.Text.{Bytes, Unicode}
use doze_names.Table.{Table, lookup, insert, delete}
use doze_names.Names.{Name, normalize}
use doze_names.Net.{Ip}
use doze_names.Net.Text.{IsIp}
use doze_names.Pool.{Network}
use doze_names.Pool.Slots.{IsNetwork}
use doze_names.Registry.{Entry, blank_entry, Process, Edit, refuse, accept}
use doze_names.Registry.Update.{copy_all}
use doze_names.Registry.Claims.{mine, holder, claim_edit, release_edit}
use doze_names.Registry.Doors.{
  claim_port_edit, release_port_edit, change_mine, route_edit, route_for_edit, certificate_edit,
}
use doze_names.Registry.Stacks.{claim_stack_edit, release_stack_edit, stack_key, other_project}
use doze_names.Ports.{
  set_port_edit, heal_edit, heal_names, heal_name, some_missing, with_port, merge_ports,
}
use doze_names.Sharing.Exclusive.{IsSound, insert-IsSound, delete-IsSound, Fits-blank, Fits-changed}
use doze_names.Sharing.Edits.Place.{EditIsSound, WantIsIp, place-IsSound}
use doze_names.Sharing.{
  Op, read, claim, release, release_port, release_stack, hold_port, route, route_for, certificate,
  claim_stack, set_port, heal, drop_value, edit_of,
}

module _ {net : Network} (self : Process) {m : Table Entry} (s : IsSound net m) where
  mine_here :
      (host : Bytes) (o : Option Entry) {e : Entry}
      → lookup host m ≡ o
      → mine self o ≡ some e
      → lookup host m ≡ some e
  unfolding mine
  mine_here host none p q = cc
  mine_here host (some cur) p q = ground arith

  claim_port-IsSound : (key addr : Bytes) → EditIsSound net (claim_port_edit self key addr m)
  unfolding claim_port_edit
  claim_port-IsSound key addr = insert-IsSound key _ s (Fits-blank key _ refl)

  release_port-IsSound : (key : Bytes) → EditIsSound net (release_port_edit self key m)
  unfolding release_port_edit
  release_port-IsSound key = elim (Option-cases (mine self (lookup key m))) [
    | inl none_mine ↦ rw (none_mine, EditIsSound) s
    | inr (e, mine_e) ↦ rw (mine_e, EditIsSound) (delete-IsSound key s)
  ]

  release-IsSound : (host : Bytes) → EditIsSound net (release_edit self host m)
  unfolding release_edit
  release-IsSound host = elim (Option-cases (mine self (lookup host m))) [
    | inl none_mine ↦ rw (none_mine, EditIsSound) s
    | inr (e, mine_e) ↦ rw (mine_e, EditIsSound) (delete-IsSound host s)
  ]

  change_mine-IsSound :
      (host shown : Bytes) (change : Entry → Entry)
      → ((e : Entry) → (change e).ip ≡ e.ip)
      → ((e : Entry) → (change e).pid ≡ e.pid)
      → EditIsSound net (change_mine self host shown change m)
  unfolding change_mine
  change_mine-IsSound host shown change ip pid = elim (Option-cases (mine self (lookup host m))) [
    | inl none_mine ↦ rw (none_mine, EditIsSound) tt
    | inr (e, mine_e) ↦
        rw (mine_e, EditIsSound)
          (insert-IsSound host (change e) s (
            Fits-changed host e (change e) s.exclusive (mine_here host (lookup host m) refl mine_e)
              (ip e) (pid e)))
  ]

  set_port-IsSound :
      (host : Bytes) (public private : ℕ)
      → EditIsSound net (set_port_edit self host public private m)
  unfolding set_port_edit
  set_port-IsSound host public private = elim (Option-cases (mine self (lookup host m))) [
    | inl none_mine ↦ rw (none_mine, EditIsSound) tt
    | inr (e, mine_e) ↦
        rw (mine_e, EditIsSound)
          (insert-IsSound host _ s (
            Fits-changed host e _ s.exclusive (mine_here host (lookup host m) refl mine_e) refl
              refl))
  ]

  heal_name-IsSound : (host : Bytes) (want : Table ℕ) → IsSound net (heal_name self host want m)
  unfolding heal_name
  heal_name-IsSound host want = elim (Option-cases (mine self (lookup host m))) [
    | inl none_mine ↦ rw (none_mine, heal_name) s
    | inr (e, mine_e) ↦
        rw (mine_e, heal_name)
          (elim (Bool-cases (some_missing e.ports want)) [
            | inl missing ↦ rw missing (
                insert-IsSound host _ s (
                  Fits-changed host e _ s.exclusive (mine_here host (lookup host m) refl mine_e)
                    refl refl))
            | inr there ↦ rw there s
          ])
  ]

  module _ ⦃u : Unicode⦄ where
    claim_stack-IsSound : (name dir : Bytes) → EditIsSound net (claim_stack_edit self name dir m)
    unfolding claim_stack_edit
    claim_stack-IsSound name dir =
        elim (Option-cases (other_project self dir (lookup (stack_key name) m))) [
          | inl free ↦
              rw (free, EditIsSound)
                (insert-IsSound (stack_key name) _ s (Fits-blank (stack_key name) _ refl))
          | inr (cur, taken) ↦ rw (taken, EditIsSound) tt
        ]

heal_names-IsSound :
    {net : Network} (self : Process) (wants : Table (Table ℕ)) (m : Table Entry)
    → IsSound net m
    → IsSound net (heal_names self wants m)
unfolding heal_names
heal_names-IsSound self [] m s = s
heal_names-IsSound self ((host, want) ∷ wants) m s =
    heal_names-IsSound self wants (heal_name self host want m) (heal_name-IsSound self s host want)

claim-IsSound :
    {net : Network} (alive : ℕ → Bool) (self : Process) (n : Name) (want : Option Ip)
    (shared : Bool) (m : Table Entry)
    → IsNetwork net
    → IsSound net m
    → WantIsIp want
    → EditIsSound net (claim_edit net alive self n want shared m)
unfolding claim_edit
claim-IsSound alive self n want shared m wf s v =
    elim (Option-cases (holder alive self (lookup n.host m))) [
      | inl free ↦ rw (free, EditIsSound) (place-IsSound self n wf s want shared v)
      | inr (cur, taken) ↦ rw (taken, EditIsSound) tt
    ]

drop_value-IsSound {ℓ} :
    {A : Type ℓ} (net : Network) (e : Edit A) → EditIsSound net e → EditIsSound net (drop_value e)
drop_value-IsSound net (refuse f) s = tt
drop_value-IsSound net (accept a m) s = s

-- the addresses that a call asks for
abbrev pub OpIsValid : Op → Type 0
OpIsValid (claim n want shared) = WantIsIp want
OpIsValid _ = Unit

pub edit_of-IsSound :
    ⦃u : Unicode⦄ (net : Network) (alive : ℕ → Bool) (self : Process) (op : Op) (m : Table Entry)
    → IsNetwork net
    → OpIsValid op
    → IsSound net m
    → EditIsSound net (edit_of net alive self op m)
unfolding edit_of copy_all heal_edit release_stack_edit route_edit route_for_edit certificate_edit
edit_of-IsSound net alive self read m wf v s = s
edit_of-IsSound net alive self (claim n want shared) m wf v s =
    drop_value-IsSound net _ (claim-IsSound alive self n want shared m wf s v)
edit_of-IsSound net alive self (release host) m wf v s = release-IsSound self s host
edit_of-IsSound net alive self (release_port key) m wf v s = release_port-IsSound self s key
edit_of-IsSound net alive self (release_stack name) m wf v s =
    release_port-IsSound self s (stack_key name)
edit_of-IsSound net alive self (hold_port key addr) m wf v s = claim_port-IsSound self s key addr
edit_of-IsSound net alive self (route host target) m wf v s =
    change_mine-IsSound self s host host _ (λ e. refl) (λ e. refl)
edit_of-IsSound net alive self (route_for host target) m wf v s =
    change_mine-IsSound self s (normalize host) host _ (λ e. refl) (λ e. refl)
edit_of-IsSound net alive self (certificate host cert key) m wf v s =
    change_mine-IsSound self s host host _ (λ e. refl) (λ e. refl)
edit_of-IsSound net alive self (claim_stack name dir) m wf v s = claim_stack-IsSound self s name dir
edit_of-IsSound net alive self (set_port host public private) m wf v s =
    drop_value-IsSound net _ (set_port-IsSound self s host public private)
edit_of-IsSound net alive self (heal forwards) m wf v s = heal_names-IsSound self forwards m s
