-- ===== src/Sharing/Edits/Place.antt =====
-- A claim puts a name at an address that no other process has.
use doze_names.Prelude.{
  ℕ, ◌<◌, Bool, true, false, List, [], ◌∷◌, Option, none, some, ◌≡◌, ◌≢◌, refl, sym, ap, ◌∙◌, subst,
  arith, Bool-cases, Option-cases, inl, inr,
}
use doze_names.Text.{Bytes}
use doze_names.Text.Laws.{eq_bytes_iff}
use doze_names.Table.{Table, lookup}
use doze_names.Names.{Name, Tier, service}
use doze_names.Net.{Ip, ip_text}
use doze_names.Net.Text.{IsIp, ip_text-injective}
use doze_names.Pool.{
  Network, Choice, found, unreserved, full, address_at, apex_offset, apex_addr, apex_choice,
  in_pool, is_taken, choose, address_for,
}
use doze_names.Pool.Slots.{IsNetwork, address_at-IsIp, offset-address_at, address_text-injective}
use doze_names.Pool.Address.{address_for-IsDynamic}
use doze_names.Registry.{Entry, Process, Edit, refuse, accept}
use doze_names.Registry.Claims.{
  taken_by_others, in_the_way, renewed, mine, grant, grant_choice, grant_unless, place,
}
use doze_names.Sharing.Exclusive.{IsPoolText, IsSound, insert-IsSound, not_blank}

abbrev pub EditIsSound {ℓ} : {A : Type ℓ} → Network → Edit A → Type 0
EditIsSound net (refuse e) = Unit
EditIsSound net (accept a m) = IsSound net m

-- No other process has a name at the address, if it is a hashed one.
record Free (net : Network) (self : Process) (host : Bytes) (t : Bytes) (m : Table Entry)
    : Type 0 where
  at :
      (k : Bytes) (d : Entry)
      → lookup k m ≡ some d
      → host ≢ k
      → t ≡ d.ip
      → IsPoolText net t
      → self.pid ≡ d.pid

renewed_ip :
    (self : Process) (n : Name) (ip : Ip) (o : Option Entry)
    → ((renewed self n ip o).0.ip ≡ ip_text ip) × ((renewed self n ip o).0.pid ≡ self.pid)
unfolding renewed
renewed_ip self n ip none = (refl, refl)
renewed_ip self n ip (some cur) = ground arith

taken_by_others-has :
    (host k : Bytes) (d : Entry) (m : Table Entry)
    → lookup k m ≡ some d
    → host ≢ k
    → d.ip ≢ []
    → is_taken (taken_by_others host m) d.ip ≡ true
unfolding lookup taken_by_others is_taken
taken_by_others-has host k d [] p ne nb = cc
taken_by_others-has host k d ((j, e) ∷ m) p ne nb = ground (
  arith,
  eq_bytes_iff j k,
  eq_bytes_iff j host,
  eq_bytes_iff e.ip [],
  eq_bytes_iff e.ip d.ip,
  taken_by_others-has host k d m,
)

in_the_way-none :
    (self : Process) (host t k : Bytes) (shared : Bool) (d : Entry) (m : Table Entry)
    → in_the_way self host t shared m ≡ none
    → lookup k m ≡ some d
    → host ≢ k
    → t ≡ d.ip
    → self.pid ≡ d.pid
unfolding lookup in_the_way
in_the_way-none self host t k shared d [] w p ne same = cc
in_the_way-none self host t k shared d ((j, e) ∷ m) w p ne same = ground (
  arith,
  eq_bytes_iff j k,
  eq_bytes_iff j host,
  eq_bytes_iff e.ip t,
  in_the_way-none self host t k shared d m,
)

apex_offset-lt : (svc : Bytes) {off : ℕ} → apex_offset svc ≡ some off → off < 10
unfolding apex_offset
apex_offset-lt svc e = ground arith

apex_addr_offset :
    (net : Network) (svc : Bytes) {ip : Ip}
    → apex_addr net svc ≡ some ip
    → (off : ℕ) × (off < 10) × (ip ≡ address_at net off)
unfolding apex_addr
apex_addr_offset net svc {ip} e = elim (Option-cases (apex_offset svc)) [
  | inl unknown ↦ cc (e, unknown)
  | inr (off, known) ↦ (off, apex_offset-lt svc known, ground arith)
]

-- an apex address is none of the hashed ones
apex_not_hashed :
    (net : Network) (svc : Bytes) {ip : Ip}
    → IsNetwork net
    → apex_addr net svc ≡ some ip
    → ¬ IsPoolText net (ip_text ip)
apex_not_hashed net svc wf e pool =
    let (off, low, here) = apex_addr_offset net svc e in
    let same =
      address_text-injective net off pool.off wf (omega arith) pool.in_block
        (sym (ap ip_text here) ∙ pool.text) in
    absurd (omega (arith, pool.hashed))

hashed_in_pool :
    (net : Network) (ip : Ip)
    → IsNetwork net
    → IsIp ip
    → IsPoolText net (ip_text ip)
    → in_pool net ip ≡ true
unfolding in_pool
hashed_in_pool net ip wf v pool =
    let here = ip_text-injective ip _ v (address_at-IsIp net pool.off wf) pool.text in
    let known = offset-address_at net pool.off pool.in_block in
    rw here (ground (arith, known, pool.hashed))

apex_addr_of :
    (net : Network) (n : Name) (taken : List Bytes) {ip : Ip}
    → n.tier ≡ Tier.apex
    → address_for net n taken ≡ found ip
    → apex_addr net (service n) ≡ some ip
unfolding address_for choose apex_choice
apex_addr_of net n taken t e = ground arith

module _ {net : Network} (self : Process) (n : Name) {m : Table Entry} where
  grant-IsSound :
      (ip : Ip)
      → IsSound net m
      → Free net self n.host (ip_text ip) m
      → EditIsSound net (grant self n ip m)
  unfolding grant
  grant-IsSound ip s f =
      let o = mine self (lookup n.host m) in
      let (same_ip, same_pid) = renewed_ip self n ip o in
      insert-IsSound n.host (renewed self n ip o).0 s (record {
        at = λ k d p ne same pool.
            same_pid ∙ f.at k d p ne (sym same_ip ∙ same) (subst (IsPoolText net) same_ip pool);
      })

  not_taken-Free :
      (t : Bytes) → is_taken (taken_by_others n.host m) t ≡ false → Free net self n.host t m
  not_taken-Free t free = record {
    at = λ k d p ne same pool.
        let blank : d.ip ≢ [] = (λ e. not_blank net (subst (IsPoolText net) (same ∙ e) pool)) in
        let busy = taken_by_others-has n.host k d m p ne blank in cc (free, same, busy);
  }

  apex-Free :
      IsNetwork net
      → (svc : Bytes) {ip : Ip} → apex_addr net svc ≡ some ip
      → Free net self n.host (ip_text ip) m
  apex-Free wf svc e = record {
    at = λ k d p ne same pool. absurd (apex_not_hashed net svc wf e pool);
  }

  -- the caller's address is outside the pool, or the address that is asked for is free
  outside-Free :
      IsNetwork net
      → (ip : Ip) → IsIp ip
      → in_pool net ip ≡ false
      → Free net self n.host (ip_text ip) m
  outside-Free wf ip v out = record {
    at = λ k d p ne same pool. cc (out, hashed_in_pool net ip wf v pool);
  }

  in_the_way-Free :
      (t : Bytes) (shared : Bool)
      → in_the_way self n.host t shared m ≡ none
      → Free net self n.host t m
  in_the_way-Free t shared w = record {
    at = λ k d p ne same pool. in_the_way-none self n.host t k shared d m w p ne same;
  }

  chosen-Free :
      IsNetwork net
      → (tier : Tier) {ip : Ip} → n.tier ≡ tier
      → address_for net n (taken_by_others n.host m) ≡ found ip
      → Free net self n.host (ip_text ip) m
  chosen-Free wf Tier.apex {ip} t e =
      apex-Free wf (service n) (apex_addr_of net n (taken_by_others n.host m) t e)
  chosen-Free wf Tier.qualified t e =
      not_taken-Free _ (address_for-IsDynamic net n _ (λ z. cc (t, z)) e).1
  chosen-Free wf Tier.domain t e =
      not_taken-Free _ (address_for-IsDynamic net n _ (λ z. cc (t, z)) e).1
  chosen-Free wf Tier.bare t e =
      not_taken-Free _ (address_for-IsDynamic net n _ (λ z. cc (t, z)) e).1

  choice-IsSound :
      IsNetwork net
      → IsSound net m
      → (c : Choice) → address_for net n (taken_by_others n.host m) ≡ c
      → EditIsSound net (grant_choice self n m c)
  unfolding grant_choice
  choice-IsSound wf s (found ip) e = grant-IsSound ip s (chosen-Free wf n.tier refl e)
  choice-IsSound wf s unreserved e = tt
  choice-IsSound wf s full e = tt

  unless-IsSound :
      IsSound net m
      → (ip : Ip) (shared : Bool) (w : Option (Bytes × Entry))
      → in_the_way self n.host (ip_text ip) shared m ≡ w
      → EditIsSound net (grant_unless self n ip m w)
  unfolding grant_unless
  unless-IsSound s ip shared none e = grant-IsSound ip s (in_the_way-Free (ip_text ip) shared e)
  unless-IsSound s ip shared (some (j, d)) e = tt

-- the address that a caller asks for has four octets
abbrev pub WantIsIp : Option Ip → Type 0
WantIsIp none = Unit
WantIsIp (some ip) = IsIp ip

module _ {net : Network} (self : Process) (n : Name) {m : Table Entry} where
  pub place-IsSound :
      IsNetwork net
      → IsSound net m
      → (want : Option Ip) (shared : Bool) → WantIsIp want
      → EditIsSound net (place net self n want shared m)
  unfolding place
  place-IsSound wf s none shared v =
      choice-IsSound self n wf s (address_for net n (taken_by_others n.host m)) refl
  place-IsSound wf s (some ip) shared v = elim (Bool-cases (in_pool net ip)) [
    | inr out ↦ rw out (grant-IsSound self n ip s (outside-Free self n wf ip v out))
    | inl inside ↦ rw inside (elim (Bool-cases (is_taken (taken_by_others n.host m) (ip_text ip))) [
      | inr free ↦ rw free (grant-IsSound self n ip s (not_taken-Free self n (ip_text ip) free))
      | inl busy ↦ rw busy (unless-IsSound self n s ip shared _ refl)
    ])
  ]
