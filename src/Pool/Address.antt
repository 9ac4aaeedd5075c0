-- ===== src/Pool/Address.antt =====
-- What `addressFor` chooses for a name that is hashed into the block.
use doze_names.Prelude.{
  ℕ, zero, suc, ◌+◌, ◌-◌, ◌%◌, ◌≤◌, ◌<◌, Bool, true, false, List, Option, none, some, ltb, ◌==◌,
  ◌≡◌, ◌≢◌, refl, sym, ap, ◌∙◌, arith, ==_iff, Bool-cases, inl, inr, ◌⊎◌,
}
use doze_names.Text.{Bytes}
use doze_names.Names.{Name, Tier, service}
use doze_names.Net.{Ip, ip_text}
use doze_names.Pool.Slots.{slot_offset_bounds, slot_offset-onto}
use doze_names.Pool.{
  Network, found, full, address_at, slot_offset, is_taken, probe, home_slot, address_for, choose,
  block_slots, dynamic_base, probed_choice,
}

-- The address at a hashed offset of the block.
pub record IsDynamic (n : Network) (ip : Ip) : Type 0 where
  pub off : ℕ
  pub at_off : ip ≡ address_at n off
  pub hashed : dynamic_base ≤ off
  pub in_block : off < 32768
  pub not_zero : 1 ≤ off % 256
  pub not_last : off % 256 ≤ 254

module _ (n : Network) (taken : List Bytes) (start : ℕ) where
  probe-IsDynamic :
      (rounds i : ℕ) {ip : Ip}
      → probe n taken start rounds i ≡ some ip
      → IsDynamic n ip × (is_taken taken (ip_text ip) ≡ false)
  unfolding probe
  probe-IsDynamic zero i e = absurd (cc)
  probe-IsDynamic (suc rounds) i {ip} e =
      let slot = (start + i) % block_slots in
      elim (Bool-cases (ltb (slot_offset slot) dynamic_base)) [
        | inl low ↦ probe-IsDynamic rounds (suc i) (rw low at e)
        | inr high ↦
            elim (Bool-cases (is_taken taken (ip_text (address_at n (slot_offset slot))))) [
              | inl busy ↦ probe-IsDynamic rounds (suc i) (rw (high, busy) at e)
              | inr free ↦ (
                record {
                  off = slot_offset slot;
                  at_off = ground arith;
                  hashed = ground arith;
                  in_block = (slot_offset_bounds slot (omega arith)).0;
                  not_zero = (slot_offset_bounds slot (omega arith)).1;
                  not_last = (slot_offset_bounds slot (omega arith)).2;
                },
                ground arith,
              )
            ]
      ]

  slot_at : ℕ → ℕ
  slot_at i = (start + i) % block_slots

  probe-eq-none :
      (rounds i j : ℕ)
      → probe n taken start rounds i ≡ none
      → i ≤ j
      → j < i + rounds
      → dynamic_base ≤ slot_offset (slot_at j)
      → is_taken taken (ip_text (address_at n (slot_offset (slot_at j)))) ≡ true
  unfolding probe slot_at
  probe-eq-none zero i j e lo hi h = absurd (omega arith)
  probe-eq-none (suc rounds) i j e lo hi h = elim (Bool-cases (i == j)) [
    | inl same ↦ rw (← (==_iff i j).0 same) (ground (arith, (==_iff i j).0 same))
    | inr other ↦ ground (arith, probe-eq-none rounds (suc i) j)
  ]

home_slot-lt : (host : Bytes) → home_slot host < block_slots
unfolding home_slot
home_slot-lt host = omega arith

probe_home :
    (n : Network) (taken : List Bytes) (start : ℕ)
    → start < block_slots
    → dynamic_base ≤ slot_offset start
    → is_taken taken (ip_text (address_at n (slot_offset start))) ≡ false
    → (rounds : ℕ) → probe n taken start (suc rounds) 0 ≡ some (address_at n (slot_offset start))
unfolding probe
probe_home n taken start h lo free rounds =
    let e : (start + 0) % block_slots ≡ start = omega arith in rw e (ground arith)

choose_hashed :
    (n : Network) (svc : Bytes) (tier : Tier) (host : Bytes) (taken : List Bytes)
    → tier ≢ Tier.apex
    → choose n svc tier host taken ≡ probed_choice (probe n taken (home_slot host) block_slots 0)
unfolding choose
choose_hashed n svc Tier.apex host taken t = absurd (t refl)
choose_hashed n svc _ host taken t = refl

probed_choice_found : (o : Option Ip) {ip : Ip} → probed_choice o ≡ found ip → o ≡ some ip
unfolding probed_choice
probed_choice_found o e = ground arith

probed_choice_full : (o : Option Ip) → probed_choice o ≡ full → o ≡ none
unfolding probed_choice
probed_choice_full o e = ground arith

-- The address chosen for a name that is not an apex name is in the hashed part of the block, its
-- last octet is neither 0 nor 255, and no name in use has it.
pub address_for-IsDynamic :
    (n : Network) (name : Name) (taken : List Bytes) {ip : Ip}
    → name.tier ≢ Tier.apex
    → address_for n name taken ≡ found ip
    → IsDynamic n ip × (is_taken taken (ip_text ip) ≡ false)
unfolding address_for
address_for-IsDynamic n name taken t e =
    probe-IsDynamic n taken (home_slot name.host) block_slots 0
      (probed_choice_found _ (sym (choose_hashed n (service name) name.tier name.host taken t) ∙ e))

-- every slot is visited
slot_at_onto :
    (n : Network) (taken : List Bytes) (start slot : ℕ)
    → start < block_slots
    → slot < block_slots
    → (j : ℕ) × (j < block_slots) × (slot_at n taken start j ≡ slot)
unfolding slot_at
slot_at_onto n taken start slot hs h =
    ((slot + block_slots - start) % block_slots, omega arith, omega arith)

-- The choice fails for such a name only when every address of the hashed part whose last octet is
-- neither 0 nor 255 is in use.
pub address_for_full :
    (n : Network) (name : Name) (taken : List Bytes) (off : ℕ)
    → name.tier ≢ Tier.apex
    → address_for n name taken ≡ full
    → dynamic_base ≤ off
    → off < 32768
    → 1 ≤ off % 256
    → off % 256 ≤ 254
    → is_taken taken (ip_text (address_at n off)) ≡ true
unfolding address_for
address_for_full n name taken off t e lo hi nz nl =
    let (slot, fits, at) = slot_offset-onto off hi nz nl in
    let start = home_slot name.host in
    let (j, round, visits) = slot_at_onto n taken start slot (home_slot-lt name.host) fits in
    let failed =
      probed_choice_full _ (sym (choose_hashed n (service name) name.tier name.host taken t) ∙ e) in
    rw (← at, ← visits)
      (probe-eq-none n taken start block_slots 0 j failed (omega arith) (omega arith)
        (rw (visits, at) lo))

-- A name whose hashed address is free gets it, whatever else is in use.
pub address_for_home :
    (n : Network) (name : Name) (taken : List Bytes)
    → name.tier ≢ Tier.apex
    → dynamic_base ≤ slot_offset (home_slot name.host)
    → is_taken taken (ip_text (address_at n (slot_offset (home_slot name.host)))) ≡ false
    → address_for n name taken ≡ found (address_at n (slot_offset (home_slot name.host)))
unfolding address_for
address_for_home n name taken t lo free =
    choose_hashed n (service name) name.tier name.host taken t
    ∙ ap probed_choice
        (probe_home n taken (home_slot name.host) (home_slot-lt name.host) lo free 32511)
    ∙ (unfold probed_choice in refl)

probed_choice-cases :
    (o : Option Ip) → (probed_choice o ≡ full) ⊎ ((ip : Ip) × (probed_choice o ≡ found ip))
unfolding probed_choice
probed_choice-cases none = inl refl
probed_choice-cases (some ip) = inr (ip, refl)

-- A name that is not an apex name gets an address whenever one of the hashed part of the block, its
-- last octet neither 0 nor 255, is free.
pub address_for_total :
    (n : Network) (name : Name) (taken : List Bytes) (off : ℕ)
    → name.tier ≢ Tier.apex
    → dynamic_base ≤ off
    → off < 32768
    → 1 ≤ off % 256
    → off % 256 ≤ 254
    → is_taken taken (ip_text (address_at n off)) ≡ false
    → (ip : Ip) × (address_for n name taken ≡ found ip)
unfolding address_for
address_for_total n name taken off t lo hi nz nl free =
    let shape = choose_hashed n (service name) name.tier name.host taken t in
    elim (probed_choice-cases (probe n taken (home_slot name.host) block_slots 0)) [
      | inr (ip, e) ↦ (ip, shape ∙ e)
      | inl e ↦ absurd (
          false_true free
            (address_for_full n name taken off t (unfold address_for in shape ∙ e) lo hi nz nl))
    ]
  where
    false_true : {b : Bool} → b ≡ false → b ≡ true → ⊥
    false_true p q = cc (p, q)
