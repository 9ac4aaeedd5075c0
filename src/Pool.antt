-- ===== src/Pool.antt =====
-- pool.go: the block of addresses, and the choice of a name's address. `hash/fnv` is written out.
pub mod Slots
pub mod Address
use Prim.Native.Nat.{bit_xor}
use doze_names.Prelude.{
  ℕ, zero, suc, ◌+◌, ◌*◌, ◌/◌, ◌%◌, ◌^◌, Bool, true, false, ◌&&◌, List, [], ◌∷◌, Option, none, some,
  ltb, leb, ◌==◌, if◌then◌else◌,
}
use doze_names.Text.{Bytes, codes, eq_bytes}
use doze_names.Names.{Name, Tier, service}
use doze_names.Net.{Ip, ip_text}

abbrev pub apex_base : ℕ
apex_base = 2

abbrev pub dynamic_base : ℕ
dynamic_base = 10

abbrev pub block_thirds : ℕ
block_thirds = 128

abbrev pub per_third : ℕ
per_third = 254

abbrev pub block_slots : ℕ
block_slots = 32512

pub record Network : Type 0 where
  pub a : ℕ
  pub b : ℕ
  pub virtual : Bool

abbrev pub loopback_net : Network
loopback_net = record { a = 127; b = 0; virtual = false }

abbrev pub virtual_net : Network
virtual_net = record { a = 198; b = 19; virtual = true }

-- `network.at`
unfoldable pub address_at : Network → ℕ → Ip
address_at n off = record { a = n.a; b = n.b; c = off / 256 % 256; d = off % 256 }

-- `network.offset`
unfoldable pub offset : Network → Ip → Option ℕ
offset n ip =
    if ip.a == n.a && ip.b == n.b && ltb ip.c block_thirds then some (ip.c * 256 + ip.d) else none

-- `network.gateway`
unfoldable pub gateway : Network → Ip
gateway n = address_at n 1

-- `slotOffset`
unfoldable pub slot_offset : ℕ → ℕ
slot_offset slot = slot / per_third * 256 + (slot % per_third + 1)

-- `apexOffset`
unfoldable pub apex_offset : Bytes → Option ℕ
apex_offset s =
    if eq_bytes s (codes "aws") then some 2 else if eq_bytes s (codes "kafka") then some 3 else none

-- `apexAddr`
unfoldable pub apex_addr : Network → Bytes → Option Ip
apex_addr n s = elim (apex_offset s) [ none ↦ none | some off ↦ some (address_at n off) ]

-- `inPool`
unfoldable pub in_pool : Network → Ip → Bool
in_pool n ip = elim (offset n ip) [ none ↦ false | some off ↦ leb apex_base off ]

-- 32-bit FNV-1a
unfoldable pub fnv_from : ℕ → Bytes → ℕ
fnv_from h [] = h
fnv_from h (c ∷ s) = fnv_from (bit_xor h c * 16777619 % 2 ^ 32) s

unfoldable pub fnv32a : Bytes → ℕ
fnv32a = fnv_from 2166136261

-- `taken[s]`, of a set of texts
unfoldable pub is_taken : List Bytes → Bytes → Bool
is_taken [] s = false
is_taken (t ∷ ts) s = if eq_bytes t s then true else is_taken ts s

-- the loop of `addressFor` from slot `start + i`, with `rounds` rounds left
unfoldable pub probe : Network → List Bytes → ℕ → ℕ → ℕ → Option Ip
probe n taken start zero i = none
probe n taken start (suc rounds) i =
    let off = slot_offset ((start + i) % block_slots) in
    let rest = probe n taken start rounds (suc i) in
    if ltb off dynamic_base
    then rest
    else if is_taken taken (ip_text (address_at n off))
    then rest
    else some (address_at n off)

-- the slot that a name is hashed to
unfoldable pub home_slot : Bytes → ℕ
home_slot host = fnv32a host % block_slots

pub data Choice : Type 0 where
  found : Ip → Choice
  unreserved full : Choice

unfoldable pub apex_choice : Option Ip → Choice
apex_choice none = unreserved
apex_choice (some ip) = found ip

unfoldable pub probed_choice : Option Ip → Choice
probed_choice none = full
probed_choice (some ip) = found ip

-- `addressFor`
unfoldable pub choose : Network → Bytes → Tier → Bytes → List Bytes → Choice
choose n svc Tier.apex host taken = apex_choice (apex_addr n svc)
choose n svc _ host taken = probed_choice (probe n taken (home_slot host) block_slots 0)

unfoldable pub address_for : Network → Name → List Bytes → Choice
address_for n name taken = choose n (service name) name.tier name.host taken
