-- ===== src/Pool/Slots.antt =====
-- The slots and the offsets of the block.
use doze_names.Prelude.{ℕ, ◌+◌, ◌-◌, ◌*◌, ◌/◌, ◌%◌, ◌≤◌, ◌<◌, some, ◌≡◌, arith}
use doze_names.Net.{Ip, ip_text}
use doze_names.Net.Text.{IsIp, ip_text-injective}
use doze_names.Pool.{Network, address_at, offset, slot_offset, block_slots}

pub record IsNetwork (n : Network) : Type 0 where
  pub a_lt : n.a < 256
  pub b_lt : n.b < 256

-- The offset of a slot lies in the block, and its last octet is neither 0 nor 255.
pub slot_offset_bounds :
    (slot : ℕ)
    → slot < block_slots
    → (slot_offset slot < 32768) × (1 ≤ slot_offset slot % 256) × (slot_offset slot % 256 ≤ 254)
unfolding slot_offset
slot_offset_bounds slot h = omega arith

-- Two slots with one offset are one slot.
pub slot_offset-injective : (s t : ℕ) → slot_offset s ≡ slot_offset t → s ≡ t
unfolding slot_offset
slot_offset-injective s t e = omega arith

-- Every offset of the block whose last octet is neither 0 nor 255 is the offset of a slot.
pub slot_offset-onto :
    (off : ℕ)
    → off < 32768
    → 1 ≤ off % 256
    → off % 256 ≤ 254
    → (slot : ℕ) × (slot < block_slots) × (slot_offset slot ≡ off)
unfolding slot_offset
slot_offset-onto off lt lo hi = (off / 256 * 254 + (off % 256 - 1), omega arith, omega arith)

pub address_at-IsIp : (n : Network) (off : ℕ) → IsNetwork n → IsIp (address_at n off)
unfolding address_at
address_at-IsIp n off h = record {
  a_lt = h.a_lt;
  b_lt = h.b_lt;
  c_lt = omega arith;
  d_lt = omega arith;
}

-- The offset of the address at an offset of the block is that offset.
pub offset-address_at :
    (n : Network) (off : ℕ) → off < 32768 → offset n (address_at n off) ≡ some off
unfolding offset address_at
offset-address_at n off h = ground arith

-- An address with an offset is the address at that offset, which lies in the block.
pub address_at-offset :
    (n : Network) (ip : Ip) {off : ℕ}
    → IsIp ip
    → offset n ip ≡ some off
    → (address_at n off ≡ ip) × (off < 32768)
unfolding offset address_at
address_at-offset n ip h e = ground arith

-- Two offsets of the block whose addresses have one text are one offset.
pub address_text-injective :
    (n : Network) (x y : ℕ)
    → IsNetwork n
    → x < 32768
    → y < 32768
    → ip_text (address_at n x) ≡ ip_text (address_at n y)
    → x ≡ y
address_text-injective n x y h hx hy e = cc (
  offset-address_at n x hx,
  offset-address_at n y hy,
  ip_text-injective _ _ (address_at-IsIp n x h) (address_at-IsIp n y h) e,
)
