-- ===== src/Packet/Endpoints.antt =====
-- The two ends of a connection: where a translated packet comes from and goes to.
use doze_names.Prelude.{ℕ, ◌+◌, ◌<◌, ◌≤◌, ◌⊎◌, inl, inr, ◌≡◌, refl, ◌∙◌, arith, length, take}
use doze_names.Text as Go
use doze_names.Net.{Ip}
use doze_names.Wire.{byte_at, u16_at}
use doze_names.Packet.Bytes.{
  set_at, address_at, put_address, length-set_at, length-put_u16, length-put_address,
  byte_at-set_at_other, byte_at-put_u16_other, byte_at-put_address_other, address_at-put_address,
}
use doze_names.Packet.Sum.{checksum}
use doze_names.Packet.{set_addrs, tcp_checksum}

-- an address, or a word, is its bytes
pub address_at_same :
    (p q : Go.Bytes) (i : ℕ)
    → ((j : ℕ) → i ≤ j → j < i + 4 → byte_at q j ≡ byte_at p j)
    → address_at q i ≡ address_at p i
unfolding address_at
address_at_same p q i same =
    rw
      (
        same i (omega arith) (omega arith),
        same (i + 1) (omega arith) (omega arith),
        same (i + 2) (omega arith) (omega arith),
        same (i + 3) (omega arith) (omega arith),
      )
      refl

pub u16_at_same :
    (p q : Go.Bytes) (i : ℕ)
    → byte_at q i ≡ byte_at p i
    → byte_at q (i + 1) ≡ byte_at p (i + 1)
    → u16_at q i ≡ u16_at p i
u16_at_same p q i first second = omega (arith, first, second)

module _ (p : Go.Bytes) (ihl : ℕ) (src dst : Ip) where
  -- before the header's checksum is written
  addressed : Go.Bytes
  addressed = set_at (set_at (put_address (put_address p 12 src) 16 dst) 10 0) 11 0

  addressed_keeps :
      (j : ℕ)
      → (j < 10) ⊎ (12 ≤ j)
      → byte_at addressed j ≡ byte_at (put_address (put_address p 12 src) 16 dst) j
  unfolding addressed
  addressed_keeps j out =
      let q = put_address (put_address p 12 src) 16 dst in
      byte_at-set_at_other (set_at q 10 0) 11 0 j (grind arith)
      ∙ byte_at-set_at_other q 10 0 j (grind arith)

  set_addrs_keeps :
      (j : ℕ)
      → (j < 10) ⊎ (12 ≤ j)
      → byte_at (set_addrs p ihl src dst) j ≡ byte_at (put_address (put_address p 12 src) 16 dst) j
  unfolding set_addrs addressed
  set_addrs_keeps j out =
      byte_at-put_u16_other addressed 10 (checksum (take ihl addressed) 0) j (grind arith)
        (grind arith)
      ∙ addressed_keeps j out

  pub set_addrs_other :
      (j : ℕ) → (j < 10) ⊎ (20 ≤ j) → byte_at (set_addrs p ihl src dst) j ≡ byte_at p j
  set_addrs_other j out =
      set_addrs_keeps j (grind arith)
      ∙ byte_at-put_address_other (put_address p 12 src) 16 dst j (grind arith)
      ∙ byte_at-put_address_other p 12 src j (grind arith)

  pub set_addrs_src : 20 ≤ length p → address_at (set_addrs p ihl src dst) 12 ≡ src
  set_addrs_src long =
      address_at_same (put_address p 12 src) (set_addrs p ihl src dst) 12 (λ j low high.
        set_addrs_keeps j (inr low)
        ∙ byte_at-put_address_other (put_address p 12 src) 16 dst j (inl high))
      ∙ address_at-put_address p 12 src (omega arith)

  pub set_addrs_dst : 20 ≤ length p → address_at (set_addrs p ihl src dst) 16 ≡ dst
  set_addrs_dst long =
      address_at_same (put_address (put_address p 12 src) 16 dst) (set_addrs p ihl src dst) 16
        (λ j low high. set_addrs_keeps j (inr (omega arith)))
      ∙ address_at-put_address (put_address p 12 src) 16 dst
          (omega (arith, length-put_address p 12 src))

  pub length-set_addrs : length (set_addrs p ihl src dst) ≡ length p
  unfolding set_addrs
  length-set_addrs = simp (length-put_u16, length-set_at, length-put_address) refl

pub tcp_checksum_other :
    (p : Go.Bytes) (ihl total j : ℕ)
    → (j < ihl + 16) ⊎ (ihl + 18 ≤ j)
    → byte_at (tcp_checksum p ihl total) j ≡ byte_at p j
unfolding tcp_checksum
tcp_checksum_other p ihl total j out =
    byte_at-put_u16_other _ (ihl + 16) _ j (grind arith) (grind arith)
    ∙ byte_at-set_at_other (set_at p (ihl + 16) 0) (ihl + 17) 0 j (grind arith)
    ∙ byte_at-set_at_other p (ihl + 16) 0 j (grind arith)
