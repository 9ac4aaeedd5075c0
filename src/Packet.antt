-- ===== src/Packet.antt =====
-- nat.go: the translation of one IPv4 packet. A packet is a list of bytes, and what the source writes
-- in place is a new list; `translate` gives the packet to be written back, if there is one. The ports
-- that are registered are the argument `Forwards`. Masks and shifts of bytes are quotients and
-- remainders; a `uint32` wraps at 2 ^ 32.
pub mod Bytes
pub mod Sum
pub mod Endpoints
pub mod Connection
use doze_names.Prelude.{
  ℕ, ◌+◌, ◌-◌, ◌*◌, ◌/◌, ◌%◌, ◌^◌, Bool, not, ◌||◌, ◌&&◌, Option, none, some, ltb, ◌==◌,
  if◌then◌else◌, length, take, drop,
}
use doze_names.Text as Go
use doze_names.Net.{Ip}
use doze_names.Wire.{byte_at, u16_at, u32_at}
use doze_names.Packet.Bytes.{set_at, put_u16, put_u32, address_at, put_address, eq_ip}
use doze_names.Packet.Sum.{checksum}

abbrev pub proto_icmp : ℕ
proto_icmp = 1

abbrev pub proto_tcp : ℕ
proto_tcp = 6

abbrev pub tcp_fin : ℕ
tcp_fin = 1

abbrev pub tcp_syn : ℕ
tcp_syn = 2

abbrev pub tcp_rst : ℕ
tcp_rst = 4

abbrev pub tcp_ack : ℕ
tcp_ack = 16

-- `flags&bit != 0`, for a power of two
abbrev pub has_flag : ℕ → ℕ → Bool
has_flag flags bit = flags / bit % 2 == 1

-- `forwards`: the registered ports of every address
pub record Forwards : Type 0 where
  pub private : Ip → ℕ → Option ℕ
  pub public : Ip → ℕ → Option ℕ

-- `p[ihl:total]`
abbrev pub segment : Go.Bytes → ℕ → ℕ → Go.Bytes
segment p ihl total = take (total - ihl) (drop ihl p)

-- `setAddrs`
unfoldable pub set_addrs : Go.Bytes → ℕ → Ip → Ip → Go.Bytes
set_addrs p ihl src dst =
    let q = set_at (set_at (put_address (put_address p 12 src) 16 dst) 10 0) 11 0 in
    put_u16 q 10 (checksum (take ihl q) 0)

-- `tcpChecksum`
unfoldable pub tcp_checksum : Go.Bytes → ℕ → ℕ → Go.Bytes
tcp_checksum p ihl total =
    let q = set_at (set_at p (ihl + 16) 0) (ihl + 17) 0 in
    let sum =
      u16_at q 12 + u16_at q 14 + (u16_at q 16 + u16_at q 18) + (proto_tcp + (total - ihl)) in
    put_u16 q (ihl + 16) (checksum (segment q ihl total) (sum % 2 ^ 32))

-- the sequence space that the refused segment takes, wrapped as a `uint32`
unfoldable pub segment_length : Go.Bytes → ℕ → ℕ → ℕ
segment_length p ihl total =
    let flags = byte_at p (ihl + 13) in
    let payload = total - ihl + 2 ^ 32 - byte_at p (ihl + 12) / 16 * 4 in
    (payload
      + (if has_flag flags tcp_syn then 1 else 0)
      + (if has_flag flags tcp_fin then 1 else 0))
    % 2 ^ 32

-- the numbers and flags of the reset that answers a segment
unfoldable pub put_reset : Go.Bytes → ℕ → ℕ → ℕ → ℕ → Go.Bytes
put_reset p flags seq ack seglen =
    if has_flag flags tcp_ack
    then set_at (put_u32 (put_u32 p 24 ack) 28 0) 33 tcp_rst
    else set_at (put_u32 (put_u32 p 24 0) 28 ((seq + seglen) % 2 ^ 32)) 33 (tcp_rst + tcp_ack)

-- the bare header of 20 bytes on one of 20 bytes
unfoldable pub bare_header : Go.Bytes → Go.Bytes
bare_header p = set_at (put_u16 (put_u16 (set_at p 0 69) 2 40) 6 0) 8 64

-- the window and the urgent pointer
unfoldable pub clear_rest : Go.Bytes → Go.Bytes
clear_rest p = set_at (set_at (set_at (set_at (set_at p 32 80) 34 0) 35 0) 38 0) 39 0

-- `refuse`
unfoldable pub refuse : Go.Bytes → ℕ → ℕ → Option Go.Bytes
refuse p ihl total =
    let flags = byte_at p (ihl + 13) in
    let t = put_u16 (put_u16 (bare_header p) 20 (u16_at p (ihl + 2))) 22 (u16_at p ihl) in
    let r =
      clear_rest (
        put_reset t flags (u32_at p (ihl + 4)) (u32_at p (ihl + 8)) (segment_length p ihl total)) in
    if has_flag flags tcp_rst
    then none
    else some (tcp_checksum (set_addrs r 20 (address_at p 16) (address_at p 12)) 20 40)

-- an echo request turned into its reply
unfoldable pub translate_icmp : Go.Bytes → ℕ → ℕ → Option Go.Bytes
translate_icmp p ihl total =
    let q = set_at (set_at (set_at p ihl 0) (ihl + 2) 0) (ihl + 3) 0 in
    let r = put_u16 q (ihl + 2) (checksum (segment q ihl total) 0) in
    if ltb (total - ihl) 8 || not (byte_at p ihl == 8)
    then none
    else some (set_addrs r ihl (address_at p 16) (address_at p 12))

-- a segment whose ports have been rewritten, turned round
unfoldable pub turn_round : Go.Bytes → Ip → Ip → ℕ → ℕ → Go.Bytes
turn_round p src dst ihl total = tcp_checksum (set_addrs p ihl dst src) ihl total

-- a segment: the service's answer is looked for first
unfoldable pub translate_tcp : Go.Bytes → ℕ → ℕ → Forwards → Option Go.Bytes
translate_tcp p ihl total f =
    let src = address_at p 12 in
    let dst = address_at p 16 in
    if ltb (total - ihl) 20 then none else elim (f.public dst (u16_at p ihl)) [
      | some pub_port ↦ some (turn_round (put_u16 p ihl pub_port) src dst ihl total)
      | none ↦ elim (f.private dst (u16_at p (ihl + 2))) [
        | some priv_port ↦ some (turn_round (put_u16 p (ihl + 2) priv_port) src dst ihl total)
        | none ↦ refuse p ihl total
      ]
    ]

-- is it a packet that may be translated?
unfoldable pub well_formed : Go.Bytes → Ip → Bool
well_formed p gw =
    let ihl = byte_at p 0 % 16 * 4 in
    let total = u16_at p 2 in
    not (ltb (length p) 20 || not (byte_at p 0 / 16 == 4))
    && not (ltb ihl 20 || ltb total ihl || ltb (length p) total)
    && u16_at p 6 % 2 ^ 14 == 0
    && not (not (eq_ip (address_at p 12) gw) || eq_ip (address_at p 16) gw)

-- `translate`
unfoldable pub translate : Go.Bytes → Ip → Forwards → Option Go.Bytes
translate p gw f =
    let ihl = byte_at p 0 % 16 * 4 in
    let total = u16_at p 2 in
    if not (well_formed p gw)
    then none
    else if byte_at p 9 == proto_icmp
    then translate_icmp p ihl total
    else if byte_at p 9 == proto_tcp
    then translate_tcp p ihl total f
    else none

-- `packetLen`
unfoldable pub packet_len : Go.Bytes → ℕ
packet_len p = u16_at p 2
