-- ===== src/Packet/Connection.antt =====
-- A connection through the translation: both directions, and a reply to what was translated.
use doze_names.Prelude.{
  ℕ, ◌+◌, ◌-◌, ◌*◌, ◌%◌, ◌<◌, ◌≤◌, true, false, ◌⊎◌, inl, inr, none, some, ◌≡◌, refl, ◌∙◌, arith,
  ltb, ◌==◌, length,
}
use doze_names.Text as Go
use doze_names.Net.{Ip}
use doze_names.Wire.{byte_at, u16_at}
use doze_names.Packet.Bytes.{
  put_u16, address_at, length-put_u16, byte_at-put_u16_other, u16_at-put_u16,
}
use doze_names.Packet.Endpoints.{
  address_at_same, u16_at_same, set_addrs_other, set_addrs_src, set_addrs_dst, tcp_checksum_other,
}
use doze_names.Packet.{
  Forwards, proto_tcp, set_addrs, turn_round, translate_tcp, well_formed, translate,
}

-- where a segment comes from and goes to
pub record Ends : Type 0 where
  pub src : Ip
  pub dst : Ip
  pub sport : ℕ
  pub dport : ℕ

-- the length of a packet's header
abbrev pub header_len : Go.Bytes → ℕ
header_len p = byte_at p 0 % 16 * 4

unfoldable pub ends_of : Go.Bytes → Ends
ends_of p = record {
  src = address_at p 12;
  dst = address_at p 16;
  sport = u16_at p (header_len p);
  dport = u16_at p (header_len p + 2);
}

abbrev pub swap : Ends → Ends
swap e = record { src = e.dst; dst = e.src; sport = e.dport; dport = e.sport }

ends_eq :
    (q : Go.Bytes) (h : ℕ) (e : Ends)
    → header_len q ≡ h
    → address_at q 12 ≡ e.src
    → address_at q 16 ≡ e.dst
    → u16_at q h ≡ e.sport
    → u16_at q (h + 2) ≡ e.dport
    → ends_of q ≡ e
unfolding ends_of
ends_eq q h e header src dst sport dport = rw (header, src, dst, sport, dport, ends_of) refl

-- a packet of the interface that holds a whole TCP header
pub record IsSegment (gw : Ip) (p : Go.Bytes) : Type 0 where
  pub well : well_formed p gw ≡ true
  pub tcp : byte_at p 9 ≡ proto_tcp
  pub long : 20 ≤ u16_at p 2 - header_len p

module _ (gw : Ip) (p : Go.Bytes) (s : IsSegment gw p) where
  segment_fits : (20 ≤ header_len p) × (header_len p + 20 ≤ length p)
  unfolding well_formed
  segment_fits = let well = s.well in let long = s.long in (ground arith, ground arith)

  -- the packet that is turned round, whatever is put into one of its ports
  module _ (port v : ℕ) (small : v < 65536)
      (at_port : (port ≡ header_len p) ⊎ (port ≡ header_len p + 2)) where
    turned : Go.Bytes
    turned =
        turn_round (put_u16 p port v) (address_at p 12) (address_at p 16) (header_len p)
          (u16_at p 2)

    turned_byte :
        (j : ℕ)
        → (j < 10) ⊎ ((20 ≤ j) × (j < header_len p + 16))
        → byte_at turned j ≡ byte_at (put_u16 p port v) j
    unfolding turned turn_round
    turned_byte j out =
        let fits = segment_fits in
        tcp_checksum_other
          (set_addrs (put_u16 p port v) (header_len p) (address_at p 16) (address_at p 12))
          (header_len p) (u16_at p 2) j (grind arith)
        ∙ set_addrs_other (put_u16 p port v) (header_len p) (address_at p 16) (address_at p 12) j
            (grind arith)

    turned_src : address_at turned 12 ≡ address_at p 16
    unfolding turned turn_round
    turned_src =
        let fits = segment_fits in
        let q = put_u16 p port v in
        let a = set_addrs q (header_len p) (address_at p 16) (address_at p 12) in
        address_at_same a turned 12
          (λ j low high. tcp_checksum_other a (header_len p) (u16_at p 2) j (inl (omega arith)))
        ∙ set_addrs_src q (header_len p) (address_at p 16) (address_at p 12)
            (omega (arith, length-put_u16 p port v))

    turned_dst : address_at turned 16 ≡ address_at p 12
    unfolding turned turn_round
    turned_dst =
        let fits = segment_fits in
        let q = put_u16 p port v in
        let a = set_addrs q (header_len p) (address_at p 16) (address_at p 12) in
        address_at_same a turned 16
          (λ j low high. tcp_checksum_other a (header_len p) (u16_at p 2) j (inl (omega arith)))
        ∙ set_addrs_dst q (header_len p) (address_at p 16) (address_at p 12)
            (omega (arith, length-put_u16 p port v))

    turned_header : header_len turned ≡ header_len p
    turned_header =
        let fits = segment_fits in
        let first =
          turned_byte 0 (inl (omega arith))
          ∙ byte_at-put_u16_other p port v 0 (grind arith) (grind arith) in
        omega (arith, first)

    turned_port : u16_at turned port ≡ v
    turned_port =
        let fits = segment_fits in
        u16_at_same (put_u16 p port v) turned port (turned_byte port (inr (grind arith)))
          (turned_byte (port + 1) (inr (grind arith)))
        ∙ u16_at-put_u16 p port v (grind arith) small

    turned_other :
        (other : ℕ)
        → ((other ≡ header_len p) × (port ≡ header_len p + 2))
          ⊎ ((other ≡ header_len p + 2) × (port ≡ header_len p))
        → u16_at turned other ≡ u16_at p other
    turned_other other apart =
        let fits = segment_fits in
        u16_at_same (put_u16 p port v) turned other (turned_byte other (inr (grind arith)))
          (turned_byte (other + 1) (inr (grind arith)))
        ∙ u16_at_same p (put_u16 p port v) other
            (byte_at-put_u16_other p port v other (grind arith) (grind arith))
            (byte_at-put_u16_other p port v (other + 1) (grind arith) (grind arith))

  module _ (f : Forwards) where
    opens : translate p gw f ≡ translate_tcp p (header_len p) (u16_at p 2) f
    unfolding translate
    opens =
        let tcp = s.tcp in
        let not_icmp : (byte_at p 9 == 1) ≡ false = ground arith in
        let is_tcp : (byte_at p 9 == proto_tcp) ≡ true = ground arith in
        rw (s.well, not_icmp, is_tcp, translate) refl

    long_enough : ltb (u16_at p 2 - header_len p) 20 ≡ false
    long_enough = let l = s.long in ground arith

    -- A segment from a port that the address's service listens on leaves for the same machine, as the
    -- service's answer: from the address, at the public port, to the port it was for. The public port
    -- has 16 bits.
    pub translate_answer :
        (port : ℕ)
        → port < 65536
        → f.public (ends_of p).dst (ends_of p).sport ≡ some port
        → (q : Go.Bytes) × (translate p gw f ≡ some q)
          × (ends_of q ≡ record {
            src = (ends_of p).dst;
            dst = (ends_of p).src;
            sport = port;
            dport = (ends_of p).dport;
          })
    unfolding translate_tcp ends_of turned
    translate_answer port small known =
        let h = header_len p in
        let here : (h ≡ h) ⊎ (h ≡ h + 2) = inl refl in
        (
          turned h port small here,
          opens ∙ rw (long_enough, known, translate_tcp) refl,
          ends_eq (turned h port small here) h _ (turned_header h port small here)
              (turned_src h port small here) (turned_dst h port small here)
              (turned_port h port small here)
              (turned_other h port small here (h + 2) (inr (refl, refl))),
        )

    -- Any other segment for a registered public port of the address leaves for the service: from the
    -- address, at the client's port, to the private port, which has 16 bits.
    pub translate_client :
        (port : ℕ)
        → port < 65536
        → f.public (ends_of p).dst (ends_of p).sport ≡ none
        → f.private (ends_of p).dst (ends_of p).dport ≡ some port
        → (q : Go.Bytes) × (translate p gw f ≡ some q)
          × (ends_of q ≡ record {
            src = (ends_of p).dst;
            dst = (ends_of p).src;
            sport = (ends_of p).sport;
            dport = port;
          })
    unfolding translate_tcp ends_of turned
    translate_client port small unknown known =
        let h = header_len p in
        let here : (h + 2 ≡ h) ⊎ (h + 2 ≡ h + 2) = inr refl in
        (
          turned (h + 2) port small here,
          opens ∙ rw (long_enough, unknown, known, translate_tcp) refl,
          ends_eq (turned (h + 2) port small here) h _ (turned_header (h + 2) port small here)
              (turned_src (h + 2) port small here) (turned_dst (h + 2) port small here)
              (turned_other (h + 2) port small here h (inl (refl, refl)))
              (turned_port (h + 2) port small here),
        )

-- A connection through the translation: a client's segment for a registered port is translated, and
-- the service's reply to what comes out, a segment with the ends exchanged, is translated to a reply
-- to the client's segment. The tables must agree on the port, whose two numbers have 16 bits, and the
-- client's own port must not be one that the service listens on.
pub translate_reply :
    (gw : Ip) (f : Forwards) (p r : Go.Bytes) (private_port : ℕ)
    → IsSegment gw p
    → IsSegment gw r
    → private_port < 65536
    → (ends_of p).dport < 65536
    → f.public (ends_of p).dst (ends_of p).sport ≡ none
    → f.private (ends_of p).dst (ends_of p).dport ≡ some private_port
    → f.public (ends_of p).dst private_port ≡ some (ends_of p).dport
    → ends_of r ≡ record {
      src = (ends_of p).src;
      dst = (ends_of p).dst;
      sport = private_port;
      dport = (ends_of p).sport;
    }
    → (q : Go.Bytes) × (translate p gw f ≡ some q)
      × (ends_of r ≡ swap (ends_of q))
      × (back : Go.Bytes) × (translate r gw f ≡ some back)
      × (ends_of back ≡ swap (ends_of p))
translate_reply gw f p r private_port sp sr small small' unknown known agrees ends =
    let (q, sent, there) = translate_client gw p sp f private_port small unknown known in
    let agrees' : f.public (ends_of r).dst (ends_of r).sport ≡ some (ends_of p).dport =
      rw (ends) agrees in
    let (back, returned, again) = translate_answer gw r sr f (ends_of p).dport small' agrees' in
    (q, sent, rw (there) ends, back, returned, again ∙ rw (ends) refl)
