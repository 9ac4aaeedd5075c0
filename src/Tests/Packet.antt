-- ===== src/Tests/Packet.antt =====
-- A connection to `db.shop.doze`, 198.19.3.7, on port 5432, served on port 40001.
use doze_names.Prelude.{ℕ, ◌∷◌, [], ◌+◌, ◌-◌, none, some, ◌≡◌, refl, arith, ◌==◌, if◌then◌else◌}
use doze_names.Text as Go
use doze_names.Net.{Ip}
use doze_names.Packet.Bytes.{set_at, put_u16, put_u32, address_at, put_address, eq_ip}
use doze_names.Packet.Sum.{
  add_carry, add_halves, add_words, add_all, fold16, checksum, word_sum, ones_sum,
  checksum-ones_sum,
}
use doze_names.Packet.Connection.{IsSegment, ends_of, swap, translate_reply}
use doze_names.Packet.{
  Forwards, set_addrs, tcp_checksum, segment_length, put_reset, bare_header, clear_rest, refuse,
  translate_icmp, turn_round, translate_tcp, well_formed, translate,
}

program : Unit {0}
unfolding set_at put_u16 put_u32 address_at put_address eq_ip add_carry add_halves add_words add_all
    fold16 checksum word_sum ones_sum ends_of set_addrs tcp_checksum segment_length put_reset
    bare_header clear_rest refuse translate_icmp turn_round translate_tcp well_formed translate
program = tt

abbrev gw : Ip
gw = record { a = 198; b = 19; c = 0; d = 1 }

abbrev db : Ip
db = record { a = 198; b = 19; c = 3; d = 7 }

abbrev table : Forwards
table = record {
  private = λ v port. if port == 5432 then some 40001 else none;
  public = λ v port. if port == 40001 then some 5432 else none;
}

-- 50000 is 195 * 256 + 80, 5432 is 21 * 256 + 56, and 40001 is 156 * 256 + 65
abbrev segment_of : ℕ → ℕ → ℕ → ℕ → Go.Bytes
segment_of s s' d d' =
    69 ∷ 0 ∷ 0 ∷ 40 ∷ 0 ∷ 1 ∷ 64 ∷ 0 ∷ 64 ∷ 6 ∷ 0 ∷ 0 ∷ 198 ∷ 19 ∷ 0 ∷ 1 ∷ 198 ∷ 19 ∷ 3 ∷ 7 ∷ s ∷ s'
    ∷ d ∷ d' ∷ 0 ∷ 0 ∷ 0 ∷ 1 ∷ 0 ∷ 0 ∷ 0 ∷ 0 ∷ 80 ∷ 2 ∷ 255 ∷ 255 ∷ 0 ∷ 0 ∷ 0 ∷ 0 ∷ []

abbrev client : Go.Bytes
client = segment_of 195 80 21 56

abbrev reply_segment : Go.Bytes
reply_segment = segment_of 156 65 195 80

abbrev stray : Go.Bytes
stray = segment_of 195 80 0 99

client-IsSegment : IsSegment gw client
unfolding program
client-IsSegment = record { well = refl; tcp = refl; long = omega arith }

reply_segment-IsSegment : IsSegment gw reply_segment
unfolding program
reply_segment-IsSegment = record { well = refl; tcp = refl; long = omega arith }

-- a port that nothing registered is refused by a reset with the sequence number acknowledged
refused :
    translate stray gw table
    ≡ some (
        69 ∷ 0 ∷ 0 ∷ 40 ∷ 0 ∷ 1 ∷ 0 ∷ 0 ∷ 64 ∷ 6 ∷ 235 ∷ 160 ∷ 198 ∷ 19 ∷ 3 ∷ 7 ∷ 198 ∷ 19 ∷ 0 ∷ 1
        ∷ 0 ∷ 99 ∷ 195 ∷ 80 ∷ 0 ∷ 0 ∷ 0 ∷ 0 ∷ 0 ∷ 0 ∷ 0 ∷ 2 ∷ 80 ∷ 20 ∷ 0 ∷ 0 ∷ 92 ∷ 236 ∷ 0 ∷ 0
        ∷ [])
unfolding program
refused = refl

checksum-ones_sum_example :
    checksum (1 ∷ 2 ∷ 3 ∷ []) 7 ≡ 65535 - ones_sum (7 + word_sum (1 ∷ 2 ∷ 3 ∷ []))
checksum-ones_sum_example =
    checksum-ones_sum (1 ∷ 2 ∷ 3 ∷ []) 7 (omega arith, (omega arith, (omega arith, tt)))
      (omega arith)

translate_reply_example :
    (q : Go.Bytes) × (translate client gw table ≡ some q)
    × (ends_of reply_segment ≡ swap (ends_of q))
    × (back : Go.Bytes) × (translate reply_segment gw table ≡ some back)
    × (ends_of back ≡ swap (ends_of client))
unfolding program
translate_reply_example =
    translate_reply gw table client reply_segment 40001 client-IsSegment reply_segment-IsSegment
      (omega arith) (omega arith) refl refl refl refl
