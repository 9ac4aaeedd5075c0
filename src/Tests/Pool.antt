-- ===== src/Tests/Pool.antt =====
-- Addresses.
use doze_names.Prelude.{[], ◌∷◌, none, false, ◌≡◌, ◌≢◌, refl, arith}
use doze_names.Text.{contains_byte, codes, eq_bytes, cut, split, split_cons}
use doze_names.Names.{Name, Tier, service}
use doze_names.Net.{
  Ip, ip_text, octet_text, parse_ip, parse_fields, parse_octet, octet_digits, four_octets,
}
use doze_names.Pool.{
  loopback_net, found, address_at, offset, slot_offset, apex_offset, apex_addr, fnv_from, fnv32a,
  is_taken, probe, home_slot, apex_choice, probed_choice, choose, address_for,
}
use doze_names.Pool.Slots.{IsNetwork}
use doze_names.Pool.Address.{IsDynamic, address_for-IsDynamic}

abbrev loopback_IsNetwork : IsNetwork loopback_net
loopback_IsNetwork = record { a_lt = omega arith; b_lt = omega arith }

abbrev db : Name
db = record { host = codes "db.shop.doze"; tier = Tier.qualified }

program : Unit {0}
unfolding contains_byte eq_bytes cut split split_cons service ip_text octet_text parse_ip
    parse_fields parse_octet octet_digits four_octets address_at offset slot_offset apex_offset
    apex_addr fnv_from fnv32a is_taken probe home_slot apex_choice probed_choice choose address_for
program = tt

hashes : (fnv32a (codes "") ≡ 2166136261) × (fnv32a (codes "a") ≡ 0xe40c292c)
unfolding program
hashes = (refl, refl)

abbrev db_ip : Ip
db_ip = record { a = 127; b = 0; c = 114; d = 116 }

db_choice : address_for loopback_net db [] ≡ found db_ip
unfolding program
db_choice = refl

db_next : address_for loopback_net db (ip_text db_ip ∷ []) ≡ found (record db_ip { d = 117 })
unfolding program
db_next = refl

kafka :
    address_for loopback_net (record { host = codes "kafka.doze"; tier = Tier.apex }) []
    ≡ found (record { a = 127; b = 0; c = 0; d = 3 })
unfolding program
kafka = refl

refused_texts :
    (parse_ip (codes "127.0.0.01") ≡ none)
    × (parse_ip (codes "127.0.0.256") ≡ none)
    × (parse_ip (codes "127.0.1") ≡ none)
unfolding program
refused_texts = (refl, refl, refl)

not_apex : db.tier ≢ Tier.apex
not_apex e = cc

address_for-IsDynamic_example : IsDynamic loopback_net db_ip × (is_taken [] (ip_text db_ip) ≡ false)
address_for-IsDynamic_example = address_for-IsDynamic loopback_net db [] not_apex db_choice
