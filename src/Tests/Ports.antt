-- ===== src/Tests/Ports.antt =====
-- Translated ports: `db.shop.doze`, 127.0.3.7, served on port 40001.
use doze_names.Prelude.{ℕ, Bool, true, false, [], ◌∷◌, some, ◌≡◌, refl}
use doze_names.Text.{
  Bytes, Unicode, codes, contains_byte, eq_bytes, to_lower, is_ascii, lower_byte, trim_suffix_byte,
  has_suffix, split, split_cons,
}
use doze_names.Table.{lookup, insert, delete, keep_if}
use doze_names.Decimal.{itoa, digits_onto, atoi, unsigned, value_from}
use doze_names.Names.{in_zone}
use doze_names.Net.{
  hex_digit, hex_digits, parse_group, cons_group, embedded, groups, side_groups, cut_double, zeros,
  padded, all_groups, mapped_from, Ip, parse_ip, parse_fields, parse_octet, octet_digits,
  four_octets,
}
use doze_names.Pool.{loopback_net, offset}
use doze_names.Registry.{Entry, blank_entry, Content, absent, holds, all_well}
use doze_names.Ports.{merge_ports, is_port}
use doze_names.Ports.Files.{
  as_text, PortsEntry, read_ports, is_null, drop_mine, finish, put_ports, write_ports,
  read_ports-write_ports,
}
use doze_names.Ports.Daemon.{
  Row, find_private, find_public, same_claim, ports_of, port_row, port_rows, front_door_open,
  front_row, block_address, rows_at, entries_of, name_rows, all_rows, read_port_table,
}
use doze_names.Ports.Rows.{IsServed, door_of, find_private-IsServed}
use doze_names.Packet.Bytes.{eq_ip}

instance abbrev ascii_only : Unicode
ascii_only = record { lower = λ s. s; runes = λ s. s }

program : Unit {0}
unfolding as_text contains_byte eq_bytes to_lower is_ascii lower_byte trim_suffix_byte has_suffix
    split split_cons lookup insert delete keep_if itoa digits_onto atoi unsigned value_from in_zone
    parse_ip parse_fields parse_octet octet_digits four_octets offset merge_ports is_port read_ports
    is_null drop_mine finish put_ports write_ports find_private find_public same_claim ports_of
    port_row port_rows front_door_open front_row block_address rows_at entries_of name_rows all_rows
    read_port_table eq_ip
program = tt

abbrev db_ip : Ip
db_ip = record { a = 127; b = 0; c = 3; d = 7 }

abbrev db : Entry
db = record blank_entry { ip = codes "127.0.3.7"; pid = 100 }

abbrev db_ports : PortsEntry
db_ports = record { pid = 100; ip = codes "127.0.3.7"; ports = (codes "5432", 40001) ∷ [] }

abbrev names : Content Entry
names = holds ((codes "db.shop.doze", db) ∷ [])

abbrev side : Content PortsEntry
side = holds ((codes "db.shop.doze", db_ports) ∷ [])

abbrev everyone : ℕ → Bool
everyone pid = true

served : find_private (read_port_table everyone loopback_net names side) db_ip 5432 ≡ some 40001
unfolding program
served = refl

-- an address in the spelling of IPv6 is the same address
mapped_served :
    find_private
      (read_port_table everyone loopback_net
        (holds ((codes "db.shop.doze", record db { ip = codes "::ffff:127.0.3.7" }) ∷ []))
        (holds ((codes "db.shop.doze", record db_ports { ip = [] }) ∷ [])))
      db_ip
      5432
    ≡ some 40001
unfolding program hex_digit hex_digits parse_group cons_group embedded groups side_groups cut_double
    zeros padded all_groups mapped_from
mapped_served = refl

hex_spelling : parse_ip (codes "0:0::0:FFFF:7f00:0307") ≡ some db_ip
unfolding program hex_digit hex_digits parse_group cons_group embedded groups side_groups cut_double
    zeros padded all_groups mapped_from
hex_spelling = refl

gone : read_port_table (λ pid. false) loopback_net names side ≡ []
unfolding program
gone = refl

read_ports-write_ports_example :
    (lookup (codes "db.shop.doze") (read_ports side) ≡ some db_ports)
    × ((other : Bytes) (old : PortsEntry)
        → eq_bytes (codes "db.shop.doze") other ≡ false
        → lookup other (read_ports absent) ≡ some old
        → everyone old.pid ≡ true
        → lookup other (read_ports side) ≡ some old)
unfolding program
read_ports-write_ports_example =
    read_ports-write_ports everyone all_well (codes "db.shop.doze") db_ports absent side
      (codes "5432", 40001) [] refl refl

find_private-IsServed_example :
    (r : Row) × IsServed everyone loopback_net
      (read_ports side)
      (door_of everyone names)
      (entries_of names)
      r
    × (eq_ip r.addr db_ip ≡ true)
    × (r.public ≡ 5432)
    × (r.private ≡ 40001)
unfolding program
find_private-IsServed_example =
    find_private-IsServed everyone loopback_net names side db_ip 5432 refl
