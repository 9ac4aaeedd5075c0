-- ===== src/Tests/Listen.antt =====
-- A service that listens on its name, where addresses are translated.
use doze_names.Prelude.{ℕ, Bool, true, false, [], ◌∷◌, none, some, ◌≡◌, refl, sym, arith, ◌==◌}
use doze_names.Text.{
  Unicode, codes, eq_bytes, split, split_cons, contains_byte, is_ascii, to_lower, has_suffix,
  trim_suffix_byte, lower_byte,
}
use doze_names.Table.{Table, lookup, insert, delete, keep_if}
use doze_names.Decimal.{digits_onto, itoa, value_from, unsigned, atoi}
use doze_names.Names.{Tier, in_zone, normalize}
use doze_names.Net.{
  Ip, ip_text, octet_text, parse_ip, parse_fields, parse_octet, octet_digits, four_octets,
  split_host_port, cut_last_colon, plain_parts, host_parts,
}
use doze_names.Pool.{virtual_net, gateway, in_pool, is_taken, offset, address_at}
use doze_names.Registry.{Entry, bad_port, Process, holds, absent, blank_entry, all_well}
use doze_names.Registry.Claims.{
  mine, claim_edit, release_edit, place, grant, grant_choice, grant_unless, renewed, holder,
  taken_by_others, in_the_way,
}
use doze_names.Registry.Update.{update, edit_content, edit_map, prune, newer, write_back, snapshot}
use doze_names.Ports.{is_port, set_port_edit, with_port, remember}
use doze_names.Ports.Files.{
  as_text, forget, read_ports, is_null, drop_mine, finish, put_ports, write_ports,
}
use doze_names.Ports.Store.{Forwarding, Ended, set_port, after_update, after_side}
use doze_names.Ports.Listen.{
  Lease, Listened, standing_for, Sockets, translated, shown, after_forward, forward, listen,
  bind_addr, find_lease, listen_lease, listen_at, by_lease, plain, refused,
}
use doze_names.Ports.Reached.{listen-shown}
use doze_names.Ports.Leases.{
  after_forget, Claimed, leased, after_move, release_ended, release, claim_ended, claim,
}
use doze_names.Ports.Leased.{lease_stands, release_forgets}
use doze_names.Registry.Claims.Grants.{Granted}
use doze_names.Registry.Update.Atomic.{table_of}

instance abbrev ascii_only : Unicode
ascii_only = record { lower = λ s. s; runes = λ s. s }

program : Unit {0}
unfolding as_text eq_bytes split split_cons contains_byte is_ascii to_lower has_suffix
    trim_suffix_byte lower_byte lookup insert delete keep_if digits_onto itoa value_from unsigned
    atoi in_zone normalize octet_text ip_text parse_ip parse_fields parse_octet octet_digits
    four_octets split_host_port cut_last_colon plain_parts host_parts gateway in_pool offset
    address_at mine update edit_content edit_map prune newer write_back is_port set_port_edit
    with_port remember write_ports read_ports is_null drop_mine finish put_ports set_port
    after_update after_side translated shown after_forward forward listen bind_addr find_lease
    listen_lease listen_at forget after_forget after_move release_ended release claim_ended claim
    claim_edit release_edit place grant grant_choice grant_unless renewed holder taken_by_others
    in_the_way is_taken
program = tt

abbrev db_ip : Ip
db_ip = record { a = 198; b = 19; c = 1; d = 10 }

abbrev db : Lease
db = record { name = record { host = codes "db.shop.doze"; tier = Tier.bare }; ip = db_ip }

abbrev this : Process
this = record { pid = 100; owner = [] }

abbrev everyone : ℕ → Bool
everyone pid = true

abbrev entry : Entry
entry = record blank_entry { ip = codes "198.19.1.10"; pid = 100 }

abbrev at_start : Forwarding
at_start = record {
  registry = holds ((codes "db.shop.doze", entry) ∷ []);
  side = absent;
  kept = [];
}

-- the gateway's next free port is 40001
abbrev system : Sockets
system = record { listen_on = λ ip port. false; listen_any = λ ip. some 40001 }

abbrev opened : Listened
opened = listen virtual_net everyone all_well all_well this system db 5432 at_start

-- the files once it is opened
abbrev after : Forwarding
after = record {
  registry = holds (
      (codes "db.shop.doze", record entry { ports = (codes "5432", 40001) ∷ [] })
      ∷ (codes "_format", record blank_entry { pid = 100; format = 2 })
      ∷ []);
  side = holds (
      (
        codes "db.shop.doze",
        record { pid = 100; ip = codes "198.19.1.10"; ports = (codes "5432", 40001) ∷ [] },
      )
      ∷ []);
  kept = (codes "db.shop.doze", (codes "5432", 40001) ∷ []) ∷ [];
}

private_port : bind_addr virtual_net db ≡ gateway virtual_net
unfolding program
private_port = refl

again_unforwarded :
    forward virtual_net everyone all_well all_well this db 0 40001 at_start
    ≡ some (some (bad_port 0), at_start)
unfolding program
again_unforwarded = refl

by_address :
    listen_at virtual_net this (codes "198.19.1.10:5432") ((codes "db.shop.doze", entry) ∷ [])
    ≡ by_lease db 5432
unfolding program
by_address = refl

loopback_address :
    listen_at virtual_net this (codes "127.0.0.1:80") [] ≡ plain (codes "127.0.0.1:80")
unfolding program
loopback_address = refl

nobodys_address :
    listen_at virtual_net this (codes "198.19.1.11:80") ((codes "db.shop.doze", entry) ∷ [])
    ≡ refused
unfolding program
nobodys_address = refl

free_ports : (ip : Ip) (p : ℕ) → system.listen_any ip ≡ some p → (p == 0) ≡ false
free_ports ip p e = let same : 40001 ≡ p = ground (arith, e) in rw (sym same) refl

listen-shown_example :
    (private : ℕ) × (m : Table Entry) × (e : Entry) × (standing_for db_ip 5432 40001
      ≡ standing_for db_ip 5432 private)
    × (shown (standing_for db_ip 5432 40001) ≡ (db_ip, 5432))
    × (snapshot everyone all_well this after.registry ≡ some (prune everyone m))
    × (lookup (codes "db.shop.doze") m ≡ some e)
    × (e.pid ≡ 100)
    × (lookup (itoa 5432) e.ports ≡ some private)
unfolding program
listen-shown_example =
    listen-shown virtual_net everyone all_well all_well this db 5432 system at_start after
      (standing_for db_ip 5432 40001) everyone all_well this free_ports refl refl refl

abbrev moved_ip : Ip
moved_ip = record { a = 198; b = 19; c = 1; d = 11 }

-- the name is at_start again at another address, after it was listened on
abbrev moved : Claimed
moved = claim virtual_net everyone all_well all_well this db.name (some moved_ip) false after

abbrev dropped : Ended
dropped = release everyone all_well all_well this (codes "db.shop.doze") after

abbrev moved_map : Table Entry
moved_map = (codes "db.shop.doze", record blank_entry { ip = codes "198.19.1.11"; pid = 100 }) ∷ []

abbrev moved_files : Forwarding
moved_files = record {
  registry = holds (
      (codes "db.shop.doze", record blank_entry { ip = codes "198.19.1.11"; pid = 100 })
      ∷ (codes "_format", record blank_entry { pid = 100; format = 2 })
      ∷ []);
  side = holds [];
  kept = [];
}

abbrev dropped_files : Forwarding
dropped_files = record {
  registry = holds ((codes "_format", record blank_entry { pid = 100; format = 2 }) ∷ []);
  side = holds [];
  kept = [];
}

move_forgets : moved ≡ leased (some moved_ip) moved_files
unfolding program
move_forgets = refl

release_ends : dropped ≡ some (none, dropped_files)
unfolding program
release_ends = refl

lease_stands_example :
    (m : Table Entry) × Granted everyone this db.name moved_ip
      (prune everyone (table_of after.registry))
      m
    × (snapshot everyone all_well this moved_files.registry ≡ some (prune everyone m))
lease_stands_example =
    lease_stands everyone all_well all_well this after moved_files everyone all_well this
      virtual_net db.name (some moved_ip) false moved_ip refl move_forgets

release_forgets_example :
    (m : Table Entry) × (lookup (codes "db.shop.doze") dropped_files.kept ≡ none)
    × (mine this (lookup (codes "db.shop.doze") m) ≡ none)
    × (snapshot everyone all_well this dropped_files.registry ≡ some (prune everyone m))
release_forgets_example =
    release_forgets everyone all_well all_well this after dropped_files everyone all_well this
      (codes "db.shop.doze") refl release_ends
