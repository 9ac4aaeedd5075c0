-- ===== src/Tests/Registry.antt =====
-- The registry file.
use doze_names.Prelude.{
  not, ℕ, Bool, ◌==◌, List, [], ◌∷◌, some, none, true, false, ◌≡◌, refl, arith,
}
use doze_names.Text.{
  Bytes, Unicode, codes, eq_bytes, to_lower, runes_of, is_ascii, lower_byte, trim, trim_left,
  trim_right, trim_right_cons, cut,
}
use doze_names.Table.{Table, lookup, insert, keep_if, delete}
use doze_names.Names.{Name, Tier, label, label_rune, service}
use doze_names.Net.{Ip, ip_text, octet_text}
use doze_names.Pool.{
  loopback_net, offset, in_pool, is_taken, address_for, choose, apex_choice, apex_addr, apex_offset,
  address_at,
}
use doze_names.Registry.{
  Entry, blank_entry, Content, absent, holds, all_well, Process, held, Edit, refuse, accept, done,
  format_key,
}
use doze_names.Registry.Update.{
  stamp, prune, newer, write_back, write_nil, edit_map, edit_content, update, copy_all,
  snapshot_run, copied, snapshot,
}
use doze_names.Registry.Update.Atomic.{Ends, update-Ends, table_of, snapshot-update}
use doze_names.Registry.Claims.{
  taken_by_others, in_the_way, holder, mine, renewed, grant, grant_choice, grant_unless, place,
  claim_edit,
}
use doze_names.Registry.Claims.Grants.{claim_first_come}
use doze_names.Registry.Doors.{claim_port_edit, ingress_key}
use doze_names.Registry.Stacks.{other_project, stack_key, claim_stack_edit}
use doze_names.Sharing.{Op, Step, run}
use doze_names.Sharing.Exclusive.{FileIsSound}
use doze_names.Sharing.Steps.{run-IsSound}

instance abbrev ascii_only : Unicode
ascii_only = record { lower = λ s. s; runes = λ s. s }

program : Unit {0}
unfolding eq_bytes lookup insert keep_if delete ip_text octet_text offset in_pool is_taken prune
    newer write_back write_nil edit_map edit_content update copy_all snapshot_run copied snapshot
    taken_by_others in_the_way holder mine renewed grant grant_choice grant_unless place claim_edit
    claim_port_edit other_project stack_key claim_stack_edit label label_rune to_lower runes_of
    is_ascii lower_byte trim trim_left trim_right trim_right_cons address_for choose apex_choice
    apex_addr apex_offset address_at service cut
program = tt

abbrev shop : Process
shop = record { pid = 100; owner = codes "doze" }

abbrev kafka : Process
kafka = record { pid = 200; owner = codes "doze-kafka" }

abbrev everyone : ℕ → Bool
everyone p = true

abbrev only_kafka : ℕ → Bool
only_kafka p = p == 200

abbrev front : Table Entry → Edit (Unit {0})
front = claim_port_edit shop ingress_key (codes "0.0.0.0:80")

abbrev front_entry : Entry
front_entry = record blank_entry { pid = 100; owner = codes "doze"; target = codes "0.0.0.0:80" }

abbrev fronted : Content Entry
fronted = holds ((ingress_key, front_entry) ∷ (format_key, stamp shop) ∷ [])

first_write : update everyone all_well shop front absent ≡ done none (some tt) fronted
unfolding program
first_write = refl

dead_entry_goes : snapshot only_kafka all_well kafka fronted ≡ some []
unfolding program
dead_entry_goes = refl

update-Ends_example :
    Ends everyone all_well shop front absent (update everyone all_well shop front absent)
update-Ends_example = update-Ends everyone all_well shop front absent

snapshot-update_example :
    (a : Unit {0}) × (m : Table Entry) × (front (prune everyone (table_of absent)) ≡ accept a m)
    × (snapshot only_kafka all_well kafka fronted ≡ some (prune only_kafka m))
snapshot-update_example =
    snapshot-update everyone only_kafka all_well all_well shop kafka front absent first_write refl

abbrev web : Name
web = record { host = codes "web.shop.doze"; tier = Tier.qualified }

abbrev there : Ip
there = record { a = 127; b = 0; c = 47; d = 132 }

abbrev web_entry : Entry
web_entry = record blank_entry {
  ip = codes "127.0.47.132";
  pid = 100;
  owner = codes "doze";
  tier = Tier.qualified;
}

abbrev web_map : Table Entry
web_map = (codes "web.shop.doze", web_entry) ∷ []

web_claimed :
    claim_edit loopback_net everyone shop web (some there) false [] ≡ accept (there, false) web_map
unfolding program
web_claimed = refl

-- a process that has ended since had claimed another name
abbrev later_map : Table Entry
later_map =
    (codes "old.shop.doze", record web_entry { pid = 300; ip = codes "127.0.47.133" })
    ∷ (codes "web.shop.doze", web_entry)
    ∷ []

abbrev not_dead : ℕ → Bool
not_dead p = not (p == 300)

claim_first_come_example :
    claim_edit loopback_net not_dead kafka web none false (prune not_dead later_map)
    ≡ refuse (held (codes "web.shop.doze") 100 (codes "doze"))
unfolding program
claim_first_come_example =
    claim_first_come loopback_net everyone not_dead shop kafka web web (some there) none false false
      [] later_map web_claimed refl (λ e. cc) refl (omega arith) refl

abbrev aws : Name
aws = record { host = codes "aws.doze"; tier = Tier.apex }

abbrev aws_ip : Ip
aws_ip = record { a = 127; b = 0; c = 0; d = 2 }

abbrev squatted : Table Entry
squatted = (codes "web.shop.doze", record web_entry { ip = codes "127.0.0.2" }) ∷ []

-- `ClaimAt` may take the fixed address of a service that is not running.
squat :
    claim_edit loopback_net everyone shop web (some aws_ip) false []
    ≡ accept (aws_ip, false) squatted
unfolding program
squat = refl

abbrev stack_map : Bytes → Table Entry
stack_map key =
    (key, record blank_entry { pid = 100; owner = codes "doze"; target = codes "/a" }) ∷ []

stack_claimed :
    claim_stack_edit shop (codes "Shop") (codes "/a") []
    ≡ accept tt (stack_map (codes "_stack.shop"))
unfolding program
stack_claimed = refl

doze_claimed :
    claim_stack_edit shop (codes "doze") (codes "/a") []
    ≡ accept tt (stack_map (codes "_stack.doze"))
unfolding program
doze_claimed = refl

abbrev steps : List Step
steps =
    record { alive = everyone; io = all_well; self = shop; op = Op.claim web none false }
    ∷ record { alive = everyone; io = all_well; self = kafka; op = Op.claim aws (some there) false }
    ∷ record { alive = only_kafka; io = all_well; self = kafka; op = Op.read }
    ∷ []

run-IsSound_example : FileIsSound loopback_net (run loopback_net steps absent)
run-IsSound_example =
    run-IsSound loopback_net (record { a_lt = omega arith; b_lt = omega arith }) steps absent
      (omega arith) tt
