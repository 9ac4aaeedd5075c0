-- ===== src/Tests/Upstream.antt =====
-- The upstream servers of two systems, and what their files and the environment say.
use doze_names.Prelude.{Bool, true, false, [], ◌∷◌, ◌++◌, ◌≡◌, refl, All}
use doze_names.Text.{
  Bytes, Unicode, codes, eq_bytes, has_prefix, contains_byte, cut, split, split_cons, to_lower,
  is_ascii, lower_byte,
}
use doze_names.Text.Space.{
  is_space, skip_space, before_end, drop_end, trim_space, end_field, fields_from, fields,
}
use doze_names.Strings.{member}
use doze_names.Names.Settings.{set_or, resolver_addr, disabled}
use doze_names.Net.{parse_ip, parse_fields, parse_octet, octet_digits, four_octets}
use doze_names.Setup.{index_of}
use doze_names.Setup.Manager.{mgr_resolved, contains, detect_from}
use doze_names.Answer.Upstream.{
  own, server_at, is_ip, may_ask, named_server, servers_of, resolv_conf_servers, scutil_server,
  scutil_lines, scutil_resolvers, read_servers, find, IsOutside, find-IsOutside,
}

instance abbrev ascii_only : Unicode
ascii_only = record { lower = λ s. s; runes = λ s. s }

program : Unit {0}
unfolding eq_bytes has_prefix contains_byte cut split split_cons to_lower is_ascii lower_byte
    is_space skip_space before_end drop_end trim_space end_field fields_from fields member set_or
    resolver_addr disabled parse_ip parse_fields parse_octet octet_digits four_octets index_of
    contains detect_from own server_at is_ip may_ask named_server servers_of resolv_conf_servers
    scutil_server scutil_lines scutil_resolvers read_servers find
program = tt

abbrev every : Bytes → Bool
every s = true

abbrev etc : Bytes
etc = codes "# stub-resolv.conf\nnameserver 127.0.0.53\n nameserver 1.1.1.1 # one\nnameserver ::1\n"

abbrev scutil : Bytes
scutil =
    codes "resolver #1\n  nameserver[0] : 9.9.9.9\n  nameserver[1] : 9.9.9.9\n"
    ++ codes "resolver #2\n  domain   : local\n  nameserver[0] : 8.8.8.8\n"

of_files : resolv_conf_servers every etc ≡ codes "1.1.1.1:53" ∷ codes "[::1]:53" ∷ []
unfolding program
of_files = refl

of_command : scutil_resolvers every scutil ≡ codes "9.9.9.9:53" ∷ []
unfolding program
of_command = refl

of_owner : detect_from etc ≡ mgr_resolved
unfolding program
of_owner = refl

of_setting : resolver_addr true (codes " ") ≡ codes "192.0.2.53:5323"
unfolding program
of_setting = refl

switched_off : disabled (codes " OFF ") ≡ true
unfolding program
switched_off = refl

find-IsOutside_example :
    All (IsOutside every) (find every 70000000000 (read_servers every false [] [] etc) (0, [])).1
find-IsOutside_example = find-IsOutside every 70000000000 0 false [] [] etc [] tt
