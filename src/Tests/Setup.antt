-- ===== src/Tests/Setup.antt =====
-- The managed block of a hosts file, put in, put in again, and taken out; a quoted text.
use doze_names.Prelude.{[], ◌++◌, ◌≡◌, refl}
use doze_names.Text.{
  Bytes, Unicode, codes, eq_bytes, has_prefix, has_suffix, drop_last, trim, trim_left, trim_right,
  trim_right_cons, to_lower, runes_of, is_ascii, lower_byte,
}
use doze_names.Names.{apex_name, label, label_rune}
use doze_names.Net.{ip_text, octet_text}
use doze_names.Pool.{loopback_net, address_at, apex_offset, apex_addr}
use doze_names.Setup.{
  hosts_begin, index_of, trim_newline, end_line, block_end, splice, replace_hosts_block, hosts_line,
  hosts_lines, apex_hosts_block, escape_quotes, shell_quote, pasteable,
}
use doze_names.Setup.Quoting.{read_cons, read_word}

instance abbrev ascii_only : Unicode
ascii_only = record { lower = λ s. s; runes = λ s. s }

program : Unit {0}
unfolding eq_bytes has_prefix has_suffix drop_last trim trim_left trim_right trim_right_cons
    to_lower runes_of is_ascii lower_byte apex_name label label_rune ip_text octet_text address_at
    apex_offset apex_addr index_of trim_newline end_line block_end splice replace_hosts_block
    hosts_line hosts_lines apex_hosts_block escape_quotes shell_quote pasteable read_cons read_word
program = tt

abbrev hosts : Bytes
hosts = codes "127.0.0.1 localhost"

abbrev block : Bytes
block = hosts_begin ++ codes "\n127.0.0.2\taws.doze\n127.0.0.3\tkafka.doze\n# END doze\n"

rendered : apex_hosts_block loopback_net ≡ block
unfolding program
rendered = refl

put_in : replace_hosts_block hosts block ≡ codes "127.0.0.1 localhost\n\n" ++ block
unfolding program
put_in = refl

put_in_again :
    replace_hosts_block (codes "127.0.0.1 localhost\n\n" ++ block) block
    ≡ codes "127.0.0.1 localhost\n\n" ++ block
unfolding program
put_in_again = refl

taken_out :
    replace_hosts_block (codes "127.0.0.1 localhost\n\n" ++ block) []
    ≡ codes "127.0.0.1 localhost\n"
unfolding program
taken_out = refl
