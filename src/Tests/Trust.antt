-- ===== src/Tests/Trust.antt =====
-- The platforms of trust_linux.go and trust_darwin.go on what their machines say.
use doze_names.Prelude.{true, false, [], ◌∷◌, ◌++◌, none, some, ◌≡◌, refl, if◌then◌else◌}
use doze_names.Text.{
  Bytes, Unicode, codes, eq_bytes, has_prefix, to_lower, is_ascii, lower_byte, split, split_cons,
  join, cut, contains_byte,
}
use doze_names.Text.Space.{
  is_space, skip_space, before_end, drop_end, trim_space, end_field, fields_from, fields,
}
use doze_names.Names.{normalize}
use doze_names.Strings.{member, add, sort_strings, reverse_onto, sort_onto, move_down}
use doze_names.Domains.{route_domain, route_domains, unseen_routes, wildcard, trim_prefix}
use doze_names.Setup.{index_of, escape_quotes, shell_quote}
use doze_names.Setup.Manager.{mgr_resolved, contains}
use doze_names.Setup.Status.{all_done}
use doze_names.Setup.Linux.Unit.{no_space}
use doze_names.Authority.{valid_fingerprint, all_hex, is_hex}
use doze_names.Authority.Replace.{append_unique}
use doze_names.Trust.{Request, trust_plan}
use doze_names.Trust.Scripts.{link_tokens, resolver_file}
use doze_names.Trust.Routed.{are_words}
use doze_names.Trust.Status.{
  trust_status, route_steps, ca_steps, old_root_steps, stale_steps, trust_status-trust_plan,
}
use doze_names.Trust.Linux as Linux
use doze_names.Trust.Darwin as Darwin
use doze_names.Trust.Darwin.{add_root, add_roots, trusted_doze_roots, hash_label}

instance abbrev ascii_only : Unicode
ascii_only = record { lower = λ s. s; runes = λ s. s }

program : Unit {0}
unfolding eq_bytes has_prefix to_lower is_ascii lower_byte split split_cons join cut contains_byte
    is_space skip_space before_end drop_end trim_space end_field fields_from fields member add
    route_domain route_domains unseen_routes wildcard trim_prefix index_of escape_quotes shell_quote
    contains all_done no_space valid_fingerprint all_hex is_hex append_unique link_tokens
    resolver_file are_words trust_status route_steps ca_steps old_root_steps stale_steps add_root
    add_roots trusted_doze_roots Linux.link_domains Linux.is_routed Linux.platform_of
    Linux.same_root Linux.ca_bundle_path Linux.trust_script Darwin.is_ours Darwin.route_file_state
    Darwin.domain_routed Darwin.route_foreign Darwin.platform_of Darwin.delete_line
    Darwin.remove_line Darwin.untrust_root_script sort_strings reverse_onto sort_onto move_down
    normalize
program = tt

abbrev linux : Linux.System
linux = record {
  manager = mgr_resolved;
  link = some (
      codes "Link 5 (doze0)"
      ++ (b':' ∷ 32 ∷ (join 32 (link_tokens (codes "a.com" ∷ [])) ++ (10 ∷ []))));
  anchors = false;
  current = none;
  root_path = codes "/h/.doze/ca/root.crt";
  root = some (codes "PEM");
}

trusts :
    (Linux.platform_of linux).trust_script
    ≡ codes
        "cp -f '/h/.doze/ca/root.crt' '/usr/local/share/ca-certificates/doze-local-ca.crt'\nupdate-ca-certificates"
unfolding program
trusts = refl

abbrev hash : Bytes
hash = codes "0123456789ABCDEF0123456789ABCDEF0123456789ABCDEF0123456789ABCDEF"

abbrev listing : Bytes
listing =
    codes "SHA-256 hash: "
    ++ (hash ++ (codes "\nSHA-1 hash: 00\nSHA-256 hash: rm -rf\nSHA-256 hash: " ++ hash))

found :
    trusted_doze_roots (some listing)
    ≡ codes "0123456789abcdef0123456789abcdef0123456789abcdef0123456789abcdef" ∷ []
unfolding program
found = refl

abbrev mac : Darwin.System
mac = record {
  addr = codes "127.0.0.1:5323";
  port = codes "5323";
  file = λ d.
      if eq_bytes d (codes "a.com") then some (codes "nameserver 127.0.0.1\nport 5323\n") else none;
  trusted = true;
  root_path = codes "/h/.doze/ca/root.crt";
  root_there = true;
  fingerprint = hash;
  kept = λ fp. none;
  found = none;
}

abbrev request : Request
request = record {
  domains = codes "*.a.com" ∷ [];
  ca = some (record { dir = codes "/h/.doze/ca"; previous = [] });
  prune = [];
  routes = none;
  untrust_all = false;
}

trust_status-trust_plan_example :
    (trust_plan (λ dir. true) (Darwin.platform_of mac) request).script ≡ []
unfolding program
trust_status-trust_plan_example =
    trust_status-trust_plan (λ dir. true) (Darwin.platform_of mac) (codes "trusted") request refl
