-- ===== src/Tests/Routing.antt =====
-- Domains, the record of routes, and the routes that a run keeps.
use doze_names.Prelude.{Bool, true, false, List, [], ◌∷◌, none, some, ◌≡◌, refl, All}
use doze_names.Text.{
  Bytes, Unicode, codes, eq_bytes, has_prefix, has_suffix, contains_byte, cut, split, split_cons,
  join, lower_byte, trim_suffix_byte, drop_last, is_ascii, to_lower, runes_of, trim, trim_left,
  trim_right, trim_right_cons,
}
use doze_names.Table.{lookup, insert, delete, keep_if, has_key}
use doze_names.Strings.{
  lt_bytes, move_down, sort_onto, reverse_onto, sort_strings, member, add, remove, count,
}
use doze_names.Names.{normalize, in_zone, label, label_rune}
use doze_names.Net.{parse_ip, parse_fields, parse_octet, octet_digits, four_octets}
use doze_names.Registry.{Content, holds, all_well}
use doze_names.Domains.{
  trim_prefix, wildcard, route_domain, unseen_routes, route_domains, valid_domain, is_local,
  check_split, check_labels, check_wildcard, is_doze_name, no_top_level,
}
use doze_names.Domains.Routes.{IsRouteByte, valid_domain-IsRouteByte}
use doze_names.Routing.{
  routes_text, without, is_empty, is_none, dirs_of, declared, drop_project, add_wanted,
  forget_project, route_removed, done, is_null, write_routes, stale_keys, keys_of, readable,
  read_routes, update_routes, only_valid, wanted, record_fn, record_domains, forget, remove_route,
  recorded_routes, stale_routes,
}
use doze_names.Routing.Refines.{Call, records, Refines, run_call}
use doze_names.Trust.{Request, declared_keys, add_each, remove_each, kept_routes, route_set}

instance abbrev ascii_only : Unicode
ascii_only = record { lower = λ s. s; runes = λ s. s }

program : Unit {0}
unfolding routes_text eq_bytes has_prefix has_suffix contains_byte cut split split_cons join
    lower_byte trim_suffix_byte drop_last is_ascii to_lower runes_of trim trim_left trim_right
    trim_right_cons lookup insert delete keep_if has_key lt_bytes move_down sort_onto reverse_onto
    sort_strings member add remove count normalize in_zone label label_rune parse_ip parse_fields
    parse_octet octet_digits four_octets trim_prefix wildcard route_domain unseen_routes
    route_domains valid_domain is_local check_split check_labels check_wildcard without is_empty
    is_none dirs_of declared drop_project add_wanted forget_project route_removed is_null
    write_routes stale_keys keys_of readable read_routes update_routes only_valid wanted record_fn
    record_domains forget remove_route recorded_routes stale_routes run_call declared_keys add_each
    remove_each kept_routes route_set
program = tt

abbrev acme : Bytes
acme = codes "dev.acme.com"

abbrev shop : Bytes
shop = codes "/home/me/shop"

abbrev wanted_by_shop : List Bytes
wanted_by_shop = codes "*.dev.acme.com" ∷ acme ∷ codes "web.shop.doze" ∷ codes "a.example.org" ∷ []

abbrev file : Content (List Bytes)
file = holds ((codes "old.example.org", shop ∷ []) ∷ [])

abbrev everything : Bytes → Bool
everything s = true

abbrev call : Call
call = records everything shop wanted_by_shop

recorded :
    run_call all_well call file
    ≡ done true (
        holds (
          (codes "old.example.org", [])
          ∷ (codes "a.example.org", shop ∷ [])
          ∷ (acme, shop ∷ [])
          ∷ []))
unfolding program
recorded = refl

refused : valid_domain (codes "web.shop.doze.") ≡ some is_doze_name
unfolding program
refused = refl

single : valid_domain (codes "com") ≡ some no_top_level
unfolding program
single = refl

-- a wildcard over an address is let through, and the name under it is not
wildcard_of_address :
    (valid_domain (codes "*.1.2.3.4") ≡ none)
    × (only_valid (route_domains (codes "*.1.2.3.4" ∷ [])) ≡ [])
unfolding program
wildcard_of_address = (refl, refl)

stale : stale_routes (λ dir. false) everything file ≡ codes "old.example.org" ∷ []
unfolding program
stale = refl

valid_domain-IsRouteByte_example : (in_zone acme ≡ false) × All IsRouteByte acme
unfolding program
valid_domain-IsRouteByte_example = valid_domain-IsRouteByte (codes "*.dev.acme.com") refl

abbrev request : Request
request = record {
  domains = acme ∷ [];
  ca = none;
  prune = codes "old.example.org" ∷ [];
  routes =
      some (holds ((codes "b.example.org", shop ∷ []) ∷ (codes "old.example.org", shop ∷ []) ∷ []));
  untrust_all = false;
}

kept : route_set everything request ≡ codes "b.example.org" ∷ acme ∷ []
unfolding program
kept = refl
