-- ===== src/Tests/FrontDoor.antt =====
-- A front door with one site and one name, asked from here and from another machine.
use doze_names.Prelude.{
  Bool, true, false, not, ◌||◌, if◌then◌else◌, ◌==◌, sym, arith, [], ◌∷◌, ◌++◌, some, ◌≡◌, refl,
}
use doze_names.Text.{
  Bytes, Unicode, codes, eq_bytes, has_prefix, has_suffix, contains_byte, cut, split, split_cons,
  join, lower_byte, trim_suffix_byte, drop_last, is_ascii, to_lower, runes_of, trim, trim_left,
  trim_right, trim_right_cons,
}
use doze_names.Table.{Table, lookup, has_key}
use doze_names.Names.{Tier, normalize, in_zone, label, label_rune}
use doze_names.Net.{
  Ip, parse_ip, parse_fields, parse_octet, octet_digits, four_octets, cut_last_colon, plain_parts,
  host_parts, split_host_port,
}
use doze_names.Pool.{loopback_net, offset}
use doze_names.Registry.{Entry, blank_entry}
use doze_names.Registry.Doors.{ingress_tls_key, port_holder}
use doze_names.Registry.Lookups.{walk, if_domain, walk_domain, lookup_domain, find_owner}
use doze_names.Domains.{
  host_only, valid_domain, is_local, check_split, check_labels, check_wildcard,
}
use doze_names.FrontDoor.{
  Request, forbidden, redirected, proxied, stranger, is_some, on_this_machine, from_this_machine,
  route_for, goes_to_https, url_for, door_url, backend_url, port_url, proxy, with_https_redirect,
  plain_door, refuses_peer, get_certificate, entry_certificate, own_files, leaf_of, no_authority,
}
use doze_names.FrontDoor.Peers.{strangers_refused}
use doze_names.FrontDoor.Sites.{redirect_served}

instance abbrev ascii_only : Unicode
ascii_only = record { lower = λ s. s; runes = λ s. s }

program : Unit {0}
unfolding eq_bytes has_prefix has_suffix contains_byte cut split split_cons join lower_byte
    trim_suffix_byte drop_last is_ascii to_lower runes_of trim trim_left trim_right trim_right_cons
    lookup has_key normalize in_zone label label_rune parse_ip parse_fields parse_octet octet_digits
    four_octets cut_last_colon plain_parts host_parts split_host_port offset port_holder walk
    if_domain walk_domain lookup_domain find_owner host_only valid_domain is_local check_split
    check_labels check_wildcard is_some on_this_machine from_this_machine route_for goes_to_https
    url_for door_url backend_url port_url proxy with_https_redirect plain_door refuses_peer
    get_certificate entry_certificate
program = tt

abbrev no_colons : Bytes → Bool
no_colons s = false

abbrev site : Entry
site = record blank_entry {
  tier = Tier.domain;
  target = codes "127.0.0.1:3000";
  cert = codes "site.crt";
  key = codes "site.key";
}

abbrev shop : Entry
shop = record blank_entry { tier = Tier.qualified; target = codes "127.0.0.9:4566" }

abbrev table : Table Entry
table =
    (codes "dev.acme.com", site)
    ∷ (codes "web.shop.doze", shop)
    ∷ (ingress_tls_key, blank_entry)
    ∷ []

abbrev request : Bytes → Bytes → Request
request peer host = record { peer = peer; encrypted = false; host = host; uri = codes "/a?b" }

abbrev here : Bytes
here = codes "127.0.0.1:50000"

abbrev away : Bytes
away = codes "192.168.1.7:50000"

abbrev away_ip : Ip
away_ip = record { a = 192; b = 168; c = 1; d = 7 }

redirects :
    plain_door loopback_net no_colons table table table (request here (codes "Dev.acme.com:80"))
    ≡ redirected (codes "https://dev.acme.com/a?b")
unfolding program
redirects = refl

stays_plain :
    plain_door loopback_net no_colons table table table (request here (codes "api.web.shop.doze"))
    ≡ proxied (codes "127.0.0.9:4566")
unfolding program
stays_plain = refl

url_of : url_for table table (codes "web.shop.doze") ≡ codes "http://web.shop.doze:4566"
unfolding program
url_of = refl

away_outside :
    (ip : Ip)
    → contains_byte b':' (host_only away) ≡ false
    → parse_ip (host_only away) ≡ some ip
    → ((ip.a == 127) ≡ false)
      × ((not loopback_net.virtual || not (is_some (offset loopback_net ip))) ≡ true)
unfolding program
away_outside ip dots read =
    let same : away_ip ≡ ip = ground (arith, read) in (rw (sym same) refl, refl)

strangers_refused_example :
    (plain_door loopback_net no_colons table table [] (request away (codes "web.shop.doze"))
      ≡ forbidden)
    × (proxy loopback_net no_colons table [] (request away (codes "web.shop.doze")) ≡ forbidden)
    × (get_certificate loopback_net no_colons table true (some away) (codes "dev.acme.com")
        ≡ stranger)
unfolding program
strangers_refused_example =
    strangers_refused loopback_net no_colons (request away (codes "web.shop.doze"))
      (codes "dev.acme.com") (λ e. refl) away_outside (λ e. cc) table table [] true

redirect_served_example :
    (codes "https://dev.acme.com/a?b" ≡ codes "https://" ++ codes "dev.acme.com" ++ codes "/a?b")
    × (has_key ingress_tls_key table ≡ true)
    × ((e : Entry) × (domain : Bytes) × (lookup_domain table (codes "dev.acme.com")
          ≡ some (e, domain))
        × ((name : Bytes) × (name ≡ codes "dev.acme.com")
            × (get_certificate loopback_net no_colons table false (some here) name ≡ (
                if not (eq_bytes e.cert [])
                then own_files e.cert e.key
                else (if false then leaf_of domain else no_authority name)))))
unfolding program
redirect_served_example =
    redirect_served loopback_net no_colons table table table
      (request here (codes "Dev.acme.com:80")) (codes "https://dev.acme.com/a?b") false refl
