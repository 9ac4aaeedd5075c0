-- ===== src/Tests/Lookups.antt =====
-- Who owns a host.
use doze_names.Prelude.{[], ◌∷◌, some, none, ◌≡◌, refl}
use doze_names.Text.{
  Bytes, Unicode, codes, eq_bytes, to_lower, is_ascii, lower_byte, trim_right, trim_right_cons,
  trim_suffix_byte, has_suffix, cut, contains_byte,
}
use doze_names.Table.{Table, lookup}
use doze_names.Names.{Tier, normalize, in_zone}
use doze_names.Registry.{Entry, blank_entry}
use doze_names.Registry.Lookups.{walk, walk_domain, if_domain, lookup_domain, find_owner}
use doze_names.Registry.Lookups.Domains.{first_domain, domain_keys, lookup_domain-first_domain}
use doze_names.Registry.Lookups.Walk.{ancestors, IsNearest, find_owner-IsNearest}

instance abbrev ascii_only : Unicode
ascii_only = record { lower = λ s. s; runes = λ s. s }

program : Unit {0}
unfolding eq_bytes to_lower is_ascii lower_byte trim_right trim_right_cons trim_suffix_byte
    has_suffix cut contains_byte lookup normalize in_zone walk walk_domain if_domain lookup_domain
    find_owner
program = tt

abbrev aws : Entry
aws = record blank_entry { ip = codes "127.0.0.2"; pid = 100; tier = Tier.apex }

abbrev dev : Entry
dev = record blank_entry { ip = codes "127.0.0.9"; pid = 100; tier = Tier.domain }

abbrev names : Table Entry
names = (codes "aws.doze", aws) ∷ (codes "*.dev.acme.com", dev) ∷ []

abbrev queue : Bytes
queue = codes "SQS.eu.aws.doze."

owned : find_owner names queue ≡ some aws
unfolding program
owned = refl

unknown :
    (find_owner names (codes "awss.doze") ≡ none)
    × (find_owner names (codes "acme.com") ≡ none)
    × (find_owner names (codes "dev.acme.com") ≡ some dev)
    × (find_owner names (codes "a.b.dev.acme.com") ≡ some dev)
unfolding program
unknown = (refl, refl, refl, refl)

find_owner-IsNearest_example : IsNearest names (ancestors (normalize queue)) aws
unfolding program
find_owner-IsNearest_example = find_owner-IsNearest names queue refl refl

lookup_domain-first_domain_example :
    lookup_domain names (codes "x.dev.acme.com")
    ≡ first_domain names (domain_keys (normalize (codes "x.dev.acme.com")))
lookup_domain-first_domain_example = lookup_domain-first_domain names (codes "x.dev.acme.com")
