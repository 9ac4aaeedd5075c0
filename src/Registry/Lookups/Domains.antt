-- ===== src/Registry/Lookups/Domains.antt =====
-- What answers for a host outside the zone.
use doze_names.Prelude.{
  ℕ, zero, suc, ◌≤◌, List, map, sym, ◌∙◌, false, [], ◌∷◌, Option, none, some, length, if◌then◌else◌,
  ◌≡◌, refl, arith, Bool-cases, Option-cases, inl, inr,
}
use doze_names.Text.{Bytes, Unicode, cut, contains_byte}
use doze_names.Table.{Table, lookup}
use doze_names.Names.{Tier, normalize, in_zone}
use doze_names.Registry.{Entry}
use doze_names.Registry.Lookups.Walk.{parents, parents-cut-none, parents-cut}
use doze_names.Registry.Lookups.{walk_domain, wildcard_of, if_domain, lookup_domain, find_owner}

-- The entry is a domain's, under a key of the map.
pub record IsDomainAt (m : Table Entry) (e : Entry) (key : Bytes) : Type 0 where
  pub stands : lookup key m ≡ some e
  pub domain : e.tier ≡ Tier.domain

if_domain-some :
    (o : Option Entry) {e : Entry} → if_domain o ≡ some e → (o ≡ some e) × (e.tier ≡ Tier.domain)
unfolding if_domain
if_domain-some o h = ground arith

at_key :
    (m : Table Entry) (key : Bytes) {e : Entry}
    → if_domain (lookup key m) ≡ some e
    → IsDomainAt m e key
at_key m key h =
    let (stands, domain) = if_domain-some (lookup key m) h in
    record { stands = stands; domain = domain }

-- the texts up to the first that has no dot
abbrev pub up_to_top : List Bytes → List Bytes
up_to_top [] = []
up_to_top (h ∷ hs) = if contains_byte b'.' h then h ∷ up_to_top hs else []

-- The keys that can answer for a host, the best first: the host, the wildcard over it, and the
-- wildcards over its parents that are no top-level domain.
abbrev pub domain_keys : Bytes → List Bytes
domain_keys h = h ∷ wildcard_of h ∷ map wildcard_of (up_to_top (parents h))

-- the first key that has a domain's entry
abbrev pub first_domain : Table Entry → List Bytes → Option (Entry × Bytes)
first_domain m [] = none
first_domain m (k ∷ ks) = elim (if_domain (lookup k m)) [
  | some e ↦ some (e, k)
  | none ↦ first_domain m ks
]

walk_domain-first_domain :
    (fuel : ℕ) (h : Bytes) (m : Table Entry)
    → length h ≤ fuel
    → walk_domain fuel h m ≡ first_domain m (map wildcard_of (up_to_top (parents h)))
unfolding walk_domain
walk_domain-first_domain zero [] m le = refl
walk_domain-first_domain zero (c ∷ h) m le = absurd (omega arith)
walk_domain-first_domain (suc fuel) h m le = elim (Option-cases (cut b'.' h)) [
  | inl end ↦ ground (arith, end, parents-cut-none h end)
  | inr ((before, rest), more) ↦
      let (shape, shorter) = parents-cut h more in
      let rec = walk_domain-first_domain fuel rest m (omega arith) in
      elim (Bool-cases (contains_byte b'.' rest)) [
        | inr top ↦ ground (arith, more, shape, top)
        | inl deep ↦ elim (Option-cases (if_domain (lookup (wildcard_of rest) m))) [
          | inr (e, here) ↦ ground (arith, more, shape, deep, here)
          | inl nothing ↦ ground (arith, more, shape, deep, nothing, rec)
        ]
      ]
]

-- `lookupDomain` finds the first that has a domain's entry among the host itself, its wildcard, and
-- the wildcards of its parents with a dot in them, nearest first.
pub lookup_domain-first_domain :
    (m : Table Entry) (host : Bytes)
    → lookup_domain m host ≡ first_domain m (domain_keys (normalize host))
unfolding lookup_domain
lookup_domain-first_domain m host =
    let h = normalize host in
    let walked = walk_domain-first_domain (length h) h m (omega arith) in ground (arith, walked)

first_domain-IsDomainAt :
    (m : Table Entry) (ks : List Bytes) {e : Entry} {k : Bytes}
    → first_domain m ks ≡ some (e, k)
    → IsDomainAt m e k
first_domain-IsDomainAt m [] p = absurd (cc)
first_domain-IsDomainAt m (a ∷ ks) {e} {k} p = elim (Option-cases (if_domain (lookup a m))) [
  | inr (e', here) ↦
      let q : some (e', a) ≡ some (e, k) = (rw (here, first_domain) at p) in
      let found : e' ≡ e = ground (arith, q) in
      let key : a ≡ k = ground (arith, q) in rw (← found, ← key) (at_key m a here)
  | inl nothing ↦ first_domain-IsDomainAt m ks (rw (nothing, first_domain) at p)
]

-- Outside the zone only an entry of the domain tier answers: no name of a program and no bookkeeping
-- entry does.
pub find_owner_outside :
    ⦃u : Unicode⦄ (m : Table Entry) (host : Bytes) {e : Entry}
    → in_zone host ≡ false
    → find_owner m host ≡ some e
    → (k : Bytes) × (lookup k m ≡ some e) × (e.tier ≡ Tier.domain)
unfolding find_owner
find_owner_outside m host {e} out p = elim (Option-cases (lookup_domain m host)) [
  | inl nothing ↦ absurd (ground (arith, out, nothing, p))
  | inr ((e', k), here) ↦
      let found : e' ≡ e = ground (arith, out, here, p) in
      let d =
        first_domain-IsDomainAt m (domain_keys (normalize host))
          (sym (lookup_domain-first_domain m host) ∙ here) in
      (k, rw (← found) d.stands, rw (← found) d.domain)
]
