-- ===== src/Domains/Listing.antt =====
-- The list of the routes that domains ask for.
use doze_names.Prelude.{[], ◌∷◌, List, map, ◌≡◌, ◌∙◌, arith, if◌then◌else◌, Bool-cases, inl, inr}
use doze_names.Text.{Bytes}
use doze_names.Text.Laws.{eq_bytes_iff}
use doze_names.Strings.{member, count}
use doze_names.Strings.Sort.{IsSorted, sort_strings-IsSorted, count-sort_strings}
use doze_names.Domains.{route_domain, unseen_routes, route_domains}

count-unseen_routes :
    (s : Bytes) (seen ds : List Bytes)
    → count s (unseen_routes seen ds)
      ≡ (if member s seen then 0 else if member s (map route_domain ds) then 1 else 0)
unfolding count unseen_routes member
count-unseen_routes s seen [] = ground arith
count-unseen_routes s seen (d ∷ ds) = elim (Bool-cases (member (route_domain d) seen)) [
  | inl old ↦
      rw (old) (ground (arith, eq_bytes_iff (route_domain d) s, count-unseen_routes s seen ds))
  | inr new ↦ rw (new) (
      ground
        (arith, eq_bytes_iff (route_domain d) s, count-unseen_routes s (route_domain d ∷ seen) ds))
]

-- `RouteDomains` lists each name that one of the domains is routed by once, in order, and no other.
pub route_domains-IsSorted :
    (ds : List Bytes)
    → IsSorted (route_domains ds)
      × ((s : Bytes)
          → count s (route_domains ds) ≡ (if member s (map route_domain ds) then 1 else 0))
unfolding route_domains member
route_domains-IsSorted ds = (
  sort_strings-IsSorted (unseen_routes [] ds),
  λ s. count-sort_strings s (unseen_routes [] ds) ∙ count-unseen_routes s [] ds,
)
