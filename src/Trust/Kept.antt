-- ===== src/Trust/Kept.antt =====
-- The routes that a run keeps.
use doze_names.Prelude.{Bool, not, ◌&&◌, ◌||◌, List, [], ◌∷◌, ◌≡◌, refl, ◌∙◌, arith}
use doze_names.Text.{Bytes, Unicode}
use doze_names.Strings.{member, add, remove}
use doze_names.Strings.Members.{member-add, member-remove}
use doze_names.Strings.Sort.{IsSorted, sort_strings-IsSorted, member-sort_strings}
use doze_names.Domains.{route_domains}
use doze_names.Trust.{Request, add_each, remove_each, kept_routes, route_set}

member-add_each :
    (s : Bytes) (ss ts : List Bytes) → member s (add_each ss ts) ≡ (member s ss || member s ts)
unfolding add_each member
member-add_each s [] ts = refl
member-add_each s (t ∷ ss) ts = ground (arith, member-add_each s ss (add t ts), member-add s t ts)

member-remove_each :
    (s : Bytes) (ss ts : List Bytes)
    → member s (remove_each ss ts) ≡ (not (member s ss) && member s ts)
unfolding remove_each member
member-remove_each s [] ts = refl
member-remove_each s (t ∷ ss) ts =
    ground (arith, member-remove_each s ss (remove t ts), member-remove s t ts)

-- The routes that the machine should have after a run, in order: those that the request asks for and
-- those of the record that a live project declares, but for those to be pruned, and no other.
pub member-route_set :
    ⦃u : Unicode⦄ (has_hcl : Bytes → Bool) (req : Request)
    → IsSorted (route_set has_hcl req)
      × ((d : Bytes)
          → member d (route_set has_hcl req) ≡ (
              not (member d req.prune)
              && (member d (route_domains req.domains)
                  || member d (kept_routes has_hcl req.routes))))
unfolding route_set member
member-route_set has_hcl req =
    let wanted = add_each (route_domains req.domains) [] in
    let all = add_each (kept_routes has_hcl req.routes) wanted in
    (
      sort_strings-IsSorted (remove_each req.prune all),
      λ d.
          member-sort_strings d (remove_each req.prune all)
          ∙ ground (
            arith,
            member-remove_each d req.prune all,
            member-add_each d (kept_routes has_hcl req.routes) wanted,
            member-add_each d (route_domains req.domains) [],
          ),
    )
