-- ===== src/Trust/Plans.antt =====
-- What the person is asked to run.
use doze_names.Prelude.{
  Bool, true, false, ◌||◌, List, [], ◌∷◌, Option, none, some, ◌≡◌, refl, ap, ◌∙◌, All,
}
use doze_names.Text.{Bytes, Unicode}
use doze_names.Registry.{Io}
use doze_names.Domains.{route_domains}
use doze_names.Routing.{is_empty}
use doze_names.Trust.{
  CaFiles, Request, Platform, Plan, no_plan, and_then, missing_routes, routes_plan, old_roots_plan,
  root_plan, ca_plan, route_set, trust_plan,
}
use doze_names.Trust.Runs.{End, trust, run_plan, nothing_to_do}

-- the authority is trusted, and no root that it replaced
abbrev pub IsTrusted : Platform → Option CaFiles → Type 0
IsTrusted p none = Unit {0}
IsTrusted p (some ca) =
    (p.ca_trusted ≡ true) × All (λ fp. p.fingerprint_trusted fp ≡ false) ca.previous

missing_routes-nil :
    (p : Platform) (ds : List Bytes)
    → All (λ d. p.foreign d || p.routed d ≡ true) ds
    → missing_routes p ds ≡ []
unfolding missing_routes
missing_routes-nil p [] all = refl
missing_routes-nil p (d ∷ ds) (there, all) = rw (there, missing_routes-nil p ds all) refl

old_roots_plan-nil :
    (p : Platform) (fps : List Bytes)
    → All (λ fp. p.fingerprint_trusted fp ≡ false) fps
    → old_roots_plan p fps ≡ no_plan
unfolding old_roots_plan
old_roots_plan-nil p [] all = refl
old_roots_plan-nil p (fp ∷ fps) (gone, all) = rw (gone, old_roots_plan-nil p fps all) refl

ca_plan-nil : (p : Platform) (ca : Option CaFiles) → IsTrusted p ca → ca_plan p ca ≡ no_plan
unfolding ca_plan root_plan and_then
ca_plan-nil p none h = refl
ca_plan-nil p (some ca) (trusted, all) = rw (old_roots_plan-nil p ca.previous all, trusted) refl

routes_plan-nil :
    (p : Platform) (set missing prune : List Bytes)
    → missing ≡ []
    → prune ≡ []
    → routes_plan p set missing prune ≡ no_plan
unfolding routes_plan is_empty
routes_plan-nil p set missing prune none_missing none_stale =
    rw (none_missing, none_stale, routes_plan) refl

run_plan-nil :
    (print ok : Bool) (supported : Bool) (plan : Plan) (after : End)
    → supported ≡ true
    → plan ≡ no_plan
    → run_plan supported print ok plan after ≡ nothing_to_do
unfolding run_plan is_empty
run_plan-nil print ok supported plan after here empty = rw (here, empty, run_plan) refl

-- On any platform, a machine that has all that a request asks for is asked nothing: each of its routes
-- is there or another program's, none is to be pruned, and the authority is trusted and no root that it
-- replaced is.
pub trust_again :
    ⦃u : Unicode⦄ (has_hcl : Bytes → Bool) (io : Io) (p after : Platform) (print ok : Bool)
    (req : Request)
    → p.supported ≡ true
    → All (λ d. p.foreign d || p.routed d ≡ true) (route_domains req.domains)
    → req.prune ≡ []
    → IsTrusted p req.ca
    → trust has_hcl io p after print ok req ≡ nothing_to_do
unfolding trust trust_plan and_then
trust_again has_hcl io p after print ok req here routes nothing_stale trusted =
    let no_routes =
      routes_plan-nil p (route_set has_hcl req) (missing_routes p (route_domains req.domains))
        req.prune (missing_routes-nil p (route_domains req.domains) routes) nothing_stale in
    let plan : trust_plan has_hcl p req ≡ no_plan =
      ap (λ q. and_then q (ca_plan p req.ca)) no_routes
      ∙ ap (and_then no_plan) (ca_plan-nil p req.ca trusted) in
    run_plan-nil print ok p.supported (trust_plan has_hcl p req) _ here plan
