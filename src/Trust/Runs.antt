-- ===== src/Trust/Runs.antt =====
-- trust.go: `Trust` and `Untrust` as runs of their plans, and the clean-up.
use doze_names.Prelude.{Bool, true, not, List, [], ◌∷◌, ◌++◌, Option, none, some, if◌then◌else◌}
use doze_names.Text.{Bytes, Unicode}
use doze_names.Registry.{Content, Io}
use doze_names.Domains.{route_domains}
use doze_names.Routing.{Saved, crash, done, is_empty, remove_route, recorded_routes}
use doze_names.Authority.Replace.{still_trusted}
use doze_names.Trust.{
  CaFiles, Request, Platform, Plan, non_empty, untrust_ca, trust_plan, untrust_plan,
}

-- the record after a run
unfoldable pub saved_file : Content (List Bytes) → Saved → Content (List Bytes)
saved_file file crash = file
saved_file file (done well file') = file'

module _ ⦃u : Unicode⦄ (has_hcl : Bytes → Bool) where
  -- `RouteRemoved` of each domain that `gone` says is no longer routed; an error is not looked at
  unfoldable pub removed_routes :
      Io → (Bytes → Bool) → List Bytes → Content (List Bytes) → Content (List Bytes)
  removed_routes io gone [] file = file
  removed_routes io gone (d ∷ ds) file =
      let removed = saved_file file (remove_route io has_hcl d file) in
      removed_routes io gone ds (if gone d then removed else file)

-- How a run ends: where it ran, with the record of routes and the rotated-out roots that are listed then.
pub data End : Type 0 where
  unsupported nothing_to_do failed printed : End
  ran : (routes : Option (Content (List Bytes))) (previous : List Bytes) → End

-- a plan that is run: `print` only shows it, and `ok` says that the privileged step worked
unfoldable pub run_plan : Bool → (print ok : Bool) → Plan → (after : End) → End
run_plan supported print ok plan after =
    if not supported
    then unsupported
    else if is_empty plan.script
    then nothing_to_do
    else if print
    then printed
    else if ok
    then after
    else failed

unfoldable pub map_file {ℓ} : {A : Type ℓ} → (A → A) → Option A → Option A
map_file f none = none
map_file f (some a) = some (f a)

-- `forgetUntrustedPrevious`, of the authority if there is one
unfoldable pub left_roots : (Bytes → Bool) → Option CaFiles → List Bytes
left_roots trusted none = []
left_roots trusted (some ca) = still_trusted trusted ca.previous

module _ ⦃u : Unicode⦄ (has_hcl : Bytes → Bool) (io : Io) where
  -- `Trust`; `after` is the platform once the script ran
  unfoldable pub trust : (p after : Platform) (print ok : Bool) → Request → End
  trust p after print ok req = run_plan p.supported print ok (trust_plan has_hcl p req) (
      ran (map_file (removed_routes has_hcl io (λ d. not (after.routed d)) req.prune) req.routes)
        (left_roots after.fingerprint_trusted req.ca))

  -- `Untrust`
  unfoldable pub untrust : Platform → (print ok : Bool) → Request → End
  untrust p print ok req = run_plan p.supported print ok (untrust_plan has_hcl p req) (
      ran (map_file (removed_routes has_hcl io (λ d. true) (route_domains req.domains)) req.routes)
        (left_roots (λ fp. true) req.ca))

  -- `cleanupScript`; `ca` is what `ProbeCA` finds
  unfoldable pub cleanup_script : Platform → Option CaFiles → Content (List Bytes) → List Bytes
  cleanup_script p ca file =
      let routes = recorded_routes file in
      non_empty (
        (if is_empty routes then [] else p.uninstall_routes routes ∷ [])
        ++ (untrust_ca p ca).script
        ++ p.untrust_unknown)
