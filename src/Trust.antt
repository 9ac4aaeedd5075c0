-- ===== src/Trust.antt =====
-- trust.go: what `Trust` and `Untrust` ask the person to run. What a platform finds out with its commands is an argument.
pub mod Kept
pub mod Scripts
pub mod Runs
pub mod Plans
pub mod Linux
pub mod Darwin
pub mod Routed
pub mod Status
pub mod Fingerprints
use doze_names.Prelude.{
  ℕ, ◌+◌, Bool, true, false, not, ◌&&◌, ◌||◌, List, [], ◌∷◌, ◌++◌, Option, none, some, leb, ◌==◌,
  map, if◌then◌else◌,
}
use doze_names.Text.{Bytes, Unicode, codes, eq_bytes}
use doze_names.Table.{Table}
use doze_names.Strings.{member, add, remove, sort_strings}
use doze_names.Registry.{Content, Io}
use doze_names.Domains.{route_domains}
use doze_names.Routing.{
  Routes, Saved, crash, done, declared, is_empty, read_routes, remove_route, recorded_routes,
}

-- the part of `CA` that the plan names
pub record CaFiles : Type 0 where
  pub dir : Bytes
  pub previous : List Bytes

-- `TrustRequest`; `routes` is the record under `Home`, if there is a home
pub record Request : Type 0 where
  pub domains : List Bytes
  pub ca : Option CaFiles
  pub prune : List Bytes
  pub routes : Option (Content (List Bytes))
  pub untrust_all : Bool

-- What a platform provides: `domainRouted` with its detail, `routeForeign`, the scripts for routes, the
-- trust of the authority and of a fingerprint, and the scripts for them.
pub record Platform : Type 0 where
  pub supported : Bool
  pub routed : Bytes → Bool
  pub detail : Bytes → Bytes
  pub foreign : Bytes → Bool
  pub routes_script : (keep missing drop : List Bytes) → Bytes
  pub uninstall_routes : List Bytes → Bytes
  pub ca_trusted : Bool
  pub fingerprint_trusted : Bytes → Bool
  pub trust_script : Bytes
  pub untrust_script : Bytes
  pub untrust_fingerprint : Bytes → Bytes
  pub untrust_unknown : List Bytes

-- the lines of the script, and of the prompt
pub record Plan : Type 0 where
  pub script : List Bytes
  pub what : List Bytes

abbrev pub no_plan : Plan
no_plan = record { script = []; what = [] }

unfoldable pub and_then : Plan → Plan → Plan
and_then p q = record { script = p.script ++ q.script; what = p.what ++ q.what }

-- `strings.Join(ss, sep)`
unfoldable pub join_with : Bytes → List Bytes → Bytes
join_with sep [] = []
join_with sep (s ∷ []) = s
join_with sep (s ∷ t ∷ ts) = s ++ sep ++ join_with sep (t ∷ ts)

abbrev pub comma : Bytes
comma = codes ", "

-- a line for the script, unless it is empty
unfoldable pub script_line : Bytes → List Bytes
script_line s = if eq_bytes s [] then [] else s ∷ []

-- the keys that a live project declares
unfoldable pub declared_keys : (Bytes → Bool) → Routes → List Bytes
declared_keys has_hcl [] = []
declared_keys has_hcl ((d, dirs) ∷ rs) =
    let rest = declared_keys has_hcl rs in if declared has_hcl dirs then d ∷ rest else rest

unfoldable pub add_each : List Bytes → List Bytes → List Bytes
add_each [] ts = ts
add_each (s ∷ ss) ts = add_each ss (add s ts)

unfoldable pub remove_each : List Bytes → List Bytes → List Bytes
remove_each [] ts = ts
remove_each (s ∷ ss) ts = remove_each ss (remove s ts)

-- `othersIn`
unfoldable pub others_in : List Bytes → List Bytes → List Bytes
others_in [] mine = []
others_in (d ∷ set) mine = let rest = others_in set mine in if member d mine then rest else d ∷ rest

-- is there anything but white space in the text? (of ASCII)
unfoldable pub has_ink : Bytes → Bool
has_ink [] = false
has_ink (c ∷ s) = not (c == 32 || leb 9 c && leb c 13) || has_ink s

-- `nonEmpty`
unfoldable pub non_empty : List Bytes → List Bytes
non_empty [] = []
non_empty (l ∷ ls) = let rest = non_empty ls in if has_ink l then l ∷ rest else rest

module _ (p : Platform) where
  -- the routes to install: not another program's, and not there yet
  unfoldable pub missing_routes : List Bytes → List Bytes
  missing_routes [] = []
  missing_routes (d ∷ ds) =
      let rest = missing_routes ds in if p.foreign d || p.routed d then rest else d ∷ rest

  -- `restatesRoutes`
  unfoldable pub restates_routes : Bool
  restates_routes = not (eq_bytes (p.routes_script (codes "a.example.com" ∷ []) [] []) [])

  -- the lines that say what happens to routes
  unfoldable pub routes_what : (set missing prune : List Bytes) → List Bytes
  routes_what set missing prune =
      (if is_empty missing
        then []
        else (codes "route " ++ join_with comma missing ++ codes " to doze") ∷ [])
      ++ (if is_empty prune
          then []
          else (codes "remove the stale route for " ++ join_with comma prune) ∷ [])
      ++ (if is_empty (others_in set missing) || not restates_routes
          then []
          else (codes "restate the routes other stacks keep ("
              ++ join_with comma (others_in set missing)
              ++ codes ")")
            ∷ [])

  unfoldable pub routes_plan : (set missing prune : List Bytes) → Plan
  routes_plan set missing prune = if is_empty missing && is_empty prune then no_plan else record {
    script = script_line (p.routes_script set missing prune);
    what = routes_what set missing prune;
  }

  -- the rotated-out roots that are trusted still
  unfoldable pub old_roots_plan : List Bytes → Plan
  old_roots_plan [] = no_plan
  old_roots_plan (fp ∷ fps) =
      let rest = old_roots_plan fps in
      if p.fingerprint_trusted fp
      then record {
        script = p.untrust_fingerprint fp ∷ rest.script;
        what = codes "stop trusting a rotated-out authority" ∷ rest.what;
      }
      else rest

  unfoldable pub root_plan : CaFiles → Plan
  root_plan ca = if p.ca_trusted then no_plan else record {
    script = p.trust_script ∷ [];
    what =
        (codes "trust the doze certificate authority for TLS on this machine (its key stays in "
          ++ ca.dir
          ++ codes "; anyone with that key could sign any name for this machine)")
        ∷ [];
  }

  unfoldable pub ca_plan : Option CaFiles → Plan
  ca_plan none = no_plan
  ca_plan (some ca) = and_then (old_roots_plan ca.previous) (root_plan ca)

  unfoldable pub fingerprint_lines : List Bytes → List Bytes
  fingerprint_lines [] = []
  fingerprint_lines (fp ∷ fps) = p.untrust_fingerprint fp ∷ fingerprint_lines fps

  unfoldable pub untrust_ca : Option CaFiles → Plan
  untrust_ca none = no_plan
  untrust_ca (some ca) = record {
    script = p.untrust_script ∷ fingerprint_lines ca.previous;
    what = codes "stop trusting the doze certificate authority" ∷ [];
  }

  unfoldable pub untrust_every : Request → Plan
  untrust_every req =
      if not req.untrust_all || is_empty p.untrust_unknown then no_plan else record {
        script = p.untrust_unknown;
        what = elim req.ca [
          | none ↦ codes "stop trusting every doze certificate authority" ∷ []
          | some ca ↦ []
        ];
      }

module _ ⦃u : Unicode⦄ (has_hcl : Bytes → Bool) where
  -- the routes that the record under the home keeps
  unfoldable pub kept_routes : Option (Content (List Bytes)) → List Bytes
  kept_routes none = []
  kept_routes (some file) = declared_keys has_hcl (read_routes file)

  -- `routeSet`
  unfoldable pub route_set : Request → List Bytes
  route_set req = sort_strings (
      remove_each req.prune
        (add_each (kept_routes req.routes) (add_each (route_domains req.domains) [])))

  -- what `Trust` asks the person to run
  unfoldable pub trust_plan : Platform → Request → Plan
  trust_plan p req =
      and_then
        (routes_plan p (route_set req) (missing_routes p (route_domains req.domains)) req.prune)
        (ca_plan p req.ca)

  -- the request whose routes `Untrust` keeps
  unfoldable pub kept_request : Request → Request
  kept_request req = record {
    domains = [];
    ca = none;
    prune = route_domains req.domains;
    routes = req.routes;
    untrust_all = false;
  }

  unfoldable pub removal_plan : Platform → Request → Plan
  removal_plan p req =
      let removing = route_domains req.domains in
      let s = p.routes_script (route_set (kept_request req)) [] removing in
      if is_empty removing || eq_bytes s [] then no_plan else record {
        script = s ∷ [];
        what = (codes "remove the route for " ++ join_with comma removing) ∷ [];
      }

  -- what `Untrust` asks the person to run
  unfoldable pub untrust_plan : Platform → Request → Plan
  untrust_plan p req =
      let plan =
        and_then (removal_plan p req) (and_then (untrust_ca p req.ca) (untrust_every p req)) in
      record plan { script = non_empty plan.script }
