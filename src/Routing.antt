-- ===== src/Routing.antt =====
-- routes.go: which project asked for each domain route. Whether a route is installed, and whether a
-- folder has a doze.hcl, are arguments. A record whose JSON is `null` reads as a nil map, on which an
-- assignment panics; one that is only in part a map counts as that part.
pub mod Claims
pub mod Refines
use doze_names.Prelude.{
  Bool, true, false, not, ◌&&◌, ◌||◌, List, [], ◌∷◌, ◌++◌, Option, none, some, if◌then◌else◌,
}
use doze_names.Text.{Bytes, Unicode, eq_bytes}
use doze_names.Table.{Table, lookup, insert, delete, keep_if}
use doze_names.Strings.{member, sort_strings}
use doze_names.Registry.{Content, absent, unreadable, garbled, null, holds, Io}
use doze_names.Domains.{valid_domain, wildcard, route_domains}

-- `routes`: the project folders that declare each domain
abbrev pub Routes : Type 0
Routes = Table (List Bytes)

-- `without`
unfoldable pub without : List Bytes → Bytes → List Bytes
without [] dir = []
without (d ∷ dirs) dir = let rest = without dirs dir in if eq_bytes d dir then rest else d ∷ rest

unfoldable pub is_empty {ℓ} : {A : Type ℓ} → List A → Bool
is_empty [] = true
is_empty (x ∷ xs) = false

unfoldable pub is_none {ℓ} : {A : Type ℓ} → Option A → Bool
is_none none = true
is_none (some x) = false

-- `rs[d]`
unfoldable pub dirs_of : Bytes → Routes → List Bytes
dirs_of d rs = elim (lookup d rs) [ none ↦ [] | some dirs ↦ dirs ]

-- `declared`
unfoldable pub declared : (Bytes → Bool) → List Bytes → Bool
declared has_hcl [] = false
declared has_hcl (dir ∷ dirs) =
    let rest = declared has_hcl dirs in if has_hcl dir then true else rest

-- the loop of `RecordDomains` over the record
unfoldable pub drop_project : (Bytes → Bool) → List Bytes → Bytes → Routes → Routes
drop_project routed want dir [] = []
drop_project routed want dir ((d, dirs) ∷ rs) =
    let rest = drop_project routed want dir rs in
    let left = without dirs dir in
    if is_empty left && not (member d want)
    then (if routed d then (d, []) ∷ rest else rest)
    else (d, left) ∷ rest

-- the loop of `RecordDomains` over what is wanted
unfoldable pub add_wanted : Bytes → List Bytes → Routes → Routes
add_wanted dir [] rs = rs
add_wanted dir (d ∷ want) rs =
    add_wanted dir want (insert d (without (dirs_of d rs) dir ++ (dir ∷ [])) rs)

-- the loop of `ForgetProject`
unfoldable pub forget_project : Bytes → Routes → Routes
forget_project dir [] = []
forget_project dir ((d, dirs) ∷ rs) = (d, without dirs dir) ∷ forget_project dir rs

-- the function of `RouteRemoved`
unfoldable pub route_removed : (Bytes → Bool) → Bytes → Routes → Routes
route_removed has_hcl domain rs = elim (lookup domain rs) [
  | none ↦ rs
  | some dirs ↦ if declared has_hcl dirs then rs else delete domain rs
]

-- how a run ends: with a panic, or with an error or none, and the file
pub data Saved : Type 0 where
  crash : Saved
  done : (well : Bool) (file : Content (List Bytes)) → Saved

unfoldable pub is_null : Content (List Bytes) → Bool
is_null null = true
is_null _ = false

-- a nil map is written as it was read
unfoldable pub routes_text : Content (List Bytes) → Routes → Content (List Bytes)
routes_text null rs = null
routes_text _ rs = holds rs

-- `writeRoutes`
unfoldable pub write_routes : Io → Content (List Bytes) → Routes → Saved
write_routes io file rs =
    if io.write && io.rename then done true (routes_text file rs) else done false file

-- the routes that nobody declares any more, in any order
unfoldable pub stale_keys : (Bytes → Bool) → (Bytes → Bool) → Routes → List Bytes
stale_keys has_hcl routed [] = []
stale_keys has_hcl routed ((d, dirs) ∷ rs) =
    let rest = stale_keys has_hcl routed rs in
    if not (declared has_hcl dirs) && routed d then d ∷ rest else rest

unfoldable pub keys_of : Routes → List Bytes
keys_of [] = []
keys_of ((d, dirs) ∷ rs) = d ∷ keys_of rs

-- the folders of a list with a doze.hcl
unfoldable pub live_dirs : (Bytes → Bool) → List Bytes → List Bytes
live_dirs has_hcl [] = []
live_dirs has_hcl (dir ∷ dirs) =
    let rest = live_dirs has_hcl dirs in if has_hcl dir then dir ∷ rest else rest

unfoldable pub any_declared : (Bytes → Bool) → Routes → Bool
any_declared has_hcl [] = false
any_declared has_hcl ((d, dirs) ∷ rs) =
    let rest = any_declared has_hcl rs in if declared has_hcl dirs then true else rest

module _ ⦃u : Unicode⦄ where
  -- a key that the record may have
  unfoldable pub readable : Bytes → Bool
  readable d = is_none (valid_domain d) && not (wildcard d)

  -- `readRoutes`
  unfoldable pub read_routes : Content (List Bytes) → Routes
  read_routes (holds m) = keep_if (λ d dirs. readable d) m
  read_routes _ = []

  -- `updateRoutes`; `writes` says that the function assigns to the map
  unfoldable pub update_routes : Io → Bool → (Routes → Routes) → Content (List Bytes) → Saved
  update_routes io writes fn file =
      if not (io.mkdir && io.open_lock && io.lock)
      then done false file
      else if is_null file && writes
      then crash
      else write_routes io file (fn (read_routes file))

  -- the domains that may be routed
  unfoldable pub only_valid : List Bytes → List Bytes
  only_valid [] = []
  only_valid (d ∷ ds) =
      let rest = only_valid ds in if is_none (valid_domain d) then d ∷ rest else rest

  unfoldable pub wanted : List Bytes → List Bytes
  wanted domains = only_valid (route_domains domains)

  -- the function that `RecordDomains` runs
  unfoldable pub record_fn : (Bytes → Bool) → Bytes → List Bytes → Routes → Routes
  record_fn routed dir want rs = add_wanted dir want (drop_project routed want dir rs)

  -- `RecordDomains`
  unfoldable pub record_domains :
      Io → (Bytes → Bool) → Bytes → List Bytes → Content (List Bytes) → Saved
  record_domains io routed dir domains file =
      update_routes io (not (is_empty (wanted domains))) (record_fn routed dir (wanted domains))
        file

  -- `ForgetProject`, on an empty map, assigns nothing
  unfoldable pub forget : Io → Bytes → Content (List Bytes) → Saved
  forget io dir file = update_routes io false (forget_project dir) file

  -- `RouteRemoved`
  unfoldable pub remove_route : Io → (Bytes → Bool) → Bytes → Content (List Bytes) → Saved
  remove_route io has_hcl domain file = update_routes io false (route_removed has_hcl domain) file

  -- `RecordedRoutes`
  unfoldable pub recorded_routes : Content (List Bytes) → List Bytes
  recorded_routes file = sort_strings (keys_of (read_routes file))

  -- `StaleRoutes`
  unfoldable pub stale_routes : (Bytes → Bool) → (Bytes → Bool) → Content (List Bytes) → List Bytes
  stale_routes has_hcl routed file = sort_strings (stale_keys has_hcl routed (read_routes file))

  -- `AnyDeclared`
  unfoldable pub any_project : (Bytes → Bool) → Content (List Bytes) → Bool
  any_project has_hcl file = any_declared has_hcl (read_routes file)

  -- `Claimants`
  unfoldable pub claimants : (Bytes → Bool) → Content (List Bytes) → Bytes → List Bytes
  claimants has_hcl file route = live_dirs has_hcl (dirs_of route (read_routes file))
