-- ===== src/Routing/Refines.antt =====
-- The record as an abstract relation between domains and project folders, and the file as its
-- refinement: what a run does to the file is what its call means on the relation.
use doze_names.Prelude.{Bool, true, false, not, ◌&&◌, List, ◌≡◌, if◌then◌else◌}
use doze_names.Text.{Bytes, Unicode, eq_bytes}
use doze_names.Table.{Distinct}
use doze_names.Strings.{member}
use doze_names.Registry.{Content, null, holds, Io}
use doze_names.Routing.{
  Saved, crash, done, readable, read_routes, wanted, record_domains, forget, remove_route,
}
use doze_names.Routing.Claims.{claims}

-- a JSON object has no key twice
abbrev pub IsFile : Content (List Bytes) → Type 0
IsFile (holds m) = Distinct m
IsFile _ = Unit {0}

-- the calls that change the record; what each is told of the machine is a part of it
pub data Call : Type 0 where
  records : (routed : Bytes → Bool) (dir : Bytes) (domains : List Bytes) → Call
  forgets : (dir : Bytes) → Call
  removes : (has_hcl : Bytes → Bool) (domain : Bytes) → Call

-- the abstract state: does the project declare the domain?
abbrev pub View : Type 0
View = Bytes → Bytes → Bool

module _ ⦃u : Unicode⦄ where
  unfoldable pub view : Content (List Bytes) → View
  view file d x = claims (read_routes file) d x

  unfoldable pub run_call : Io → Call → Content (List Bytes) → Saved
  run_call io (records routed dir domains) file = record_domains io routed dir domains file
  run_call io (forgets dir) file = forget io dir file
  run_call io (removes has_hcl domain) file = remove_route io has_hcl domain file

  -- What a call means. `RecordDomains` makes the project declare the valid routes of its domains and
  -- no other, and `ForgetProject` none; `RouteRemoved` only takes the domain's own folders, and none
  -- that has a doze.hcl.
  abbrev pub Means : Call → View → View → Type 0
  Means (records routed dir domains) v v' =
      (d x : Bytes)
      → v' d x ≡ (if eq_bytes dir x then readable d && member d (wanted domains) else v d x)
  Means (forgets dir) v v' = (d x : Bytes) → v' d x ≡ (not (eq_bytes dir x) && v d x)
  Means (removes has_hcl domain) v v' =
      (d x : Bytes)
      → (eq_bytes domain d ≡ false → v' d x ≡ v d x)
        × (v d x ≡ true → has_hcl x ≡ true → v' d x ≡ true)
        × (v' d x ≡ true → v d x ≡ true)

  -- A run that panics found the JSON text `null`; one that reports an error left the file alone; one
  -- that reports none did what the call means.
  abbrev pub Refines : Call → Content (List Bytes) → Saved → Type 0
  Refines call file crash = file ≡ null
  Refines call file (done false file') = file' ≡ file
  Refines call file (done true file') = IsFile file' × Means call (view file) (view file')
