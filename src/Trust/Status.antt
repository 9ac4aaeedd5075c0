-- ===== src/Trust/Status.antt =====
-- trust.go: `TrustStatus`, and what it says of a run of `Trust`.
use doze_names.Prelude.{
  Bool, true, false, ◌&&◌, List, [], ◌∷◌, ◌++◌, Option, none, some, ◌≡◌, refl, arith, if◌then◌else◌,
  Bool-cases, inl, inr,
}
use doze_names.Text.{Bytes, Unicode, codes}
use doze_names.Domains.{route_domains}
use doze_names.Routing.{is_empty}
use doze_names.Authority.Replace.{short_fp}
use doze_names.Setup.Status.{Step, all_done}
use doze_names.Trust.{
  CaFiles, Request, Platform, and_then, missing_routes, routes_plan, old_roots_plan, root_plan,
  ca_plan, trust_plan,
}

-- the steps of some domains
unfoldable pub route_steps : Platform → List Bytes → List Step
route_steps p [] = []
route_steps p (d ∷ ds) =
    record { name = codes "route " ++ d; done = p.routed d; detail = p.detail d } ∷ route_steps p ds

-- the steps of the rotated-out roots that are trusted still
unfoldable pub old_root_steps : Platform → List Bytes → List Step
old_root_steps p [] = []
old_root_steps p (fp ∷ fps) =
    let rest = old_root_steps p fps in
    if p.fingerprint_trusted fp
    then record {
      name = codes "old authority " ++ short_fp fp;
      done = false;
      detail = codes "a rotated-out authority is still trusted; doze trust removes it";
    }
      ∷ rest
    else rest

-- the steps of the authority, with what `caTrusted` says of it
unfoldable pub ca_steps : Platform → (said : Bytes) → Option CaFiles → List Step
ca_steps p said none = []
ca_steps p said (some ca) =
    record { name = codes "certificate authority"; done = p.ca_trusted; detail = said }
    ∷ old_root_steps p ca.previous

unfoldable pub stale_steps : List Bytes → List Step
stale_steps [] = []
stale_steps (d ∷ ds) =
    record {
      name = codes "stale route " ++ d;
      done = false;
      detail = codes "no stack declares " ++ (d ++ codes " any more; doze trust removes its route");
    }
    ∷ stale_steps ds

-- `TrustStatus`
unfoldable pub trust_status : ⦃u : Unicode⦄ → Platform → (said : Bytes) → Request → List Step
trust_status p said req =
    route_steps p (route_domains req.domains) ++ (ca_steps p said req.ca ++ stale_steps req.prune)

all_done-append : (ss ts : List Step) → all_done (ss ++ ts) ≡ (all_done ss && all_done ts)
unfolding all_done
all_done-append [] ts = refl
all_done-append (s ∷ ss) ts = ground (arith, all_done-append ss ts)

module _ (p : Platform) where
  routes_done : (ds : List Bytes) → all_done (route_steps p ds) ≡ true → missing_routes p ds ≡ []
  unfolding all_done route_steps missing_routes
  routes_done [] h = refl
  routes_done (d ∷ ds) h = ground (arith, routes_done ds, h)

  old_roots_done :
      (fps : List Bytes)
      → all_done (old_root_steps p fps) ≡ true
      → (old_roots_plan p fps).script ≡ []
  unfolding all_done old_root_steps old_roots_plan
  old_roots_done [] h = refl
  old_roots_done (fp ∷ fps) h = elim (Bool-cases (p.fingerprint_trusted fp)) [
    | inl trusted ↦ let bad : false ≡ true = rw (trusted, old_root_steps) at h in absurd (cc)
    | inr gone_now ↦
        let rest : all_done (old_root_steps p fps) ≡ true = rw (gone_now, old_root_steps) at h in
        rw (gone_now, old_roots_plan) (old_roots_done fps rest)
  ]

  ca_done :
      (said : Bytes) (ca : Option CaFiles)
      → all_done (ca_steps p said ca) ≡ true
      → (ca_plan p ca).script ≡ []
  unfolding all_done ca_steps ca_plan and_then root_plan
  ca_done said none h = refl
  ca_done said (some ca) h =
      let trusted : p.ca_trusted ≡ true = ground (arith, h) in
      rw (old_roots_done ca.previous (ground (arith, h)), trusted) refl

  stale_done : (ds : List Bytes) → all_done (stale_steps ds) ≡ true → ds ≡ []
  unfolding all_done stale_steps
  stale_done [] h = refl
  stale_done (d ∷ ds) h = ground (arith, h)

-- Where TrustStatus reports every step as done, Trust has nothing for the person to run.
pub trust_status-trust_plan :
    ⦃u : Unicode⦄ (has_hcl : Bytes → Bool) (p : Platform) (said : Bytes) (req : Request)
    → all_done (trust_status p said req) ≡ true
    → (trust_plan has_hcl p req).script ≡ []
unfolding trust_status trust_plan and_then routes_plan is_empty
trust_status-trust_plan has_hcl p said req h =
    let routes = route_steps p (route_domains req.domains) in
    let split = all_done-append routes (ca_steps p said req.ca ++ stale_steps req.prune) in
    let rest = all_done-append (ca_steps p said req.ca) (stale_steps req.prune) in
    let routed = routes_done p (route_domains req.domains) (ground (arith, h, split)) in
    let trusted = ca_done p said req.ca (ground (arith, h, split, rest)) in
    let stale = stale_done p req.prune (ground (arith, h, split, rest)) in
    rw (routed, trusted, stale) refl
