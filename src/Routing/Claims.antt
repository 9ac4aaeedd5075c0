-- ===== src/Routing/Claims.antt =====
-- The record as a relation between domains and project folders, and what each operation does to it.
use doze_names.Prelude.{
  Bool, true, false, not, ◌&&◌, ◌||◌, List, [], ◌∷◌, ◌++◌, none, some, ◌≡◌, ◌⊎◌, subst, refl, sym,
  ◌∙◌, ap, arith, if◌then◌else◌, Bool-cases, Option-cases, inl, inr,
}
use doze_names.Text.{Bytes, eq_bytes}
use doze_names.Text.Laws.{eq_bytes_iff}
use doze_names.Table.{lookup, insert, delete, keep_if, has_key, Distinct}
use doze_names.Table.Laws.{
  lookup-insert, lookup-delete, has_key-lookup, insert-Distinct, delete-Distinct,
}
use doze_names.Strings.{member}
use doze_names.Strings.Members.{member-append}
use doze_names.Routing.{
  Routes, without, is_empty, dirs_of, declared, drop_project, add_wanted, forget_project,
  route_removed,
}

-- does the project declare the domain?
unfoldable pub claims : Routes → Bytes → Bytes → Bool
claims rs d dir = elim (lookup d rs) [ none ↦ false | some dirs ↦ member dir dirs ]

pub claims-dirs_of : (rs : Routes) (d x : Bytes) → member x (dirs_of d rs) ≡ claims rs d x
unfolding claims dirs_of member
claims-dirs_of rs d x = elim (Option-cases (lookup d rs)) [
  | inl none_there ↦ rw (none_there, claims, dirs_of) refl
  | inr (dirs, there) ↦ rw (there, claims, dirs_of) refl
]

member-without :
    (x dir : Bytes) (dirs : List Bytes)
    → member x (without dirs dir) ≡ (not (eq_bytes dir x) && member x dirs)
unfolding member without
member-without x dir [] = ground arith
member-without x dir (d ∷ dirs) =
    ground
      (arith, eq_bytes_iff d dir, eq_bytes_iff d x, eq_bytes_iff dir x, member-without x dir dirs)

claims-cons :
    (d d' x : Bytes) (dirs : List Bytes) (rs : Routes)
    → claims ((d, dirs) ∷ rs) d' x ≡ (if eq_bytes d d' then member x dirs else claims rs d' x)
unfolding claims dirs_of lookup
claims-cons d d' x dirs rs = elim (Bool-cases (eq_bytes d d')) [
  | inl same ↦ rw (same, claims, lookup) refl
  | inr other ↦ rw (other, claims, lookup) refl
]

claims_absent : (rs : Routes) (d x : Bytes) → has_key d rs ≡ false → claims rs d x ≡ false
unfolding claims
claims_absent rs d x h = rw (has_key-lookup d rs h, claims) refl

member_empty : (x : Bytes) (dirs : List Bytes) → is_empty dirs ≡ true → member x dirs ≡ false
unfolding is_empty member
member_empty x [] h = refl
member_empty x (d ∷ dirs) h = cc

module _ (routed : Bytes → Bool) (want : List Bytes) (dir : Bytes) where
  has_key-drop_project :
      (d : Bytes) (rs : Routes)
      → has_key d rs ≡ false
      → has_key d (drop_project routed want dir rs) ≡ false
  unfolding has_key drop_project
  has_key-drop_project d [] h = refl
  has_key-drop_project d ((e, dirs) ∷ rs) h = ground (arith, has_key-drop_project d rs)

  pub drop_project-Distinct :
      (rs : Routes) → Distinct rs → Distinct (drop_project routed want dir rs)
  unfolding drop_project
  drop_project-Distinct [] h = tt
  drop_project-Distinct ((d, dirs) ∷ rs) h =
      ground (arith, has_key-drop_project d rs, drop_project-Distinct rs)

  claims-drop_project :
      (rs : Routes) (d x : Bytes)
      → Distinct rs
      → claims (drop_project routed want dir rs) d x ≡ (not (eq_bytes dir x) && claims rs d x)
  unfolding drop_project member has_key
  claims-drop_project [] d x h = rw (claims_absent [] d x refl) (ground arith)
  claims-drop_project ((e, dirs) ∷ rs) d x (fresh, h) =
      let left = without dirs dir in
      let rest = drop_project routed want dir rs in
      let below = claims-drop_project rs d x h in
      let mine = member-without x dir dirs in
      let whole = claims-cons e d x dirs rs in
      let kept = claims-cons e d x left rest in
      let emptied = claims-cons e d x [] rest in
      let gone = claims_absent rs d x in
      elim (Bool-cases (is_empty left && not (member e want))) [
        | inr stays ↦ rw (stays) (ground arith)
        | inl leaves ↦
            let nobody : member x left ≡ false = member_empty x left (ground arith) in
            elim (Bool-cases (routed e)) [
              | inl there ↦ rw (leaves, there) (ground arith)
              | inr never ↦ rw (leaves, never) (ground (arith, eq_bytes_iff e d))
            ]
      ]

claims-insert :
    (k d x : Bytes) (dirs : List Bytes) (rs : Routes)
    → claims (insert k dirs rs) d x ≡ (if eq_bytes k d then member x dirs else claims rs d x)
unfolding claims
claims-insert k d x dirs rs = elim (Bool-cases (eq_bytes k d)) [
  | inl same ↦ rw (lookup-insert k d dirs rs, same, claims) refl
  | inr other ↦ rw (lookup-insert k d dirs rs, other, claims) refl
]

claims-delete :
    (k d x : Bytes) (rs : Routes)
    → claims (delete k rs) d x ≡ (if eq_bytes k d then false else claims rs d x)
unfolding claims
claims-delete k d x rs = elim (Bool-cases (eq_bytes k d)) [
  | inl same ↦ rw (lookup-delete k d rs, same, claims) refl
  | inr other ↦ rw (lookup-delete k d rs, other, claims) refl
]

-- one more domain of the project
claims_added :
    (dir e d x : Bytes) (rs : Routes)
    → claims (insert e (without (dirs_of e rs) dir ++ (dir ∷ [])) rs) d x
      ≡ ((eq_bytes dir x && eq_bytes e d) || claims rs d x)
unfolding member
claims_added dir e d x rs =
    let inserted = claims-insert e d x (without (dirs_of e rs) dir ++ (dir ∷ [])) rs in
    let joined = member-append x (without (dirs_of e rs) dir) (dir ∷ []) in
    let others = member-without x dir (dirs_of e rs) in
    let before = claims-dirs_of rs e x in ground (arith, eq_bytes_iff e d)

claims-add_wanted :
    (dir : Bytes) (want : List Bytes) (rs : Routes) (d x : Bytes)
    → claims (add_wanted dir want rs) d x ≡ ((eq_bytes dir x && member d want) || claims rs d x)
unfolding add_wanted member
claims-add_wanted dir [] rs d x = ground arith
claims-add_wanted dir (e ∷ want) rs d x =
    let rest =
      claims-add_wanted dir want (insert e (without (dirs_of e rs) dir ++ (dir ∷ [])) rs) d x in
    let added = claims_added dir e d x rs in ground arith

pub add_wanted-Distinct :
    (dir : Bytes) (want : List Bytes) (rs : Routes)
    → Distinct rs
    → Distinct (add_wanted dir want rs)
unfolding add_wanted
add_wanted-Distinct dir [] rs h = h
add_wanted-Distinct dir (e ∷ want) rs h =
    let dirs = without (dirs_of e rs) dir ++ (dir ∷ []) in
    add_wanted-Distinct dir want (insert e dirs rs) (insert-Distinct e dirs rs h)

-- what `RecordDomains` does to the record
pub claims_recorded :
    (routed : Bytes → Bool) (want : List Bytes) (dir : Bytes) (rs : Routes) (d x : Bytes)
    → Distinct rs
    → claims (add_wanted dir want (drop_project routed want dir rs)) d x
      ≡ (if eq_bytes dir x then member d want else claims rs d x)
claims_recorded routed want dir rs d x h =
    let added = claims-add_wanted dir want (drop_project routed want dir rs) d x in
    let dropped = claims-drop_project routed want dir rs d x h in ground arith

has_key-forget_project :
    (dir d : Bytes) (rs : Routes) → has_key d (forget_project dir rs) ≡ has_key d rs
unfolding has_key forget_project
has_key-forget_project dir d [] = refl
has_key-forget_project dir d ((e, dirs) ∷ rs) = ground (arith, has_key-forget_project dir d rs)

pub forget_project-Distinct :
    (dir : Bytes) (rs : Routes) → Distinct rs → Distinct (forget_project dir rs)
unfolding forget_project
forget_project-Distinct dir [] h = tt
forget_project-Distinct dir ((d, dirs) ∷ rs) (fresh, h) =
    (has_key-forget_project dir d rs ∙ fresh, forget_project-Distinct dir rs h)

-- what `ForgetProject` does to it
pub claims-forget_project :
    (dir : Bytes) (rs : Routes) (d x : Bytes)
    → claims (forget_project dir rs) d x ≡ (not (eq_bytes dir x) && claims rs d x)
unfolding forget_project has_key
claims-forget_project dir [] d x = rw (claims_absent [] d x refl) (ground arith)
claims-forget_project dir ((e, dirs) ∷ rs) d x =
    let below = claims-forget_project dir rs d x in
    let mine = member-without x dir dirs in
    let whole = claims-cons e d x dirs rs in
    let kept = claims-cons e d x (without dirs dir) (forget_project dir rs) in ground arith

pub claims-keep_if :
    (test : Bytes → Bool) (rs : Routes) (d x : Bytes)
    → Distinct rs
    → claims (keep_if (λ k dirs. test k) rs) d x ≡ (test d && claims rs d x)
unfolding keep_if has_key
claims-keep_if test [] d x h = rw (claims_absent [] d x refl) (ground arith)
claims-keep_if test ((e, dirs) ∷ rs) d x (fresh, h) =
    let below = claims-keep_if test rs d x h in
    let rest = keep_if (λ k dirs. test k) rs in
    let whole = claims-cons e d x dirs rs in
    let kept = claims-cons e d x dirs rest in
    let gone = claims_absent rs d x in
    elim (Bool-cases (eq_bytes e d)) [
      | inl same ↦
          let e_is_d : e ≡ d = (eq_bytes_iff e d).0 same in
          let test_same : test e ≡ test d = ap test e_is_d in
          let absent : claims rs d x ≡ false = gone (rw (e_is_d) at fresh) in ground arith
      | inr other ↦ ground arith
    ]

declared_some :
    (has_hcl : Bytes → Bool) (dirs : List Bytes) (x : Bytes)
    → member x dirs ≡ true
    → has_hcl x ≡ true
    → declared has_hcl dirs ≡ true
unfolding declared member
declared_some has_hcl [] x h k = cc
declared_some has_hcl (d ∷ dirs) x h k = elim (Bool-cases (eq_bytes d x)) [
  | inl same ↦
      let here : has_hcl d ≡ true = ap has_hcl ((eq_bytes_iff d x).0 same) ∙ k in ground arith
  | inr other ↦ let rest = declared_some has_hcl dirs x (rw (other, member) at h) k in ground arith
]

-- the record is left alone, or the domain is taken out
route_removed_cases :
    (has_hcl : Bytes → Bool) (domain : Bytes) (rs : Routes)
    → (route_removed has_hcl domain rs ≡ rs)
      ⊎ ((dirs : List Bytes) × (lookup domain rs ≡ some dirs)
          × (declared has_hcl dirs ≡ false)
          × (route_removed has_hcl domain rs ≡ delete domain rs))
unfolding route_removed
route_removed_cases has_hcl domain rs = elim (Option-cases (lookup domain rs)) [
  | inl unknown ↦ inl (rw (unknown, route_removed) refl)
  | inr (dirs, known) ↦ elim (Bool-cases (declared has_hcl dirs)) [
    | inl wanted ↦ inl (rw (known, wanted, route_removed) refl)
    | inr stale ↦ inr (dirs, known, stale, rw (known, stale, route_removed) refl)
  ]
]

-- a domain with a declaring folder is not the one that is taken out
stale_unclaimed :
    (has_hcl : Bytes → Bool) (domain d x : Bytes) (dirs : List Bytes) (rs : Routes)
    → lookup domain rs ≡ some dirs
    → declared has_hcl dirs ≡ false
    → claims rs d x ≡ true
    → has_hcl x ≡ true
    → eq_bytes domain d ≡ false
unfolding claims
stale_unclaimed has_hcl domain d x dirs rs known stale c k = elim (Bool-cases (eq_bytes domain d)) [
  | inr other ↦ other
  | inl same ↦
      let domain_is_d : domain ≡ d = (eq_bytes_iff domain d).0 same in
      let there : lookup d rs ≡ some dirs = rw (domain_is_d) at known in
      let listed : member x dirs ≡ true = rw (there, claims) at c in
      let still = declared_some has_hcl dirs x listed k in absurd (cc)
]

-- what `RouteRemoved` does to it: another domain keeps its projects, and so does this one while one of
-- them has a doze.hcl; nothing is claimed that was not
pub claims-route_removed :
    (has_hcl : Bytes → Bool) (domain : Bytes) (rs : Routes) (d x : Bytes)
    → (eq_bytes domain d ≡ false → claims (route_removed has_hcl domain rs) d x ≡ claims rs d x)
      × (claims rs d x ≡ true
          → has_hcl x ≡ true
          → claims (route_removed has_hcl domain rs) d x ≡ true)
      × (claims (route_removed has_hcl domain rs) d x ≡ true → claims rs d x ≡ true)
claims-route_removed has_hcl domain rs d x = elim (route_removed_cases has_hcl domain rs) [
  | inl kept ↦ rw (kept) ((λ other. refl), (λ c k. c), (λ c. c))
  | inr (dirs, known, stale, out) ↦
      let deleted = claims-delete domain d x rs in
      rw (out) (
        (λ other. ground arith),
        (λ c k.
            let apart = stale_unclaimed has_hcl domain d x dirs rs known stale c k in ground arith),
        (λ c. ground arith),
      )
]

pub route_removed-Distinct :
    (has_hcl : Bytes → Bool) (domain : Bytes) (rs : Routes)
    → Distinct rs
    → Distinct (route_removed has_hcl domain rs)
route_removed-Distinct has_hcl domain rs h = elim (route_removed_cases has_hcl domain rs) [
  | inl kept ↦ subst Distinct (sym kept) h
  | inr (dirs, known, stale, out) ↦ subst Distinct (sym out) (delete-Distinct domain rs h)
]
