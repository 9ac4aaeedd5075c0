-- ===== src/Registry/Lookups/Walk.antt =====
-- The walk up the labels of a host, against a search through the list of its ancestors.
use doze_names.Prelude.{
  ℕ, zero, suc, ◌<◌, true, false, List, [], ◌∷◌, ◌++◌, Option, none, some, length, ◌==◌,
  if◌then◌else◌, All, ◌≡◌, ◌≢◌, inl, inr, refl, sym, ap, ◌∙◌, arith, Bool-cases, Option-cases,
}
use doze_names.Text.{Bytes, Unicode, eq_bytes, cut, contains_byte}
use doze_names.Text.Laws.{eq_bytes_ne}
use doze_names.Table.{Table, lookup}
use doze_names.Names.{suffix, normalize, in_zone}
use doze_names.Registry.{Entry}
use doze_names.Registry.Lookups.{walk, find_owner}

-- what stands behind each dot of a host, the longest first
abbrev pub parents : Bytes → List Bytes
parents [] = []
parents (c ∷ s) = if c == b'.' then s ∷ parents s else parents s

-- a host, and what stands behind each of its dots, up to the zone itself and without it
abbrev pub up_to_zone : List Bytes → List Bytes
up_to_zone [] = []
up_to_zone (h ∷ hs) = if eq_bytes h suffix then [] else h ∷ up_to_zone hs

abbrev pub ancestors : Bytes → List Bytes
ancestors h = up_to_zone (h ∷ parents h)

-- the entry of the first name of a list that has one
abbrev pub first_entry : Table Entry → List Bytes → Option Entry
first_entry m [] = none
first_entry m (h ∷ hs) = elim (lookup h m) [ some e ↦ some e | none ↦ first_entry m hs ]

pub parents-cut-none : (h : Bytes) → cut b'.' h ≡ none → parents h ≡ []
unfolding cut
parents-cut-none [] e = refl
parents-cut-none (c ∷ s) e = ground (arith, parents-cut-none s)

pub parents-cut :
    (h : Bytes) {before rest : Bytes}
    → cut b'.' h ≡ some (before, rest)
    → (parents h ≡ rest ∷ parents rest) × (length rest < length h)
unfolding cut
parents-cut [] e = absurd (cc)
parents-cut (c ∷ s) {before} {rest} e = elim (Bool-cases (c == b'.')) [
  | inl dot ↦ ground arith
  | inr other ↦ elim (Option-cases (cut b'.' s)) [
    | inl end ↦ ground arith
    | inr ((p, r), more) ↦ ground (arith, parents-cut s {before = p} {rest = r} more)
  ]
]

-- The loop of `lookup` is a search through the ancestors; the length of the host is fuel enough.
pub walk-first_entry :
    (fuel : ℕ) (h : Bytes) (m : Table Entry)
    → length h < fuel
    → walk fuel h m ≡ first_entry m (ancestors h)
unfolding walk
walk-first_entry zero h m lt = absurd (omega arith)
walk-first_entry (suc fuel) h m lt = elim (Option-cases (cut b'.' h)) [
  | inl end ↦ ground (arith, parents-cut-none h end)
  | inr ((before, rest), more) ↦ ground (arith, parents-cut h more, walk-first_entry fuel rest m)
]

-- what a search finds stands under one of the names, and none before it has an entry
pub record IsNearest (m : Table Entry) (hs : List Bytes) (e : Entry) : Type 0 where
  pub nearer : List Bytes
  pub name : Bytes
  pub farther : List Bytes
  pub splits : hs ≡ nearer ++ (name ∷ farther)
  pub found : lookup name m ≡ some e
  pub unclaimed : All (λ h. lookup h m ≡ none) nearer

first_entry-IsNearest :
    (m : Table Entry) (hs : List Bytes) {e : Entry} → first_entry m hs ≡ some e → IsNearest m hs e
first_entry-IsNearest m [] h = absurd (cc)
first_entry-IsNearest m (a ∷ hs) {e} h = elim (Option-cases (lookup a m)) [
  | inr (e', here) ↦ record {
    nearer = [];
    name = a;
    farther = hs;
    splits = refl;
    found = ground arith;
    unclaimed = tt;
  }
  | inl nothing ↦
      let r = first_entry-IsNearest m hs (rw (nothing, first_entry) at h) in
      record {
        nearer = a ∷ r.nearer;
        name = r.name;
        farther = r.farther;
        splits = ap (λ t. a ∷ t) r.splits;
        found = r.found;
        unclaimed = (nothing, r.unclaimed);
      }
]

first_entry-eq-none :
    (m : Table Entry) (hs : List Bytes) → All (λ h. lookup h m ≡ none) hs → first_entry m hs ≡ none
first_entry-eq-none m [] h = refl
first_entry-eq-none m (a ∷ hs) h = rw (h.0, first_entry) (first_entry-eq-none m hs h.1)

module _ ⦃u : Unicode⦄ (m : Table Entry) (host : Bytes) (zone : in_zone host ≡ true) where
  find_owner_zone : find_owner m host ≡ first_entry m (ancestors (normalize host))
  unfolding find_owner
  find_owner_zone =
      rw zone (walk-first_entry (suc (length (normalize host))) (normalize host) m (omega arith))

  -- The entry that owns a host of the zone is that of the nearest registered name among the host
  -- and its parents below the zone: every name nearer to the host is unregistered.
  pub find_owner-IsNearest :
      {e : Entry} → find_owner m host ≡ some e → IsNearest m (ancestors (normalize host)) e
  find_owner-IsNearest h =
      first_entry-IsNearest m (ancestors (normalize host)) (sym find_owner_zone ∙ h)

  -- A host of the zone is unknown if neither it nor any of its parents below the zone is registered.
  pub find_owner-eq-none :
      All (λ h. lookup h m ≡ none) (ancestors (normalize host)) → find_owner m host ≡ none
  find_owner-eq-none h = find_owner_zone ∙ first_entry-eq-none m _ h

  -- A registered host of the zone is owned by its own entry.
  pub find_owner_exact :
      {e : Entry}
      → normalize host ≢ suffix
      → lookup (normalize host) m ≡ some e
      → find_owner m host ≡ some e
  find_owner_exact {e} ne h =
      find_owner_zone ∙ rw (eq_bytes_ne (normalize host) suffix ne) (ground arith)

parents-append :
    (p s : Bytes) → contains_byte b'.' p ≡ false → parents (p ++ (b'.' ∷ s)) ≡ s ∷ parents s
unfolding contains_byte
parents-append [] s h = ground arith
parents-append (c ∷ p) s h = ground (arith, parents-append p s)

first_entry_child :
    (m : Table Entry) (h q : Bytes)
    → parents h ≡ q ∷ parents q
    → lookup h m ≡ none
    → first_entry m (ancestors h) ≡ first_entry m (ancestors q)
first_entry_child m h q shape nothing =
    let below : eq_bytes h suffix ≡ false = eq_bytes_ne h suffix (λ zone. cc shape) in
    rw (below, shape) (rw (nothing, first_entry) refl)

-- An unregistered host of the zone, one label below a parent in the zone, has its parent's owner.
pub find_owner_child :
    ⦃u : Unicode⦄ (m : Table Entry) (host parent p : Bytes)
    → in_zone host ≡ true
    → in_zone parent ≡ true
    → contains_byte b'.' p ≡ false
    → normalize host ≡ p ++ (b'.' ∷ normalize parent)
    → lookup (normalize host) m ≡ none
    → find_owner m host ≡ find_owner m parent
find_owner_child m host parent p zh zp dot e nothing =
    find_owner_zone m host zh
    ∙ first_entry_child m (normalize host) (normalize parent)
        (ap parents e ∙ parents-append p (normalize parent) dot) nothing
    ∙ sym (find_owner_zone m parent zp)
