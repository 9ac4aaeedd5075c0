-- ===== src/Domains/Routes.antt =====
-- The names that machine routes are installed for.
use doze_names.Prelude.{
  ℕ, zero, suc, ◌≤◌, Bool, false, not, ◌||◌, List, [], ◌∷◌, none, some, ltb, ◌==◌, ◌≡◌, ◌⊎◌, refl,
  sym, ap, ◌∙◌, subst, arith, length, drop, Bool-cases, Option-cases, inl, inr, All, All-map,
}
use doze_names.Text.{Bytes, Unicode, eq_bytes, has_prefix, split, split_cons}
use doze_names.Text.Laws.{eq_bytes_iff}
use doze_names.Names.{normalize, in_zone, label}
use doze_names.Names.Labels.{IsLabelByte, label-IsLabel}
use doze_names.Net.{parse_ip}
use doze_names.Domains.{
  star, wildcard_prefix, trim_prefix, route_domain, check_labels, check_split, is_local,
  valid_domain, no_top_level, inner_wildcard, bad_label, empty_host, is_address, is_doze_name,
  is_localhost,
}

-- a byte of a label, or the dot between two
abbrev pub IsRouteByte : ℕ → Type 0
IsRouteByte c = IsLabelByte c ⊎ (c ≡ b'.')

module _ (P : ℕ → Type 0) (b : ℕ) (sep : P b) where
  split_cons-All :
      (x : ℕ) (s : Bytes) (parts : List Bytes)
      → (All (All P) parts → All P s)
      → All (All P) (split_cons x parts)
      → P x × All P s
  unfolding split_cons
  split_cons-All x s [] rest ((p, _), _) = (p, rest tt)
  split_cons-All x s (l ∷ ls) rest ((p, all), more) = (p, rest (all, more))

  split-All : (s : Bytes) → All (All P) (split b s) → All P s
  unfolding split split_cons
  split-All [] all = tt
  split-All (x ∷ s) all = elim (Bool-cases (x == b)) [
    | inl ends ↦
        let same : x ≡ b = ground arith in
        let parts : All (All P) ([] ∷ split b s) = rw (ends, split) at all in
        (subst P (sym same) sep, split-All s parts.1)
    | inr inside ↦
        let parts : All (All P) (split_cons x (split b s)) = rw (inside, split) at all in
        split_cons-All x s (split b s) (λ rest. split-All s rest) parts
  ]

split_some : (b : ℕ) (s : Bytes) → (p : Bytes) × (ps : List Bytes) × (split b s ≡ p ∷ ps)
unfolding split split_cons
split_some b [] = ([], [], refl)
split_some b (x ∷ s) =
    let (p, ps, e) = split_some b s in
    elim (Bool-cases (x == b)) [
      | inl ends ↦ ([], split b s, rw (ends) refl)
      | inr inside ↦ (x ∷ p, ps, rw (inside, e) refl)
    ]

-- a text whose first label is `*` is that, or a wildcard over the rest
split-star :
    (h : Bytes) (ls : List Bytes)
    → split b'.' h ≡ star ∷ ls
    → (ls ≡ []) ⊎ ((r : Bytes) × (h ≡ b'*' ∷ b'.' ∷ r) × (split b'.' r ≡ ls))
unfolding split split_cons
split-star [] ls e = cc
split-star (x ∷ []) ls e = ground arith
split-star (x ∷ y ∷ r) ls e =
    let (p, ps, f) = split_some b'.' r in
    elim (Bool-cases (x == b'.')) [
      | inl dot ↦ ground arith
      | inr letter ↦ elim (Bool-cases (y == b'.')) [
        | inl dot ↦
            let parts : (x ∷ []) ∷ split b'.' r ≡ star ∷ ls = rw (letter, dot, split) at e in
            let same : x ≡ b'*' = cc in
            let dotted : y ≡ b'.' = ground arith in inr (r, rw (same, dotted) refl, cc)
        | inr more ↦ ground (arith, f)
      ]
    ]

All-drop : (P : ℕ → Type 0) (n : ℕ) (s : Bytes) → All P s → All P (drop n s)
All-drop P zero s all = all
All-drop P (suc n) [] all = tt
All-drop P (suc n) (x ∷ s) (p, all) = All-drop P n s all

All-trim_prefix : (P : ℕ → Type 0) (s t : Bytes) → All P s → All P (trim_prefix s t)
unfolding trim_prefix
All-trim_prefix P s t all = elim (Bool-cases (has_prefix s t)) [
  | inl starts ↦ rw (starts) (All-drop P (length t) s all)
  | inr other ↦ rw (other) all
]

module _ ⦃u : Unicode⦄ where
  -- the test of one label in the loop
  label_fails : Bytes → Bool
  label_fails l = eq_bytes l [] || not (eq_bytes l (label l)) || ltb 63 (length l)

  kept_label : (l : Bytes) → label_fails l ≡ false → All IsLabelByte l
  unfolding label_fails
  kept_label l h =
      let same : l ≡ label l = (eq_bytes_iff l (label l)).0 (ground arith) in
      subst (All IsLabelByte) (sym same) (label-IsLabel l).bytes

  check_labels-cons :
      (i : ℕ) (l : Bytes) (ls : List Bytes)
      → check_labels i (l ∷ ls) ≡ none
      → (((l ≡ star) × (i ≡ 0)) ⊎ All IsLabelByte l) × (check_labels (suc i) ls ≡ none)
  unfolding check_labels label_fails
  check_labels-cons i l ls h = elim (Bool-cases (eq_bytes l star)) [
    | inl any ↦ elim (Bool-cases (i == 0)) [
      | inl first ↦
          (inl ((eq_bytes_iff l star).0 any, ground arith), rw (any, first, check_labels) at h)
      | inr later ↦
          let bad : some inner_wildcard ≡ none = rw (any, later, check_labels) at h in absurd (cc)
    ]
    | inr named ↦ elim (Bool-cases (label_fails l)) [
      | inl fails ↦
          let bad : some (bad_label l) ≡ none = rw (named, fails, check_labels) at h in absurd (cc)
      | inr good ↦ (inr (kept_label l good), rw (named, good, check_labels) at h)
    ]
  ]

  -- labels behind the first are no wildcards
  check_labels-All :
      (i : ℕ) (ls : List Bytes) → check_labels (suc i) ls ≡ none → All (All IsLabelByte) ls
  check_labels-All i [] h = tt
  check_labels-All i (l ∷ ls) h =
      let (first, rest) = check_labels-cons (suc i) l ls h in
      (
        elim first [ inl (_, zeroth) ↦ absurd (omega arith) | inr good ↦ good ],
        check_labels-All (suc i) ls rest,
      )

  IsLabelByte-IsRouteByte : (c : ℕ) → IsLabelByte c → IsRouteByte c
  IsLabelByte-IsRouteByte c h = inl h

  route_labels : (s : Bytes) → All (All IsLabelByte) (split b'.' s) → All IsRouteByte s
  route_labels s all = split-All IsRouteByte b'.' (inr refl) s (
      All-map (All IsLabelByte) (All IsRouteByte) (split b'.' s)
        (λ l good. All-map IsLabelByte IsRouteByte l IsLabelByte-IsRouteByte good) all)

  check_split-labels :
      (l : Bytes) (ls : List Bytes)
      → check_split (l ∷ ls) ≡ none
      → (2 ≤ length (l ∷ ls)) × (check_labels 0 (l ∷ ls) ≡ none)
  unfolding check_split
  check_split-labels l ls valid = elim (Bool-cases (ltb (length (l ∷ ls)) 2)) [
    | inl short ↦
        let bad : some no_top_level ≡ none = rw (short, check_split) at valid in absurd (cc)
    | inr long ↦ elim (Option-cases (check_labels 0 (l ∷ ls))) [
      | inl good ↦ (ground arith, good)
      | inr (e, wrong) ↦
          let bad : some e ≡ none = rw (long, wrong, check_split) at valid in absurd (cc)
    ]
  ]

  check_split-IsRouteByte :
      (h : Bytes)
      → check_split (split b'.' h) ≡ none
      → All IsRouteByte (trim_prefix h wildcard_prefix)
  unfolding trim_prefix has_prefix
  check_split-IsRouteByte h valid =
      let (l, ls, parts) = split_some b'.' h in
      let (long, good) = check_split-labels l ls (rw (parts) at valid) in
      let (first, rest) = check_labels-cons 0 l ls good in
      elim first [
        | inr name ↦
            All-trim_prefix IsRouteByte h wildcard_prefix
              (route_labels h (rw (parts) (name, check_labels-All 0 ls rest)))
        | inl (any, _) ↦ elim (split-star h ls (parts ∙ ap (λ t. t ∷ ls) any)) [
          | inl nothing ↦ absurd (ground arith)
          | inr (r, shape, below) ↦
              rw (shape) (route_labels r (rw (below) (check_labels-All 0 ls rest)))
        ]
      ]

  pub valid_domain-none :
      (host : Bytes)
      → valid_domain host ≡ none
      → (in_zone (normalize host) ≡ false) × (check_split (split b'.' (normalize host)) ≡ none)
  unfolding valid_domain
  valid_domain-none host valid =
      let h = normalize host in
      elim (Bool-cases (eq_bytes h [])) [
        | inl empty ↦
            let bad : some empty_host ≡ none = rw (empty, valid_domain) at valid in absurd (cc)
        | inr named ↦ elim (Option-cases (parse_ip h)) [
          | inr (ip, address) ↦
              let bad : some is_address ≡ none = rw (named, address, valid_domain) at valid in
              absurd (cc)
          | inl text ↦ elim (Bool-cases (in_zone h)) [
            | inl doze ↦
                let bad : some is_doze_name ≡ none =
                  rw (named, text, doze, valid_domain) at valid in
                absurd (cc)
            | inr outside ↦ elim (Bool-cases (is_local h)) [
              | inl here ↦
                  let bad : some is_localhost ≡ none =
                    rw (named, text, outside, here, valid_domain) at valid in
                  absurd (cc)
              | inr away ↦ (outside, rw (named, text, outside, away, valid_domain) at valid)
            ]
          ]
        ]
      ]

  -- What `ValidDomain` lets through can stand in a privileged script and be a file's name: it is not
  -- in the zone, and the name that a route is installed for has lowercase letters, digits, dashes and
  -- dots alone.
  pub valid_domain-IsRouteByte :
      (host : Bytes)
      → valid_domain host ≡ none
      → (in_zone (normalize host) ≡ false) × All IsRouteByte (route_domain host)
  unfolding route_domain
  valid_domain-IsRouteByte host valid =
      let (outside, labels) = valid_domain-none host valid in
      (outside, check_split-IsRouteByte (normalize host) labels)
