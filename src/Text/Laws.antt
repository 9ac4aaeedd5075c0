-- ===== src/Text/Laws.antt =====
-- Laws of the byte-string functions.
use doze_names.Prelude.{
  ℕ, ◌-◌, ◌<◌, true, false, [], ◌∷◌, ◌++◌, map, Option, none, some, ◌==◌, length, length-append,
  drop-length_append, ◌⊎◌, ◌≡◌, ◌≢◌, ◌↔◌, refl, ap, arith, Bool-cases, inl, inr, All,
}
use doze_names.Text.{
  Bytes, Unicode, eq_bytes, has_suffix, trim_suffix_byte, trim_left, trim_right_cons, trim_right,
  trim, contains_byte, split, is_ascii, lower_byte, to_lower, runes_of,
}

pub eq_bytes_iff : (a b : Bytes) → (eq_bytes a b ≡ true) ↔ (a ≡ b)
unfolding eq_bytes
eq_bytes_iff (x ∷ a) (y ∷ b) = ground (arith, eq_bytes_iff a b)
eq_bytes_iff _ _ = ground arith

pub eq_bytes_refl : (a : Bytes) → eq_bytes a a ≡ true
eq_bytes_refl a = (eq_bytes_iff a a).1 refl

pub eq_bytes_ne : (a b : Bytes) → a ≢ b → eq_bytes a b ≡ false
eq_bytes_ne a b h = elim (Bool-cases (eq_bytes a b)) [
  | inl e ↦ absurd (h ((eq_bytes_iff a b).0 e))
  | inr e ↦ e
]

pub split-cut :
    (b : ℕ) (p s : Bytes) → contains_byte b p ≡ false → split b (p ++ (b ∷ s)) ≡ p ∷ split b s
unfolding split contains_byte
split-cut b [] s h = ground arith
split-cut b (x ∷ p) s h = ground (arith, split-cut b p s)

pub split_lacks : (b : ℕ) (p : Bytes) → contains_byte b p ≡ false → split b p ≡ p ∷ []
unfolding split contains_byte
split_lacks b [] h = refl
split_lacks b (x ∷ p) h = ground (arith, split_lacks b p)

pub has_suffix-append : (p t : Bytes) → has_suffix (p ++ t) t ≡ true
unfolding has_suffix
has_suffix-append p t =
    let e : length (p ++ t) - length t ≡ length p = omega (arith, length-append {0} p t) in
    rw (e, drop-length_append, eq_bytes_refl t) (ground (arith, length-append {0} p t))

-- Lower-case ASCII: what `to_lower` leaves as it is.
abbrev pub IsLower : ℕ → Type 0
IsLower c = (c < 128) × ((c < b'A') ⊎ (b'Z' < c))

pub is_ascii-IsLower : (s : Bytes) → All IsLower s → is_ascii s ≡ true
unfolding is_ascii
is_ascii-IsLower [] h = refl
is_ascii-IsLower (c ∷ s) h = ground (arith, is_ascii-IsLower s)

pub map-lower_byte-IsLower : (s : Bytes) → All IsLower s → map lower_byte s ≡ s
unfolding lower_byte
map-lower_byte-IsLower [] h = refl
map-lower_byte-IsLower (c ∷ s) h = ground (arith, map-lower_byte-IsLower s)

pub to_lower-IsLower : ⦃u : Unicode⦄ (s : Bytes) → All IsLower s → to_lower s ≡ s
unfolding to_lower
to_lower-IsLower s h = rw (is_ascii-IsLower s h, map-lower_byte-IsLower s h)

pub runes_of-IsLower : ⦃u : Unicode⦄ (s : Bytes) → All IsLower s → runes_of s ≡ s
unfolding runes_of
runes_of-IsLower s h = rw (is_ascii-IsLower s h)

-- The last byte.
abbrev pub last? : Bytes → Option ℕ
last? [] = none
last? (x ∷ []) = some x
last? (x ∷ y ∷ s) = last? (y ∷ s)

abbrev pub first? : Bytes → Option ℕ
first? [] = none
first? (x ∷ s) = some x

pub last?-append : (s : Bytes) (x : ℕ) (t : Bytes) → last? (s ++ (x ∷ t)) ≡ last? (x ∷ t)
last?-append [] x t = refl
last?-append (y ∷ []) x t = refl
last?-append (y ∷ z ∷ s) x t = last?-append (z ∷ s) x t

trim_right_cons-last :
    (b x : ℕ) (t : Bytes) → last? t ≢ some b → last? (trim_right_cons b x t) ≢ some b
unfolding trim_right_cons
trim_right_cons-last b x [] h e = ground arith
trim_right_cons-last b x (y ∷ t) h e = h e

pub trim_right-last : (b : ℕ) (s : Bytes) → last? (trim_right b s) ≢ some b
unfolding trim_right
trim_right-last b [] e = cc
trim_right-last b (x ∷ s) e = trim_right_cons-last b x (trim_right b s) (trim_right-last b s) e

pub trim_right_id : (b : ℕ) (s : Bytes) → last? s ≢ some b → trim_right b s ≡ s
unfolding trim_right
trim_right_id b [] h = refl
trim_right_id b (x ∷ []) h = ground arith
trim_right_id b (x ∷ y ∷ s) h = rw (trim_right_id b (y ∷ s) h)

pub trim_suffix_byte_id : (b : ℕ) (s : Bytes) → last? s ≢ some b → trim_suffix_byte b s ≡ s
unfolding trim_suffix_byte
trim_suffix_byte_id b [] h = refl
trim_suffix_byte_id b (x ∷ []) h = ground arith
trim_suffix_byte_id b (x ∷ y ∷ s) h = ap (λ t. x ∷ t) (trim_suffix_byte_id b (y ∷ s) h)

pub trim_left_first : (b : ℕ) (s : Bytes) → first? (trim_left b s) ≢ some b
unfolding trim_left
trim_left_first b [] e = cc
trim_left_first b (x ∷ s) e = ground (arith, trim_left_first b s)

pub trim_left_id : (b : ℕ) (s : Bytes) → first? s ≢ some b → trim_left b s ≡ s
unfolding trim_left
trim_left_id b [] h = refl
trim_left_id b (x ∷ s) h = ground arith

list_cases : (s : Bytes) → (s ≡ []) ⊎ ((y : ℕ) × (t : Bytes) × (s ≡ y ∷ t))
list_cases [] = inl refl
list_cases (y ∷ t) = inr (y, t, refl)

-- What is trimmed on the right keeps its first byte, or nothing is left.
trim_right-first : (b c : ℕ) (s : Bytes) → first? s ≢ some c → first? (trim_right b s) ≢ some c
unfolding trim_right trim_right_cons
trim_right-first b c [] h e = cc
trim_right-first b c (x ∷ s) h e = elim (list_cases (trim_right b s)) [
  | inl empty ↦ ground arith
  | inr (y, t, more) ↦ ground arith
]

pub trim-ends : (b : ℕ) (s : Bytes) → (first? (trim b s) ≢ some b) × (last? (trim b s) ≢ some b)
unfolding trim
trim-ends b s =
    (trim_right-first b b (trim_left b s) (trim_left_first b s), trim_right-last b (trim_left b s))

pub trim_id : (b : ℕ) (s : Bytes) → first? s ≢ some b → last? s ≢ some b → trim b s ≡ s
unfolding trim
trim_id b s f l = rw (trim_left_id b s f, trim_right_id b s l)

module _ (P : ℕ → Type 0) where
  trim_left-All : (b : ℕ) (s : Bytes) → All P s → All P (trim_left b s)
  unfolding trim_left
  trim_left-All b [] h = tt
  trim_left-All b (x ∷ s) h = elim (Bool-cases (x == b)) [
    | inl e ↦ rw e (trim_left-All b s h.1)
    | inr e ↦ rw e h
  ]

  trim_right_cons-All : (b x : ℕ) (t : Bytes) → P x → All P t → All P (trim_right_cons b x t)
  unfolding trim_right_cons
  trim_right_cons-All b x [] p h = elim (Bool-cases (x == b)) [
    | inl e ↦ rw e tt
    | inr e ↦ rw e (p, tt)
  ]
  trim_right_cons-All b x (y ∷ t) p h = (p, h)

  trim_right-All : (b : ℕ) (s : Bytes) → All P s → All P (trim_right b s)
  unfolding trim_right
  trim_right-All b [] h = tt
  trim_right-All b (x ∷ s) h = trim_right_cons-All b x (trim_right b s) h.0 (trim_right-All b s h.1)

  pub trim-All : (b : ℕ) (s : Bytes) → All P s → All P (trim b s)
  unfolding trim
  trim-All b s h = trim_right-All b (trim_left b s) (trim_left-All b s h)
