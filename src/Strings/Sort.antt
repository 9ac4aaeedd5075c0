-- ===== src/Strings/Sort.antt =====
-- `sortStrings` sorts.
use doze_names.Prelude.{
  ◌+◌, List, [], ◌∷◌, All, All-map, All-zip, ◌≡◌, refl, arith, Bool-cases, inl, inr,
}
use doze_names.Text.{Bytes}
use doze_names.Strings.{lt_bytes, move_down, sort_onto, reverse_onto, sort_strings, count, member}
use doze_names.Strings.Order.{LeBytes, lt_bytes_asym, LeBytes-trans}
use doze_names.Strings.Members.{member-count}

-- each string comes after none of those behind it
abbrev pub IsSorted : List Bytes → Type 0
IsSorted [] = Unit
IsSorted (x ∷ xs) = All (LeBytes x) xs × IsSorted xs

-- the same backwards
IsFalling : List Bytes → Type 0
IsFalling [] = Unit
IsFalling (x ∷ xs) = All (λ y. LeBytes y x) xs × IsFalling xs

All-move_down :
    (P : Bytes → Type 0) (x : Bytes) (ys : List Bytes) → P x → All P ys → All P (move_down x ys)
unfolding move_down
All-move_down P x [] p all = (p, tt)
All-move_down P x (y ∷ ys) p (q, all) = elim (Bool-cases (lt_bytes x y)) [
  | inl below ↦ rw (below) (q, All-move_down P x ys p all)
  | inr above ↦ rw (above) (p, (q, all))
]

move_down-IsFalling : (x : Bytes) (ys : List Bytes) → IsFalling ys → IsFalling (move_down x ys)
unfolding move_down IsFalling
move_down-IsFalling x [] f = (tt, tt)
move_down-IsFalling x (y ∷ ys) (all, f) = elim (Bool-cases (lt_bytes x y)) [
  | inl below ↦ rw (below) (
    All-move_down (λ z. LeBytes z y) x ys (lt_bytes_asym x y below) all,
    move_down-IsFalling x ys f,
  )
  | inr above ↦ rw (above) (
    (
      above,
      All-map (λ z. LeBytes z y) (λ z. LeBytes z x) ys (λ z h. LeBytes-trans z y x h above) all,
    ),
    (all, f),
  )
]

sort_onto-IsFalling : (sorted xs : List Bytes) → IsFalling sorted → IsFalling (sort_onto sorted xs)
unfolding sort_onto
sort_onto-IsFalling sorted [] f = f
sort_onto-IsFalling sorted (x ∷ xs) f =
    sort_onto-IsFalling (move_down x sorted) xs (move_down-IsFalling x sorted f)

reverse_onto-IsSorted :
    (done xs : List Bytes)
    → IsSorted done
    → IsFalling xs
    → All (λ x. All (LeBytes x) done) xs
    → IsSorted (reverse_onto done xs)
unfolding reverse_onto IsFalling
reverse_onto-IsSorted done [] s f before = s
reverse_onto-IsSorted done (x ∷ xs) s (falls, f) (first, before) =
    reverse_onto-IsSorted (x ∷ done) xs (first, s) f (All-zip _ _ xs falls before)

none_before : (xs : List Bytes) → All (λ x. All (LeBytes x) []) xs
none_before [] = tt
none_before (x ∷ xs) = (tt, none_before xs)

pub sort_strings-IsSorted : (ss : List Bytes) → IsSorted (sort_strings ss)
unfolding sort_strings IsFalling
sort_strings-IsSorted ss =
    let f = sort_onto-IsFalling [] ss tt in
    reverse_onto-IsSorted [] (sort_onto [] ss) tt f (none_before (sort_onto [] ss))

module _ (s : Bytes) where
  count-move_down : (x : Bytes) (ys : List Bytes) → count s (move_down x ys) ≡ count s (x ∷ ys)
  unfolding move_down count
  count-move_down x [] = refl
  count-move_down x (y ∷ ys) = elim (Bool-cases (lt_bytes x y)) [
    | inl below ↦ rw (below) (omega (arith, count-move_down x ys))
    | inr above ↦ rw (above) refl
  ]

  count-sort_onto :
      (sorted xs : List Bytes) → count s (sort_onto sorted xs) ≡ count s sorted + count s xs
  unfolding sort_onto count
  count-sort_onto sorted [] = omega arith
  count-sort_onto sorted (x ∷ xs) =
      omega (arith, count-sort_onto (move_down x sorted) xs, count-move_down x sorted)

  count-reverse_onto :
      (done xs : List Bytes) → count s (reverse_onto done xs) ≡ count s done + count s xs
  unfolding reverse_onto count
  count-reverse_onto done [] = omega arith
  count-reverse_onto done (x ∷ xs) = omega (arith, count-reverse_onto (x ∷ done) xs)

  pub count-sort_strings : (ss : List Bytes) → count s (sort_strings ss) ≡ count s ss
  unfolding sort_strings count
  count-sort_strings ss =
      omega (arith, count-reverse_onto [] (sort_onto [] ss), count-sort_onto [] ss)

  pub member-sort_strings : (ss : List Bytes) → member s (sort_strings ss) ≡ member s ss
  member-sort_strings ss =
      rw (member-count s (sort_strings ss), count-sort_strings ss, member-count s ss) refl
