-- ===== src/Table/Laws.antt =====
-- The laws of the map.
use doze_names.Prelude.{
  Bool, true, false, [], ◌∷◌, none, some, ◌≡◌, refl, arith, if◌then◌else◌, Bool-cases, inl, inr,
}
use doze_names.Text.{Bytes, eq_bytes}
use doze_names.Text.Laws.{eq_bytes_iff}
use doze_names.Table.{Table, lookup, insert, keep_if, delete, has_key, Distinct}

module _ {ℓ} {V : Type ℓ} where
  pub lookup-insert :
      (k j : Bytes) (v : V) (m : Table V)
      → lookup j (insert k v m) ≡ (if eq_bytes k j then some v else lookup j m)
  unfolding lookup insert
  lookup-insert k j v [] = refl
  lookup-insert k j v ((i, w) ∷ m) =
      ground (arith, eq_bytes_iff k j, eq_bytes_iff i k, eq_bytes_iff i j, lookup-insert k j v m)

  pub lookup-delete :
      (k j : Bytes) (m : Table V)
      → lookup j (delete k m) ≡ (if eq_bytes k j then none else lookup j m)
  unfolding lookup delete
  lookup-delete k j [] = ground arith
  lookup-delete k j ((i, w) ∷ m) =
      ground (arith, eq_bytes_iff k j, eq_bytes_iff i k, eq_bytes_iff i j, lookup-delete k j m)

  pub has_key-lookup : (k : Bytes) (m : Table V) → has_key k m ≡ false → lookup k m ≡ none
  unfolding lookup has_key
  has_key-lookup k [] h = refl
  has_key-lookup k ((i, w) ∷ m) h = ground (arith, has_key-lookup k m)

  pub has_key-insert :
      (k j : Bytes) (v : V) (m : Table V)
      → has_key j (insert k v m) ≡ (if eq_bytes k j then true else has_key j m)
  unfolding insert has_key
  has_key-insert k j v [] = refl
  has_key-insert k j v ((i, w) ∷ m) =
      ground (arith, eq_bytes_iff k j, eq_bytes_iff i k, eq_bytes_iff i j, has_key-insert k j v m)

  pub has_key-delete :
      (k j : Bytes) (m : Table V)
      → has_key j (delete k m) ≡ (if eq_bytes k j then false else has_key j m)
  unfolding delete has_key
  has_key-delete k j [] = ground arith
  has_key-delete k j ((i, w) ∷ m) =
      ground (arith, eq_bytes_iff k j, eq_bytes_iff i k, eq_bytes_iff i j, has_key-delete k j m)

  pub has_key-keep_if :
      (test : Bytes → V → Bool) (j : Bytes) (m : Table V)
      → has_key j m ≡ false
      → has_key j (keep_if test m) ≡ false
  unfolding keep_if has_key
  has_key-keep_if test j [] h = refl
  has_key-keep_if test j ((i, w) ∷ m) h = ground (arith, has_key-keep_if test j m)

  pub insert-Distinct : (k : Bytes) (v : V) (m : Table V) → Distinct m → Distinct (insert k v m)
  unfolding insert has_key
  insert-Distinct k v [] d = (refl, tt)
  insert-Distinct k v ((i, w) ∷ m) d = elim (Bool-cases (eq_bytes i k)) [
    | inl e ↦ ground (arith, eq_bytes_iff i k)
    | inr e ↦
        ground
          (arith, eq_bytes_iff i k, eq_bytes_iff k i, has_key-insert k i v m, insert-Distinct k v m)
  ]

  pub delete-Distinct : (k : Bytes) (m : Table V) → Distinct m → Distinct (delete k m)
  unfolding delete
  delete-Distinct k [] d = tt
  delete-Distinct k ((i, w) ∷ m) d =
      ground (arith, eq_bytes_iff k i, has_key-delete k i m, delete-Distinct k m)

  pub keep_if-Distinct :
      (test : Bytes → V → Bool) (m : Table V) → Distinct m → Distinct (keep_if test m)
  unfolding keep_if
  keep_if-Distinct test [] d = tt
  keep_if-Distinct test ((i, w) ∷ m) d =
      ground (arith, has_key-keep_if test i m, keep_if-Distinct test m)

  -- what a filtered map holds, it held before
  pub lookup-keep_if-some :
      (test : Bytes → V → Bool) (k : Bytes) (m : Table V) {v : V}
      → Distinct m
      → lookup k (keep_if test m) ≡ some v
      → (lookup k m ≡ some v) × (test k v ≡ true)
  unfolding lookup keep_if
  lookup-keep_if-some test k [] d h = cc
  lookup-keep_if-some test k ((i, w) ∷ m) {v} d h = ground (
    arith,
    eq_bytes_iff i k,
    lookup-keep_if-some test k m {v = v},
    has_key-lookup i m,
    has_key-lookup i (keep_if test m),
    has_key-keep_if test i m,
  )

  -- and keeps what passes the test
  pub lookup-keep_if_kept :
      (test : Bytes → V → Bool) (k : Bytes) (m : Table V) {v : V}
      → lookup k m ≡ some v
      → test k v ≡ true
      → lookup k (keep_if test m) ≡ some v
  unfolding lookup keep_if
  lookup-keep_if_kept test k [] h t = cc
  lookup-keep_if_kept test k ((i, w) ∷ m) {v} h t =
      ground (arith, eq_bytes_iff i k, lookup-keep_if_kept test k m {v = v})
