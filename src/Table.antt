-- ===== src/Table.antt =====
-- Go's `map[string]V` as an association list. The order of the list is the order in which a `range`
-- over the map would run; the laws below are those of a map whatever that order is.
pub mod Laws
use doze_names.Prelude.{
  ◌≡◌, Bool, true, false, ◌&&◌, List, [], ◌∷◌, Option, none, some, if◌then◌else◌,
}
use doze_names.Text.{Bytes, eq_bytes}

abbrev pub Table {ℓ} : Type ℓ → Type ℓ
Table V = List (Bytes × V)

module _ {ℓ} {V : Type ℓ} where
  -- `v, ok := m[k]`
  unfoldable pub lookup : Bytes → Table V → Option V
  lookup k [] = none
  lookup k ((j, v) ∷ m) = if eq_bytes j k then some v else lookup k m

  -- `m[k] = v`
  unfoldable pub insert : Bytes → V → Table V → Table V
  insert k v [] = (k, v) ∷ []
  insert k v ((j, w) ∷ m) = if eq_bytes j k then (k, v) ∷ m else (j, w) ∷ insert k v m

  -- the entries for which the test holds: `for k, v := range m { if !test(v) { delete(m, k) } }`
  unfoldable pub keep_if : (Bytes → V → Bool) → Table V → Table V
  keep_if test [] = []
  keep_if test ((j, w) ∷ m) = let rest = keep_if test m in if test j w then (j, w) ∷ rest else rest

  -- `delete(m, k)`
  unfoldable pub delete : Bytes → Table V → Table V
  delete k [] = []
  delete k ((j, w) ∷ m) = let rest = delete k m in if eq_bytes j k then rest else (j, w) ∷ rest

  unfoldable pub has_key : Bytes → Table V → Bool
  has_key k [] = false
  has_key k ((j, w) ∷ m) = if eq_bytes j k then true else has_key k m

  -- No key stands twice, as in a map.
  abbrev pub Distinct : Table V → Type 0
  Distinct [] = Unit
  Distinct ((j, w) ∷ m) = (has_key j m ≡ false) × Distinct m
