-- ===== src/Strings.antt =====
-- Lists of strings: `sortStrings` of domains.go (`sort.Strings` yields the same), and Go's
-- `map[string]bool` as the list of its keys.
pub mod Order
pub mod Sort
pub mod Members
use doze_names.Prelude.{ℕ, ◌+◌, Bool, true, false, List, [], ◌∷◌, ◌++◌, ltb, ◌==◌, if◌then◌else◌}
use doze_names.Text.{Bytes, eq_bytes}

-- `s < t`
unfoldable pub lt_bytes : Bytes → Bytes → Bool
lt_bytes s [] = false
lt_bytes [] (y ∷ t) = true
lt_bytes (x ∷ s) (y ∷ t) = let rest = lt_bytes s t in if x == y then rest else ltb x y

-- The inner loop of `sortStrings`: `x` moves down past the greater ones, of which the nearest comes
-- first.
unfoldable pub move_down : Bytes → List Bytes → List Bytes
move_down x [] = x ∷ []
move_down x (y ∷ below) =
    let rest = move_down x below in if lt_bytes x y then y ∷ rest else x ∷ y ∷ below

-- the outer loop; what is sorted already stands in reverse
unfoldable pub sort_onto : List Bytes → List Bytes → List Bytes
sort_onto sorted [] = sorted
sort_onto sorted (x ∷ xs) = sort_onto (move_down x sorted) xs

-- the list in its order again
unfoldable pub reverse_onto : List Bytes → List Bytes → List Bytes
reverse_onto done [] = done
reverse_onto done (x ∷ xs) = reverse_onto (x ∷ done) xs

-- `sortStrings`
unfoldable pub sort_strings : List Bytes → List Bytes
sort_strings ss = reverse_onto [] (sort_onto [] ss)

-- `m[s]`, of a set
unfoldable pub member : Bytes → List Bytes → Bool
member s [] = false
member s (t ∷ ts) = if eq_bytes t s then true else member s ts

-- `m[s] = true`
unfoldable pub add : Bytes → List Bytes → List Bytes
add s ts = if member s ts then ts else ts ++ (s ∷ [])

-- `delete(m, s)`
unfoldable pub remove : Bytes → List Bytes → List Bytes
remove s [] = []
remove s (t ∷ ts) = let rest = remove s ts in if eq_bytes t s then rest else t ∷ rest

-- how often a string occurs
unfoldable pub count : Bytes → List Bytes → ℕ
count s [] = 0
count s (t ∷ ts) = (if eq_bytes t s then 1 else 0) + count s ts
