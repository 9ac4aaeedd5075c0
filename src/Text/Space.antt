-- ===== src/Text/Space.antt =====
-- White space: `strings.TrimSpace` and `strings.Fields`, of ASCII.
use doze_names.Prelude.{ℕ, Bool, ◌&&◌, ◌||◌, List, [], ◌∷◌, ◌++◌, leb, ◌==◌, if◌then◌else◌}
use doze_names.Text.{Bytes}

unfoldable pub is_space : ℕ → Bool
is_space c = c == 32 || leb 9 c && leb c 13

unfoldable pub skip_space : Bytes → Bytes
skip_space [] = []
skip_space (c ∷ s) = let rest = skip_space s in if is_space c then rest else c ∷ s

-- a byte before a text whose white space at the end is gone
unfoldable pub before_end : ℕ → Bytes → Bytes
before_end c [] = if is_space c then [] else c ∷ []
before_end c (d ∷ s) = c ∷ d ∷ s

unfoldable pub drop_end : Bytes → Bytes
drop_end [] = []
drop_end (c ∷ s) = before_end c (drop_end s)

-- `strings.TrimSpace`
unfoldable pub trim_space : Bytes → Bytes
trim_space s = drop_end (skip_space s)

-- the field under way, if it has begun, before the others
unfoldable pub end_field : Bytes → List Bytes → List Bytes
end_field [] others = others
end_field (c ∷ s) others = (c ∷ s) ∷ others

unfoldable pub fields_from : Bytes → Bytes → List Bytes
fields_from word [] = end_field word []
fields_from word (c ∷ s) =
    let next = fields_from [] s in
    let same = fields_from (word ++ (c ∷ [])) s in if is_space c then end_field word next else same

-- `strings.Fields`
unfoldable pub fields : Bytes → List Bytes
fields s = fields_from [] s
