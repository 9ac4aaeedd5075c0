-- ===== src/Text.antt =====
-- Go's strings as lists of bytes, and the functions of the packages `strings` and `unicode` that
-- the repository calls. `strings.ToLower` and `range` over a string treat ASCII text byte by byte;
-- what they do to any other text is a parameter, `Unicode`.
pub mod Laws
pub mod Space
use Prim.Native.Char.{code}
use Prim.Native.String.{String}
use doze_names.Prelude.{
  ℕ, ◌+◌, ◌-◌, Bool, true, false, not, ◌&&◌, ◌||◌, List, [], ◌∷◌, ◌++◌, map, Option, none, some,
  ltb, leb, ◌==◌, if◌then◌else◌, length, drop,
}

abbrev pub Bytes : Type 0
Bytes = List ℕ

-- The code points of a literal, which are its bytes where it is ASCII.
abbrev pub codes : String → Bytes
codes String.[] = []
codes (String.◌∷◌ c s) = code c ∷ codes s

-- `unicode.ToLower` and UTF-8 decoding, on the text that is not ASCII.
pub record Unicode : Type 0 where
  pub lower : Bytes → Bytes
  pub runes : Bytes → List ℕ

-- `s == t`
unfoldable pub eq_bytes : Bytes → Bytes → Bool
eq_bytes [] [] = true
eq_bytes (x ∷ xs) (y ∷ ys) = x == y && eq_bytes xs ys
eq_bytes _ _ = false

-- `strings.HasPrefix(s, t)`
unfoldable pub has_prefix : Bytes → Bytes → Bool
has_prefix s [] = true
has_prefix [] (y ∷ ys) = false
has_prefix (x ∷ xs) (y ∷ ys) = x == y && has_prefix xs ys

-- `strings.HasSuffix(s, t)`
unfoldable pub has_suffix : Bytes → Bytes → Bool
has_suffix s t = leb (length t) (length s) && eq_bytes (drop (length s - length t) s) t

-- `s` without its last byte
unfoldable pub drop_last : Bytes → Bytes
drop_last [] = []
drop_last (x ∷ []) = []
drop_last (x ∷ y ∷ xs) = x ∷ drop_last (y ∷ xs)

-- `strings.TrimSuffix(s, string(b))`, for one byte
unfoldable pub trim_suffix_byte : ℕ → Bytes → Bytes
trim_suffix_byte b [] = []
trim_suffix_byte b (x ∷ []) = if x == b then [] else x ∷ []
trim_suffix_byte b (x ∷ y ∷ xs) = x ∷ trim_suffix_byte b (y ∷ xs)

-- `strings.TrimLeft(s, string(b))`, for one byte
unfoldable pub trim_left : ℕ → Bytes → Bytes
trim_left b [] = []
trim_left b (x ∷ xs) = if x == b then trim_left b xs else x ∷ xs

-- puts `x` in front of a trimmed tail, unless nothing would follow and `x` is trimmed too
unfoldable pub trim_right_cons : ℕ → ℕ → Bytes → Bytes
trim_right_cons b x [] = if x == b then [] else x ∷ []
trim_right_cons b x (y ∷ ys) = x ∷ y ∷ ys

-- `strings.TrimRight(s, string(b))`, for one byte
unfoldable pub trim_right : ℕ → Bytes → Bytes
unfolding trim_right_cons
trim_right b [] = []
trim_right b (x ∷ xs) = trim_right_cons b x (trim_right b xs)

-- `strings.Trim(s, string(b))`, for one byte
unfoldable pub trim : ℕ → Bytes → Bytes
unfolding trim_left trim_right
trim b s = trim_right b (trim_left b s)

-- `strings.Cut(s, ".")` and its like for one byte: what stands before and behind the first one
unfoldable pub cut : ℕ → Bytes → Option (Bytes × Bytes)
cut b [] = none
cut b (x ∷ xs) =
    if x == b
    then some ([], xs)
    else elim (cut b xs) [ none ↦ none | some (before, after) ↦ some (x ∷ before, after) ]

-- `strings.Contains(s, string(b))`, for one byte
unfoldable pub contains_byte : ℕ → Bytes → Bool
contains_byte b [] = false
contains_byte b (x ∷ xs) = x == b || contains_byte b xs

-- the part in front of the first separator of `strings.Split`, before the parts of the rest
unfoldable pub split_cons : ℕ → List Bytes → List Bytes
split_cons x [] = (x ∷ []) ∷ []
split_cons x (p ∷ ps) = (x ∷ p) ∷ ps

-- `strings.Split(s, string(b))`, for one byte
unfoldable pub split : ℕ → Bytes → List Bytes
unfolding split_cons
split b [] = [] ∷ []
split b (x ∷ xs) = if x == b then [] ∷ split b xs else split_cons x (split b xs)

-- `strings.Join(parts, string(b))`, for one byte
unfoldable pub join : ℕ → List Bytes → Bytes
join b [] = []
join b (p ∷ []) = p
join b (p ∷ q ∷ ps) = p ++ (b ∷ join b (q ∷ ps))

unfoldable pub is_ascii : Bytes → Bool
is_ascii [] = true
is_ascii (x ∷ xs) = ltb x 128 && is_ascii xs

-- one ASCII letter in lower case
unfoldable pub lower_byte : ℕ → ℕ
lower_byte c = if leb b'A' c && leb c b'Z' then c + 32 else c

module _ ⦃u : Unicode⦄ where
  -- `strings.ToLower(s)`
  unfoldable pub to_lower : Bytes → Bytes
  unfolding is_ascii lower_byte
  to_lower s = if is_ascii s then map lower_byte s else u.lower s

  -- `for _, r := range s`
  unfoldable pub runes_of : Bytes → List ℕ
  unfolding is_ascii
  runes_of s = if is_ascii s then s else u.runes s
