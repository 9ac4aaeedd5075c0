-- ===== src/Setup/Linux/Unit.antt =====
-- The daemon's unit: it has this build's stamp, is written by printf as it is, and names the registry.
use doze_names.Prelude.{
  ℕ, zero, suc, ◌+◌, ◌/◌, ◌%◌, Bool, true, false, not, ◌&&◌, List, [], ◌∷◌, ◌++◌, some, ◌≡◌, refl,
  ap, ◌∙◌, arith, append_assoc, append-nil, take, drop,
}
use doze_names.Text.{Bytes, codes, eq_bytes, has_prefix, split, join, contains_byte}
use doze_names.Text.Space.{is_space, fields, fields_from, end_field}
use doze_names.Decimal.{itoa, digits_onto}
use doze_names.Setup.Manager.{contains}
use doze_names.Setup.Contains.{
  contains-prefix, contains-join, all_lack, split-join, is_plain, is_plain-append,
}
use doze_names.Setup.Linux.{netd_lines, netd_unit, netd_stamp, last_word, served_in, netd_serves}

-- no white space in a text
unfoldable pub no_space : Bytes → Bool
no_space [] = true
no_space (c ∷ s) = not (is_space c) && no_space s

digits_onto-lacks :
    (fuel n : ℕ) (rest : Bytes)
    → contains_byte 10 rest ≡ false
    → contains_byte 10 (digits_onto fuel n rest) ≡ false
unfolding digits_onto contains_byte
digits_onto-lacks zero n rest h = h
digits_onto-lacks (suc fuel) n rest h =
    ground (arith, digits_onto-lacks fuel (n / 10) ((b'0' + n % 10) ∷ rest))

itoa-lacks : (n : ℕ) → contains_byte 10 (itoa n) ≡ false
unfolding itoa contains_byte
itoa-lacks n = digits_onto-lacks (suc n) n [] refl

digits_onto-is_plain :
    (fuel n : ℕ) (rest : Bytes) → is_plain rest ≡ true → is_plain (digits_onto fuel n rest) ≡ true
unfolding digits_onto is_plain
digits_onto-is_plain zero n rest h = h
digits_onto-is_plain (suc fuel) n rest h =
    ground (arith, digits_onto-is_plain fuel (n / 10) ((b'0' + n % 10) ∷ rest))

is_plain-itoa : (n : ℕ) → is_plain (itoa n) ≡ true
unfolding itoa is_plain
is_plain-itoa n = digits_onto-is_plain (suc n) n [] refl

no_space-lacks : (s : Bytes) → no_space s ≡ true → contains_byte 10 s ≡ false
unfolding no_space contains_byte is_space
no_space-lacks [] h = refl
no_space-lacks (c ∷ s) h = ground (arith, no_space-lacks s)

-- the rest of a text without white space goes into the word under way
pub fields_from_word : (w s : Bytes) → no_space s ≡ true → fields_from w s ≡ end_field (w ++ s) []
unfolding fields_from no_space
fields_from_word w [] h = rw (append-nil w) refl
fields_from_word w (c ∷ s) h =
    let more = fields_from_word (w ++ (c ∷ [])) s (ground (arith, h)) in
    let stays : is_space c ≡ false = ground (arith, h) in
    rw (stays, fields_from, more, append_assoc w (c ∷ []) s) refl

all_plain : List Bytes → Bool
all_plain [] = true
all_plain (p ∷ ps) = is_plain p && all_plain ps

is_plain-join : (ps : List Bytes) → all_plain ps ≡ true → is_plain (join 10 ps) ≡ true
unfolding join all_plain is_plain
is_plain-join [] h = refl
is_plain-join (p ∷ []) h = ground (arith, h)
is_plain-join (p ∷ q ∷ ps) h =
    is_plain-append p (10 ∷ join 10 (q ∷ ps)) (ground (arith, h))
      (ground (arith, is_plain-join (q ∷ ps), h))

word_last :
    (r : Bytes)
    → eq_bytes r [] ≡ false
    → last_word
        (codes "ExecStart=/usr/local/libexec/doze-netd" ∷ codes "__doze-netd" ∷ end_field r [])
      ≡ r
unfolding end_field last_word eq_bytes
word_last [] e = ground (arith, e)
word_last (c ∷ r) e = refl

-- a text in some later line of the lines joined
contains-join_later :
    (ps qs : List Bytes) (q t : Bytes)
    → contains (join 10 (q ∷ qs)) t ≡ true
    → contains (join 10 (ps ++ (q ∷ qs))) t ≡ true
contains-join_later [] qs q t h = h
contains-join_later (p ∷ []) qs q t h = contains-join 10 p q t qs h
contains-join_later (p ∷ p' ∷ ps) qs q t h =
    contains-join 10 p p' t (ps ++ (q ∷ qs)) (contains-join_later (p' ∷ ps) qs q t h)

module _ (registry : Bytes) (uid gid : ℕ) where
  plain_lines : is_plain registry ≡ true → all_plain (netd_lines registry uid gid) ≡ true
  unfolding all_plain netd_lines is_plain
  plain_lines h = rw (is_plain-itoa uid, is_plain-itoa gid, h) refl

  netd_lines-lack : no_space registry ≡ true → all_lack 10 (netd_lines registry uid gid) ≡ true
  unfolding netd_lines all_lack contains_byte
  netd_lines-lack h = rw (itoa-lacks uid, itoa-lacks gid, no_space-lacks registry h) refl

  pub netd_unit-is_plain : is_plain registry ≡ true → is_plain (netd_unit registry uid gid) ≡ true
  unfolding netd_unit
  netd_unit-is_plain h = is_plain-join (netd_lines registry uid gid) (plain_lines h)

  last_field :
      no_space registry ≡ true
      → eq_bytes registry [] ≡ false
      → last_word (fields (codes "ExecStart=/usr/local/libexec/doze-netd __doze-netd " ++ registry))
        ≡ registry
  unfolding fields fields_from is_space end_field
  last_field h some_text = rw (fields_from_word [] registry h) (word_last registry some_text)

  split_lines :
      no_space registry ≡ true → split 10 (netd_unit registry uid gid) ≡ netd_lines registry uid gid
  unfolding netd_unit netd_lines
  split_lines h = split-join 10 _ _ (netd_lines-lack h)

  served_lines :
      no_space registry ≡ true
      → eq_bytes registry [] ≡ false
      → served_in (netd_lines registry uid gid) ≡ registry
  unfolding served_in netd_lines has_prefix
  served_lines h some_text = last_field h some_text

  -- The daemon's unit starts it on the registry that it was made for: what netdServes reads back
  -- from the text of netdUnit is that registry, for a path that is not empty and has no white space.
  pub netd_serves-netd_unit :
      no_space registry ≡ true
      → eq_bytes registry [] ≡ false
      → netd_serves (some (netd_unit registry uid gid)) ≡ registry
  unfolding netd_serves
  netd_serves-netd_unit h some_text = ap served_in (split_lines h) ∙ served_lines h some_text

  pub netd_unit-stamped : contains (netd_unit registry uid gid) netd_stamp ≡ true
  unfolding netd_unit netd_lines join
  netd_unit-stamped =
      contains-join_later (take 8 (netd_lines registry uid gid))
        (drop 9 (netd_lines registry uid gid)) netd_stamp netd_stamp (contains-prefix netd_stamp _)
