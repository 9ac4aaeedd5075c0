-- ===== src/Setup/Contains.antt =====
-- Where a text is found in another, and what a format that printf writes as it is keeps.
use doze_names.Prelude.{
  ℕ, zero, suc, Bool, true, not, ◌&&◌, List, [], ◌∷◌, ◌++◌, some, ◌≡◌, refl, ap, ◌∙◌, arith, ◌==◌,
  take, drop,
}
use doze_names.Text.{Bytes, has_prefix, drop_last, split, join, contains_byte}
use doze_names.Text.Laws.{split-cut, split_lacks}
use doze_names.Setup.{index_of, trim_newline, end_line, splice, replace_hosts_block}
use doze_names.Setup.Manager.{contains}

pub has_prefix-append : (t s : Bytes) → has_prefix (t ++ s) t ≡ true
unfolding has_prefix
has_prefix-append [] s = refl
has_prefix-append (c ∷ t) s = ground (arith, has_prefix-append t s)

pub index_of-append : (t s : Bytes) → index_of (t ++ s) t ≡ some 0
unfolding index_of
index_of-append [] [] = rw (has_prefix-append [] [], index_of) refl
index_of-append [] (c ∷ s) = rw (has_prefix-append [] (c ∷ s)) refl
index_of-append (c ∷ t) s = rw (has_prefix-append (c ∷ t) s) refl

-- What holds a text still holds it behind one byte more.
contains-cons : (c : ℕ) (s t : Bytes) → contains s t ≡ true → contains (c ∷ s) t ≡ true
unfolding contains index_of
contains-cons c s t h = ground arith

pub contains-append : (p s t : Bytes) → contains s t ≡ true → contains (p ++ s) t ≡ true
contains-append [] s t h = h
contains-append (c ∷ p) s t h = contains-cons c (p ++ s) t (contains-append p s t h)

pub contains-prefix : (t s : Bytes) → contains (t ++ s) t ≡ true
unfolding contains
contains-prefix t s = rw (index_of-append t s, contains) refl

pub contains-within : (p t s : Bytes) → contains (p ++ (t ++ s)) t ≡ true
contains-within p t s = contains-append p (t ++ s) t (contains-prefix t s)

pub contains-join :
    (b : ℕ) (p q t : Bytes) (ps : List Bytes)
    → contains (join b (q ∷ ps)) t ≡ true
    → contains (join b (p ∷ q ∷ ps)) t ≡ true
unfolding join
contains-join b p q t ps h =
    contains-append p (b ∷ join b (q ∷ ps)) t (contains-cons b (join b (q ∷ ps)) t h)

-- none of some lines has the byte
unfoldable pub all_lack : ℕ → List Bytes → Bool
all_lack b [] = true
all_lack b (p ∷ ps) = not (contains_byte b p) && all_lack b ps

pub split-join :
    (b : ℕ) (p : Bytes) (ps : List Bytes)
    → all_lack b (p ∷ ps) ≡ true
    → split b (join b (p ∷ ps)) ≡ p ∷ ps
unfolding join all_lack
split-join b p [] h = split_lacks b p (ground (arith, h))
split-join b p (q ∷ ps) h =
    split-cut b p (join b (q ∷ ps)) (ground (arith, h))
    ∙ ap (◌∷◌ p) (split-join b q ps (ground (arith, h)))

-- a format that printf writes as it is: no percent sign and no backslash
unfoldable pub is_plain : Bytes → Bool
is_plain [] = true
is_plain (c ∷ s) = not (c == b'%') && not (c == 92) && is_plain s

pub is_plain-append :
    (s t : Bytes) → is_plain s ≡ true → is_plain t ≡ true → is_plain (s ++ t) ≡ true
unfolding is_plain
is_plain-append [] t h k = k
is_plain-append (c ∷ s) t h k = ground (arith, is_plain-append s t)

pub is_plain-take : (n : ℕ) (s : Bytes) → is_plain s ≡ true → is_plain (take n s) ≡ true
unfolding is_plain
is_plain-take zero s h = refl
is_plain-take (suc n) [] h = refl
is_plain-take (suc n) (c ∷ s) h = ground (arith, is_plain-take n s)

pub is_plain-drop : (n : ℕ) (s : Bytes) → is_plain s ≡ true → is_plain (drop n s) ≡ true
unfolding is_plain
is_plain-drop zero s h = h
is_plain-drop (suc n) [] h = refl
is_plain-drop (suc n) (c ∷ s) h = is_plain-drop n s (ground (arith, h))

is_plain-drop_last : (s : Bytes) → is_plain s ≡ true → is_plain (drop_last s) ≡ true
unfolding is_plain drop_last
is_plain-drop_last [] h = refl
is_plain-drop_last (c ∷ []) h = refl
is_plain-drop_last (c ∷ d ∷ s) h = ground (arith, is_plain-drop_last (d ∷ s), h)

is_plain-trim_newline : (s : Bytes) → is_plain s ≡ true → is_plain (trim_newline s) ≡ true
unfolding trim_newline
is_plain-trim_newline s h = ground (arith, is_plain-drop_last s h, h)

pub is_plain-end_line : (s : Bytes) → is_plain s ≡ true → is_plain (end_line s) ≡ true
unfolding end_line is_plain
is_plain-end_line s h = ground (arith, is_plain-append s (10 ∷ []) h refl, h)

is_plain-splice :
    (hosts want : Bytes) (start end : ℕ)
    → is_plain hosts ≡ true
    → is_plain want ≡ true
    → is_plain (splice hosts start end want) ≡ true
unfolding splice
is_plain-splice hosts want start end h w =
    let head : is_plain (take start hosts) ≡ true = is_plain-take start hosts h in
    let tail : is_plain (drop end hosts) ≡ true = is_plain-drop end hosts h in
    ground (
      arith,
      is_plain-append _ _ (is_plain-end_line _ (is_plain-trim_newline (take start hosts) head))
          tail,
      is_plain-append _ _ head (is_plain-append _ _ w tail),
    )

-- What replaceHostsBlock makes is written by printf as it is, where the file and the block are.
pub is_plain-replace_hosts_block :
    (hosts want : Bytes)
    → is_plain hosts ≡ true
    → is_plain want ≡ true
    → is_plain (replace_hosts_block hosts want) ≡ true
unfolding replace_hosts_block is_plain
is_plain-replace_hosts_block hosts want h w = grind (
  arith,
  is_plain-splice hosts want,
  is_plain-append (end_line hosts) (10 ∷ want) (is_plain-end_line hosts h) w,
)
