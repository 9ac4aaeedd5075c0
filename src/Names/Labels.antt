-- ===== src/Names/Labels.antt =====
-- What `label` yields, and what the names built from labels have in common.
use doze_names.Prelude.{
  ℕ, ◌≤◌, true, false, [], ◌∷◌, ◌++◌, List, map, some, All, All-append, ◌≡◌, ◌≢◌, ◌⊎◌, refl, sym,
  arith, append_assoc,
}
use doze_names.Text.{Bytes, Unicode, to_lower, runes_of, contains_byte}
use doze_names.Text.Laws.{
  IsLower, to_lower-IsLower, runes_of-IsLower, map-lower_byte-IsLower, first?, last?, last?-append,
  trim_right_id, trim_suffix_byte_id, trim-ends, trim_id, trim-All, has_suffix-append,
}
use doze_names.Names.{suffix, label_rune, normalize, label, apex_name, qualified_name, in_zone}

abbrev pub IsLabelByte : ℕ → Type 0
IsLabelByte c = (((b'a' ≤ c) × (c ≤ b'z')) ⊎ ((b'0' ≤ c) × (c ≤ b'9'))) ⊎ (c ≡ b'-')

-- Lowercase letters, digits and dashes, with no dash at either end.
pub record IsLabel (s : Bytes) : Type 0 where
  pub bytes : All IsLabelByte s
  pub starts : first? s ≢ some b'-'
  pub ends : last? s ≢ some b'-'

label_rune-IsLabelByte : (r : ℕ) → IsLabelByte (label_rune r)
unfolding label_rune
label_rune-IsLabelByte r = ground arith

map-label_rune : (s : List ℕ) → All IsLabelByte (map label_rune s)
map-label_rune [] = tt
map-label_rune (r ∷ s) = (label_rune-IsLabelByte r, map-label_rune s)

label_rune_id : (r : ℕ) → IsLabelByte r → label_rune r ≡ r
unfolding label_rune
label_rune_id r h = ground arith

map-label_rune_id : (s : Bytes) → All IsLabelByte s → map label_rune s ≡ s
map-label_rune_id [] h = refl
map-label_rune_id (r ∷ s) h = ground (arith, label_rune_id r h.0, map-label_rune_id s h.1)

IsLabelByte-IsLower : (c : ℕ) → IsLabelByte c → IsLower c
IsLabelByte-IsLower c h = ground arith

All-IsLower : (s : Bytes) → All IsLabelByte s → All IsLower s
All-IsLower [] h = tt
All-IsLower (c ∷ s) h = (IsLabelByte-IsLower c h.0, All-IsLower s h.1)

pub contains_dot-label : (s : Bytes) → All IsLabelByte s → contains_byte b'.' s ≡ false
unfolding contains_byte
contains_dot-label [] h = refl
contains_dot-label (c ∷ s) h = ground (arith, contains_dot-label s h.1)

-- A host in lower case that ends in a byte which is no dot is what `normalize` and the zone's test
-- leave as it is.
pub normalize-IsLower : (h : Bytes) → All IsLower h → last? h ≢ some b'.' → normalize h ≡ h
unfolding normalize
normalize-IsLower h low last = rw (trim_right_id b'.' h last, map-lower_byte-IsLower h low)

suffix-IsLower : All IsLower (b'.' ∷ suffix)
suffix-IsLower = omega arith

host_last : (p : Bytes) → last? (p ++ (b'.' ∷ suffix)) ≢ some b'.'
host_last p e = ground (arith, last?-append p b'.' suffix)

module _ ⦃u : Unicode⦄ where
  -- Whatever the text, `label` yields lowercase letters, digits and dashes, with no dash at either
  -- end.
  pub label-IsLabel : (s : Bytes) → IsLabel (label s)
  unfolding label
  label-IsLabel s =
      let ends = trim-ends b'-' (map label_rune (runes_of (to_lower s))) in
      record {
        bytes = trim-All IsLabelByte b'-' _ (map-label_rune (runes_of (to_lower s)));
        starts = ends.0;
        ends = ends.1;
      }

  -- A label is its own label.
  pub label-IsLabel_id : (s : Bytes) → IsLabel s → label s ≡ s
  unfolding label
  label-IsLabel_id s h = rw (
    to_lower-IsLower s (All-IsLower s h.bytes),
    runes_of-IsLower s (All-IsLower s h.bytes),
    map-label_rune_id s h.bytes,
    trim_id b'-' s h.starts h.ends,
  )

  -- `label` of a text that `label` made is that text.
  pub label-label : (s : Bytes) → label (label s) ≡ label s
  label-label s = label-IsLabel_id (label s) (label-IsLabel s)

  pub label-IsLower : (s : Bytes) → All IsLower (label s)
  label-IsLower s = All-IsLower (label s) (label-IsLabel s).bytes

  -- A lower-case text with the zone's suffix behind it is in the zone.
  pub in_zone-append : (p : Bytes) → All IsLower p → in_zone (p ++ (b'.' ∷ suffix)) ≡ true
  unfolding in_zone
  in_zone-append p low =
      rw
        (
          to_lower-IsLower _ (All-append IsLower p (b'.' ∷ suffix) low suffix-IsLower),
          trim_suffix_byte_id b'.' _ (host_last p),
          has_suffix-append p (b'.' ∷ suffix),
        )
        (ground arith)

  pub normalize-append :
      (p : Bytes) → All IsLower p → normalize (p ++ (b'.' ∷ suffix)) ≡ p ++ (b'.' ∷ suffix)
  normalize-append p low =
      normalize-IsLower _ (All-append IsLower p (b'.' ∷ suffix) low suffix-IsLower) (host_last p)

  qualified_prefix-IsLower : (s stack : Bytes) → All IsLower (label s ++ (b'.' ∷ label stack))
  qualified_prefix-IsLower s stack =
      All-append IsLower (label s) (b'.' ∷ label stack) (label-IsLower s)
        (omega arith, label-IsLower stack)

  -- Whatever the texts, the names of both tiers are in the zone and are spelled as the registry
  -- spells them: `normalize` changes nothing.
  pub names_in_zone :
      (s stack : Bytes)
      → (in_zone (apex_name s).host ≡ true)
        × (normalize (apex_name s).host ≡ (apex_name s).host)
        × (in_zone (qualified_name s stack).host ≡ true)
        × (normalize (qualified_name s stack).host ≡ (qualified_name s stack).host)
  unfolding apex_name qualified_name
  names_in_zone s stack =
      let p = label s ++ (b'.' ∷ label stack) in
      let low = qualified_prefix-IsLower s stack in
      let e : label s ++ (b'.' ∷ (label stack ++ (b'.' ∷ suffix))) ≡ p ++ (b'.' ∷ suffix) =
        sym (append_assoc (label s) (b'.' ∷ label stack) (b'.' ∷ suffix)) in
      (
        in_zone-append (label s) (label-IsLower s),
        normalize-append (label s) (label-IsLower s),
        rw e (in_zone-append p low),
        rw e (normalize-append p low),
      )
