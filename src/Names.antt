-- ===== src/Names.antt =====
-- names.go: the two tiers of name and the labels they are made of; `normalize` of registry.go.
pub mod Labels
pub mod Settings
use doze_names.Prelude.{
  ℕ, Bool, true, false, ◌&&◌, ◌||◌, [], ◌∷◌, ◌++◌, map, Option, none, some, leb, if◌then◌else◌,
}
use doze_names.Text.{
  Bytes, codes, Unicode, eq_bytes, has_suffix, trim_suffix_byte, trim, trim_right, cut, lower_byte,
  to_lower, runes_of,
}

-- `Tier`; `bare` is the empty text that bookkeeping entries have
pub data Tier : Type 0 where
  apex qualified domain bare : Tier

pub record Name : Type 0 where
  pub host : Bytes
  pub tier : Tier

-- `Suffix`
abbrev pub suffix : Bytes
suffix = codes "doze"

-- what one rune becomes in a label
unfoldable pub label_rune : ℕ → ℕ
label_rune r = if (leb b'a' r && leb r b'z') || (leb b'0' r && leb r b'9') then r else b'-'

-- `normalize`: no dot at the end, and ASCII letters in lower case
unfoldable pub normalize : Bytes → Bytes
unfolding lower_byte trim_right
normalize host = map lower_byte (trim_right b'.' host)

-- `Name.service`
unfoldable pub service : Name → Bytes
unfolding cut
service n = elim (cut b'.' n.host) [ none ↦ n.host | some (first, _) ↦ first ]

module _ ⦃u : Unicode⦄ where
  unfoldable pub label : Bytes → Bytes
  unfolding label_rune to_lower runes_of trim
  label s = trim b'-' (map label_rune (runes_of (to_lower s)))

  -- `Apex`
  unfoldable pub apex_name : Bytes → Name
  unfolding label
  apex_name s = record { host = label s ++ (b'.' ∷ suffix); tier = apex }

  -- `Qualified`
  unfoldable pub qualified_name : Bytes → Bytes → Name
  unfolding label
  qualified_name s stack = record {
    host = label s ++ (b'.' ∷ (label stack ++ (b'.' ∷ suffix)));
    tier = qualified;
  }

  -- `InZone`
  unfoldable pub in_zone : Bytes → Bool
  unfolding to_lower trim_suffix_byte has_suffix eq_bytes
  in_zone host =
      let h = trim_suffix_byte b'.' (to_lower host) in
      eq_bytes h suffix || has_suffix h (b'.' ∷ suffix)
