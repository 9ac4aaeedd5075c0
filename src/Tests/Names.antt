-- ===== src/Tests/Names.antt =====
-- Labels and names.
use doze_names.Prelude.{true, false, ◌≡◌, refl}
use doze_names.Text.{
  Unicode, codes, to_lower, runes_of, is_ascii, lower_byte, trim, trim_left, trim_right,
  trim_right_cons, trim_suffix_byte, has_suffix, eq_bytes,
}
use doze_names.Names.{label, label_rune, normalize, apex_name, qualified_name, in_zone}
use doze_names.Names.Labels.{IsLabel, label-IsLabel}
use doze_names.Decimal.{itoa, digits_onto}

instance abbrev ascii_only : Unicode
ascii_only = record { lower = λ s. s; runes = λ s. s }

program : Unit {0}
unfolding label label_rune to_lower runes_of is_ascii lower_byte trim trim_left trim_right
    trim_right_cons normalize apex_name qualified_name in_zone trim_suffix_byte has_suffix eq_bytes
program = tt

labels :
    (label (codes "My App!") ≡ codes "my-app")
    × (label (codes "--") ≡ codes "")
    × (in_zone (codes "AWS.doze.") ≡ true)
    × (in_zone (codes "aws.dozen") ≡ false)
    × (normalize (codes "AWS.doze..") ≡ codes "aws.doze")
unfolding program
labels = (refl, refl, refl, refl, refl)

numbers : (itoa 5432 ≡ codes "5432") × (itoa 0 ≡ codes "0")
unfolding itoa digits_onto
numbers = (refl, refl)

label-IsLabel_example : IsLabel (label (codes "-My App!"))
label-IsLabel_example = label-IsLabel (codes "-My App!")
