-- ===== src/Trust/Fingerprints.antt =====
-- What of the keychain's listing can reach a script.
use doze_names.Prelude.{
  Bool, true, false, not, ◌&&◌, List, [], ◌∷◌, ◌++◌, Option, none, some, ◌≡◌, refl, arith,
  if◌then◌else◌, All, All-append, Bool-cases, Option-cases, inl, inr,
}
use doze_names.Text.{Bytes, Unicode, split, eq_bytes}
use doze_names.Text.Space.{trim_space}
use doze_names.Strings.{member}
use doze_names.Strings.Members.{member-append}
use doze_names.Setup.{index_of}
use doze_names.Authority.{valid_fingerprint}
use doze_names.Authority.Replace.{append_unique}
use doze_names.Trust.Darwin.{add_root, add_roots, trusted_doze_roots, hash_label}

-- fingerprints that are all valid, and none of them twice
unfoldable pub all_distinct : List Bytes → Bool
all_distinct [] = true
all_distinct (fp ∷ fps) = not (member fp fps) && all_distinct fps

abbrev pub AllValid : List Bytes → Type 0
AllValid = All (λ fp. valid_fingerprint fp ≡ true)

eq_bytes_sym : (a b : Bytes) → eq_bytes a b ≡ eq_bytes b a
unfolding eq_bytes
eq_bytes_sym [] [] = refl
eq_bytes_sym [] (y ∷ b) = refl
eq_bytes_sym (x ∷ a) [] = refl
eq_bytes_sym (x ∷ a) (y ∷ b) = ground (arith, eq_bytes_sym a b)

-- a text that is not among some goes behind them
distinct-append :
    (fps : List Bytes) (fp : Bytes)
    → all_distinct fps ≡ true
    → member fp fps ≡ false
    → all_distinct (fps ++ (fp ∷ [])) ≡ true
unfolding all_distinct member
distinct-append [] fp h new = refl
distinct-append (x ∷ fps) fp h new =
    ground (arith, h, new, distinct-append fps fp, member-append x fps (fp ∷ []), eq_bytes_sym fp x)

-- a list of valid fingerprints, none of them twice
pub record IsClean (fps : List Bytes) : Type 0 where
  pub valid : AllValid fps
  pub distinct : all_distinct fps ≡ true

append_unique-IsClean :
    (fps : List Bytes) (fp : Bytes)
    → valid_fingerprint fp ≡ true
    → IsClean fps
    → IsClean (append_unique fps fp)
unfolding append_unique
append_unique-IsClean fps fp h clean = elim (Bool-cases (member fp fps)) [
  | inl old ↦ rw old clean
  | inr new ↦ rw new (record {
    valid = All-append (λ k. valid_fingerprint k ≡ true) fps (fp ∷ []) clean.valid (h, tt);
    distinct = distinct-append fps fp clean.distinct new;
  })
]

module _ ⦃u : Unicode⦄ where
  if_valid-IsClean :
      (fps : List Bytes) (fp : Bytes)
      → IsClean fps
      → IsClean (if valid_fingerprint fp then append_unique fps fp else fps)
  if_valid-IsClean fps fp clean = elim (Bool-cases (valid_fingerprint fp)) [
    | inl valid ↦ rw valid (append_unique-IsClean fps fp valid clean)
    | inr other ↦ rw other clean
  ]

  add_root-IsClean : (fps : List Bytes) (line : Bytes) → IsClean fps → IsClean (add_root fps line)
  unfolding add_root
  add_root-IsClean fps line clean = elim (Option-cases (index_of (trim_space line) hash_label)) [
    | inl missing ↦ rw (missing, add_root) clean
    | inr (i, found) ↦ rw (found, add_root) (if_valid-IsClean fps _ clean)
  ]

  add_roots-IsClean : (ls fps : List Bytes) → IsClean fps → IsClean (add_roots fps ls)
  unfolding add_roots
  add_roots-IsClean [] fps clean = clean
  add_roots-IsClean (l ∷ ls) fps clean =
      add_roots-IsClean ls (add_root fps l) (add_root-IsClean fps l clean)

  -- Whatever the keychain's listing says, each root that is taken from it is named by a SHA-256 in
  -- hex, and no root twice, so nothing else of the listing reaches the script that runs as root.
  pub trusted_doze_roots-IsClean : (out : Option Bytes) → IsClean (trusted_doze_roots out)
  unfolding trusted_doze_roots all_distinct
  trusted_doze_roots-IsClean none = record { valid = tt; distinct = refl }
  trusted_doze_roots-IsClean (some out) =
      add_roots-IsClean (split 10 out) [] (record { valid = tt; distinct = refl })
