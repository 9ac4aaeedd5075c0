-- ===== src/Strings/Members.antt =====
-- The laws of a set of strings.
use doze_names.Prelude.{
  ◌||◌, ◌&&◌, not, List, [], ◌∷◌, ◌++◌, ◌≡◌, refl, arith, ltb, Bool-cases, inl, inr,
}
use doze_names.Text.{Bytes, eq_bytes}
use doze_names.Text.Laws.{eq_bytes_iff}
use doze_names.Strings.{member, add, remove, count}

pub member-append :
    (s : Bytes) (ts us : List Bytes) → member s (ts ++ us) ≡ (member s ts || member s us)
unfolding member
member-append s [] us = refl
member-append s (t ∷ ts) us = ground (arith, member-append s ts us)

pub member-add :
    (s t : Bytes) (ts : List Bytes) → member s (add t ts) ≡ (eq_bytes t s || member s ts)
unfolding member add
member-add s t ts = elim (Bool-cases (member t ts)) [
  | inl old ↦ elim (Bool-cases (eq_bytes t s)) [
    | inl same ↦ let t_is_s = (eq_bytes_iff t s).0 same in rw (old, same, ← t_is_s) old
    | inr other ↦ rw (old, other) refl
  ]
  | inr new ↦ rw (new, member-append s ts (t ∷ [])) (ground arith)
]

pub member-remove :
    (s t : Bytes) (ts : List Bytes) → member s (remove t ts) ≡ (not (eq_bytes t s) && member s ts)
unfolding member remove
member-remove s t [] = ground arith
member-remove s t (u ∷ ts) =
    ground (arith, eq_bytes_iff u t, eq_bytes_iff u s, eq_bytes_iff t s, member-remove s t ts)

pub member-count : (s : Bytes) (ts : List Bytes) → member s ts ≡ ltb 0 (count s ts)
unfolding member count
member-count s [] = refl
member-count s (t ∷ ts) = ground (arith, member-count s ts)
