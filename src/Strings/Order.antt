-- ===== src/Strings/Order.antt =====
-- The order of strings is total.
use doze_names.Prelude.{true, false, [], ◌∷◌, ◌≡◌, refl, arith}
use doze_names.Text.{Bytes}
use doze_names.Strings.{lt_bytes}

pub lt_bytes_asym : (s t : Bytes) → lt_bytes s t ≡ true → lt_bytes t s ≡ false
unfolding lt_bytes
lt_bytes_asym s [] h = cc
lt_bytes_asym [] (y ∷ t) h = refl
lt_bytes_asym (x ∷ s) (y ∷ t) h = ground (arith, lt_bytes_asym s t)

-- `s` does not come after `t`
abbrev pub LeBytes : Bytes → Bytes → Type 0
LeBytes s t = lt_bytes t s ≡ false

pub LeBytes-trans : (r s t : Bytes) → LeBytes r s → LeBytes s t → LeBytes r t
unfolding lt_bytes
LeBytes-trans [] s t h k = refl
LeBytes-trans (x ∷ r) [] t h k = cc
LeBytes-trans (x ∷ r) (y ∷ s) [] h k = cc
LeBytes-trans (x ∷ r) (y ∷ s) (z ∷ t) h k = ground (arith, LeBytes-trans r s t)

pub LeBytes-refl : (s : Bytes) → LeBytes s s
unfolding lt_bytes
LeBytes-refl [] = refl
LeBytes-refl (x ∷ s) = ground (arith, LeBytes-refl s)
