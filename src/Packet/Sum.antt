-- ===== src/Packet/Sum.antt =====
-- `checksum` of nat.go, which adds eight bytes at a time, and the internet checksum of RFC 1071.
use doze_names.Prelude.{
  ℕ, zero, suc, ◌+◌, ◌-◌, ◌*◌, ◌/◌, ◌%◌, ◌^◌, ◌<◌, ◌≤◌, true, false, inl, inr, [], ◌∷◌, ◌≡◌, refl,
  ap, ◌∙◌, arith, Bool-cases, ltb→lt, All, ltb, ◌==◌, if◌then◌else◌,
}
use doze_names.Text as Go

-- the sum's upper and lower half, added with the carry
unfoldable pub add_carry : ℕ → ℕ → ℕ
add_carry upper lower =
    let folded = (upper + lower) % 2 ^ 32 in
    if ltb folded lower then (folded + 1) % 2 ^ 32 else folded

-- one round of the loop over eight bytes
unfoldable pub add_halves : ℕ → ℕ → ℕ → ℕ
add_halves sum high low =
    let sum64 = sum + high + low in add_carry (sum64 / 2 ^ 32) (sum64 % 2 ^ 32)

-- the rest, by 16 bits; a last single byte is the upper half of a word
unfoldable pub add_words : ℕ → Go.Bytes → ℕ
add_words s [] = s
add_words s (a ∷ []) = s + a * 256
add_words s (a ∷ b ∷ r) = add_words (s + (a * 256 + b)) r

abbrev four : ℕ → ℕ → ℕ → ℕ → ℕ
four a b c d = (a * 256 + b) * 65536 + (c * 256 + d)

-- the loop over eight bytes, and then the rest from the two halves of the sum
unfoldable pub add_all : ℕ → Go.Bytes → ℕ
add_all sum (a ∷ b ∷ c ∷ d ∷ e ∷ f ∷ g ∷ h ∷ r) =
    add_all (add_halves sum (four a b c d) (four e f g h)) r
add_all sum r = add_words (sum / 65536 + sum % 65536) r

-- `for s>>16 != 0`
unfoldable pub fold16 : ℕ → ℕ → ℕ
fold16 zero s = s
fold16 (suc fuel) s = elim (s / 65536 == 0) [
  | true ↦ s
  | false ↦ fold16 fuel (s / 65536 + s % 65536)
]

-- `checksum`
unfoldable pub checksum : Go.Bytes → ℕ → ℕ
checksum b sum = let s = add_all sum b in 65535 - fold16 (suc s) s % 65536

-- the sum of the 16-bit words, of any length
unfoldable pub word_sum : Go.Bytes → ℕ
word_sum [] = 0
word_sum (a ∷ []) = a * 256
word_sum (a ∷ b ∷ r) = a * 256 + b + word_sum r

-- equal modulo 65535, and 0 together
Same : ℕ → ℕ → Type 0
Same r t = (r % 65535 ≡ t % 65535) × (r ≡ 0 → t ≡ 0) × (t ≡ 0 → r ≡ 0)

add_carry-Same :
    (q l : ℕ)
    → q ≤ 2
    → l < 2 ^ 32
    → Same (add_carry q l) (q * 2 ^ 32 + l) × (add_carry q l < 2 ^ 32)
unfolding add_carry Same
add_carry-Same q l hq hl = elim (Bool-cases (ltb ((q + l) % 2 ^ 32) l)) [
  | inl wraps ↦
      let less : (q + l) % 2 ^ 32 < l = ltb→lt _ _ wraps in
      rw (wraps) ((omega arith, (λ z. omega arith), (λ z. omega arith)), omega arith)
  | inr fits ↦
      let more : l ≤ (q + l) % 2 ^ 32 = ground arith in
      rw (fits) ((omega arith, (λ z. omega arith), (λ z. omega arith)), omega arith)
]

add_halves-Same :
    (s x y : ℕ)
    → s < 2 ^ 32
    → x < 2 ^ 32
    → y < 2 ^ 32
    → Same (add_halves s x y) (s + x + y) × (add_halves s x y < 2 ^ 32)
unfolding add_halves Same
add_halves-Same s x y hs hx hy =
    let t = s + x + y in
    let same = add_carry-Same (t / 2 ^ 32) (t % 2 ^ 32) (omega arith) (omega arith) in
    let whole : t / 2 ^ 32 * 2 ^ 32 + t % 2 ^ 32 ≡ t = omega arith in rw (whole) at same

add_words_sum : (s : ℕ) (b : Go.Bytes) → add_words s b ≡ s + word_sum b
unfolding add_words word_sum
add_words_sum s [] = omega arith
add_words_sum s (a ∷ []) = omega arith
add_words_sum s (a ∷ b ∷ r) = omega (arith, add_words_sum (s + (a * 256 + b)) r)

split-Same : (s : ℕ) (b : Go.Bytes) → Same (add_words (s / 65536 + s % 65536) b) (s + word_sum b)
unfolding Same
split-Same s b =
    let sum = add_words_sum (s / 65536 + s % 65536) b in
    (omega arith, (λ z. omega arith), (λ z. omega arith))

fold16-Same : (fuel s : ℕ) → s < fuel → Same (fold16 fuel s) s × (fold16 fuel s < 65536)
unfolding fold16 Same
fold16-Same zero s h = absurd (omega arith)
fold16-Same (suc fuel) s h = elim (Bool-cases (s / 65536 == 0)) [
  | inl small ↦ rw (small, fold16) ((refl, (λ z. z), (λ z. z)), ground arith)
  | inr large ↦
      let above : 65536 ≤ s = ground arith in
      let rest = fold16-Same fuel (s / 65536 + s % 65536) (omega arith) in
      rw (large, fold16)
        ((omega (arith, rest.0.0), (λ z. omega (arith, rest.0.1 z)), (λ z. omega arith)), rest.1)
]

abbrev pub IsByte : ℕ → Type 0
IsByte b = b < 256

-- how the sum of the rest serves the sum of all: `i`, `j`, `k` and `l` are the words of eight bytes
Same-step :
    (r s' s i j k l w : ℕ)
    → Same r (s' + w)
    → Same s' (s + (i * 65536 + j) + (k * 65536 + l))
    → Same r (s + (i + (j + (k + (l + w)))))
unfolding Same
Same-step r s' s i j k l w (m, z, z') (n, o, o') =
    (omega arith, (λ e. omega (arith, z e, o)), (λ e. omega (arith, z', o')))

add_all-Same :
    (s : ℕ) (b : Go.Bytes) → s < 2 ^ 32 → All IsByte b → Same (add_all s b) (s + word_sum b)
unfolding add_all word_sum
add_all-Same s [] hs good = split-Same s []
add_all-Same s (a ∷ []) hs good = split-Same s (a ∷ [])
add_all-Same s (a ∷ b ∷ []) hs good = split-Same s (a ∷ b ∷ [])
add_all-Same s (a ∷ b ∷ c ∷ []) hs good = split-Same s (a ∷ b ∷ c ∷ [])
add_all-Same s (a ∷ b ∷ c ∷ d ∷ []) hs good = split-Same s (a ∷ b ∷ c ∷ d ∷ [])
add_all-Same s (a ∷ b ∷ c ∷ d ∷ e ∷ []) hs good = split-Same s (a ∷ b ∷ c ∷ d ∷ e ∷ [])
add_all-Same s (a ∷ b ∷ c ∷ d ∷ e ∷ f ∷ []) hs good = split-Same s (a ∷ b ∷ c ∷ d ∷ e ∷ f ∷ [])
add_all-Same s (a ∷ b ∷ c ∷ d ∷ e ∷ f ∷ g ∷ []) hs good =
    split-Same s (a ∷ b ∷ c ∷ d ∷ e ∷ f ∷ g ∷ [])
add_all-Same s (a ∷ b ∷ c ∷ d ∷ e ∷ f ∷ g ∷ h ∷ r) hs
      (pa, (pb, (pc, (pd, (pe, (pf, (pg, (ph, good)))))))) =
    let (same, bound) =
      add_halves-Same s (four a b c d) (four e f g h) hs (omega arith) (omega arith) in
    let rest = add_all-Same (add_halves s (four a b c d) (four e f g h)) r bound good in
    Same-step _ _ s (a * 256 + b) (c * 256 + d) (e * 256 + f) (g * 256 + h) (word_sum r) rest same

-- The ones' complement sum of RFC 1071, in 16 bits, of words that add up to `t`: a carry out of the
-- word is added to it again, so that a sum is 0 only if all its words are.
unfoldable pub ones_sum : ℕ → ℕ
ones_sum zero = 0
ones_sum (suc t) = t % 65535 + 1

Same-ones_sum : (r t : ℕ) → r < 65536 → Same r t → r ≡ ones_sum t
unfolding Same ones_sum
Same-ones_sum r zero h (m, z, z') = z' refl
Same-ones_sum r (suc t) h (m, z, z') = elim (Bool-cases (r == 0)) [
  | inl nothing ↦ absurd (omega (arith, z (ground arith)))
  | inr some_sum ↦ let above : 1 ≤ r = ground arith in omega arith
]

Same-trans : (r s t : ℕ) → Same r s → Same s t → Same r t
unfolding Same
Same-trans r s t (m, z, z') (n, o, o') = (m ∙ n, (λ e. o (z e)), (λ e. z' (o' e)))

-- The checksum that is worked out eight bytes at a time, from any 32-bit sum, is the internet
-- checksum: the complement of the ones' complement sum of the 16-bit words and that sum.
pub checksum-ones_sum :
    (b : Go.Bytes) (sum : ℕ)
    → All IsByte b
    → sum < 2 ^ 32
    → checksum b sum ≡ 65535 - ones_sum (sum + word_sum b)
unfolding checksum
checksum-ones_sum b sum good small =
    let s = add_all sum b in
    let (same, bound) = fold16-Same (suc s) s (omega arith) in
    let all = add_all-Same sum b small good in
    let folded = Same-ones_sum _ _ bound (Same-trans _ _ _ same all) in
    let whole : fold16 (suc s) s % 65536 ≡ fold16 (suc s) s = omega (arith, bound) in
    ap (λ r. 65535 - r) (whole ∙ folded)
