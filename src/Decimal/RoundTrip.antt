-- ===== src/Decimal/RoundTrip.antt =====
-- Reading what was printed.
use doze_names.Prelude.{
  ℕ, zero, suc, ◌+◌, ◌-◌, ◌*◌, ◌/◌, ◌%◌, ◌<◌, ◌≤◌, [], ◌∷◌, some, ltb, ◌≡◌, refl, arith, ltb→lt,
  Bool-cases, inl, inr, ap, ◌∙◌,
}
use doze_names.Text.{Bytes}
use doze_names.Decimal.{digits_onto, itoa, value_from, atoi}

value_from_digit :
    (m d : ℕ) (rest : Bytes)
    → d < 10
    → value_from m ((b'0' + d) ∷ rest) ≡ value_from (m * 10 + d) rest
unfolding value_from
value_from_digit m d rest lt = let e : b'0' + d - b'0' ≡ d = omega arith in rw e (ground arith)

-- the value in front of the digits that were read so far
value_from-digits_onto :
    (fuel n : ℕ) (rest : Bytes)
    → n < fuel
    → value_from 0 (digits_onto fuel n rest) ≡ value_from n rest
unfolding digits_onto
value_from-digits_onto zero n rest lt = absurd (omega arith)
value_from-digits_onto (suc fuel) n rest lt = elim (Bool-cases (ltb n 10)) [
  | inl small ↦
      let e : 0 * 10 + n ≡ n = omega arith in
      rw small (value_from_digit 0 n rest (ltb→lt n 10 small) ∙ ap (λ k. value_from k rest) e)
  | inr large ↦
      let e : n / 10 * 10 + n % 10 ≡ n = omega arith in
      rw large (
        value_from-digits_onto fuel (n / 10) ((b'0' + n % 10) ∷ rest) (ground arith)
        ∙ value_from_digit (n / 10) (n % 10) rest (omega arith)
        ∙ ap (λ k. value_from k rest) e)
]

-- the first digit is a digit, and no sign
digits_onto_first :
    (fuel n : ℕ) (rest : Bytes)
    → n < fuel
    → (c : ℕ) × (s : Bytes) × (digits_onto fuel n rest ≡ c ∷ s) × (b'0' ≤ c)
unfolding digits_onto
digits_onto_first zero n rest lt = absurd (omega arith)
digits_onto_first (suc fuel) n rest lt = elim (Bool-cases (ltb n 10)) [
  | inl small ↦ (b'0' + n, rest, rw small refl, omega arith)
  | inr large ↦ rw large (digits_onto_first fuel (n / 10) ((b'0' + n % 10) ∷ rest) (ground arith))
]

-- Reading a printed number gives the number.
pub atoi-itoa : (n : ℕ) → atoi (itoa n) ≡ some n
unfolding atoi itoa
atoi-itoa n =
    let (c, s, e, digit) = digits_onto_first (suc n) n [] (omega arith) in
    let read = value_from-digits_onto (suc n) n [] (omega arith) in ground arith

-- Two numbers that are printed alike are one number.
pub itoa-injective : (m n : ℕ) → itoa m ≡ itoa n → m ≡ n
itoa-injective m n e = cc (atoi-itoa m, atoi-itoa n, ap atoi e)
