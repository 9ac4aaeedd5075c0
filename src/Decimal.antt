-- ===== src/Decimal.antt =====
-- `strconv.Itoa` on numbers that are not negative, and `strconv.Atoi`, of which a caller here keeps
-- only what is not negative.
pub mod RoundTrip
use doze_names.Prelude.{
  ℕ, zero, suc, ◌+◌, ◌-◌, ◌*◌, ◌/◌, ◌%◌, ◌&&◌, [], ◌∷◌, Option, none, some, ltb, leb, ◌==◌,
  if◌then◌else◌,
}
use doze_names.Text.{Bytes}

-- the digits of `n` in front of `rest`; each round takes one digit
unfoldable pub digits_onto : ℕ → ℕ → Bytes → Bytes
digits_onto zero n rest = rest
digits_onto (suc fuel) n rest =
    let more = digits_onto fuel (n / 10) ((b'0' + n % 10) ∷ rest) in
    if ltb n 10 then (b'0' + n) ∷ rest else more

unfoldable pub itoa : ℕ → Bytes
unfolding digits_onto
itoa n = digits_onto (suc n) n []

unfoldable pub value_from : ℕ → Bytes → Option ℕ
value_from n [] = some n
value_from n (c ∷ s) =
    let rest = value_from (n * 10 + (c - b'0')) s in if leb b'0' c && leb c b'9' then rest else none

unfoldable pub unsigned : Bytes → Option ℕ
unfolding value_from
unsigned [] = none
unsigned (c ∷ s) = value_from 0 (c ∷ s)

-- `none` for what is refused and for what is below zero
unfoldable pub atoi : Bytes → Option ℕ
unfolding unsigned
atoi [] = none
atoi (c ∷ s) =
    if c == b'+'
    then unsigned s
    else if c == b'-'
    then (elim (unsigned s) [ none ↦ none | some n ↦ if n == 0 then some 0 else none ])
    else unsigned (c ∷ s)
