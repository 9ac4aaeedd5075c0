-- ===== src/Wire/Bounds.antt =====
-- The walks over a message end, and stay inside it.
use doze_names.Prelude.{
  ℕ, zero, suc, ◌+◌, ◌-◌, ◌*◌, ◌≤◌, ◌<◌, Option, none, some, ◌≡◌, refl, subst, arith, ltb, leb,
  ◌==◌, Bool-cases, Option-cases, inl, inr, length, ◌⊎◌,
}
use doze_names.Text.{Bytes, Unicode}
use doze_names.Wire.{
  byte_at, u16_at, is_pointer, Cursor, Step, stop, go, end_or, name_step, scan, start_at, scan_fuel,
  parse_name, parse_question,
}

module _ ⦃u : Unicode⦄ where
  -- what a round does that does not end the loop: it goes on, or it jumps
  pub data Moves (q : Bytes) (c c' : Cursor) : Type 0 where
    onward : c.pos < c'.pos → c'.pos ≤ length q → c'.jumps ≡ c.jumps → c'.end ≡ c.end → Moves q c c'
    jump :
        c.pos + 1 < length q
        → c.jumps < 8
        → c'.jumps ≡ c.jumps + 1
        → c'.end ≡ end_or c.end (c.pos + 2)
        → Moves q c c'

  -- what one round may do
  unfoldable pub Follows : Bytes → Cursor → Step → Type 0
  Follows q c (stop none) = Unit {0}
  Follows q c (stop (some (name, e))) = (c.pos < length q) × (e ≡ end_or c.end (c.pos + 1))
  Follows q c (go c') = Moves q c c'

  pub name_step-Follows : (q : Bytes) (c : Cursor) → Follows q c (name_step q c)
  unfolding name_step Follows
  name_step-Follows q c = elim (Bool-cases (leb (length q) c.pos)) [
    | inl out ↦ rw (out, Follows) tt
    | inr inside ↦ elim (Bool-cases (byte_at q c.pos == 0)) [
      | inl ends ↦ rw (inside, ends, Follows) (ground arith, refl)
      | inr long ↦ elim (Bool-cases (is_pointer (byte_at q c.pos))) [
        | inl points ↦ elim (Bool-cases (leb (length q) (c.pos + 1))) [
          | inl cut ↦ rw (inside, long, points, cut, Follows) tt
          | inr whole ↦ elim (Bool-cases (ltb 8 (c.jumps + 1))) [
            | inl loops ↦ rw (inside, long, points, whole, loops, Follows) tt
            | inr few ↦
                rw (inside, long, points, whole, few, Follows)
                  (jump (ground arith) (ground arith) refl refl)
          ]
        ]
        | inr label ↦ elim (Bool-cases (ltb (length q) (c.pos + 1 + byte_at q c.pos))) [
          | inl cut ↦ rw (inside, long, label, cut, Follows) tt
          | inr whole ↦
              rw (inside, long, label, whole, Follows)
                (onward (ground arith) (ground arith) refl refl)
        ]
      ]
    ]
  ]

  -- `hops` pointers may still be followed, and the fuel is enough for that
  Enough : ℕ → ℕ → Bytes → Cursor → Type 0
  Enough fuel hops q c = (c.jumps + hops ≡ 8) × (hops * suc (length q) + (length q - c.pos) < fuel)

  Moves-Enough :
      (fuel hops : ℕ) (q : Bytes) (c c' : Cursor)
      → Moves q c c'
      → Enough (suc fuel) hops q c
      → (hops' : ℕ) × Enough fuel hops' q c'
  unfolding Enough
  Moves-Enough fuel hops q c c' (onward further inside same _) (h, lt) =
      (hops, (omega arith, omega arith))
  Moves-Enough fuel zero q c c' (jump _ few next _) (h, lt) = absurd (omega arith)
  Moves-Enough fuel (suc hops) q c c' (jump _ few next _) (h, lt) =
      (hops, (omega arith, omega arith))

  Step-cases : (s : Step) → ((r : Option (Bytes × ℕ)) × (s ≡ stop r)) ⊎ ((c : Cursor) × (s ≡ go c))
  Step-cases (stop r) = inl (r, refl)
  Step-cases (go c) = inr (c, refl)

  name_step-Moves : (q : Bytes) (c c' : Cursor) → name_step q c ≡ go c' → Moves q c c'
  unfolding Follows
  name_step-Moves q c c' goes = let follows = name_step-Follows q c in rw (goes) at follows

  scan_total_from :
      (fuel hops : ℕ) (q : Bytes) (c : Cursor)
      → Enough fuel hops q c
      → (r : Option (Bytes × ℕ)) × (scan fuel q c ≡ some r)
  unfolding scan Enough
  scan_total_from zero hops q c (h, lt) = absurd (omega arith)
  scan_total_from (suc fuel) hops q c enough = elim (Step-cases (name_step q c)) [
    | inl (r, ends) ↦ (r, rw (ends, scan) refl)
    | inr (c', goes) ↦
        let (hops', enough') = Moves-Enough fuel hops q c c' (name_step-Moves q c c' goes) enough in
        let (r, done) = scan_total_from fuel hops' q c' enough' in (r, rw (goes, scan) done)
  ]

  -- Whatever the message and wherever the name is said to stand, the loop of `parseName` ends: the
  -- fuel that `parse_name` gives it is enough.
  pub scan_total :
      (q : Bytes) (off : ℕ)
      → (r : Option (Bytes × ℕ)) × (scan (scan_fuel q) q (start_at off) ≡ some r)
  unfolding Enough
  scan_total q off = scan_total_from (scan_fuel q) 8 q (start_at off) (refl, omega arith)

  -- the end that a finished walk reports lies in the message, behind the offset it started from
  Inside : ℕ → Bytes → Option (Bytes × ℕ) → Type 0
  Inside off q none = Unit
  Inside off q (some (name, e)) = (off < e) × (e ≤ length q)

  -- what the loop keeps: where it would end now
  Ends : ℕ → Bytes → Cursor → Type 0
  Ends off q c = (off < end_or c.end (c.pos + 1)) × (c.end ≤ length q)

  Follows-Inside :
      (off : ℕ) (q : Bytes) (c : Cursor) (r : Option (Bytes × ℕ))
      → Ends off q c
      → Follows q c (stop r)
      → Inside off q r
  unfolding Follows Inside Ends end_or
  Follows-Inside off q c none known follows = tt
  Follows-Inside off q c (some (name, e)) (behind, known) (inside, at_end) =
      (ground arith, ground arith)

  Moves-Ends : (off : ℕ) (q : Bytes) (c c' : Cursor) → Ends off q c → Moves q c c' → Ends off q c'
  unfolding end_or Ends
  Moves-Ends off q c c' (behind, known) (onward further _ _ same) = (ground arith, omega arith)
  Moves-Ends off q c c' (behind, known) (jump inside _ _ at_end) = (ground arith, ground arith)

  name_step-stop :
      (q : Bytes) (c : Cursor) {r : Option (Bytes × ℕ)}
      → name_step q c ≡ stop r
      → Follows q c (stop r)
  name_step-stop q c ends = subst (Follows q c) ends (name_step-Follows q c)

  scan-Inside :
      (fuel off : ℕ) (q : Bytes) (c : Cursor) {r : Option (Bytes × ℕ)}
      → Ends off q c
      → scan fuel q c ≡ some r
      → Inside off q r
  unfolding scan
  scan-Inside zero off q c known h = absurd (cc)
  scan-Inside (suc fuel) off q c {r} known h = elim (Step-cases (name_step q c)) [
    | inl (r', ends) ↦
        let same : some r' ≡ some r = rw (ends, scan) at h in
        Follows-Inside off q c r known (name_step-stop q c (cc))
    | inr (c', goes) ↦
        scan-Inside fuel off q c' (Moves-Ends off q c c' known (name_step-Moves q c c' goes))
          (rw (goes, scan) at h)
  ]

  parse_name-Inside : (q : Bytes) (off : ℕ) → Inside off q (parse_name q off)
  unfolding parse_name Inside Ends end_or
  parse_name-Inside q off =
      let (r, done) = scan_total q off in
      let known : Inside off q r =
        scan-Inside (scan_fuel q) off q (start_at off) (omega arith, omega arith) done in
      rw (done, Inside) known

  -- The question that `parseQuestion` finds lies in the message: it starts where it was said to,
  -- its end is not past the message's, and it has at least one byte of name and four more.
  pub parse_question_bounds :
      (q : Bytes) (off : ℕ) {name : Bytes} {qtype end : ℕ}
      → parse_question q off ≡ some (name, qtype, end)
      → (off + 5 ≤ end) × (end ≤ length q)
  unfolding parse_question Inside
  parse_question_bounds q off {name} {qtype} {end} h = elim (Option-cases (parse_name q off)) [
    | inl nothing ↦ absurd (cc)
    | inr ((n, e), found) ↦
        let inside : Inside off q (some (n, e)) =
          subst (Inside off q) found (parse_name-Inside q off) in
        elim (Bool-cases (ltb (length q) (e + 4))) [
          | inl out ↦ absurd (cc)
          | inr fits ↦
              let same : some (n, u16_at q e, e + 4) ≡ some (name, qtype, end) =
                rw (found, fits, parse_question) at h in
              let at_end : e + 4 ≡ end = cc in
              let room : e + 4 ≤ length q = ground arith in (omega arith, omega arith)
        ]
  ]
