-- ===== src/Wire.antt =====
-- The walks over a DNS message: `parseName` and `parseQuestion` of resolver.go, `skipName` and
-- `capTTL` of upstream.go. A message is a list of bytes, and each walk is a step that a loop repeats
-- on fuel: nine times the length and nine is enough for `parseName`, which may follow eight pointers,
-- and the length and one for `skipName`.
pub mod Bounds
pub mod Names
pub mod Ttl
use doze_names.Prelude.{
  ℕ, zero, suc, ◌+◌, ◌*◌, ◌/◌, ◌%◌, ◌^◌, Bool, List, [], ◌∷◌, ◌++◌, Option, none, some, ltb, leb,
  ◌==◌, if◌then◌else◌, length, get_or, take, drop,
}
use doze_names.Text.{Bytes, Unicode, join, to_lower}

-- `q[i]`, where `i` is in range
abbrev pub byte_at : Bytes → ℕ → ℕ
byte_at q i = get_or q i 0

-- `binary.BigEndian.Uint16(q[i:i+2])`
abbrev pub u16_at : Bytes → ℕ → ℕ
u16_at q i = byte_at q i * 256 + byte_at q (i + 1)

-- `binary.BigEndian.Uint32(q[i:i+4])`
abbrev pub u32_at : Bytes → ℕ → ℕ
u32_at q i = u16_at q i * 65536 + u16_at q (i + 2)

-- `l&0xC0 == 0xC0`, for a byte: the upper two bits are set
abbrev pub is_pointer : ℕ → Bool
is_pointer l = l / 64 == 3

-- the variables of the loop of `parseName`
pub record Cursor : Type 0 where
  pub labels : List Bytes
  pub pos : ℕ
  pub jumps : ℕ
  pub end : ℕ

pub data Step : Type 0 where
  stop : Option (Bytes × ℕ) → Step
  go : Cursor → Step

-- `if end == 0 { end = e }`
unfoldable pub end_or : ℕ → ℕ → ℕ
end_or old e = if old == 0 then e else old

module _ ⦃u : Unicode⦄ where
  -- one round of the loop of `parseName`
  unfoldable pub name_step : Bytes → Cursor → Step
  name_step q c =
      let l = byte_at q c.pos in
      if leb (length q) c.pos
      then stop none
      else if l == 0
      then stop (some (join b'.' c.labels, end_or c.end (c.pos + 1)))
      else if is_pointer l
      then (if leb (length q) (c.pos + 1)
          then stop none
          else if ltb 8 (c.jumps + 1)
          then stop none
          else go (record c {
            pos = u16_at q c.pos % 2 ^ 14;
            jumps = c.jumps + 1;
            end = end_or c.end (c.pos + 2);
          }))
      else if ltb (length q) (c.pos + 1 + l)
      then stop none
      else go (record c {
        labels = c.labels ++ (to_lower (take l (drop (suc c.pos) q)) ∷ []);
        pos = c.pos + 1 + l;
      })

  -- `none` where the fuel runs out
  unfoldable pub scan : ℕ → Bytes → Cursor → Option (Option (Bytes × ℕ))
  scan zero q c = none
  scan (suc fuel) q c = elim (name_step q c) [ stop r ↦ some r | go c' ↦ scan fuel q c' ]

  abbrev pub start_at : ℕ → Cursor
  start_at off = record { labels = []; pos = off; jumps = 0; end = 0 }

  abbrev pub scan_fuel : Bytes → ℕ
  scan_fuel q = 9 * suc (length q)

  -- `parseName`
  unfoldable pub parse_name : Bytes → ℕ → Option (Bytes × ℕ)
  parse_name q off = elim (scan (scan_fuel q) q (start_at off)) [ none ↦ none | some r ↦ r ]

  -- `parseQuestion`: the name, the type, and the offset behind the question
  unfoldable pub parse_question : Bytes → ℕ → Option (Bytes × ℕ × ℕ)
  parse_question q off = elim (parse_name q off) [
    | none ↦ none
    | some (name, end) ↦
        if ltb (length q) (end + 4) then none else some (name, u16_at q end, end + 4)
  ]

-- `skipName`
unfoldable pub skip_from : ℕ → Bytes → ℕ → Option ℕ
skip_from zero msg off = none
skip_from (suc fuel) msg off =
    let l = byte_at msg off in
    let rest = skip_from fuel msg (off + (1 + l)) in
    if leb (length msg) off
    then none
    else if l == 0
    then some (off + 1)
    else if is_pointer l
    then (if leb (off + 2) (length msg) then some (off + 2) else none)
    else rest

unfoldable pub skip_name : Bytes → ℕ → Option ℕ
skip_name msg off = skip_from (suc (length msg)) msg off
