-- ===== src/Wire/Ttl.antt =====
-- `capTTL` of upstream.go.
use doze_names.Prelude.{
  ℕ, zero, suc, ◌+◌, ◌/◌, ◌%◌, ◌∷◌, ◌++◌, Option, none, some, ltb, if◌then◌else◌, length, take,
  drop,
}
use doze_names.Text.{Bytes}
use doze_names.Wire.{u16_at, u32_at, skip_name}

-- `binary.BigEndian.PutUint32(out[at:at+4], v)`
unfoldable pub put_u32 : Bytes → ℕ → ℕ → Bytes
put_u32 out at v =
    take at out
    ++ (v / 16777216 % 256 ∷ v / 65536 % 256 ∷ v / 256 % 256 ∷ v % 256 ∷ drop (at + 4) out)

-- the loop over the questions: where the records start
unfoldable pub skip_questions : ℕ → Bytes → ℕ → Option ℕ
skip_questions zero msg off = some off
skip_questions (suc qd) msg off = elim (skip_name msg off) [
  | none ↦ none
  | some n ↦ if ltb (length msg) (n + 4) then none else skip_questions qd msg (n + 4)
]

-- the offset of the TTL of the record at `off`, and that of the next record
unfoldable pub record_at : Bytes → ℕ → Option (ℕ × ℕ)
record_at msg off = elim (skip_name msg off) [
  | none ↦ none
  | some n ↦
      if ltb (length msg) (n + 10)
      then none
      else if ltb (length msg) (n + 10 + u16_at msg (n + 8))
      then none
      else some (n + 4, n + 10 + u16_at msg (n + 8))
]

-- one record's TTL in `out`, by its TTL in `msg`
unfoldable pub cap_one : Bytes → ℕ → ℕ → Bytes → Bytes
cap_one msg max at out = if ltb max (u32_at msg at) then put_u32 out at max else out

-- the loop over the records; `none` where it gives up
unfoldable pub cap_records : ℕ → Bytes → ℕ → ℕ → Bytes → Option Bytes
cap_records zero msg max off out = some out
cap_records (suc rrs) msg max off out = elim (record_at msg off) [
  | none ↦ none
  | some (at, next) ↦ cap_records rrs msg max next (cap_one msg max at out)
]

-- the number of records that the header announces
abbrev pub record_count : Bytes → ℕ
record_count msg = u16_at msg 6 + u16_at msg 8 + u16_at msg 10

unfoldable pub walked_or : Bytes → Option Bytes → Bytes
walked_or msg none = msg
walked_or msg (some out) = out

-- `capTTL`
unfoldable pub cap_ttl : Bytes → ℕ → Bytes
cap_ttl msg max = if ltb (length msg) 12 then msg else elim (skip_questions (u16_at msg 4) msg 12) [
  | none ↦ msg
  | some off ↦ walked_or msg (cap_records (record_count msg) msg max off msg)
]
