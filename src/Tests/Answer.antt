-- ===== src/Tests/Answer.antt =====
-- The resolver's messages: `db.doze`, asked for its address.
use doze_names.Prelude.{
  ℕ, ◌+◌, ◌/◌, ◌%◌, ◌≤◌, All, true, false, [], ◌∷◌, ◌++◌, length, take, drop, Option, none, some,
  ◌≡◌, refl, arith,
}
use doze_names.Text.{
  Bytes, Unicode, codes, eq_bytes, to_lower, is_ascii, lower_byte, trim_suffix_byte, has_suffix,
  join,
}
use doze_names.Names.{in_zone}
use doze_names.Net.{Ip}
use doze_names.Wire.{
  end_or, name_step, scan, start_at, scan_fuel, parse_name, parse_question, skip_from, skip_name,
}
use doze_names.Wire.Bounds.{scan_total, parse_question_bounds}
use doze_names.Wire.Names.{encode_name, IsWireLabel, parse_name-encode_name}
use doze_names.Wire.Ttl.{
  put_u32, skip_questions, record_at, cap_one, cap_records, walked_or, cap_ttl,
}
use doze_names.Answer.{outcome, record_of, reply, is_none, forward, answer, serve}
use doze_names.Answer.Zone.{asks_zone, serve_zone}
use doze_names.Answer.Replies.{
  Head, Question, expected, question_bytes, query, name_of, response, answer-response,
  response_reads,
}

instance abbrev ascii_only : Unicode
ascii_only = record { lower = λ s. s; runes = λ s. s }

program : Unit {0}
unfolding eq_bytes to_lower is_ascii lower_byte trim_suffix_byte has_suffix join in_zone end_or
    name_step scan parse_name parse_question skip_from skip_name encode_name put_u32 skip_questions
    record_at cap_one cap_records walked_or cap_ttl outcome record_of reply is_none forward answer
    serve asks_zone question_bytes query response expected
program = tt

abbrev head : Head
head = record {
  id_high = 7;
  id_low = 9;
  flags_high = 1;
  flags_low = 0;
  answers_high = 0;
  answers_low = 0;
  authorities_high = 0;
  authorities_low = 0;
  others_high = 0;
  others_low = 0;
}

abbrev db : Question
db = record {
  labels = codes "DB" ∷ codes "doze" ∷ [];
  type_high = 0;
  type_low = 1;
  class_high = 0;
  class_low = 1;
}

abbrev db_ip : Ip
db_ip = record { a = 127; b = 0; c = 3; d = 7 }

abbrev db_only : Bytes → Option Ip
db_only host = elim (eq_bytes host (codes "db.doze")) [ true ↦ some db_ip | false ↦ none ]

abbrev header : Bytes
header = 7 ∷ 9 ∷ 1 ∷ 0 ∷ 0 ∷ 1 ∷ 0 ∷ 0 ∷ 0 ∷ 0 ∷ 0 ∷ 0 ∷ []

-- a name that points to itself
abbrev looping : Bytes
looping = header ++ (192 ∷ 12 ∷ 0 ∷ 1 ∷ 0 ∷ 1 ∷ [])

good : All IsWireLabel db.labels
good = ((omega arith, omega arith), ((omega arith, omega arith), tt))

loops : parse_name looping 12 ≡ none
unfolding program
loops = refl

answered : answer (query head db []) db_only ≡ (
  some (
      7
      ∷ 9
      ∷ 129
      ∷ 128
      ∷ 0
      ∷ 1
      ∷ 0
      ∷ 1
      ∷ 0
      ∷ 0
      ∷ 0
      ∷ 0
      ∷ (encode_name db.labels
          ++ (0 ∷ 1 ∷ 0 ∷ 1 ∷ 192 ∷ 12 ∷ 0 ∷ 1 ∷ 0 ∷ 1 ∷ 0 ∷ 0 ∷ 0 ∷ 10 ∷ 0 ∷ 4 ∷ 127 ∷ 0 ∷ 3 ∷ 7
              ∷ []))),
  false,
)
unfolding program
answered = refl

-- an upstream's answer with a TTL of 256 seconds is relayed with one of 10
abbrev relayed : ℕ → Bytes
relayed ttl =
    7
    ∷ 9
    ∷ 129
    ∷ 128
    ∷ 0
    ∷ 0
    ∷ 0
    ∷ 1
    ∷ 0
    ∷ 0
    ∷ 0
    ∷ 0
    ∷ 0
    ∷ 0
    ∷ 1
    ∷ 0
    ∷ 1
    ∷ 0
    ∷ 0
    ∷ ttl / 256
    ∷ ttl % 256
    ∷ 0
    ∷ 0
    ∷ []

capped : cap_ttl (relayed 256) 10 ≡ relayed 10
unfolding program
capped = refl

scan_total_example :
    (r : Option (Bytes × ℕ)) × (scan (scan_fuel looping) looping (start_at 12) ≡ some r)
scan_total_example = scan_total looping 12

parse_question_bounds_example : (17 ≤ 25) × (25 ≤ length (query head db []))
unfolding program
parse_question_bounds_example =
    parse_question_bounds (query head db []) 12 {name = codes "db.doze"} {qtype = 1} {end = 25} refl

parse_name-encode_name_example :
    parse_name (header ++ (encode_name db.labels ++ [])) 12 ≡ some (name_of db, 12 + 9)
unfolding program
parse_name-encode_name_example = parse_name-encode_name header db.labels [] good

serve_zone_example :
    serve true ((λ q. some q) ∷ []) db_only (query head db [])
    ≡ (answer (take 512 (query head db [])) db_only).0
unfolding program
serve_zone_example = serve_zone true ((λ q. some q) ∷ []) db_only (query head db []) refl

-- a query with an OPT record
abbrev edns : Head
edns = record head { others_low = 1 }

abbrev opt : Bytes
opt = 0 ∷ 0 ∷ 41 ∷ 4 ∷ 208 ∷ 0 ∷ 0 ∷ 0 ∷ 0 ∷ 0 ∷ 0 ∷ []

answer-response_example :
    answer (query edns db opt) db_only
    ≡ (some (response edns db (0, 1) (record_of 1 1 (some db_ip))), false)
unfolding program
answer-response_example = answer-response edns db opt db_only good

response_reads_example :
    let r = response head db (0, 1) (record_of 1 1 (some db_ip)) in
    (parse_question r 12 ≡ some (name_of db, 1, 25))
    × (parse_name r 25 ≡ some (name_of db, 27))
    × (drop 37 r ≡ 127 ∷ 0 ∷ 3 ∷ 7 ∷ [])
unfolding program
response_reads_example = response_reads head db db_ip good
