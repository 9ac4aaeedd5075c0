-- ===== src/Answer/Replies.antt =====
-- The reply to a query as a client writes it, read again as the client reads it.
use doze_names.Prelude.{
  ℕ, suc, ◌+◌, ◌-◌, ◌*◌, ◌/◌, ◌%◌, ◌≤◌, Bool, false, not, ◌&&◌, List, [], ◌∷◌, ◌++◌, map,
  append_assoc, Option, none, some, ◌≡◌, ◌==◌, if◌then◌else◌, Bool-cases, inl, inr, refl, sym, ap,
  arith, ltb, length, length-append, take, drop, All, take-length_append,
}
use doze_names.Text.{Bytes, Unicode, join, to_lower}
use doze_names.Names.{in_zone}
use doze_names.Net.{Ip}
use doze_names.Wire.{byte_at, parse_name, parse_question}
use doze_names.Wire.Names.{encode_name, IsWireLabel, parse_name-encode_name, parse_name_pointer}
use doze_names.Answer.{outcome, record_of, reply, is_none, answer}

-- the header: its first four bytes, and the six of the counts of answers, authorities and additionals
pub record Head : Type 0 where
  pub id_high : ℕ
  pub id_low : ℕ
  pub flags_high : ℕ
  pub flags_low : ℕ
  pub answers_high : ℕ
  pub answers_low : ℕ
  pub authorities_high : ℕ
  pub authorities_low : ℕ
  pub others_high : ℕ
  pub others_low : ℕ

-- a question: labels, type and class
pub record Question : Type 0 where
  pub labels : List Bytes
  pub type_high : ℕ
  pub type_low : ℕ
  pub class_high : ℕ
  pub class_low : ℕ

unfoldable pub question_bytes : Question → Bytes → Bytes
question_bytes k more =
    encode_name k.labels ++ (k.type_high ∷ k.type_low ∷ k.class_high ∷ k.class_low ∷ more)

-- a query with one question; `more` follows it, the records of the header's other counts say, as of EDNS
unfoldable pub query : Head → Question → Bytes → Bytes
query h k more =
    h.id_high
    ∷ h.id_low
    ∷ h.flags_high
    ∷ h.flags_low
    ∷ 0
    ∷ 1
    ∷ h.answers_high
    ∷ h.answers_low
    ∷ h.authorities_high
    ∷ h.authorities_low
    ∷ h.others_high
    ∷ h.others_low
    ∷ question_bytes k more

abbrev qtype_of : Question → ℕ
qtype_of k = k.type_high * 256 + k.type_low

-- where the question of a query ends
abbrev pub question_end : Question → ℕ
question_end k = 12 + length (encode_name k.labels) + 4

-- a reply to it: the header with the code and the number of answers, the question, and `more`
unfoldable pub response : Head → Question → ℕ × ℕ → Bytes → Bytes
response h k (rcode, answers) more =
    h.id_high
    ∷ h.id_low
    ∷ (128 + h.flags_high % 2)
    ∷ (128 + rcode)
    ∷ 0
    ∷ 1
    ∷ 0
    ∷ answers
    ∷ 0
    ∷ 0
    ∷ 0
    ∷ 0
    ∷ question_bytes k more

-- What a resolver should say of a name, by the lookup: NXDOMAIN where nothing is found, one address record
-- with a TTL of 10 seconds for the name of the question where its type is A, and no records for any other
-- type. The code and the number of answers are before the records.
unfoldable pub expected : (qtype : ℕ) → Option Ip → (ℕ × ℕ) × Bytes
expected qtype none = ((3, 0), [])
expected qtype (some ip) =
    if qtype == 1
    then (
      (0, 1),
      192 ∷ 12 ∷ 0 ∷ 1 ∷ 0 ∷ 1 ∷ 0 ∷ 0 ∷ 0 ∷ 10 ∷ 0 ∷ 4 ∷ ip.a ∷ ip.b ∷ ip.c ∷ ip.d ∷ [],
    )
    else ((0, 0), [])

byte_at_behind : (pre r : Bytes) (i : ℕ) → byte_at (pre ++ r) (length pre + i) ≡ byte_at r i
byte_at_behind [] r i = ap (byte_at r) (omega arith)
byte_at_behind (p ∷ pre) r i =
    let next : suc (length pre) + i ≡ suc (length pre + i) = omega arith in
    rw (next) (byte_at_behind pre r i)

drop_behind : (pre r : Bytes) (i : ℕ) → drop (length pre + i) (pre ++ r) ≡ drop i r
drop_behind [] r i = ap (λ n. drop n r) (omega arith)
drop_behind (p ∷ pre) r i =
    let next : suc (length pre) + i ≡ suc (length pre + i) = omega arith in
    rw (next) (drop_behind pre r i)

-- what stands behind the name of the question
tail_of : Question → Bytes → Bytes
tail_of k more = k.type_high ∷ k.type_low ∷ k.class_high ∷ k.class_low ∷ more

module _ (pre : Bytes) (k : Question) (more : Bytes) (twelve : length pre ≡ 12) where
  byte_behind_name :
      (i : ℕ)
      → byte_at (pre ++ question_bytes k more) (12 + length (encode_name k.labels) + i)
        ≡ byte_at (tail_of k more) i
  unfolding question_bytes tail_of
  byte_behind_name i =
      let enc = encode_name k.labels in
      rw (append_assoc pre enc (tail_of k more), length-append pre enc, twelve) at
        (byte_at_behind (pre ++ enc) (tail_of k more) i)

  drop_behind_name :
      (i : ℕ)
      → drop (12 + length (encode_name k.labels) + i) (pre ++ question_bytes k more)
        ≡ drop i (tail_of k more)
  unfolding question_bytes tail_of
  drop_behind_name i =
      let enc = encode_name k.labels in
      rw (append_assoc pre enc (tail_of k more), length-append pre enc, twelve) at
        (drop_behind (pre ++ enc) (tail_of k more) i)

module _ ⦃u : Unicode⦄ where
  abbrev pub name_of : Question → Bytes
  name_of k = join b'.' (map to_lower k.labels)

  -- the question of a message that starts with any twelve bytes
  parse_question_encoded :
      (pre : Bytes) (k : Question) (more : Bytes)
      → length pre ≡ 12
      → All IsWireLabel k.labels
      → parse_question (pre ++ question_bytes k more) 12
        ≡ some (name_of k, qtype_of k, question_end k)
  unfolding parse_question question_bytes tail_of
  parse_question_encoded pre k more twelve good =
      let enc = encode_name k.labels in
      let tail = k.type_high ∷ k.type_low ∷ k.class_high ∷ k.class_low ∷ more in
      let q = pre ++ (enc ++ tail) in
      let behind = byte_behind_name pre k more twelve in
      let name : parse_name q 12 ≡ some (name_of k, 12 + length enc) =
        rw (twelve) at (parse_name-encode_name pre k.labels tail good) in
      let room : ltb (length q) (12 + length enc + 4) ≡ false =
        ground (arith, length-append pre (enc ++ tail), length-append enc tail) in
      let at_start : 12 + length enc + 0 ≡ 12 + length enc = omega arith in
      let high : byte_at q (12 + length enc) ≡ k.type_high = rw (at_start) at (behind 0) in
      rw (name, room, high, behind 1, parse_question, question_bytes) refl

  -- the question is copied as it stands
  question_copied :
      (h : Head) (k : Question) (more after : Bytes)
      → take (question_end k - 12) (drop 12 (query h k more)) ++ after ≡ question_bytes k after
  unfolding query question_bytes
  question_copied h k more after =
      let enc = encode_name k.labels in
      let four = k.type_high ∷ k.type_low ∷ k.class_high ∷ k.class_low ∷ [] in
      let count : question_end k - 12 ≡ length (enc ++ four) =
        omega (arith, length-append enc four) in
      rw (count, sym (append_assoc enc four more), sym (append_assoc enc four after))
        (ap (λ t. t ++ after) (take-length_append (enc ++ four) more))

  outcome_small :
      (zone : Bool) (qtype : ℕ) (ip : Option Ip)
      → ((outcome zone qtype ip).0 ≤ 3) × ((outcome zone qtype ip).1 ≤ 1)
  unfolding outcome
  outcome_small zone qtype none = (omega arith, omega arith)
  outcome_small zone qtype (some ip) = (ground arith, ground arith)

  reply-query :
      (h : Head) (k : Question) (more : Bytes) (zone : Bool) (ip : Option Ip)
      → reply (query h k more) zone (qtype_of k) (question_end k) ip
        ≡ response h k
            (outcome zone (qtype_of k) ip)
            (record_of (outcome zone (qtype_of k) ip).1 (qtype_of k) ip)
  unfolding reply response query
  reply-query h k more zone ip =
      let r = outcome zone (qtype_of k) ip in
      let small = outcome_small zone (qtype_of k) ip in
      let flags = 32896 + h.flags_high % 2 * 256 + r.0 in
      let high : flags / 256 % 256 ≡ 128 + h.flags_high % 2 = omega (arith, small.0) in
      let low : flags % 256 ≡ 128 + r.0 = omega (arith, small.0) in
      let none_high : r.1 / 256 % 256 ≡ 0 = omega (arith, small.1) in
      let count : r.1 % 256 ≡ r.1 = omega (arith, small.1) in
      rw (high, low, none_high, count, question_copied h k more (record_of r.1 (qtype_of k) ip))
        refl

  outcome-expected :
      (zone : Bool) (qtype : ℕ) (ip : Option Ip)
      → (outcome zone qtype ip ≡ (expected qtype ip).0)
        × (record_of (expected qtype ip).0.1 qtype ip ≡ (expected qtype ip).1)
  unfolding outcome expected record_of
  outcome-expected zone qtype none = (refl, refl)
  outcome-expected zone qtype (some ip) = elim (Bool-cases (qtype == 1)) [
    | inl asks_a ↦ rw (asks_a) (refl, refl)
    | inr other ↦ rw (other) (refl, refl)
  ]

  answer-query :
      (h : Head) (k : Question) (more : Bytes) (resolve : Bytes → Option Ip)
      → All IsWireLabel k.labels
      → answer (query h k more) resolve ≡ (
        some (
            reply
              (query h k more)
              (in_zone (name_of k))
              (qtype_of k)
              (question_end k)
              (resolve (name_of k))),
        is_none (resolve (name_of k)) && not (in_zone (name_of k)),
      )
  unfolding answer query
  answer-query h k more resolve good =
      let pre =
        h.id_high ∷ h.id_low ∷ h.flags_high ∷ h.flags_low ∷ 0 ∷ 1 ∷ h.answers_high ∷ h.answers_low
        ∷ h.authorities_high ∷ h.authorities_low ∷ h.others_high ∷ h.others_low ∷ [] in
      let asked = parse_question_encoded pre k more refl good in
      let long : ltb (length (query h k more)) 12 ≡ false = ground arith in
      rw (long, asked, answer) refl

  -- A query of a client, with one question, labels of 1 to 63 bytes, any type, any counts of other
  -- records and whatever follows the question, has the reply `response`: the identifier and the question
  -- are those of the query; where the lookup of the name in lower case finds nothing the code is
  -- NXDOMAIN, and else it is NOERROR, with one record, the address, if the type is A, and none if it is
  -- another. The query may be sent on where the lookup finds nothing and the name is not in the zone.
  pub answer-response :
      (h : Head) (k : Question) (more : Bytes) (resolve : Bytes → Option Ip)
      → All IsWireLabel k.labels
      → let ip = resolve (name_of k) in
        answer (query h k more) resolve ≡ (
          some (response h k (expected (qtype_of k) ip).0 (expected (qtype_of k) ip).1),
          is_none ip && not (in_zone (name_of k)),
        )
  answer-response h k more resolve good =
      let (code, records) =
        outcome-expected (in_zone (name_of k)) (qtype_of k) (resolve (name_of k)) in
      rw
        (
          answer-query h k more resolve good,
          reply-query h k more (in_zone (name_of k)) (resolve (name_of k)),
          code,
          records,
        )
        refl

  -- The reply about an address reads back: its question is the one asked, the name of its record,
  -- a pointer, is the name asked, and its last four bytes are the address. The labels have 1 to 63
  -- bytes.
  pub response_reads :
      (h : Head) (k : Question) (ip : Ip)
      → All IsWireLabel k.labels
      → let r = response h k (0, 1) (record_of 1 (qtype_of k) (some ip)) in
        (parse_question r 12 ≡ some (name_of k, qtype_of k, question_end k))
        × (parse_name r (question_end k) ≡ some (name_of k, question_end k + 2))
        × (drop (question_end k + 12) r ≡ ip.a ∷ ip.b ∷ ip.c ∷ ip.d ∷ [])
  unfolding response record_of question_bytes tail_of
  response_reads h k ip good =
      let pre =
        h.id_high
        ∷ h.id_low
        ∷ (128 + h.flags_high % 2)
        ∷ 128
        ∷ 0
        ∷ 1
        ∷ 0
        ∷ 1
        ∷ 0
        ∷ 0
        ∷ 0
        ∷ 0
        ∷ [] in
      let answer_record = record_of 1 (qtype_of k) (some ip) in
      let asked = parse_question_encoded pre k answer_record refl good in
      let tail = tail_of k answer_record in
      let ends : question_end k + 12 ≡ 12 + length (encode_name k.labels) + 16 = omega arith in
      let second : question_end k + 1 ≡ 12 + length (encode_name k.labels) + 5 = omega arith in
      let size : length (pre ++ question_bytes k answer_record) ≡ question_end k + 16 =
        omega (arith, length-append (encode_name k.labels) tail) in
      let at_low : byte_at (pre ++ question_bytes k answer_record) (question_end k + 1) ≡ 12 =
        rw (second) (byte_behind_name pre k answer_record refl 5) in
      let name =
        parse_name_pointer pre k.labels tail (question_end k) good (omega arith)
          (omega (arith, size)) (byte_behind_name pre k answer_record refl 4) at_low in
      (asked, name, rw (ends) (drop_behind_name pre k answer_record refl 16))
