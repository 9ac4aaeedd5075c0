-- ===== src/Answer.antt =====
-- `answer`, `serveConn` and `askedFromHere` of resolver.go, `forward` of upstream.go: what the
-- resolver says to one query. The registry's lookup is the argument `resolve`, without an address
-- where the source's has none or one that is not IPv4; a resolver that is nil is one that finds
-- nothing. An upstream server is a function from the query to its reply, if one came in time. Bits
-- that the source joins by `|` stand at different places, and are added.
pub mod Upstream
pub mod Zone
pub mod Replies
use doze_names.Prelude.{
  ℕ, ◌+◌, ◌-◌, ◌*◌, ◌/◌, ◌%◌, Bool, true, false, not, ◌&&◌, ◌||◌, List, [], ◌∷◌, ◌++◌, Option, none,
  some, ltb, ◌==◌, if◌then◌else◌, length, take, drop,
}
use doze_names.Text.{Bytes, Unicode}
use doze_names.Names.{in_zone}
use doze_names.Net.{Ip}
use doze_names.Wire.{byte_at, u16_at, parse_question}
use doze_names.Wire.Ttl.{cap_ttl}

-- `binary.BigEndian.AppendUint16`, onto nothing
abbrev pub be16 : ℕ → Bytes
be16 n = n / 256 % 256 ∷ n % 256 ∷ []

abbrev pub type_a : ℕ
type_a = 1

-- the reply's code and its number of answers
unfoldable pub outcome : Bool → ℕ → Option Ip → ℕ × ℕ
outcome zone qtype none = (3, 0)
outcome zone qtype (some ip) = if qtype == type_a then (0, 1) else (0, 0)

-- the answer's record, behind the question
unfoldable pub record_of : ℕ → ℕ → Option Ip → Bytes
record_of answers qtype none = []
record_of answers qtype (some ip) =
    if answers == 1
    then 192 ∷ 12 ∷ 0 ∷ type_a ∷ 0 ∷ 1 ∷ 0 ∷ 0 ∷ 0 ∷ 10 ∷ 0 ∷ 4 ∷ ip.a ∷ ip.b ∷ ip.c ∷ ip.d ∷ []
    else []

-- the reply to a question that ends at `qend`
unfoldable pub reply : Bytes → Bool → ℕ → ℕ → Option Ip → Bytes
reply q zone qtype qend ip =
    let (rcode, answers) = outcome zone qtype ip in
    let flags = 32896 + byte_at q 2 % 2 * 256 in
    byte_at q 0
    ∷ byte_at q 1
    ∷ (be16 (flags + rcode)
        ++ (be16 1
            ++ (be16 answers
                ++ (be16 0
                    ++ (be16 0 ++ (take (qend - 12) (drop 12 q) ++ record_of answers qtype ip))))))

unfoldable pub is_none {ℓ} : {A : Type ℓ} → Option A → Bool
is_none none = true
is_none (some a) = false

-- `forward`: the reply of the first upstream that sent a header
unfoldable pub forward : List (Bytes → Option Bytes) → Bytes → Option Bytes
forward [] q = none
forward (ask ∷ more) q =
    let rest = forward more q in
    elim (ask q) [
      | none ↦ rest
      | some r ↦ if ltb (length (take 4096 r)) 12 then rest else some (take 4096 r)
    ]

module _ ⦃u : Unicode⦄ where
  -- `answer`: the reply, and whether the query is to be sent on
  unfoldable pub answer : Bytes → (Bytes → Option Ip) → Option Bytes × Bool
  answer q resolve =
      if ltb (length q) 12
      then (none, false)
      else if not (u16_at q 4 == 1)
      then (none, false)
      else elim (parse_question q 12) [
        | none ↦ (none, false)
        | some (name, qtype, qend) ↦ (
          some (reply q (in_zone name) qtype qend (resolve name)),
          is_none (resolve name) && not (in_zone name),
        )
      ]

  -- one round of `serveConn`: what is sent back for a datagram, if anything is; `here` is
  -- `askedFromHere`
  unfoldable pub serve :
      Bool → List (Bytes → Option Bytes) → (Bytes → Option Ip) → Bytes → Option Bytes
  serve here upstreams resolve datagram =
      let q = take 512 datagram in
      let (resp, fwd) = answer q resolve in
      if fwd && here
      then (elim (forward upstreams q) [ none ↦ resp | some r ↦ some (cap_ttl r 10) ])
      else resp
