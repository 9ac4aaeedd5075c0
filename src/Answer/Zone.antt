-- ===== src/Answer/Zone.antt =====
-- What is sent on to the upstream servers, and what is not.
use doze_names.Prelude.{
  Bool, true, false, List, Option, none, some, ◌≡◌, refl, arith, take, Bool-cases, Option-cases,
  inl, inr,
}
use doze_names.Text.{Bytes, Unicode}
use doze_names.Names.{in_zone}
use doze_names.Net.{Ip}
use doze_names.Wire.{parse_question}
use doze_names.Answer.{answer, serve}

module _ ⦃u : Unicode⦄ where
  -- is the question about the zone, if there is one that can be read?
  unfoldable pub asks_zone : Bytes → Bool
  asks_zone q = elim (parse_question q 12) [ none ↦ true | some (name, _, _) ↦ in_zone name ]

  answer_kept :
      (q : Bytes) (resolve : Bytes → Option Ip) → asks_zone q ≡ true → (answer q resolve).1 ≡ false
  unfolding answer asks_zone
  answer_kept q resolve zone = elim (Option-cases (parse_question q 12)) [
    | inl nothing ↦ ground arith
    | inr ((name, qtype, end), found) ↦
        let inside : in_zone name ≡ true = rw (found, asks_zone) at zone in ground arith
  ]

  -- Whoever asks and whatever the upstream servers say, a query about a name of the zone, or one that
  -- has no question that can be read, is answered without them.
  pub serve_zone :
      (here : Bool) (upstreams : List (Bytes → Option Bytes)) (resolve : Bytes → Option Ip)
      (datagram : Bytes)
      → asks_zone (take 512 datagram) ≡ true
      → serve here upstreams resolve datagram ≡ (answer (take 512 datagram) resolve).0
  unfolding serve
  serve_zone here upstreams resolve datagram zone =
      rw (answer_kept (take 512 datagram) resolve zone, serve) refl

  -- The same for a query that comes from another machine, whatever its name.
  pub serve_elsewhere :
      (upstreams : List (Bytes → Option Bytes)) (resolve : Bytes → Option Ip) (datagram : Bytes)
      → serve false upstreams resolve datagram ≡ (answer (take 512 datagram) resolve).0
  unfolding serve
  serve_elsewhere upstreams resolve datagram =
      elim (Bool-cases (answer (take 512 datagram) resolve).1) [
        | inl asked ↦ rw (asked, serve) refl
        | inr kept ↦ rw (kept, serve) refl
      ]
