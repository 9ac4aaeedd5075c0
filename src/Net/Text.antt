-- ===== src/Net/Text.antt =====
-- Reading back the text of an address.
use doze_names.Prelude.{
  ℕ, List, Option, sym, ◌∙◌, Bool-cases, inl, inr, ◌<◌, Bool, true, false, ◌&&◌, not, [], ◌∷◌, ◌++◌,
  none, some, ◌==◌, ◌≡◌, ◌≢◌, refl, ap, arith, all_below, all_below_sound,
}
use doze_names.Text.{Bytes, contains_byte, split, split_cons, join}
use doze_names.Text.Laws.{split-cut, split_lacks}
use doze_names.Net.{
  Ip, octet_text, ip_text, octet_digits, parse_octet, parse_fields, four_octets, parse_ip,
}

-- The fields are bytes.
pub record IsIp (i : Ip) : Type 0 where
  pub a_lt : i.a < 256
  pub b_lt : i.b < 256
  pub c_lt : i.c < 256
  pub d_lt : i.d < 256

reads_back : ℕ → Bool
reads_back n =
    not (contains_byte b'.' (octet_text n))
    && not (contains_byte b':' (octet_text n))
    && elim (parse_octet (octet_text n)) [ none ↦ false | some m ↦ m == n ]

reads_back_table : all_below 256 reads_back ≡ true
unfolding all_below reads_back contains_byte octet_text parse_octet
reads_back_table = refl

parse_octet-octet_text : (n : ℕ) → n < 256 → parse_octet (octet_text n) ≡ some n
unfolding reads_back
parse_octet-octet_text n h = ground (arith, all_below_sound 256 reads_back n reads_back_table h)

octet_text-no_dot : (n : ℕ) → n < 256 → contains_byte b'.' (octet_text n) ≡ false
unfolding reads_back
octet_text-no_dot n h = ground (arith, all_below_sound 256 reads_back n reads_back_table h)

octet_text-no_colon : (n : ℕ) → n < 256 → contains_byte b':' (octet_text n) ≡ false
unfolding reads_back
octet_text-no_colon n h = ground (arith, all_below_sound 256 reads_back n reads_back_table h)

contains_byte-append_lacks :
    (c : ℕ) (s t : Bytes)
    → contains_byte c s ≡ false
    → contains_byte c t ≡ false
    → contains_byte c (s ++ t) ≡ false
unfolding contains_byte
contains_byte-append_lacks c [] t hs ht = ht
contains_byte-append_lacks c (x ∷ s) t hs ht = ground (arith, contains_byte-append_lacks c s t)

ip_text-no_colon : (i : Ip) → IsIp i → contains_byte b':' (ip_text i) ≡ false
unfolding ip_text contains_byte
ip_text-no_colon i h =
    contains_byte-append_lacks b':' (octet_text i.a) _ (octet_text-no_colon i.a h.a_lt) (
      contains_byte-append_lacks b':' (octet_text i.b) _ (octet_text-no_colon i.b h.b_lt) (
        contains_byte-append_lacks b':' (octet_text i.c) _ (octet_text-no_colon i.c h.c_lt)
          (octet_text-no_colon i.d h.d_lt)))

split-ip_text :
    (i : Ip)
    → IsIp i
    → split b'.' (ip_text i)
      ≡ octet_text i.a ∷ octet_text i.b ∷ octet_text i.c ∷ octet_text i.d ∷ []
unfolding ip_text
split-ip_text i h = rw (
  split-cut b'.' (octet_text i.a) _ (octet_text-no_dot i.a h.a_lt),
  split-cut b'.' (octet_text i.b) _ (octet_text-no_dot i.b h.b_lt),
  split-cut b'.' (octet_text i.c) _ (octet_text-no_dot i.c h.c_lt),
  split_lacks b'.' (octet_text i.d) (octet_text-no_dot i.d h.d_lt),
)

-- Reading the text of an address gives the address.
pub parse_ip-ip_text : (i : Ip) → IsIp i → parse_ip (ip_text i) ≡ some i
unfolding parse_ip
parse_ip-ip_text i h = rw (
  ip_text-no_colon i h,
  split-ip_text i h,
  parse_octet-octet_text i.a h.a_lt,
  parse_octet-octet_text i.b h.b_lt,
  parse_octet-octet_text i.c h.c_lt,
  parse_octet-octet_text i.d h.d_lt,
)

-- Two addresses with one text are one address.
pub ip_text-injective : (i j : Ip) → IsIp i → IsIp j → ip_text i ≡ ip_text j → i ≡ j
ip_text-injective i j hi hj e = cc (parse_ip-ip_text i hi, parse_ip-ip_text j hj, ap parse_ip e)

module _ (c d e f : ℕ) (s : Bytes) where
  octet_text_one : (n : ℕ) → octet_digits 0 (c ∷ []) ≡ some n → octet_text n ≡ c ∷ []
  unfolding octet_digits octet_text
  octet_text_one n h = ground (arith, h)

  octet_text_two :
      (n : ℕ) → (c == 48) ≡ false → octet_digits 0 (c ∷ d ∷ []) ≡ some n → octet_text n ≡ c ∷ d ∷ []
  unfolding octet_digits octet_text
  octet_text_two n lead h = ground (arith, h)

  octet_text_three :
      (n : ℕ)
      → (c == 48) ≡ false
      → octet_digits 0 (c ∷ d ∷ e ∷ []) ≡ some n
      → octet_text n ≡ c ∷ d ∷ e ∷ []
  unfolding octet_digits octet_text
  octet_text_three n lead h = ground (arith, h)

  octet_text_long : (n : ℕ) → (c == 48) ≡ false → octet_digits 0 (c ∷ d ∷ e ∷ f ∷ s) ≢ some n
  unfolding octet_digits
  octet_text_long n lead h = ground (arith, h)

octet_text_more :
    (c d : ℕ) (s : Bytes) (n : ℕ)
    → (c == 48) ≡ false
    → octet_digits 0 (c ∷ d ∷ s) ≡ some n
    → octet_text n ≡ c ∷ d ∷ s
octet_text_more c d [] n lead h = octet_text_two c d c c [] n lead h
octet_text_more c d (e ∷ []) n lead h = octet_text_three c d e c [] n lead h
octet_text_more c d (e ∷ f ∷ s) n lead h = absurd (octet_text_long c d e f s n lead h)

four_octets-some :
    (a b c d : Option ℕ) (i : Ip)
    → four_octets a b c d ≡ some i
    → (a ≡ some i.a) × (b ≡ some i.b) × (c ≡ some i.c) × (d ≡ some i.d)
unfolding four_octets
four_octets-some none b c d i h = absurd (cc)
four_octets-some (some a) none c d i h = absurd (cc)
four_octets-some (some a) (some b) none d i h = absurd (cc)
four_octets-some (some a) (some b) (some c) none i h = absurd (cc)
four_octets-some (some a) (some b) (some c) (some d) i h =
    (ground (arith, h), ground (arith, h), ground (arith, h), ground (arith, h))

-- an octet that reads is written in one way
octet_text-parse_octet : (t : Bytes) (n : ℕ) → parse_octet t ≡ some n → octet_text n ≡ t
unfolding parse_octet
octet_text-parse_octet [] n h = absurd (cc)
octet_text-parse_octet (c ∷ []) n h = octet_text_one c c c c [] n h
octet_text-parse_octet (c ∷ d ∷ s) n h = elim (Bool-cases (c == 48)) [
  | inl lead ↦ let bad : none ≡ some n = rw (lead, parse_octet) at h in absurd (cc)
  | inr digit ↦
      let read : octet_digits 0 (c ∷ d ∷ s) ≡ some n = rw (digit, parse_octet) at h in
      octet_text_more c d s n digit read
]

parse_fields-some :
    (parts : List Bytes) (i : Ip)
    → parse_fields parts ≡ some i
    → parts ≡ octet_text i.a ∷ octet_text i.b ∷ octet_text i.c ∷ octet_text i.d ∷ []
unfolding parse_fields
parse_fields-some [] i h = absurd (cc)
parse_fields-some (a ∷ []) i h = absurd (cc)
parse_fields-some (a ∷ b ∷ []) i h = absurd (cc)
parse_fields-some (a ∷ b ∷ c ∷ []) i h = absurd (cc)
parse_fields-some (a ∷ b ∷ c ∷ d ∷ []) i h =
    let (ea, eb, ec, ed) = four_octets-some _ _ _ _ i h in
    rw
      (
        octet_text-parse_octet a i.a ea,
        octet_text-parse_octet b i.b eb,
        octet_text-parse_octet c i.c ec,
        octet_text-parse_octet d i.d ed,
      )
      refl
parse_fields-some (a ∷ b ∷ c ∷ d ∷ e ∷ more) i h = absurd (cc)

join-split_cons : (b x : ℕ) (ps : List Bytes) → join b (split_cons x ps) ≡ x ∷ join b ps
unfolding join split_cons
join-split_cons b x [] = refl
join-split_cons b x (p ∷ []) = refl
join-split_cons b x (p ∷ q ∷ ps) = refl

split-some : (b : ℕ) (s : Bytes) → (p : Bytes) × (ps : List Bytes) × (split b s ≡ p ∷ ps)
unfolding split split_cons
split-some b [] = ([], [], refl)
split-some b (x ∷ s) = elim (Bool-cases (x == b)) [
  | inl sep ↦ ([], split b s, rw (sep, split) refl)
  | inr other ↦
      let (p, ps, parts) = split-some b s in (x ∷ p, ps, rw (other, parts, split, split_cons) refl)
]

join-split : (b : ℕ) (s : Bytes) → join b (split b s) ≡ s
unfolding join split
join-split b [] = refl
join-split b (x ∷ s) = elim (Bool-cases (x == b)) [
  | inl sep ↦
      let same : x ≡ b = ground arith in
      let (p, ps, parts) = split-some b s in
      let rest : join b (p ∷ ps) ≡ s = rw (sym parts) (join-split b s) in
      rw (sep, parts, split, join) (ap (λ t. b ∷ t) rest ∙ ap (λ c. c ∷ s) (sym same))
  | inr other ↦
      rw (other, split) (join-split_cons b x (split b s) ∙ ap (λ t. x ∷ t) (join-split b s))
]

-- An address that reads, from a text without a colon, is written in one way.
pub ip_text-parse_ip :
    (s : Bytes) (i : Ip) → contains_byte b':' s ≡ false → parse_ip s ≡ some i → ip_text i ≡ s
unfolding parse_ip ip_text join
ip_text-parse_ip s i dots h =
    let read : parse_fields (split b'.' s) ≡ some i = rw (dots, parse_ip) at h in
    let parts = parse_fields-some (split b'.' s) i read in
    sym (ap (join b'.') parts) ∙ join-split b'.' s
