-- ===== src/Net.antt =====
-- The part of the package `net` that the repository uses on IPv4 addresses: four octets, their text
-- (`IP.String`) and its reading (`ParseIP` and `To4`: a text with colons is an IPv6 address, which is
-- no IPv4 address unless it is a mapped one, `::ffff:1.2.3.4` in any of its spellings).
pub mod Text
use doze_names.Prelude.{
  ℕ, ◌+◌, ◌-◌, ◌*◌, ◌/◌, ◌%◌, Bool, true, false, ◌&&◌, ◌||◌, not, [], ◌∷◌, ◌++◌, List, length, zero,
  suc, Option, none, some, ltb, leb, ◌==◌, if◌then◌else◌,
}
use doze_names.Text.{Bytes, codes, split, cut, contains_byte}

pub record Ip : Type 0 where
  pub a : ℕ
  pub b : ℕ
  pub c : ℕ
  pub d : ℕ

-- one octet in decimal
unfoldable pub octet_text : ℕ → Bytes
octet_text n =
    if ltb n 10
    then (b'0' + n) ∷ []
    else if ltb n 100
    then (b'0' + n / 10) ∷ (b'0' + n % 10) ∷ []
    else (b'0' + n / 100) ∷ (b'0' + n / 10 % 10) ∷ (b'0' + n % 10) ∷ []

unfoldable pub ip_text : Ip → Bytes
ip_text i =
    octet_text i.a
    ++ (b'.' ∷ (octet_text i.b ++ (b'.' ∷ (octet_text i.c ++ (b'.' ∷ octet_text i.d)))))

-- the digits of an octet; the value may not pass 255
unfoldable pub octet_digits : ℕ → Bytes → Option ℕ
octet_digits n [] = some n
octet_digits n (c ∷ s) =
    let v = n * 10 + (c - b'0') in
    let rest = octet_digits v s in
    if leb b'0' c && leb c b'9' && not (ltb 255 v) then rest else none

-- an octet has a digit, and no zero in front of another digit
unfoldable pub parse_octet : Bytes → Option ℕ
unfolding octet_digits
parse_octet [] = none
parse_octet (c ∷ []) = octet_digits 0 (c ∷ [])
parse_octet (c ∷ d ∷ s) = if c == b'0' then none else octet_digits 0 (c ∷ d ∷ s)

unfoldable pub four_octets : Option ℕ → Option ℕ → Option ℕ → Option ℕ → Option Ip
four_octets (some a) (some b) (some c) (some d) = some (record { a = a; b = b; c = c; d = d })
four_octets _ _ _ _ = none

unfoldable pub parse_fields : List Bytes → Option Ip
unfolding parse_octet four_octets
parse_fields (a ∷ b ∷ c ∷ d ∷ []) =
    four_octets (parse_octet a) (parse_octet b) (parse_octet c) (parse_octet d)
parse_fields _ = none

unfoldable pub hex_digit : ℕ → Option ℕ
hex_digit c =
    if leb b'0' c && leb c b'9'
    then some (c - b'0')
    else if leb b'a' c && leb c b'f'
    then some (c - 87)
    else if leb b'A' c && leb c b'F'
    then some (c - 55)
    else none

unfoldable pub hex_digits : ℕ → Bytes → Option ℕ
hex_digits n [] = some n
hex_digits n (c ∷ s) = elim (hex_digit c) [ none ↦ none | some v ↦ hex_digits (n * 16 + v) s ]

-- a field of an IPv6 address: one to four digits
unfoldable pub parse_group : Bytes → Option ℕ
parse_group [] = none
parse_group (c ∷ s) = if ltb 3 (length s) then none else hex_digits 0 (c ∷ s)

unfoldable pub cons_group : Option ℕ → Option (List ℕ) → Option (List ℕ)
cons_group (some g) (some gs) = some (g ∷ gs)
cons_group _ _ = none

-- the two fields that an IPv4 address stands for
unfoldable pub embedded : Option Ip → Option (List ℕ)
embedded none = none
embedded (some i) = some ((i.a * 256 + i.b) ∷ (i.c * 256 + i.d) ∷ [])

-- fields in a row, the last of which may be an IPv4 address if it is the text's end
unfoldable pub groups : (at_end : Bool) → List Bytes → Option (List ℕ)
groups at_end [] = some []
groups at_end (f ∷ []) =
    if at_end && contains_byte b'.' f
    then embedded (parse_fields (split b'.' f))
    else cons_group (parse_group f) (some [])
groups at_end (f ∷ g ∷ fs) = cons_group (parse_group f) (groups at_end (g ∷ fs))

-- the fields on one side of the double colon
unfoldable pub side_groups : (at_end : Bool) → Bytes → Option (List ℕ)
side_groups at_end [] = some []
side_groups at_end (c ∷ s) = groups at_end (split b':' (c ∷ s))

-- what stands before and behind the first double colon
unfoldable pub cut_double : Bytes → Option (Bytes × Bytes)
cut_double [] = none
cut_double (c ∷ []) = none
cut_double (c ∷ d ∷ s) =
    if c == b':' && d == b':'
    then some ([], s)
    else elim (cut_double (d ∷ s)) [ none ↦ none | some (before, after) ↦ some (c ∷ before, after) ]

unfoldable pub zeros : ℕ → List ℕ
zeros zero = []
zeros (suc n) = 0 ∷ zeros n

-- the eight fields, where the double colon stands for one zero or more
unfoldable pub padded : Option (List ℕ) → Option (List ℕ) → Option (List ℕ)
padded (some before) (some after) =
    let n = length before + length after in
    if ltb n 8 then some (before ++ (zeros (8 - n) ++ after)) else none
padded _ _ = none

unfoldable pub all_groups : Bytes → Option (List ℕ)
all_groups s = elim (cut_double s) [
  | none ↦ groups true (split b':' s)
  | some (before, after) ↦ padded (side_groups false before) (side_groups true after)
]

-- the IPv4 address that an IPv6 address is mapped from
unfoldable pub mapped_from : Option (List ℕ) → Option Ip
mapped_from (some (z ∷ y ∷ x ∷ w ∷ v ∷ mark ∷ high ∷ low ∷ [])) =
    if z == 0 && y == 0 && x == 0 && w == 0 && v == 0 && mark == 65535
    then some (record { a = high / 256; b = high % 256; c = low / 256; d = low % 256 })
    else none
mapped_from _ = none

-- `net.ParseIP(s).To4()`
unfoldable pub parse_ip : Bytes → Option Ip
unfolding parse_fields split
parse_ip s =
    if contains_byte b':' s then mapped_from (all_groups s) else parse_fields (split b'.' s)

-- what stands before and behind the last colon
unfoldable pub cut_last_colon : Bytes → Option (Bytes × Bytes)
cut_last_colon [] = none
cut_last_colon (c ∷ s) = elim (cut_last_colon s) [
  | some (before, after) ↦ some (c ∷ before, after)
  | none ↦ if c == b':' then some ([], s) else none
]

-- a port behind a host, unless there is a bracket that does not belong there
unfoldable pub plain_parts : Bytes → Bytes → Option (Bytes × Bytes)
plain_parts host port =
    if contains_byte b'[' host || contains_byte b'[' port || contains_byte b']' port
    then none
    else some (host, port)

unfoldable pub host_parts : Bytes → Bytes → Option (Bytes × Bytes)
host_parts [] port = plain_parts [] port
host_parts (c ∷ r) port =
    if c == b'['
    then (elim (cut b']' r) [
      | none ↦ none
      | some (host, []) ↦ plain_parts host port
      | some (host, _ ∷ _) ↦ none
    ])
    else if contains_byte b':' (c ∷ r) || contains_byte b']' (c ∷ r)
    then none
    else plain_parts (c ∷ r) port

-- `net.SplitHostPort(s)`
unfoldable pub split_host_port : Bytes → Option (Bytes × Bytes)
split_host_port s = elim (cut_last_colon s) [
  | none ↦ none
  | some (before, port) ↦ host_parts before port
]
