-- ===== src/Answer/Upstream.antt =====
-- upstream.go: which servers a query is sent on to. What the system's command and files say are texts; a
-- file that cannot be read is empty. What `net.ParseIP` makes of a text with colons is the argument
-- `colons`.
use doze_names.Prelude.{
  ℕ, ◌+◌, length, Bool, true, false, not, ◌&&◌, ◌||◌, List, [], ◌∷◌, ◌++◌, Option, none, some, ltb,
  ◌≡◌, refl, sym, ap, ◌∙◌, ◌≢◌, ◌⊎◌, arith, Option-cases, if◌then◌else◌, Bool-cases, inl, inr, All,
}
use doze_names.Text.{Bytes, codes, eq_bytes, has_prefix, contains_byte, cut, split}
use doze_names.Text.Space.{fields, trim_space}
use doze_names.Strings.{member}
use doze_names.Net.{Ip, ip_text, octet_text, parse_ip}
use doze_names.Net.Text.{ip_text-parse_ip}

-- `upstreamRefresh`, in nanoseconds
abbrev pub upstream_refresh : ℕ
upstream_refresh = 60000000000

-- `own`; the last is `resolverIP`
unfoldable pub own : Bytes → Bool
own ip =
    eq_bytes ip (codes "127.0.0.53")
    || eq_bytes ip (codes "127.0.0.54")
    || eq_bytes ip (codes "192.0.2.53")

-- `bufio.MaxScanTokenSize`: the scanner stops at a line that has as many bytes
abbrev max_line : ℕ
max_line = 65536

-- The addresses that ask this resolver for what is not in the zone: systemd-resolved's stub, its proxy, and
-- the zone's own.
abbrev pub resolved_stub : Ip
resolved_stub = record { a = 127; b = 0; c = 0; d = 53 }

abbrev pub resolved_proxy : Ip
resolved_proxy = record { a = 127; b = 0; c = 0; d = 54 }

abbrev pub zone_ip : Ip
zone_ip = record { a = 192; b = 0; c = 2; d = 53 }

own_other :
    (ip : Bytes) (a x : Ip)
    → contains_byte b':' ip ≡ false
    → parse_ip ip ≡ some a
    → own ip ≡ false
    → own (ip_text x) ≡ true
    → a ≢ x
own_other ip a x dots known other own_x same =
    let text : ip_text x ≡ ip = ap ip_text (sym same) ∙ ip_text-parse_ip ip a dots known in
    let bad : true ≡ false = sym own_x ∙ ap own text ∙ other in absurd (cc)

-- `net.JoinHostPort(ip, "53")`
unfoldable pub server_at : Bytes → Bytes
server_at ip =
    if contains_byte b':' ip || contains_byte b'%' ip
    then b'[' ∷ (ip ++ codes "]:53")
    else ip ++ codes ":53"

module _ (colons : Bytes → Bool) where
  -- is it an address?
  unfoldable pub is_ip : Bytes → Bool
  is_ip s =
      if contains_byte b':' s then colons s else elim (parse_ip s) [ none ↦ false | some ip ↦ true ]

  -- an address that may be asked
  unfoldable pub may_ask : Bytes → Bool
  may_ask ip = is_ip ip && not (own ip)

  -- the server of a line of resolv.conf, before the others
  unfoldable pub named_server : List Bytes → List Bytes → List Bytes
  named_server (word ∷ ip ∷ more) others =
      if eq_bytes word (codes "nameserver") && may_ask ip then server_at ip ∷ others else others
  named_server _ others = others

  unfoldable pub servers_of : List Bytes → List Bytes
  servers_of [] = []
  servers_of (line ∷ lines) =
      let rest = servers_of lines in
      if ltb (length line) max_line then named_server (fields line) rest else []

  -- `resolvConfServers`
  unfoldable pub resolv_conf_servers : Bytes → List Bytes
  resolv_conf_servers text = servers_of (split 10 text)

  -- the value of a nameserver line of `scutil --dns`, before what is said of the lines behind it
  unfoldable pub scutil_server :
      List Bytes → Option (Bytes × Bytes) → (List Bytes → List Bytes) → List Bytes
  scutil_server seen none rest = rest seen
  scutil_server seen (some (_, v)) rest =
      let ip = trim_space v in
      let listed = server_at ip ∷ rest (ip ∷ seen) in
      let passed = rest seen in if may_ask ip && not (member ip seen) then listed else passed

  -- the loop of `scutilResolvers`
  unfoldable pub scutil_lines : Bool → List Bytes → List Bytes → List Bytes
  scutil_lines scoped seen [] = []
  scutil_lines scoped seen (line ∷ lines) =
      let f = trim_space line in
      let opened = scutil_lines false seen lines in
      let closed = scutil_lines true seen lines in
      let named = scutil_server seen (cut b':' f) (λ s. scutil_lines scoped s lines) in
      let same = scutil_lines scoped seen lines in
      if has_prefix f (codes "resolver #")
      then opened
      else if has_prefix f (codes "domain ")
      then closed
      else if has_prefix f (codes "nameserver[") && not scoped
      then named
      else same

  -- `scutilResolvers`
  unfoldable pub scutil_resolvers : Bytes → List Bytes
  scutil_resolvers text = scutil_lines false [] (split 10 text)

  -- what `find` reads: on a Mac the command's text, else the two files
  unfoldable pub read_servers : (darwin : Bool) → (scutil resolved etc : Bytes) → List Bytes
  read_servers darwin scutil resolved etc =
      if darwin then scutil_resolvers scutil else elim (resolv_conf_servers resolved) [
        | [] ↦ resolv_conf_servers etc
        | s ∷ more ↦ s ∷ more
      ]

  -- `upstreams`: the list, and when it was read; an empty list is nil
  unfoldable pub find : (now : ℕ) → List Bytes → ℕ × List Bytes → ℕ × List Bytes
  find now read (at, []) = (now, read)
  find now read (at, s ∷ more) =
      if ltb now (at + upstream_refresh) then (at, s ∷ more) else (now, read)

  -- a server that is at an address, which is written with colons or is none of those that ask back
  abbrev pub IsOutside : Bytes → Type 0
  IsOutside server =
      (ip : Bytes) × (server ≡ server_at ip)
      × (is_ip ip ≡ true)
      × ((contains_byte b':' ip ≡ true)
          ⊎ ((a : Ip) × (parse_ip ip ≡ some a)
              × (a ≢ resolved_stub)
              × (a ≢ resolved_proxy)
              × (a ≢ zone_ip)))

  may_ask-IsOutside : (ip : Bytes) → may_ask ip ≡ true → IsOutside (server_at ip)
  unfolding may_ask is_ip own ip_text octet_text eq_bytes
  may_ask-IsOutside ip h =
      let read : is_ip ip ≡ true = ground (arith, h) in
      let other : own ip ≡ false = ground (arith, h) in
      (
        ip,
        refl,
        read,
        elim (Bool-cases (contains_byte b':' ip)) [
          | inl colon ↦ inl colon
          | inr dots ↦ elim (Option-cases (parse_ip ip)) [
            | inl unread ↦ let bad : false ≡ true = rw (dots, unread, is_ip) at read in absurd (cc)
            | inr (a, known) ↦ inr (
              a,
              known,
              own_other ip a resolved_stub dots known other refl,
              own_other ip a resolved_proxy dots known other refl,
              own_other ip a zone_ip dots known other refl,
            )
          ]
        ],
      )

  named_server-IsOutside :
      (words others : List Bytes) → All IsOutside others → All IsOutside (named_server words others)
  unfolding named_server
  named_server-IsOutside [] others all = all
  named_server-IsOutside (word ∷ []) others all = all
  named_server-IsOutside (word ∷ ip ∷ more) others all =
      elim (Bool-cases (eq_bytes word (codes "nameserver") && may_ask ip)) [
        | inl asked ↦ rw (asked) (may_ask-IsOutside ip (ground arith), all)
        | inr other ↦ rw (other) all
      ]

  servers_of-IsOutside : (lines : List Bytes) → All IsOutside (servers_of lines)
  unfolding servers_of
  servers_of-IsOutside [] = tt
  servers_of-IsOutside (line ∷ lines) = elim (Bool-cases (ltb (length line) max_line)) [
    | inl short ↦
        rw short
          (named_server-IsOutside (fields line) (servers_of lines) (servers_of-IsOutside lines))
    | inr long ↦ rw long tt
  ]

  scutil_server-IsOutside :
      (seen : List Bytes) (parts : Option (Bytes × Bytes)) (rest : List Bytes → List Bytes)
      → ((s : List Bytes) → All IsOutside (rest s))
      → All IsOutside (scutil_server seen parts rest)
  unfolding scutil_server
  scutil_server-IsOutside seen none rest all = all seen
  scutil_server-IsOutside seen (some (name, v)) rest all =
      let ip = trim_space v in
      elim (Bool-cases (may_ask ip && not (member ip seen))) [
        | inl listed ↦ rw (listed) (may_ask-IsOutside ip (ground arith), all (ip ∷ seen))
        | inr passed ↦ rw (passed) (all seen)
      ]

  scutil_lines-IsOutside :
      (scoped : Bool) (seen lines : List Bytes) → All IsOutside (scutil_lines scoped seen lines)
  unfolding scutil_lines
  scutil_lines-IsOutside scoped seen [] = tt
  scutil_lines-IsOutside scoped seen (line ∷ lines) =
      let f = trim_space line in
      elim (Bool-cases (has_prefix f (codes "resolver #"))) [
        | inl opened ↦ rw (opened) (scutil_lines-IsOutside false seen lines)
        | inr inside ↦ elim (Bool-cases (has_prefix f (codes "domain "))) [
          | inl closed ↦ rw (inside, closed) (scutil_lines-IsOutside true seen lines)
          | inr plain ↦ elim (Bool-cases (has_prefix f (codes "nameserver[") && not scoped)) [
            | inl named ↦
                rw (inside, plain, named)
                  (scutil_server-IsOutside seen (cut b':' f) (λ s. scutil_lines scoped s lines)
                    (λ s. scutil_lines-IsOutside scoped s lines))
            | inr same ↦ rw (inside, plain, same) (scutil_lines-IsOutside scoped seen lines)
          ]
        ]
      ]

  resolv_conf_servers-IsOutside : (text : Bytes) → All IsOutside (resolv_conf_servers text)
  unfolding resolv_conf_servers
  resolv_conf_servers-IsOutside text = servers_of-IsOutside (split 10 text)

  or_else-IsOutside :
      (first second : List Bytes)
      → All IsOutside first
      → All IsOutside second
      → All IsOutside (elim first as (λ s. List Bytes) [ [] ↦ second | s ∷ more ↦ s ∷ more ])
  or_else-IsOutside [] second a b = b
  or_else-IsOutside (s ∷ more) second a b = a

  read_servers-IsOutside :
      (darwin : Bool) (scutil resolved etc : Bytes)
      → All IsOutside (read_servers darwin scutil resolved etc)
  unfolding read_servers scutil_resolvers
  read_servers-IsOutside true scutil resolved etc =
      scutil_lines-IsOutside false [] (split 10 scutil)
  read_servers-IsOutside false scutil resolved etc =
      or_else-IsOutside (resolv_conf_servers resolved) (resolv_conf_servers etc)
        (resolv_conf_servers-IsOutside resolved) (resolv_conf_servers-IsOutside etc)

  -- Whatever the system's command and files say, on each platform, and whatever the age of the list, each
  -- server that is kept stands at an address that reads as one, and an address that is not written with
  -- colons is none of the three that would ask back: 127.0.0.53 and 127.0.0.54, which are
  -- systemd-resolved's, and the zone's own 192.0.2.53. The list was so before. Of an address with colons
  -- no more is said.
  pub find-IsOutside :
      (now at : ℕ) (darwin : Bool) (scutil resolved etc : Bytes) (kept : List Bytes)
      → All IsOutside kept
      → All IsOutside (find now (read_servers darwin scutil resolved etc) (at, kept)).1
  unfolding find
  find-IsOutside now at darwin scutil resolved etc [] all =
      read_servers-IsOutside darwin scutil resolved etc
  find-IsOutside now at darwin scutil resolved etc (s ∷ more) all =
      elim (Bool-cases (ltb now (at + upstream_refresh))) [
        | inl young ↦ rw (young) all
        | inr old ↦ rw (old) (read_servers-IsOutside darwin scutil resolved etc)
      ]
