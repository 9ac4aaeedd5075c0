-- ===== src/Setup.antt =====
-- The texts that setup.go makes: the managed block of the hosts file, and what is handed to a shell.
pub mod Quoting
pub mod Manager
pub mod Person
pub mod Status
pub mod Linux
pub mod Darwin
pub mod Contains
pub mod Hosts
use doze_names.Prelude.{
  ℕ, zero, suc, ◌+◌, Bool, true, false, not, ◌&&◌, List, [], ◌∷◌, ◌++◌, Option, none, some, ◌==◌,
  if◌then◌else◌, length, take, drop, get_elem?,
}
use doze_names.Text.{Bytes, Unicode, codes, eq_bytes, has_prefix, has_suffix, drop_last, trim_right}
use doze_names.Names.{Name, apex_name}
use doze_names.Net.{Ip, ip_text}
use doze_names.Pool.{Network, apex_addr}

-- `hostsBegin`, whose dash is three bytes of UTF-8
abbrev pub hosts_begin : Bytes
hosts_begin = codes "# BEGIN doze " ++ (226 ∷ 128 ∷ 148 ∷ codes " managed, safe to delete")

-- `hostsEnd`
abbrev pub hosts_end : Bytes
hosts_end = codes "# END doze"

-- `strings.Index(s, t)`
unfoldable pub index_of : Bytes → Bytes → Option ℕ
index_of [] t = if has_prefix [] t then some 0 else none
index_of (c ∷ s) t =
    let rest = index_of s t in
    if has_prefix (c ∷ s) t then some 0 else elim rest [ none ↦ none | some i ↦ some (suc i) ]

-- `strings.TrimSuffix(s, "\n")`
unfoldable pub trim_newline : Bytes → Bytes
trim_newline s = if has_suffix s (10 ∷ []) then drop_last s else s

-- a newline at the end of a text that is not empty
unfoldable pub end_line : Bytes → Bytes
end_line s = if not (eq_bytes s []) && not (has_suffix s (10 ∷ [])) then s ++ (10 ∷ []) else s

-- where the block ends that starts at `start`
unfoldable pub block_end : Bytes → ℕ → ℕ
block_end hosts start = elim (index_of (drop start hosts) hosts_end) [
  | none ↦ start + length hosts_begin
  | some rel ↦
      let end = start + rel + length hosts_end in
      elim (get_elem? hosts end) [ none ↦ end | some c ↦ if c == 10 then end + 1 else end ]
]

-- the file without the block, or with another in its place
unfoldable pub splice : Bytes → ℕ → ℕ → Bytes → Bytes
splice hosts start end want =
    if eq_bytes want []
    then end_line (trim_newline (take start hosts)) ++ drop end hosts
    else take start hosts ++ (want ++ drop end hosts)

-- `replaceHostsBlock`
unfoldable pub replace_hosts_block : Bytes → Bytes → Bytes
replace_hosts_block hosts want = elim (index_of hosts hosts_begin) [
  | none ↦ if eq_bytes want [] then hosts else end_line hosts ++ (10 ∷ want)
  | some start ↦ splice hosts start (block_end hosts start) want
]

-- `apexServices`: the reserved services, by address
abbrev pub apex_services : List Bytes
apex_services = codes "aws" ∷ codes "kafka" ∷ []

module _ ⦃u : Unicode⦄ where
  -- one line of the block
  unfoldable pub hosts_line : Network → Bytes → Bytes
  hosts_line net svc = elim (apex_addr net svc) [
    | none ↦ codes "<nil>" ++ (9 ∷ ((apex_name svc).host ++ (10 ∷ [])))
    | some ip ↦ ip_text ip ++ (9 ∷ ((apex_name svc).host ++ (10 ∷ [])))
  ]

  unfoldable pub hosts_lines : Network → List Bytes → Bytes
  hosts_lines net [] = hosts_end ++ (10 ∷ [])
  hosts_lines net (svc ∷ more) = hosts_line net svc ++ hosts_lines net more

  -- `apexHostsBlock`
  unfoldable pub apex_hosts_block : Network → Bytes
  apex_hosts_block net = hosts_begin ++ (10 ∷ hosts_lines net apex_services)

-- `strings.ReplaceAll(s, "'", `'\''`)`
unfoldable pub escape_quotes : Bytes → Bytes
escape_quotes [] = []
escape_quotes (c ∷ s) =
    let rest = escape_quotes s in if c == b'\'' then b'\'' ∷ 92 ∷ b'\'' ∷ b'\'' ∷ rest else c ∷ rest

-- `shellQuote`
unfoldable pub shell_quote : Bytes → Bytes
shell_quote s = b'\'' ∷ (escape_quotes s ++ (b'\'' ∷ []))

-- `pasteable`
unfoldable pub pasteable : Bytes → Bytes
pasteable script =
    codes "sudo sh <<'DOZE_SETUP'\n" ++ (trim_right 10 script ++ codes "\nDOZE_SETUP\n")
