-- ===== src/Setup/Linux/Scripts.antt =====
-- setup_linux.go: the scripts of `install` and `uninstall`, line by line.
use doze_names.Prelude.{
  ℕ, Bool, true, false, not, List, [], ◌∷◌, ◌++◌, map, Option, none, some, if◌then◌else◌,
}
use doze_names.Text.{Bytes, Unicode, codes, eq_bytes, has_prefix}
use doze_names.Pool.{loopback_net}
use doze_names.Setup.{replace_hosts_block, apex_hosts_block, shell_quote}
use doze_names.Setup.Manager.{Manager, mgr_resolved}
use doze_names.Setup.Person.{Person, setup_user, setup_registry}
use doze_names.Setup.Linux.{
  Machine, hosts_path, sysctl_path, dnsmasq_drop, unit_path, netd_path, netd_unit_path, netd_unit,
  zone_unit, detect, routes,
}

-- The formats that the scripts are written with: one that writes a file with `printf`, the same
-- behind `mkdir` and allowed to fail, the copy of the program, `rm -f`, `rm -rf`, and the lines that
-- leave every file named here as it is.
pub data Line : Type 0 where
  write : (text path : Bytes) → Line
  try_write : (dir text path : Bytes) → Line
  copy_program : (dir program path : Bytes) → Line
  remove : (paths : List Bytes) → Line
  remove_tree : (dir : Bytes) → Line
  command : (text : Bytes) → Line

unfoldable pub words : List Bytes → Bytes
words [] = []
words (p ∷ ps) = 32 ∷ (p ++ words ps)

-- a line as it stands in the script
unfoldable pub line_text : Line → Bytes
line_text (write text path) =
    codes "printf " ++ (shell_quote text ++ (codes " > " ++ (path ++ (10 ∷ []))))
line_text (try_write dir text path) =
    codes "mkdir -p "
    ++ (dir
        ++ (codes " && printf "
            ++ (shell_quote text ++ (codes " > " ++ (path ++ codes " || true\n")))))
line_text (copy_program dir program path) =
    codes "mkdir -p "
    ++ (shell_quote dir
        ++ (codes " && cp -f "
            ++ (shell_quote program
                ++ (32
                    ∷ (path
                        ++ (codes " && chown root:root "
                            ++ (path ++ (codes " && chmod 755 " ++ (path ++ (10 ∷ []))))))))))
line_text (remove paths) = codes "rm -f" ++ (words paths ++ (10 ∷ []))
line_text (remove_tree dir) = codes "rm -rf " ++ (shell_quote dir ++ (10 ∷ []))
line_text (command text) = text ++ (10 ∷ [])

unfoldable pub script_text : List Line → Bytes
script_text [] = []
script_text (l ∷ ls) = line_text l ++ script_text ls

abbrev pub sysctl_text : Bytes
sysctl_text =
    codes
      "# doze: lets the shared front door bind :80 unprivileged\nnet.ipv4.ip_unprivileged_port_start=80\n"

abbrev pub drop_text : Bytes
drop_text = codes "server=/doze/192.0.2.53#5323\n"

unfoldable pub is_resolved : Manager → Bool
is_resolved mgr_resolved = true
is_resolved _ = false

-- dnsmasq's own drop-in, where resolved is not the resolver
unfoldable pub dnsmasq_lines : (resolved : Bool) → List Line
dnsmasq_lines resolved =
    if not resolved
    then command (codes "mkdir -p /etc/dnsmasq.d")
      ∷ write drop_text dnsmasq_drop
      ∷ command (codes "systemctl restart dnsmasq 2>/dev/null || true")
      ∷ []
    else []

-- the daemon's lines
unfoldable pub daemon_lines : (program registry : Bytes) → (uid gid : ℕ) → List Line
daemon_lines program registry uid gid =
    copy_program (codes "/usr/local/libexec") program netd_path
    ∷ write (netd_unit registry uid gid) netd_unit_path
    ∷ command (
        codes
          "systemctl daemon-reload && systemctl enable --now doze-netd.service && systemctl restart doze-netd.service")
    ∷ []

-- the lines of a machine that can route a domain
unfoldable pub zone_lines :
    (resolved : Bool) → (program registry : Bytes) → (uid gid : ℕ) → List Line
zone_lines resolved program registry uid gid =
    write (zone_unit resolved) unit_path
    ∷ command (codes "systemctl daemon-reload && systemctl enable --now doze-names.service")
    ∷ command (codes "systemctl restart doze-names.service")
    ∷ (dnsmasq_lines resolved ++ daemon_lines program registry uid gid)

-- the lines that every machine gets, for the hosts file to write
unfoldable pub first_lines : (hosts : Bytes) → List Line
first_lines hosts =
    command (codes "set -e")
    ∷ try_write (codes "/etc/sysctl.d") sysctl_text sysctl_path
    ∷ command (codes "sysctl -q -p /etc/sysctl.d/60-doze.conf || true")
    ∷ write hosts hosts_path
    ∷ []

-- what can go wrong before a script is run
pub data Refusal : Type 0 where
  no_hosts no_user no_program : Refusal

pub data Plan : Type 0 where
  refused : Refusal → Plan
  planned : (lines : List Line) → Plan

-- the zone's lines, for the user and the program, if both are known
unfoldable pub with_zone :
    (hosts : Bytes) → Manager → (registry : Bytes) → Option (ℕ × ℕ) → Option Bytes → Plan
with_zone hosts m registry none program = refused no_user
with_zone hosts m registry (some (uid, gid)) none = refused no_program
with_zone hosts m registry (some (uid, gid)) (some program) =
    planned (first_lines hosts ++ zone_lines (is_resolved m) program registry uid gid)

-- the lines of `uninstall`; `cleanup` are those of `cleanupScript`
unfoldable pub removal_lines : (hosts : Bytes) → (cleanup : List Bytes) → List Line
removal_lines hosts cleanup =
    command (codes "set -e")
    ∷ command (codes "systemctl disable --now doze-netd.service 2>/dev/null || true")
    ∷ command (codes "systemctl disable --now doze-names.service 2>/dev/null || true")
    ∷ command (codes "ip link del doze0 2>/dev/null || true")
    ∷ remove (sysctl_path ∷ unit_path ∷ dnsmasq_drop ∷ netd_unit_path ∷ netd_path ∷ [])
    ∷ command (codes "systemctl daemon-reload 2>/dev/null || true")
    ∷ write hosts hosts_path
    ∷ command (codes "sysctl -q --system 2>/dev/null || true")
    ∷ command (codes "systemctl restart systemd-resolved 2>/dev/null || true")
    ∷ command (codes "systemctl restart dnsmasq 2>/dev/null || true")
    ∷ remove_tree (codes "/etc/systemd/system/doze-names.service.d")
    ∷ map command cleanup

-- the script of `uninstall`
unfoldable pub uninstall_plan : Machine → (cleanup : List Bytes) → Plan
uninstall_plan m cleanup = elim (m.read hosts_path) [
  | none ↦ refused no_hosts
  | some hosts ↦ planned (removal_lines (replace_hosts_block hosts []) cleanup)
]

module _ ⦃u : Unicode⦄ where
  -- the script of `install`; `program` is `os.Executable()`
  unfoldable pub install_plan :
      (join : Bytes → Bytes → Bytes) → Machine → Person → (program : Option Bytes) → Plan
  install_plan join m p program = elim (m.read hosts_path) [
    | none ↦ refused no_hosts
    | some old ↦
        let hosts = replace_hosts_block old (apex_hosts_block loopback_net) in
        if routes m
        then with_zone hosts (detect m) (setup_registry join p) (setup_user p) program
        else planned (first_lines hosts)
  ]

-- what a program reads at a path
abbrev pub Files : Type 0
Files = Bytes → Option Bytes

unfoldable pub set_file : Bytes → Option Bytes → Files → Files
set_file path text files p = if eq_bytes p path then text else files p

unfoldable pub without_files : List Bytes → Files → Files
without_files [] files = files
without_files (q ∷ qs) files = set_file q none (without_files qs files)

-- What a line that succeeds leaves of the files. `printf` is what the shell's printf writes for a
-- format and nothing else, and `tried` says whether the line that is allowed to fail succeeded.
unfoldable pub after_line : (printf : Bytes → Bytes) → (tried : Bool) → Line → Files → Files
after_line printf tried (write text path) files = set_file path (some (printf text)) files
after_line printf tried (try_write dir text path) files =
    if tried then set_file path (some (printf text)) files else files
after_line printf tried (copy_program dir program path) files = set_file path (files program) files
after_line printf tried (remove paths) files = without_files paths files
after_line printf tried (remove_tree dir) files =
    λ p. if has_prefix p (dir ++ (b'/' ∷ [])) then none else files p
after_line printf tried (command text) files = files

unfoldable pub after_lines : (printf : Bytes → Bytes) → (tried : Bool) → List Line → Files → Files
after_lines printf tried [] files = files
after_lines printf tried (l ∷ ls) files =
    after_lines printf tried ls (after_line printf tried l files)

-- what a plan that is refused, or whose lines all succeed, leaves
unfoldable pub after_plan : (printf : Bytes → Bytes) → (tried : Bool) → Plan → Files → Files
after_plan printf tried (refused why) files = files
after_plan printf tried (planned lines) files = after_lines printf tried lines files
