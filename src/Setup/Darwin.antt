-- ===== src/Setup/Darwin.antt =====
-- setup_darwin.go: the daemon's job, what `check` finds on a Mac, and the scripts of `install` and
-- `uninstall`.
pub mod Installed
pub mod Daemon
use doze_names.Prelude.{
  ℕ, Bool, true, false, not, ◌&&◌, List, [], ◌∷◌, ◌++◌, Option, none, some, ◌==◌, if◌then◌else◌,
  ltb,
}
use doze_names.Text.{Bytes, codes, eq_bytes, join}
use doze_names.Text.Space.{trim_space}
use doze_names.Decimal.{itoa, atoi}
use doze_names.Net.{split_host_port}
use doze_names.Names.Settings.{resolver_addr}
use doze_names.Setup.{shell_quote}
use doze_names.Setup.Person.{Person, setup_user, setup_registry, job_outdated}
use doze_names.Setup.Status.{Step, Status, status_ok}
use doze_names.Trust.Darwin.{is_ours}

abbrev pub launchd_path : Bytes
launchd_path = codes "/Library/LaunchDaemons/dev.doze.netd.plist"

abbrev pub helper_path : Bytes
helper_path = codes "/Library/PrivilegedHelperTools/dev.doze.netd"

abbrev pub resolver_path : Bytes
resolver_path = codes "/etc/resolver/doze"

abbrev pub old_launchd_path : Bytes
old_launchd_path = codes "/Library/LaunchDaemons/dev.doze.loopback.plist"

-- what `xmlEscape` writes for a byte
unfoldable pub xml_byte : ℕ → Bytes
xml_byte c =
    if c == b'&'
    then codes "&amp;"
    else if c == b'<'
    then codes "&lt;"
    else if c == b'>'
    then codes "&gt;"
    else c ∷ []

-- `xmlEscape`
unfoldable pub xml_escape : Bytes → Bytes
xml_escape [] = []
xml_escape (c ∷ s) = xml_byte c ++ xml_escape s

abbrev pub version_line : Bytes
version_line = codes "<key>DOZE_NETD_VERSION</key><string>3</string>"

unfoldable pub string_line : Bytes → Bytes
string_line s = codes "    <string>" ++ (s ++ codes "</string>\n")

abbrev pub plist_top : Bytes
plist_top =
    codes
      "<?xml version=\"1.0\" encoding=\"UTF-8\"?>\n<!DOCTYPE plist PUBLIC \"-//Apple//DTD PLIST 1.0//EN\" \"http://www.apple.com/DTDs/PropertyList-1.0.dtd\">\n<plist version=\"1.0\">\n<dict>\n  <key>Label</key><string>dev.doze.netd</string>\n  <key>RunAtLoad</key><true/>\n  <key>KeepAlive</key><true/>\n  <key>ThrottleInterval</key><integer>10</integer>\n  <key>StandardErrorPath</key><string>/var/log/doze-netd.log</string>\n  <key>EnvironmentVariables</key>\n  <dict>"

-- `launchdPlist`
unfoldable pub launchd_plist : (registry : Bytes) → (uid gid : ℕ) → Bytes
launchd_plist registry uid gid =
    plist_top
    ++ (version_line
        ++ (codes "</dict>\n  <key>ProgramArguments</key>\n  <array>\n"
            ++ (string_line helper_path
                ++ (string_line (codes "__doze-netd")
                    ++ (string_line (xml_escape registry)
                        ++ (string_line (itoa uid)
                            ++ (string_line (itoa gid)
                                ++ codes "  </array>\n</dict>\n</plist>\n")))))))

-- What a run finds on a Mac: the files that can be read, whether the gateway's address is up, and
-- DOZE_ZONE_RESOLVER.
pub record Mac : Type 0 where
  pub read : Bytes → Option Bytes
  pub gateway_up : Bool
  pub resolver_env : Bytes

-- the port of `ResolverAddr()`, empty where it has none
unfoldable pub resolver_port : Mac → Bytes
resolver_port m = elim (split_host_port (resolver_addr false m.resolver_env)) [
  | none ↦ []
  | some (host, port) ↦ port
]

-- `resolverInstalled`
unfoldable pub resolver_installed : Mac → Bool
resolver_installed m = elim (m.read resolver_path) [
  | none ↦ false
  | some raw ↦ is_ours (resolver_port m) raw
]

-- `netdOutdated` of the daemon's job
unfoldable pub netd_outdated : Mac → Bool
netd_outdated m = job_outdated (m.read launchd_path) version_line

unfoldable pub down_detail : Option Bytes → Bytes
down_detail job =
    codes "the doze network daemon is not running "
    ++ (226
        ∷ 128
        ∷ 148
        ∷ (codes " services cannot hold canonical ports"
            ++ elim job [ none ↦ [] | some raw ↦ codes " (see /var/log/doze-netd.log)" ]))

abbrev pub outdated_detail : Bytes
outdated_detail =
    codes "the doze network daemon is from an older doze "
    ++ (226
        ∷ 128
        ∷ 148
        ∷ codes
            " run setup again (one password) for this one: it keeps every service reachable when other doze programs share the machine")

-- the step of the network; a job that is there can be read, and `cidr` is the zone's block
unfoldable pub network_step : (cidr : Bytes) → Mac → Step
network_step cidr m = record {
  name = codes "network";
  done = m.gateway_up && not (netd_outdated m);
  detail =
      if not m.gateway_up
      then down_detail (m.read launchd_path)
      else if netd_outdated m
      then outdated_detail
      else cidr ++ codes " served by the doze network daemon";
}

unfoldable pub resolver_step : Mac → Step
resolver_step m = record {
  name = codes "resolver route";
  done = resolver_installed m;
  detail =
      if resolver_installed m
      then resolver_path ++ (32 ∷ 226 ∷ 134 ∷ 146 ∷ 32 ∷ resolver_addr false m.resolver_env)
      else resolver_path
        ++ (codes " missing " ++ (226 ∷ 128 ∷ 148 ∷ codes " .doze will not resolve"));
}

-- `check`
unfoldable pub check : (cidr : Bytes) → Mac → Status
check cidr m = record {
  platform = codes "darwin";
  steps = network_step cidr m ∷ resolver_step m ∷ [];
}

-- the script of `install`
unfoldable pub install_script : (program plist port : Bytes) → Bytes
install_script program plist port = join 10 (
    codes "set -e"
    ∷ (codes "launchctl bootout system " ++ (launchd_path ++ codes " 2>/dev/null || true"))
    ∷ (codes "launchctl bootout system " ++ (old_launchd_path ++ codes " 2>/dev/null || true"))
    ∷ (codes "rm -f " ++ old_launchd_path)
    ∷ (codes "mkdir -p " ++ shell_quote (codes "/Library/PrivilegedHelperTools"))
    ∷ (codes "cp -f " ++ (shell_quote program ++ (32 ∷ helper_path)))
    ∷ (codes "chown root:wheel " ++ helper_path)
    ∷ (codes "chmod 755 " ++ helper_path)
    ∷ (codes "cat > " ++ (launchd_path ++ codes " <<'PLIST'"))
    ∷ (plist ++ codes "PLIST")
    ∷ (codes "launchctl bootstrap system " ++ launchd_path)
    ∷ codes "mkdir -p /etc/resolver"
    ∷ (codes "printf 'nameserver 127.0.0.1"
        ++ (92 ∷ (codes "nport " ++ (port ++ (92 ∷ (codes "n' > " ++ resolver_path))))))
    ∷ [])

-- what `install` comes to: an error of the person to serve or of the program, nothing to do, or a script
pub data Outcome : Type 0 where
  no_user no_program already : Outcome
  to_run : (script : Bytes) → Outcome

-- is the job that is there the one that would be written?
unfoldable pub same_job : Option Bytes → Bytes → Bool
same_job none plist = false
same_job (some cur) plist = eq_bytes cur plist

unfoldable pub install_for :
    (cidr : Bytes) → Mac → (program : Option Bytes) → (plist : Bytes) → Outcome
install_for cidr m program plist =
    if status_ok (check cidr m) && same_job (m.read launchd_path) plist
    then already
    else elim program [
      | none ↦ no_program
      | some self ↦ to_run (install_script self plist (resolver_port m))
    ]

-- `install`, up to the run of its script
unfoldable pub install :
    (join : Bytes → Bytes → Bytes)
    → (cidr : Bytes) → Mac
    → Person
    → (program : Option Bytes) → Outcome
install join cidr m p program = elim (setup_user p) [
  | none ↦ no_user
  | some (uid, gid) ↦ install_for cidr m program (launchd_plist (setup_registry join p) uid gid)
]

-- the script of `uninstall`; `extra` are the lines of `cleanupScript`
unfoldable pub uninstall_script : (extra : List Bytes) → Bytes
uninstall_script extra = join 10 (
    (codes "launchctl bootout system " ++ (launchd_path ++ codes " 2>/dev/null || true"))
    ∷ (codes "launchctl bootout system " ++ (old_launchd_path ++ codes " 2>/dev/null || true"))
    ∷ (codes "rm -f " ++ (launchd_path ++ (32 ∷ (old_launchd_path ++ (32 ∷ helper_path)))))
    ∷ (codes "rm -f " ++ resolver_path)
    ∷ extra)

-- the text of netd.pid, and `servesHome`, which reads it; `alive` is of a process
unfoldable pub serving_text : ℕ → Bytes
serving_text pid = itoa pid ++ (10 ∷ [])

unfoldable pub serves_home : (alive : ℕ → Bool) → Option Bytes → Bool
serves_home alive none = false
serves_home alive (some raw) = elim (atoi (trim_space raw)) [ none ↦ false | some pid ↦ alive pid ]
