-- ===== src/Setup/Linux.antt =====
-- setup_linux.go: the texts of the units, and what `check` finds on a machine.
pub mod Scripts
pub mod Unit
pub mod Written
pub mod Found
pub mod Daemon
pub mod Installed
use doze_names.Prelude.{
  ℕ, Bool, true, false, not, ◌&&◌, List, [], ◌∷◌, ◌++◌, Option, none, some, ltb, leb, if◌then◌else◌,
}
use doze_names.Text.{Bytes, codes, eq_bytes, has_prefix, split, join}
use doze_names.Text.Space.{trim_space, fields}
use doze_names.Decimal.{itoa}
use doze_names.Names.Settings.{resolver_addr}
use doze_names.Pool.{loopback_net}
use doze_names.Setup.{apex_hosts_block}
use doze_names.Setup.Manager.{
  Manager, mgr_unknown, mgr_resolved, manager_text, contains, detect_from, can_route_domain,
}
use doze_names.Setup.Person.{job_outdated}
use doze_names.Setup.Status.{Step, Status}
use doze_names.Text.{Unicode}

abbrev pub resolver_ip : Bytes
resolver_ip = codes "192.0.2.53"

abbrev pub hosts_path : Bytes
hosts_path = codes "/etc/hosts"

abbrev pub sysctl_path : Bytes
sysctl_path = codes "/etc/sysctl.d/60-doze.conf"

abbrev pub dnsmasq_drop : Bytes
dnsmasq_drop = codes "/etc/dnsmasq.d/doze.conf"

abbrev pub resolv_conf : Bytes
resolv_conf = codes "/etc/resolv.conf"

abbrev pub unit_path : Bytes
unit_path = codes "/etc/systemd/system/doze-names.service"

abbrev pub netd_path : Bytes
netd_path = codes "/usr/local/libexec/doze-netd"

abbrev pub netd_unit_path : Bytes
netd_unit_path = codes "/etc/systemd/system/doze-netd.service"

abbrev pub port_start_path : Bytes
port_start_path = codes "/proc/sys/net/ipv4/ip_unprivileged_port_start"

abbrev pub netd_stamp : Bytes
netd_stamp = codes "Environment=DOZE_NETD_VERSION=2"

abbrev pub exec_start : Bytes
exec_start = codes "ExecStart="

-- the lines of `netdUnit`; the last is empty, for the newline at the end
unfoldable pub netd_lines : (registry : Bytes) → (uid gid : ℕ) → List Bytes
netd_lines registry uid gid =
    codes "[Unit]"
    ∷ codes "Description=doze: answers the doze zone when no doze program does"
    ∷ codes "After=doze-names.service"
    ∷ codes "Wants=doze-names.service"
    ∷ []
    ∷ codes "[Service]"
    ∷ (codes "User=" ++ itoa uid)
    ∷ (codes "Group=" ++ itoa gid)
    ∷ netd_stamp
    ∷ (codes "ExecStart=/usr/local/libexec/doze-netd __doze-netd " ++ registry)
    ∷ codes "Restart=always"
    ∷ codes "RestartSec=2"
    ∷ []
    ∷ codes "[Install]"
    ∷ codes "WantedBy=multi-user.target"
    ∷ []
    ∷ []

-- `netdUnit`
unfoldable pub netd_unit : (registry : Bytes) → (uid gid : ℕ) → Bytes
netd_unit registry uid gid = join 10 (netd_lines registry uid gid)

-- `zoneUnit`
unfoldable pub zone_unit : (route_resolved : Bool) → Bytes
zone_unit route_resolved =
    codes
      "[Unit]\nDescription=doze: the doze name zone\nAfter=systemd-resolved.service\nWants=systemd-resolved.service\n\n[Service]\nType=oneshot\nRemainAfterExit=yes\nExecStart=-/sbin/ip link add doze0 type dummy\nExecStart=-/sbin/ip addr add 192.0.2.53/32 dev doze0\nExecStart=-/sbin/ip link set doze0 up\n"
    ++ ((if route_resolved
          then codes
              "ExecStart=-/usr/bin/resolvectl dns doze0 192.0.2.53:5323\nExecStart=-/usr/bin/resolvectl domain doze0 ~doze\n"
          else [])
        ++ codes "ExecStop=-/sbin/ip link del doze0\n\n[Install]\nWantedBy=multi-user.target\n")

-- What a run finds on the machine: the files that can be read, and what the programs it starts say,
-- `none` where one of them fails. `scan` is `fmt.Sscanf` with "%d", of numbers that are not negative.
pub record Machine : Type 0 where
  pub read : Bytes → Option Bytes
  pub scan : Bytes → Option ℕ
  pub has_dnsmasq_dir : Bool
  pub has_dnsmasq_program : Bool
  pub dnsmasq_state : Option Bytes
  pub dnsmasq_runs : Bool
  pub netd_state : Option Bytes
  -- DOZE_ZONE_RESOLVER
  pub resolver_env : Bytes

-- what `systemctl is-active` printed
unfoldable pub is_active : Option Bytes → Bool
is_active none = false
is_active (some out) = eq_bytes (trim_space out) (codes "active")

-- `dnsmasqPresent`
unfoldable pub dnsmasq_present : Machine → Bool
dnsmasq_present m =
    if not m.has_dnsmasq_dir
    then false
    else if not m.has_dnsmasq_program
    then false
    else if is_active m.dnsmasq_state
    then true
    else m.dnsmasq_runs

-- `detect`
unfoldable pub detect : Machine → Manager
detect m = elim (m.read resolv_conf) [ none ↦ mgr_unknown | some raw ↦ detect_from raw ]

-- whether a domain can be routed on the machine
unfoldable pub routes : Machine → Bool
routes m = can_route_domain (detect m) (dnsmasq_present m)

-- `sysctlInstalled`
unfoldable pub sysctl_installed : Machine → Bool
sysctl_installed m = elim (m.read port_start_path) [
  | none ↦ false
  | some raw ↦ elim (m.scan (trim_space raw)) [ none ↦ false | some cur ↦ leb cur 80 ]
]

-- a file that can be read and has `t` in it
unfoldable pub file_has : Option Bytes → Bytes → Bool
file_has none t = false
file_has (some raw) t = contains raw t

-- `resolverRouteInstalled`
unfoldable pub resolver_route_installed : Machine → Manager → Bool
resolver_route_installed m mgr_resolved =
    file_has (m.read unit_path) resolver_ip && file_has (m.read unit_path) (codes "resolvectl")
resolver_route_installed m _ =
    file_has (m.read unit_path) resolver_ip && file_has (m.read dnsmasq_drop) resolver_ip

-- the last of some words
unfoldable pub last_word : List Bytes → Bytes
last_word [] = []
last_word (w ∷ []) = w
last_word (w ∷ v ∷ ws) = last_word (v ∷ ws)

-- the loop of `netdServes`; a line that begins with ExecStart= has a word
unfoldable pub served_in : List Bytes → Bytes
served_in [] = []
served_in (l ∷ ls) =
    let later = served_in ls in if has_prefix l exec_start then last_word (fields l) else later

-- `netdServes`
unfoldable pub netd_serves : Option Bytes → Bytes
netd_serves none = []
netd_serves (some raw) = served_in (split 10 raw)

abbrev pub dash : Bytes
dash = 226 ∷ 128 ∷ 148 ∷ []

unfoldable pub daemon_step : Bool → Bytes → Step
daemon_step done detail = record { name = codes "network daemon"; done = done; detail = detail }

-- the step of a unit that is there, whose text is `raw`
unfoldable pub unit_step : Machine → (registry raw : Bytes) → Step
unit_step m registry raw =
    let serves : Bytes = netd_serves (some raw) in
    if job_outdated (some raw) netd_stamp
    then daemon_step false (
        codes "from an older setup "
        ++ (dash
            ++ codes
                " run setup again (one sudo), so a routed domain is answered when no stack runs"))
    else if not (eq_bytes serves []) && not (eq_bytes serves registry)
    then daemon_step false (
        codes "answers from "
        ++ (serves
            ++ (codes ", not your registry " ++ (dash ++ codes " run setup again (one sudo)"))))
    else if not (is_active m.netd_state)
    then daemon_step false (codes "installed but not running (systemctl status doze-netd.service)")
    else daemon_step true
        (codes "answers the zone when no doze program runs, so a routed domain is never dark")

-- `netdStep`, for the registry that the daemon is to answer from; a unit that is there can be read
unfoldable pub netd_step : Machine → (registry : Bytes) → Step
netd_step m registry = elim (m.read netd_unit_path) [
  | none ↦ daemon_step false (
      codes "not installed "
      ++ (dash ++ codes " a routed domain is unreachable while no stack runs"))
  | some raw ↦ unit_step m registry raw
]

module _ ⦃u : Unicode⦄ where
  -- `hostsBlockInstalled`
  unfoldable pub hosts_block_installed : Machine → Bool
  hosts_block_installed m = file_has (m.read hosts_path) (apex_hosts_block loopback_net)

  unfoldable pub ports_step : Machine → Step
  ports_step m = record {
    name = codes "unprivileged ports";
    done = sysctl_installed m;
    detail =
        if sysctl_installed m
        then codes "ports " ++ (226 ∷ 137 ∷ 165 ∷ codes " 80 bindable unprivileged")
        else codes "not applied "
          ++ (dash ++ codes " services cannot bind :80 (the resolver is unaffected: it uses 5323)");
  }

  unfoldable pub hosts_step : Machine → Step
  hosts_step m = record {
    name = codes "hosts block";
    done = hosts_block_installed m;
    detail =
        if hosts_block_installed m
        then codes "apex names in /etc/hosts"
        else codes "missing " ++ (dash ++ codes " aws.doze will not resolve");
  }

  -- the route's step on a machine that can have one
  unfoldable pub route_step : Machine → Step
  route_step m = record {
    name = codes "resolver route";
    done = resolver_route_installed m (detect m);
    detail =
        if resolver_route_installed m (detect m)
        then codes "per-stack names routed to " ++ resolver_addr true m.resolver_env
        else codes "not configured " ++ (dash ++ codes " only apex names will resolve");
  }

  -- and on one that cannot
  unfoldable pub no_route_step : Machine → Step
  no_route_step m = record {
    name = codes "resolver route";
    done = true;
    detail =
        codes "n/a on "
        ++ (manager_text (detect m)
            ++ (32 ∷ (dash ++ codes " apex names via /etc/hosts, per-stack names unavailable")));
  }

  -- `check`
  unfoldable pub check : Machine → (registry : Bytes) → Status
  check m registry = record {
    platform = codes "linux (" ++ (manager_text (detect m) ++ codes ")");
    steps =
        ports_step m
        ∷ hosts_step m
        ∷ (if routes m then route_step m ∷ netd_step m registry ∷ [] else no_route_step m ∷ []);
  }
