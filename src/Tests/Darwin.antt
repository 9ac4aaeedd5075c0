-- ===== src/Tests/Darwin.antt =====
-- A Mac that is set up, its daemon, and a connection that it sees.
use doze_names.Prelude.{true, [], ◌∷◌, ◌++◌, none, some, ◌≡◌, refl, if◌then◌else◌}
use doze_names.Text.{Bytes, codes, eq_bytes, has_prefix, split, split_cons, cut, contains_byte}
use doze_names.Text.Space.{is_space, skip_space, before_end, drop_end, trim_space}
use doze_names.Decimal.{digits_onto, itoa, value_from, unsigned, atoi}
use doze_names.Net.{split_host_port, cut_last_colon, plain_parts, host_parts}
use doze_names.Names.Settings.{set_or, resolver_addr}
use doze_names.Setup.{index_of}
use doze_names.Setup.Manager.{contains}
use doze_names.Setup.Person.{
  Person, setup_user, setup_home, sudo_home, setup_registry, job_outdated,
}
use doze_names.Setup.Status.{status_ok, all_done}
use doze_names.Trust.Darwin.{is_ours}
use doze_names.Setup.Darwin.{
  Mac, already, check, install, install_for, same_job, launchd_path, resolver_path, launchd_plist,
  string_line, xml_byte, xml_escape, resolver_port, resolver_installed, netd_outdated, network_step,
  resolver_step, serving_text, serves_home,
}
use doze_names.Setup.Darwin.Installed.{route_text}
use doze_names.Setup.Darwin.Daemon as Daemon
use doze_names.Setup.Darwin.Daemon.{
  in_order, run_netd, run_netd-in_order, first_packet, route_owner,
}

program : Unit {0}
unfolding eq_bytes has_prefix split split_cons cut contains_byte is_space skip_space before_end
    drop_end trim_space digits_onto itoa value_from unsigned atoi split_host_port cut_last_colon
    plain_parts host_parts set_or resolver_addr index_of contains setup_user setup_home sudo_home
    setup_registry job_outdated status_ok all_done is_ours check install install_for same_job
    launchd_plist string_line xml_byte xml_escape resolver_port resolver_installed netd_outdated
    network_step resolver_step serving_text serves_home in_order run_netd first_packet route_owner
    Daemon.read_number Daemon.with_sign Daemon.is_positive Daemon.configure Daemon.add_route
    Daemon.before Daemon.as_user Daemon.as_root Daemon.started Daemon.asks Daemon.pair_of
    Daemon.value_of
program = tt

abbrev in_folder : Bytes → Bytes → Bytes
in_folder a b = a ++ (b'/' ∷ b)

abbrev person : Person
person = record {
  uid = 501;
  gid = 20;
  sudo_uid = 0;
  sudo_gid = 0;
  sudo_dir = none;
  env_home = [];
  own_home = codes "/Users/a&b/.doze";
}

abbrev mac : Mac
mac = record {
  read = λ p.
      if eq_bytes p launchd_path
      then some (launchd_plist (setup_registry in_folder person) 501 20)
      else if eq_bytes p resolver_path
      then some (route_text (codes "5323"))
      else none;
  gateway_up = true;
  resolver_env = [];
}

set_up : install in_folder (codes "198.18.0.0/17") mac person (some (codes "/bin/doze")) ≡ already
unfolding program
set_up = refl

escaped : xml_escape (codes "/Users/a&b") ≡ codes "/Users/a&amp;b"
unfolding program
escaped = refl

reads_pid : serves_home (λ p. true) (some (serving_text 4711)) ≡ true
unfolding program
reads_pid = refl

abbrev system : Daemon.System
system = record {
  gateway = codes "198.18.0.1";
  cidr = codes "198.18.0.0/17";
  owner = [];
  tunnel = some (codes "utun4");
  configured = true;
  routed = true;
  groups_set = true;
  gid_set = true;
  uid_set = true;
  lookups = 1;
}

run_netd-in_order_example :
    in_order 0 (run_netd system (codes "/r.json" ∷ codes "501" ∷ codes "20" ∷ [])).0 ≡ true
run_netd-in_order_example =
    run_netd-in_order system (codes "/r.json" ∷ codes "501" ∷ codes "20" ∷ [])

translates :
    (run_netd system (codes "/r.json" ∷ codes "501" ∷ codes "20" ∷ [])).1 ≡ Daemon.translating
unfolding program
translates = refl

not_as_root : (run_netd system (codes "/r.json" ∷ codes "-1" ∷ codes "20" ∷ [])).1 ≡ Daemon.bad_user
unfolding program
not_as_root = refl

owned :
    route_owner
      (some (codes "   route to: 198.18.1.1\ndestination: 198.18.0.0\n  interface: utun9\n"))
    ≡ codes "198.18.0.0 on utun9"
unfolding program
owned = refl
