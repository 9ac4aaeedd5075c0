-- ===== src/Tests/Linux.antt =====
-- A Linux machine that is set up, looked at, and cleared again.
use doze_names.Prelude.{
  true, false, not, ◌&&◌, ◌||◌, [], ◌∷◌, ◌++◌, none, some, ◌≡◌, refl, if◌then◌else◌,
}
use doze_names.Text.{
  Bytes, Unicode, codes, eq_bytes, has_prefix, has_suffix, drop_last, trim, trim_left, trim_right,
  trim_right_cons, to_lower, runes_of, is_ascii, lower_byte, contains_byte, join, split, split_cons,
}
use doze_names.Text.Space.{
  is_space, skip_space, before_end, drop_end, trim_space, end_field, fields_from, fields,
}
use doze_names.Decimal.{digits_onto, itoa, value_from, unsigned, atoi}
use doze_names.Names.{apex_name, label, label_rune}
use doze_names.Names.Settings.{set_or, resolver_addr}
use doze_names.Net.{ip_text, octet_text}
use doze_names.Pool.{address_at, apex_offset, apex_addr}
use doze_names.Setup.{
  index_of, trim_newline, end_line, block_end, splice, replace_hosts_block, hosts_line, hosts_lines,
  apex_hosts_block, escape_quotes, shell_quote,
}
use doze_names.Setup.Manager.{contains, detect_from, can_route_domain}
use doze_names.Setup.Person.{
  Person, setup_user, setup_home, sudo_home, setup_registry, job_outdated,
}
use doze_names.Setup.Status.{status_ok, all_done, run_privileged, root_shell}
use doze_names.Setup.Contains.{is_plain}
use doze_names.Setup.Linux.{
  Machine, check, hosts_path, resolv_conf, unit_path, dnsmasq_drop, sysctl_path, netd_path,
  netd_unit_path, port_start_path, netd_unit, zone_unit, netd_step, unit_step, daemon_step,
  netd_serves, served_in, last_word, detect, routes, dnsmasq_present, sysctl_installed, is_active,
  hosts_block_installed, resolver_route_installed, file_has, ports_step, hosts_step, route_step,
  no_route_step, netd_lines,
}
use doze_names.Setup.Linux.Unit.{no_space}
use doze_names.Setup.Linux.Scripts.{
  Files, set_file, without_files, after_line, after_lines, after_plan, install_plan, uninstall_plan,
  first_lines, zone_lines, dnsmasq_lines, daemon_lines, with_zone, is_resolved, removal_lines,
  line_text, script_text, words, dnsmasq_lines,
}
use doze_names.Setup.Linux.Installed.{check-install_plan, uninstall_plan-undoes}

instance abbrev ascii_only : Unicode
ascii_only = record { lower = λ s. s; runes = λ s. s }

program : Unit {0}
unfolding eq_bytes has_prefix has_suffix drop_last trim trim_left trim_right trim_right_cons
    to_lower runes_of is_ascii lower_byte apex_name label label_rune ip_text octet_text address_at
    apex_offset apex_addr index_of trim_newline end_line block_end splice replace_hosts_block
    hosts_line hosts_lines apex_hosts_block escape_quotes shell_quote contains_byte join split
    split_cons is_space skip_space before_end drop_end trim_space end_field fields_from fields
    digits_onto itoa value_from unsigned atoi contains detect_from can_route_domain setup_user
    setup_home sudo_home setup_registry job_outdated status_ok all_done check netd_unit zone_unit
    netd_step unit_step daemon_step netd_serves served_in last_word detect routes dnsmasq_present
    sysctl_installed is_active hosts_block_installed resolver_route_installed file_has ports_step
    hosts_step route_step no_route_step netd_lines no_space set_file without_files after_line
    after_lines after_plan install_plan uninstall_plan first_lines zone_lines dnsmasq_lines
    daemon_lines with_zone is_resolved removal_lines line_text script_text words is_plain set_or
    resolver_addr run_privileged
program = tt

-- `filepath.Join`, of a folder and a name in it
abbrev in_folder : Bytes → Bytes → Bytes
in_folder a b = a ++ (b'/' ∷ b)

-- a printf that writes every format as it is
abbrev as_it_is : Bytes → Bytes
as_it_is t = t

abbrev hosts : Bytes
hosts = codes "127.0.0.1 localhost\n"

abbrev files : Files
files p =
    if eq_bytes p hosts_path
    then some hosts
    else if eq_bytes p resolv_conf
    then some (codes "# systemd-resolved")
    else if eq_bytes p port_start_path
    then some (codes "80\n")
    else none

abbrev person : Person
person = record {
  uid = 0;
  gid = 0;
  sudo_uid = 1000;
  sudo_gid = 1000;
  sudo_dir = some (codes "/home/ann");
  env_home = [];
  own_home = codes "/root/.doze";
}

abbrev machine_of : Files → Machine
machine_of fs = record {
  read = fs;
  scan = atoi;
  has_dnsmasq_dir = false;
  has_dnsmasq_program = false;
  dnsmasq_state = none;
  dnsmasq_runs = false;
  netd_state = some (codes "active\n");
  resolver_env = [];
}

abbrev before : Machine
before = machine_of files

abbrev copy : Bytes
copy = codes "/usr/bin/doze"

abbrev after : Machine
after =
    machine_of (after_plan as_it_is true (install_plan in_folder before person (some copy)) files)

abbrev registry : Bytes
registry = codes "/home/ann/.doze/names.json"

who : setup_registry in_folder person ≡ registry
unfolding program
who = refl

not_yet : status_ok (check before registry) ≡ false
unfolding program
not_yet = refl

check-install_plan_example :
    status_ok (check after (setup_registry in_folder person))
    ≡ (sysctl_installed after && (not (routes before) || is_active after.netd_state))
unfolding program
check-install_plan_example =
    check-install_plan as_it_is (λ t h. refl) in_folder true before after person copy hosts 1000
      1000 refl refl refl refl refl refl (λ q h. refl) refl

uninstall_plan-undoes_example :
    let left = after_plan as_it_is true (uninstall_plan after (codes "true" ∷ [])) after.read in
    (left hosts_path ≡ some (end_line hosts))
    × (left sysctl_path ≡ none)
    × (left unit_path ≡ none)
    × (left dnsmasq_drop ≡ none)
    × (left netd_unit_path ≡ none)
    × (left netd_path ≡ none)
unfolding program
uninstall_plan-undoes_example =
    uninstall_plan-undoes as_it_is (λ t h. refl) in_folder true before after person copy hosts 1000
      1000 (codes "true" ∷ []) refl refl refl refl refl

served : netd_serves (some (netd_unit registry 1000 1000)) ≡ registry
unfolding program
served = refl

-- a unit whose registry has a space in its path names another file
spaced :
    netd_serves (some (netd_unit (codes "/home/Ann B/.doze/names.json") 1000 1000))
    ≡ codes "B/.doze/names.json"
unfolding program
spaced = refl

as_root : run_privileged false true 0 (codes "what") (codes "script") ≡ root_shell (codes "script")
unfolding program
as_root = refl
