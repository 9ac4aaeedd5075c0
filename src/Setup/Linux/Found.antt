-- ===== src/Setup/Linux/Found.antt =====
-- What `check` finds where the files are as the script of `install` writes them.
use doze_names.Prelude.{ℕ, Bool, true, false, ◌&&◌, [], some, ◌≡◌, refl, ap, ◌∙◌, arith}
use doze_names.Text.{Bytes, Unicode, codes, eq_bytes, has_prefix}
use doze_names.Text.Laws.{eq_bytes_refl}
use doze_names.Setup.{index_of, replace_hosts_block}
use doze_names.Setup.Hosts.{block, contains-replace_hosts_block, is_plain-block}
use doze_names.Setup.Contains.{is_plain, is_plain-replace_hosts_block}
use doze_names.Setup.Manager.{
  Manager, mgr_unknown, mgr_resolved, mgr_resolvconf, mgr_network_manager, mgr_plain, contains,
}
use doze_names.Setup.Person.{job_outdated}
use doze_names.Setup.Status.{status_ok, all_done}
use doze_names.Setup.Linux.{
  Machine, check, hosts_path, resolv_conf, unit_path, dnsmasq_drop, netd_unit_path, netd_unit,
  netd_stamp, netd_step, unit_step, daemon_step, netd_serves, zone_unit, detect, routes,
  dnsmasq_present, sysctl_installed, is_active, hosts_block_installed, resolver_route_installed,
  file_has, resolver_ip, ports_step, hosts_step, route_step, no_route_step,
}
use doze_names.Setup.Linux.Unit.{
  no_space, netd_unit-is_plain, netd_unit-stamped, netd_serves-netd_unit,
}
use doze_names.Setup.Linux.Written.{IsZoned}
use doze_names.Setup.Linux.Scripts.{is_resolved, drop_text}

-- the closed texts hold what `check` looks for, and are written as they are
zone_unit-has : (resolved : Bool) → contains (zone_unit resolved) resolver_ip ≡ true
unfolding zone_unit contains index_of has_prefix
zone_unit-has true = refl
zone_unit-has false = refl

zone_unit-resolvectl : contains (zone_unit true) (codes "resolvectl") ≡ true
unfolding zone_unit contains index_of has_prefix
zone_unit-resolvectl = refl

zone_unit-is_plain : (resolved : Bool) → is_plain (zone_unit resolved) ≡ true
unfolding zone_unit is_plain
zone_unit-is_plain true = refl
zone_unit-is_plain false = refl

drop_text-has : contains drop_text resolver_ip ≡ true
unfolding contains index_of has_prefix
drop_text-has = refl

drop_text-is_plain : is_plain drop_text ≡ true
unfolding is_plain
drop_text-is_plain = refl

netd_step-there :
    (n : Machine) (registry raw : Bytes)
    → n.read netd_unit_path ≡ some raw
    → netd_step n registry ≡ unit_step n registry raw
unfolding netd_step
netd_step-there n registry raw unit = rw (unit, netd_step) refl

unit_step-done :
    (n : Machine) (registry raw : Bytes)
    → contains raw netd_stamp ≡ true
    → netd_serves (some raw) ≡ registry
    → (unit_step n registry raw).done ≡ is_active n.netd_state
unfolding unit_step job_outdated daemon_step
unit_step-done n registry raw stamped served =
    ground (arith, stamped, served, eq_bytes_refl registry)

-- the daemon's step, for a unit that is this build's and names the registry
netd_step-done :
    (n : Machine) (registry : Bytes) (uid gid : ℕ)
    → n.read netd_unit_path ≡ some (netd_unit registry uid gid)
    → no_space registry ≡ true
    → eq_bytes registry [] ≡ false
    → (netd_step n registry).done ≡ is_active n.netd_state
netd_step-done n registry uid gid unit h some_text =
    ap (λ s. s.done) (netd_step-there n registry (netd_unit registry uid gid) unit)
    ∙ unit_step-done n registry (netd_unit registry uid gid) (netd_unit-stamped registry uid gid)
        (netd_serves-netd_unit registry uid gid h some_text)

route_installed :
    (n : Machine) (m : Manager)
    → n.read unit_path ≡ some (zone_unit (is_resolved m))
    → (is_resolved m ≡ false → n.read dnsmasq_drop ≡ some drop_text)
    → resolver_route_installed n m ≡ true
unfolding resolver_route_installed file_has is_resolved
route_installed n mgr_resolved unit drop = rw (unit, zone_unit-has true, zone_unit-resolvectl) refl
route_installed n mgr_unknown unit drop =
    rw (unit, zone_unit-has false, drop refl, drop_text-has) refl
route_installed n mgr_resolvconf unit drop =
    rw (unit, zone_unit-has false, drop refl, drop_text-has) refl
route_installed n mgr_network_manager unit drop =
    rw (unit, zone_unit-has false, drop refl, drop_text-has) refl
route_installed n mgr_plain unit drop =
    rw (unit, zone_unit-has false, drop refl, drop_text-has) refl

-- the machine afterwards, as `check` sees it
module _ ⦃u : Unicode⦄ (n : Machine) (old registry : Bytes) where
  pub hosts_step-done :
      n.read hosts_path ≡ some (replace_hosts_block old block) → (hosts_step n).done ≡ true
  unfolding hosts_step hosts_block_installed file_has
  hosts_step-done e = rw (e, contains-replace_hosts_block old) refl

  check_routed :
      routes n ≡ true
      → (hosts_step n).done ≡ true
      → (route_step n).done ≡ true
      → (netd_step n registry).done ≡ is_active n.netd_state
      → status_ok (check n registry) ≡ (sysctl_installed n && is_active n.netd_state)
  unfolding check status_ok all_done ports_step
  check_routed r a b c = rw r (ground (arith, a, b, c))

  pub check_unrouted :
      routes n ≡ false
      → (hosts_step n).done ≡ true
      → status_ok (check n registry) ≡ sysctl_installed n
  unfolding check status_ok all_done ports_step no_route_step
  check_unrouted r a = rw r (ground (arith, a))

  -- what `check` says of a machine whose files are as some lines leave them
  detect-same : (m : Machine) → n.read resolv_conf ≡ m.read resolv_conf → detect n ≡ detect m
  unfolding detect
  detect-same m e = rw (e, detect) refl

  pub routes-same :
      (m : Machine)
      → n.read resolv_conf ≡ m.read resolv_conf
      → dnsmasq_present n ≡ dnsmasq_present m
      → routes n ≡ routes m
  unfolding routes
  routes-same m e d = rw (detect-same m e, d) refl

  module _ (printf : Bytes → Bytes)
      (printf_plain : (t : Bytes) → is_plain t ≡ true → printf t ≡ t) where
    pub hosts-written :
        is_plain old ≡ true
        → n.read hosts_path ≡ some (printf (replace_hosts_block old block))
        → n.read hosts_path ≡ some (replace_hosts_block old block)
    hosts-written h e =
        e
        ∙ ap some (
            printf_plain (replace_hosts_block old block)
              (is_plain-replace_hosts_block old block h is_plain-block))

    route-written :
        (m : Machine) (uid gid : ℕ)
        → n.read resolv_conf ≡ m.read resolv_conf
        → IsZoned printf (is_resolved (detect m)) registry uid gid n.read
        → (route_step n).done ≡ true
    unfolding route_step
    route-written m uid gid e z =
        route_installed n (detect n)
          (rw (detect-same m e) (
            z.unit
            ∙ ap some (
                printf_plain (zone_unit (is_resolved (detect m)))
                  (zone_unit-is_plain (is_resolved (detect m))))))
          (rw (detect-same m e)
            λ other. z.drop_in other ∙ ap some (printf_plain drop_text drop_text-is_plain))

    pub check-zoned :
        (m : Machine) (uid gid : ℕ)
        → is_plain old ≡ true
        → no_space registry ≡ true
        → is_plain registry ≡ true
        → eq_bytes registry [] ≡ false
        → routes n ≡ true
        → n.read hosts_path ≡ some (printf (replace_hosts_block old block))
        → n.read resolv_conf ≡ m.read resolv_conf
        → IsZoned printf (is_resolved (detect m)) registry uid gid n.read
        → status_ok (check n registry) ≡ (sysctl_installed n && is_active n.netd_state)
    check-zoned m uid gid h ns pl st r e c z =
        check_routed r (hosts_step-done (hosts-written h e)) (route-written m uid gid c z) (
          netd_step-done n registry uid gid
            (z.daemon
              ∙ ap some (
                  printf_plain (netd_unit registry uid gid)
                    (netd_unit-is_plain registry uid gid pl)))
            ns st)
