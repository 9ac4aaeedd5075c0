-- ===== src/Setup/Linux/Installed.antt =====
-- `check` after `install`, and the files after `uninstall`.
use doze_names.Prelude.{
  ℕ, map, Bool, true, false, not, ◌&&◌, ◌||◌, List, [], ◌∷◌, ◌++◌, none, some, ◌≡◌, refl, ap, ◌∙◌,
  arith, Bool-cases, inl, inr,
}
use doze_names.Text.{Bytes, Unicode, eq_bytes, has_prefix}
use doze_names.Setup.{index_of, hosts_begin, end_line, replace_hosts_block}
use doze_names.Setup.Hosts.{block, replace_hosts_block-undone}
use doze_names.Setup.Contains.{is_plain, is_plain-end_line}
use doze_names.Setup.Person.{Person, setup_user, setup_registry}
use doze_names.Setup.Status.{status_ok}
use doze_names.Setup.Linux.{
  Machine, check, hosts_path, resolv_conf, unit_path, dnsmasq_drop, netd_unit_path, netd_path,
  sysctl_path, port_start_path, detect, routes, dnsmasq_present, sysctl_installed, is_active,
}
use doze_names.Setup.Linux.Found.{
  hosts_step-done, check_unrouted, check-zoned, routes-same, hosts-written,
}
use doze_names.Setup.Linux.Unit.{no_space}
use doze_names.Setup.Linux.Written.{IsZoned, first_lines-leave, zone_lines-leave}
use doze_names.Setup.Linux.Scripts.{
  Files, planned, install_plan, after_plan, after_lines, first_lines, zone_lines, with_zone,
  is_resolved, command, removal_lines, uninstall_plan, after_line, without_files, set_file,
}

planned_routed :
    ⦃u : Unicode⦄ (join : Bytes → Bytes → Bytes) (m : Machine) (p : Person) (copy old : Bytes)
    (uid gid : ℕ)
    → m.read hosts_path ≡ some old
    → setup_user p ≡ some (uid, gid)
    → routes m ≡ true
    → install_plan join m p (some copy)
      ≡ planned (
          first_lines (replace_hosts_block old block)
          ++ zone_lines (is_resolved (detect m)) copy (setup_registry join p) uid gid)
unfolding install_plan with_zone
planned_routed join m p copy old uid gid e s r = rw (e, r, s, install_plan) refl

planned_unrouted :
    ⦃u : Unicode⦄ (join : Bytes → Bytes → Bytes) (m : Machine) (p : Person) (copy old : Bytes)
    → m.read hosts_path ≡ some old
    → routes m ≡ false
    → install_plan join m p (some copy) ≡ planned (first_lines (replace_hosts_block old block))
unfolding install_plan
planned_unrouted join m p copy old e r = rw (e, r, install_plan) refl

module _ ⦃u : Unicode⦄ (printf : Bytes → Bytes)
    (printf_plain : (t : Bytes) → is_plain t ≡ true → printf t ≡ t) (join : Bytes → Bytes → Bytes)
    (tried : Bool) where
  IsZoned-read :
      (n : Machine) (resolved : Bool) (registry : Bytes) (uid gid : ℕ) (left : Files)
      → ((q : Bytes) → eq_bytes q port_start_path ≡ false → n.read q ≡ left q)
      → IsZoned printf resolved registry uid gid left
      → IsZoned printf resolved registry uid gid n.read
  unfolding eq_bytes
  IsZoned-read n resolved registry uid gid left reads z = record {
    unit = reads unit_path refl ∙ z.unit;
    daemon = reads netd_unit_path refl ∙ z.daemon;
    drop_in = λ other. reads dnsmasq_drop refl ∙ z.drop_in other;
  }

  after_zone :
      (m n : Machine) (p : Person) (copy old : Bytes) (uid gid : ℕ)
      → is_plain old ≡ true
      → no_space (setup_registry join p) ≡ true
      → is_plain (setup_registry join p) ≡ true
      → eq_bytes (setup_registry join p) [] ≡ false
      → dnsmasq_present n ≡ dnsmasq_present m
      → routes m ≡ true
      → ((q : Bytes)
          → eq_bytes q port_start_path ≡ false
          → n.read q
            ≡ after_lines printf tried
                (first_lines (replace_hosts_block old block)
                  ++ zone_lines (is_resolved (detect m)) copy (setup_registry join p) uid gid)
                m.read
                q)
      → status_ok (check n (setup_registry join p)) ≡ (sysctl_installed n && is_active n.netd_state)
  unfolding eq_bytes
  after_zone m n p copy old uid gid h ns pl st d r reads =
      let (hosts, conf, zoned) =
        zone_lines-leave printf m.read (replace_hosts_block old block) copy (setup_registry join p)
          uid gid (is_resolved (detect m)) tried in
      let same = reads resolv_conf refl ∙ conf in
      check-zoned n old (setup_registry join p) printf printf_plain m uid gid h ns pl st
        (routes-same n old (setup_registry join p) m same d ∙ r) (reads hosts_path refl ∙ hosts)
        same (IsZoned-read n (is_resolved (detect m)) (setup_registry join p) uid gid _ reads zoned)

  after_first :
      (m n : Machine) (registry old : Bytes)
      → is_plain old ≡ true
      → dnsmasq_present n ≡ dnsmasq_present m
      → routes m ≡ false
      → ((q : Bytes)
          → eq_bytes q port_start_path ≡ false
          → n.read q
            ≡ after_lines printf tried (first_lines (replace_hosts_block old block)) m.read q)
      → status_ok (check n registry) ≡ sysctl_installed n
  unfolding eq_bytes
  after_first m n registry old h d r reads =
      let (hosts, conf) = first_lines-leave printf m.read (replace_hosts_block old block) tried in
      check_unrouted n old registry
        (routes-same n old registry m (reads resolv_conf refl ∙ conf) d ∙ r)
        (hosts_step-done n old registry
          (hosts-written n old registry printf printf_plain h (reads hosts_path refl ∙ hosts)))

  -- On a machine where install finds the hosts file, the program and the person to serve, and whose
  -- hosts file and registry's path have no percent sign and no backslash, the path neither being
  -- empty nor having white space, Check reports afterwards that every step is done exactly when the
  -- sysctl is in force and, where a domain can be routed, systemd has the daemon running. Here every
  -- line of the script has succeeded, except perhaps the one that is allowed to fail, printf writes
  -- a format without a percent sign and a backslash as it is, and whether dnsmasq runs is the same.
  pub check-install_plan :
      (m n : Machine) (p : Person) (copy old : Bytes) (uid gid : ℕ)
      → m.read hosts_path ≡ some old
      → is_plain old ≡ true
      → setup_user p ≡ some (uid, gid)
      → no_space (setup_registry join p) ≡ true
      → is_plain (setup_registry join p) ≡ true
      → eq_bytes (setup_registry join p) [] ≡ false
      → ((q : Bytes)
          → eq_bytes q port_start_path ≡ false
          → n.read q ≡ after_plan printf tried (install_plan join m p (some copy)) m.read q)
      → dnsmasq_present n ≡ dnsmasq_present m
      → status_ok (check n (setup_registry join p))
        ≡ (sysctl_installed n && (not (routes m) || is_active n.netd_state))
  unfolding after_plan
  check-install_plan m n p copy old uid gid e h s ns pl st reads d = elim (Bool-cases (routes m)) [
    | inl r ↦ rw r (
        after_zone m n p copy old uid gid h ns pl st d r
          (rw (planned_routed join m p copy old uid gid e s r) at reads))
    | inr r ↦
        let only_ports =
          after_first m n (setup_registry join p) old h d r
            (rw (planned_unrouted join m p copy old e r) at reads) in
        rw r (ground (arith, only_ports))
  ]

  hosts-install_plan :
      (m n : Machine) (p : Person) (copy old : Bytes) (uid gid : ℕ)
      → m.read hosts_path ≡ some old
      → is_plain old ≡ true
      → setup_user p ≡ some (uid, gid)
      → n.read hosts_path
        ≡ after_plan printf tried (install_plan join m p (some copy)) m.read hosts_path
      → n.read hosts_path ≡ some (replace_hosts_block old block)
  unfolding after_plan
  hosts-install_plan m n p copy old uid gid e h s written = elim (Bool-cases (routes m)) [
    | inl r ↦
        let leave =
          zone_lines-leave printf m.read (replace_hosts_block old block) copy
            (setup_registry join p) uid gid (is_resolved (detect m)) tried in
        hosts-written n old (setup_registry join p) printf printf_plain h
          ((rw (planned_routed join m p copy old uid gid e s r) at written) ∙ leave.0)
    | inr r ↦
        let leave = first_lines-leave printf m.read (replace_hosts_block old block) tried in
        hosts-written n old (setup_registry join p) printf printf_plain h
          ((rw (planned_unrouted join m p copy old e r) at written) ∙ leave.0)
  ]

  commands-leave :
      (texts : List Bytes) (files : Files) (q : Bytes)
      → after_lines printf tried (map command texts) files q ≡ files q
  unfolding after_lines after_line
  commands-leave [] files q = refl
  commands-leave (t ∷ texts) files q = commands-leave texts files q

  -- Uninstall after install, on a machine where install finds the hosts file, the program and the
  -- person to serve, leaves the hosts file as it was before install, with a newline at its end where
  -- it had none, and none of the sysctl's file, the two units, dnsmasq's drop-in and the copy of the
  -- program. The hosts file has no block before install, no percent sign and no backslash; printf
  -- writes a format without these as it is, every line of both scripts succeeds, except perhaps the
  -- one that is allowed to fail, and the lines of cleanupScript leave these files as they are.
  pub uninstall_plan-undoes :
      (m n : Machine) (p : Person) (copy old : Bytes) (uid gid : ℕ) (cleanup : List Bytes)
      → m.read hosts_path ≡ some old
      → is_plain old ≡ true
      → index_of old hosts_begin ≡ none
      → setup_user p ≡ some (uid, gid)
      → n.read hosts_path
        ≡ after_plan printf tried (install_plan join m p (some copy)) m.read hosts_path
      → let left = after_plan printf tried (uninstall_plan n cleanup) n.read in
        (left hosts_path ≡ some (end_line old))
        × (left sysctl_path ≡ none)
        × (left unit_path ≡ none)
        × (left dnsmasq_drop ≡ none)
        × (left netd_unit_path ≡ none)
        × (left netd_path ≡ none)
  unfolding after_plan uninstall_plan removal_lines after_lines after_line without_files set_file
      eq_bytes has_prefix
  uninstall_plan-undoes m n p copy old uid gid cleanup e h l s written =
      let hosts = hosts-install_plan m n p copy old uid gid e h s written in
      let back = (replace_hosts_block-undone old l).0 in
      rw (hosts, uninstall_plan, back)
        (
          commands-leave cleanup _ hosts_path
              ∙ ap some (printf_plain (end_line old) (is_plain-end_line old h)),
          commands-leave cleanup _ sysctl_path,
          commands-leave cleanup _ unit_path,
          commands-leave cleanup _ dnsmasq_drop,
          commands-leave cleanup _ netd_unit_path,
          commands-leave cleanup _ netd_path,
        )
