-- ===== src/Setup/Darwin/Installed.antt =====
-- `check` and `install` after `install` on a Mac.
use doze_names.Prelude.{ℕ, true, false, ◌++◌, Option, some, ◌≡◌, refl, ◌∙◌, arith}
use doze_names.Text.{Bytes, codes}
use doze_names.Text.Laws.{eq_bytes_refl}
use doze_names.Setup.Manager.{contains}
use doze_names.Setup.Contains.{contains-within}
use doze_names.Setup.Person.{Person, setup_user, setup_registry, job_outdated}
use doze_names.Setup.Status.{status_ok, all_done}
use doze_names.Trust.Darwin.{is_ours}
use doze_names.Setup.Darwin.{
  Mac, already, launchd_path, resolver_path, launchd_plist, plist_top, version_line, resolver_port,
  resolver_installed, netd_outdated, network_step, resolver_step, check, same_job, install_for,
  install,
}

launchd_plist-stamped :
    (registry : Bytes) (uid gid : ℕ) → contains (launchd_plist registry uid gid) version_line ≡ true
unfolding launchd_plist
launchd_plist-stamped registry uid gid = contains-within plist_top version_line _

-- what the script leaves in the resolver's file
abbrev pub route_text : Bytes → Bytes
route_text port = codes "nameserver 127.0.0.1\nport " ++ (port ++ codes "\n")

is_ours-route_text : (port : Bytes) → is_ours port (route_text port) ≡ true
unfolding is_ours
is_ours-route_text port =
    rw
      (
        contains-within (codes "nameserver 127.0.0.1\nport ") port (codes "\n"),
        contains-within (codes "nameserver ") (codes "127.0.0.1")
            (codes "\nport " ++ (port ++ codes "\n")),
      )
      refl

module _ (cidr : Bytes) (m : Mac) where
  route_installed :
      m.read resolver_path ≡ some (route_text (resolver_port m)) → resolver_installed m ≡ true
  unfolding resolver_installed
  route_installed route = rw (route, is_ours-route_text (resolver_port m), resolver_installed) refl

  job_current :
      (plist : Bytes)
      → m.read launchd_path ≡ some plist
      → contains plist version_line ≡ true
      → netd_outdated m ≡ false
  unfolding netd_outdated job_outdated
  job_current plist job stamped = rw (job, stamped) refl

  status_ok-check :
      (plist : Bytes)
      → m.read launchd_path ≡ some plist
      → contains plist version_line ≡ true
      → m.read resolver_path ≡ some (route_text (resolver_port m))
      → status_ok (check cidr m) ≡ m.gateway_up
  unfolding status_ok check all_done network_step resolver_step
  status_ok-check plist job stamped route =
      ground (arith, route_installed route, job_current plist job stamped)

  install_for-already :
      (plist : Bytes) (program : Option Bytes)
      → m.read launchd_path ≡ some plist
      → status_ok (check cidr m) ≡ true
      → install_for cidr m program plist ≡ already
  unfolding install_for same_job
  install_for-already plist program job fine = rw (fine, job, eq_bytes_refl plist) refl

  -- On a Mac where the daemon's job and the zone's resolver file are as the script of install writes
  -- them, for the person that install is run for, Check reports that every step is done exactly if the
  -- gateway's address is up, and then install has nothing to do.
  pub check-install :
      (join : Bytes → Bytes → Bytes) (p : Person) (uid gid : ℕ) (program : Option Bytes)
      → setup_user p ≡ some (uid, gid)
      → m.read launchd_path ≡ some (launchd_plist (setup_registry join p) uid gid)
      → m.read resolver_path ≡ some (route_text (resolver_port m))
      → (status_ok (check cidr m) ≡ m.gateway_up)
        × (m.gateway_up ≡ true → install join cidr m p program ≡ already)
  unfolding install
  check-install join p uid gid program user job route =
      let plist : Bytes = launchd_plist (setup_registry join p) uid gid in
      let fine =
        status_ok-check plist job (launchd_plist-stamped (setup_registry join p) uid gid) route in
      (fine, λ up. rw (user, install) (install_for-already plist program job (fine ∙ up)))
