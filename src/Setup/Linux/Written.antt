-- ===== src/Setup/Linux/Written.antt =====
-- What the script of `install` leaves at each of the paths that `check` reads.
use doze_names.Prelude.{ℕ, Bool, true, false, ◌++◌, some, ◌≡◌, refl, arith}
use doze_names.Text.{Bytes, eq_bytes}
use doze_names.Setup.Linux.{
  hosts_path, dnsmasq_drop, resolv_conf, unit_path, netd_unit_path, netd_unit, zone_unit,
}
use doze_names.Setup.Linux.Scripts.{
  Files, set_file, after_line, after_lines, first_lines, zone_lines, dnsmasq_lines, daemon_lines,
  drop_text,
}

-- what the lines for the zone leave, besides the hosts file
pub record IsZoned (printf : Bytes → Bytes) (resolved : Bool) (registry : Bytes) (uid gid : ℕ)
    (files : Files) : Type 0 where
  pub unit : files unit_path ≡ some (printf (zone_unit resolved))
  pub daemon : files netd_unit_path ≡ some (printf (netd_unit registry uid gid))
  pub drop_in : resolved ≡ false → files dnsmasq_drop ≡ some (printf drop_text)

module _ (printf : Bytes → Bytes) (files : Files) (hosts : Bytes) where
  program : Unit {0}
  unfolding after_lines after_line first_lines zone_lines dnsmasq_lines daemon_lines set_file
      eq_bytes
  program = tt

  pub first_lines-leave :
      (tried : Bool)
      → let left = after_lines printf tried (first_lines hosts) files in
        (left hosts_path ≡ some (printf hosts)) × (left resolv_conf ≡ files resolv_conf)
  unfolding program
  first_lines-leave true = (refl, refl)
  first_lines-leave false = (refl, refl)

  module _ (copy registry : Bytes) (uid gid : ℕ) where
    pub zone_lines-leave :
        (resolved tried : Bool)
        → let left =
            after_lines printf tried
              (first_lines hosts ++ zone_lines resolved copy registry uid gid)
              files in
          (left hosts_path ≡ some (printf hosts))
          × (left resolv_conf ≡ files resolv_conf)
          × IsZoned printf resolved registry uid gid left
    unfolding program
    zone_lines-leave true true =
        (refl, refl, record { unit = refl; daemon = refl; drop_in = λ e. ground arith })
    zone_lines-leave true false =
        (refl, refl, record { unit = refl; daemon = refl; drop_in = λ e. ground arith })
    zone_lines-leave false true =
        (refl, refl, record { unit = refl; daemon = refl; drop_in = λ e. refl })
    zone_lines-leave false false =
        (refl, refl, record { unit = refl; daemon = refl; drop_in = λ e. refl })
