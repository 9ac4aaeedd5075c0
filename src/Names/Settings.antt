-- ===== src/Names/Settings.antt =====
-- names.go and ingress.go: what the environment sets. A variable that is not set is empty, and white
-- space is that of ASCII.
use doze_names.Prelude.{Bool, not, ◌||◌, [], Option, none, some, if◌then◌else◌}
use doze_names.Text.{Bytes, Unicode, codes, eq_bytes, to_lower}
use doze_names.Text.Space.{trim_space}

-- a setting, or what holds without it
unfoldable pub set_or : (value default : Bytes) → Bytes
set_or value default = let a = trim_space value in if not (eq_bytes a []) then a else default

-- `ResolverAddr`
unfoldable pub resolver_addr : (linux : Bool) → (env : Bytes) → Bytes
resolver_addr linux env =
    set_or env (if linux then codes "192.0.2.53:5323" else codes "127.0.0.1:5323")

-- `IngressBind` and `IngressTLSBind`
unfoldable pub ingress_addr : (env : Bytes) → Bytes
ingress_addr env = set_or env (codes "0.0.0.0:80")

unfoldable pub ingress_tls_addr : (env : Bytes) → Bytes
ingress_tls_addr env = set_or env (codes "0.0.0.0:443")

-- `Home`; `join` is `filepath.Join`, and `user` the person's folder, if it is known
unfoldable pub home : (join : Bytes → Bytes → Bytes) → (env : Bytes) → (user : Option Bytes) → Bytes
home join env none = if eq_bytes env [] then codes ".doze" else env
home join env (some h) = if eq_bytes env [] then join h (codes ".doze") else env

-- `Disabled`
unfoldable pub disabled : ⦃u : Unicode⦄ → (env : Bytes) → Bool
disabled env =
    let v = to_lower (trim_space env) in
    eq_bytes v (codes "off")
    || eq_bytes v (codes "0")
    || eq_bytes v (codes "false")
    || eq_bytes v (codes "no")
