-- ===== src/Trust/Scripts.antt =====
-- `routesScript` of trust_linux.go and of trust_darwin.go: what fills the field of `Platform`.
use doze_names.Prelude.{Bool, List, [], ◌∷◌, ◌++◌, map, if◌then◌else◌}
use doze_names.Text.{Bytes, codes, join}
use doze_names.Names.{suffix}
use doze_names.Setup.{shell_quote}

-- `linkDomains`' tokens, of routes: the zone and each of them
unfoldable pub link_tokens : List Bytes → List Bytes
link_tokens keep = (b'~' ∷ suffix) ∷ map (λ d. b'~' ∷ d) keep

abbrev link_name : Bytes
link_name = codes "doze0"

abbrev drop_in_dir : Bytes
drop_in_dir = codes "/etc/systemd/system/doze-names.service.d"

abbrev drop_in : Bytes
drop_in = codes "/etc/systemd/system/doze-names.service.d/domains.conf"

-- `unit` of `routesScript` on Linux
unfoldable pub link_unit : Bytes → Bytes
link_unit tokens =
    (codes "[Service]" ++ (10 ∷ codes "ExecStart=-/usr/bin/resolvectl domain "))
    ++ link_name
    ++ (32 ∷ tokens)
    ++ (10 ∷ [])

-- `routesScript` on Linux
unfoldable pub linux_routes_script : (keep missing drop : List Bytes) → Bytes
linux_routes_script keep missing drop =
    let tokens = join 32 (link_tokens keep) in
    join 10 (
      (codes "resolvectl domain " ++ link_name ++ (32 ∷ tokens) ++ codes " 2>/dev/null || true")
      ∷ (codes "mkdir -p " ++ shell_quote drop_in_dir)
      ∷ (codes "printf '%s' "
          ++ shell_quote (link_unit tokens)
          ++ codes " > "
          ++ shell_quote drop_in)
      ∷ codes "systemctl daemon-reload 2>/dev/null || true"
      ∷ [])

-- `resolverFileFor`
unfoldable pub resolver_file : Bytes → Bytes
resolver_file d = codes "/etc/resolver/" ++ d

-- the line that writes a route's file; the port is the resolver's
unfoldable pub write_line : Bytes → Bytes → Bytes
write_line port d =
    codes "printf 'nameserver 127.0.0.1"
    ++ (92 ∷ codes "nport ")
    ++ port
    ++ (92 ∷ codes "n' > ")
    ++ shell_quote (resolver_file d)

unfoldable pub not_foreign : (Bytes → Bool) → List Bytes → List Bytes
not_foreign foreign [] = []
not_foreign foreign (d ∷ ds) =
    let rest = not_foreign foreign ds in if foreign d then rest else d ∷ rest

unfoldable pub after_mkdir : List Bytes → List Bytes
after_mkdir [] = []
after_mkdir (l ∷ ls) = codes "mkdir -p /etc/resolver" ∷ l ∷ ls

-- `routesScript` on a Mac
unfoldable pub darwin_routes_script :
    (foreign : Bytes → Bool) → Bytes → (keep write drop : List Bytes) → Bytes
darwin_routes_script foreign port keep write drop = join 10 (
    after_mkdir (map (write_line port) (not_foreign foreign write))
    ++ map (λ d. codes "rm -f " ++ shell_quote (resolver_file d)) (not_foreign foreign drop))
