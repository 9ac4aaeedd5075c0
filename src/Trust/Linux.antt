-- ===== src/Trust/Linux.antt =====
-- trust_linux.go: what the platform says and runs, which is one filling of `Platform`.
use doze_names.Prelude.{Bool, true, false, List, [], ◌∷◌, ◌++◌, Option, none, some, if◌then◌else◌}
use doze_names.Text.{Bytes, codes, eq_bytes, cut}
use doze_names.Text.Space.{fields}
use doze_names.Strings.{member}
use doze_names.Setup.{shell_quote}
use doze_names.Setup.Manager.{Manager, mgr_resolved}
use doze_names.Trust.{Platform}
use doze_names.Trust.Scripts.{linux_routes_script}

-- `linkDomains`, of what `resolvectl domain` prints, if it succeeds
unfoldable pub link_domains : Option Bytes → List Bytes
link_domains none = []
link_domains (some out) = elim (cut b':' out) [ none ↦ [] | some (before, rest) ↦ fields rest ]

-- `domainRouted`: the answer and the words for it
unfoldable pub is_routed : Manager → (tokens : List Bytes) → Bytes → Bool × Bytes
is_routed mgr_resolved tokens domain =
    if member (b'~' ∷ domain) tokens
    then (true, codes "resolved sends " ++ (domain ++ codes " to 192.0.2.53:5323"))
    else (false, domain ++ codes " is not routed to the doze resolver")
is_routed _ tokens domain =
    (false, domain ++ codes " needs systemd-resolved to be routed; use the name with its port")

-- `caBundlePath`, the file and the command; `anchors` says that Fedora's folder is there
unfoldable pub ca_bundle_path : (anchors : Bool) → Bytes × Bytes
ca_bundle_path anchors =
    if anchors
    then (codes "/etc/pki/ca-trust/source/anchors/doze-local-ca.crt", codes "update-ca-trust")
    else (
      codes "/usr/local/share/ca-certificates/doze-local-ca.crt",
      codes "update-ca-certificates",
    )

-- `caTrusted`, of the system's file and the authority's, where they can be read
unfoldable pub same_root : (current root : Option Bytes) → Bool
same_root (some cur) (some want) = eq_bytes cur want
same_root _ _ = false

-- `trustScript`; `root` is the path of the authority's certificate
unfoldable pub trust_script : (anchors : Bool) → (root : Bytes) → Bytes
trust_script anchors root =
    let (path, update) = ca_bundle_path anchors in
    codes "cp -f " ++ (shell_quote root ++ (32 ∷ (shell_quote path ++ (10 ∷ update))))

-- `untrustScript`
unfoldable pub untrust_script : (anchors : Bool) → Bytes
untrust_script anchors =
    let (path, update) = ca_bundle_path anchors in
    codes "rm -f " ++ (shell_quote path ++ (10 ∷ update))

-- What the machine says: who owns resolv.conf, what resolvectl prints, whether Fedora's folder is there,
-- and the system's copy of the root with the root itself.
pub record System : Type 0 where
  pub manager : Manager
  pub link : Option Bytes
  pub anchors : Bool
  pub current : Option Bytes
  pub root_path : Bytes
  pub root : Option Bytes

unfoldable pub platform_of : System → Platform
platform_of s = record {
  supported = true;
  routed = λ d. (is_routed s.manager (link_domains s.link) d).0;
  detail = λ d. (is_routed s.manager (link_domains s.link) d).1;
  foreign = λ d. false;
  routes_script = linux_routes_script;
  uninstall_routes = λ routes. [];
  ca_trusted = same_root s.current s.root;
  fingerprint_trusted = λ fp. false;
  trust_script = trust_script s.anchors s.root_path;
  untrust_script = untrust_script s.anchors;
  untrust_fingerprint = λ fp. [];
  untrust_unknown = untrust_script s.anchors ∷ [];
}
