-- ===== src/Trust/Darwin.antt =====
-- trust_darwin.go: what the platform says and runs, which is one filling of `Platform`.
use doze_names.Prelude.{
  ◌+◌, Bool, true, false, not, ◌&&◌, List, [], ◌∷◌, ◌++◌, Option, none, some, map, if◌then◌else◌,
  drop, length,
}
use doze_names.Text.{Bytes, Unicode, codes, join, split, to_lower}
use doze_names.Text.Space.{trim_space}
use doze_names.Setup.{index_of, shell_quote}
use doze_names.Setup.Manager.{contains}
use doze_names.Authority.{valid_fingerprint}
use doze_names.Authority.Replace.{append_unique}
use doze_names.Strings.{member}
use doze_names.Trust.{Platform}
use doze_names.Trust.Scripts.{resolver_file, darwin_routes_script}

-- does a file send its domain to this resolver?
unfoldable pub is_ours : (port text : Bytes) → Bool
is_ours port text = contains text (codes "127.0.0.1") && contains text port

-- `routeFileState` of a file, if it can be read: ours, and present
unfoldable pub route_file_state : (port : Bytes) → Option Bytes → Bool × Bool
route_file_state port none = (false, false)
route_file_state port (some text) = (is_ours port text, true)

-- `domainRouted`: the answer and the words for it; `addr` is the resolver's address
unfoldable pub domain_routed : (addr port : Bytes) → Option Bytes → Bytes → Bool × Bytes
domain_routed addr port file domain =
    let (ours, present) = route_file_state port file in
    if ours
    then (true, resolver_file domain ++ (32 ∷ 226 ∷ 134 ∷ 146 ∷ 32 ∷ addr))
    else if present
    then (
      false,
      resolver_file domain
          ++ (codes " is someone else's and points elsewhere; doze leaves it alone "
              ++ (226 ∷ 128 ∷ 148 ∷ (codes " remove it to let doze route " ++ domain))),
    )
    else (
      false,
      resolver_file domain
          ++ (codes " missing "
              ++ (226 ∷ 128 ∷ 148 ∷ 32 ∷ (domain ++ codes " will not resolve here"))),
    )

-- `routeForeign`
unfoldable pub route_foreign : (port : Bytes) → Option Bytes → Bool
route_foreign port file = let (ours, present) = route_file_state port file in present && not ours

abbrev pub hash_label : Bytes
hash_label = codes "SHA-256 hash:"

module _ ⦃u : Unicode⦄ where
  -- a line's fingerprint onto those found so far, if it has a valid one
  unfoldable pub add_root : List Bytes → Bytes → List Bytes
  add_root fps line = elim (index_of (trim_space line) hash_label) [
    | none ↦ fps
    | some i ↦
        let fp = to_lower (trim_space (drop (i + length hash_label) (trim_space line))) in
        if valid_fingerprint fp then append_unique fps fp else fps
  ]

  unfoldable pub add_roots : List Bytes → List Bytes → List Bytes
  add_roots fps [] = fps
  add_roots fps (l ∷ ls) = add_roots (add_root fps l) ls

  -- `trustedDozeRoots`, of what `security find-certificate` prints, if it succeeds
  unfoldable pub trusted_doze_roots : Option Bytes → List Bytes
  trusted_doze_roots none = []
  trusted_doze_roots (some out) = add_roots [] (split 10 out)

  -- `fingerprintTrusted`: of the root's file, if it was kept, whether the keychain trusts it, and the
  -- roots in the keychain. Both fingerprints are ASCII.
  unfoldable pub fingerprint_trusted : (kept : Option Bool) → (roots : List Bytes) → Bytes → Bool
  fingerprint_trusted kept roots fp =
      if not (valid_fingerprint fp)
      then false
      else elim kept [ none ↦ member (to_lower fp) roots | some trusted ↦ trusted ]

abbrev pub keychain : Bytes
keychain = codes "/Library/Keychains/System.keychain"

-- `trustScript`
unfoldable pub trust_script : (root : Bytes) → Bytes
trust_script root =
    codes "security add-trusted-cert -d -r trustRoot -p ssl -p basic -k "
    ++ (keychain ++ (32 ∷ shell_quote root))

unfoldable pub remove_line : (file : Option Bytes) → List Bytes
remove_line none = []
remove_line (some file) =
    (codes "security remove-trusted-cert -d " ++ (shell_quote file ++ codes " 2>/dev/null || true"))
    ∷ []

unfoldable pub delete_line : Bytes → List Bytes
delete_line fp =
    if valid_fingerprint fp
    then (codes "security delete-certificate -t -Z "
        ++ (shell_quote fp ++ (32 ∷ (keychain ++ codes " 2>/dev/null || true"))))
      ∷ []
    else []

-- `untrustRootScript`, for the file if there is one
unfoldable pub untrust_root_script : (file : Option Bytes) → Bytes → Bytes
untrust_root_script file fp = join 10 (remove_line file ++ delete_line fp)

-- What the machine says: the text of each domain's resolver file, whether the keychain trusts the root,
-- the paths and the fingerprint of the root, the kept file of a fingerprint with whether it is trusted,
-- and what `security find-certificate` prints.
pub record System : Type 0 where
  pub addr : Bytes
  pub port : Bytes
  pub file : Bytes → Option Bytes
  pub trusted : Bool
  pub root_path : Bytes
  pub root_there : Bool
  pub fingerprint : Bytes
  pub kept : Bytes → Option (Bytes × Bool)
  pub found : Option Bytes

unfoldable pub kept_path : Option (Bytes × Bool) → Option Bytes
kept_path none = none
kept_path (some (path, trusted)) = some path

unfoldable pub kept_trusted : Option (Bytes × Bool) → Option Bool
kept_trusted none = none
kept_trusted (some (path, trusted)) = some trusted

unfoldable pub platform_of : ⦃u : Unicode⦄ → System → Platform
platform_of s = record {
  supported = true;
  routed = λ d. (domain_routed s.addr s.port (s.file d) d).0;
  detail = λ d. (domain_routed s.addr s.port (s.file d) d).1;
  foreign = λ d. route_foreign s.port (s.file d);
  routes_script = λ keep write gone.
      darwin_routes_script (λ d. route_foreign s.port (s.file d)) s.port keep write gone;
  uninstall_routes =
      λ routes. darwin_routes_script (λ d. route_foreign s.port (s.file d)) s.port [] [] routes;
  ca_trusted = s.trusted;
  fingerprint_trusted =
      λ fp. fingerprint_trusted (kept_trusted (s.kept fp)) (trusted_doze_roots s.found) fp;
  trust_script = trust_script s.root_path;
  untrust_script =
      untrust_root_script (if s.root_there then some s.root_path else none) s.fingerprint;
  untrust_fingerprint = λ fp. untrust_root_script (kept_path (s.kept fp)) fp;
  untrust_unknown = map (untrust_root_script none) (trusted_doze_roots s.found);
}
