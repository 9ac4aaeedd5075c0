-- ===== src/FrontDoor.antt =====
-- ingress.go: what the front door answers, and `getCertificate` of ca.go. A request carries its peer's
-- address, and each read of the registry is a snapshot of its own. The proxy and the handshake
-- themselves are the standard library's. What `net.ParseIP` and `OnThisMachine` make of a text with
-- colons, which is no IPv4 address, is the argument `colons`.
pub mod Peers
pub mod Sites
use doze_names.Prelude.{
  ℕ, Bool, true, false, not, ◌&&◌, ◌||◌, List, [], ◌∷◌, ◌++◌, Option, none, some, ◌==◌,
  if◌then◌else◌,
}
use doze_names.Text.{Bytes, Unicode, codes, eq_bytes, has_prefix, contains_byte, join}
use doze_names.Table.{Table, has_key}
use doze_names.Names.{normalize, in_zone}
use doze_names.Net.{Ip, parse_ip, split_host_port}
use doze_names.Pool.{Network, offset}
use doze_names.Registry.{Entry}
use doze_names.Registry.Doors.{ingress_key, ingress_tls_key, port_holder}
use doze_names.Registry.Lookups.{lookup_domain, find_owner}
use doze_names.Domains.{host_only, valid_domain}

unfoldable pub is_some {ℓ} : {A : Type ℓ} → Option A → Bool
is_some none = false
is_some (some x) = true

-- the parts of a request; `encrypted` says that it came over TLS
pub record Request : Type 0 where
  pub peer : Bytes
  pub encrypted : Bool
  pub host : Bytes
  pub uri : Bytes

-- the answers: 403, 404 with its text, a redirect, or what the backend says
pub data Reply : Type 0 where
  forbidden : Reply
  not_found : (body : Bytes) → Reply
  redirected : (url : Bytes) → Reply
  proxied : (target : Bytes) → Reply

-- `OnThisMachine`, of an IPv4 address
unfoldable pub on_this_machine : Network → Ip → Bool
on_this_machine net ip = ip.a == 127 || (net.virtual && is_some (offset net ip))

module _ (net : Network) (colons : Bytes → Bool) where
  -- `fromThisMachine`
  unfoldable pub from_this_machine : Bytes → Bool
  from_this_machine remote =
      let host = host_only remote in
      if contains_byte b':' host
      then colons host
      else elim (parse_ip host) [ none ↦ false | some ip ↦ on_this_machine net ip ]

-- one line of `routed`
unfoldable pub routed_line : Bytes → Entry → Bytes
routed_line host e =
    codes "  http://"
    ++ host
    ++ codes "  "
    ++ (226 ∷ 134 ∷ 146 ∷ [])
    ++ codes "  "
    ++ e.target
    ++ codes "  ("
    ++ e.owner
    ++ codes ")"

unfoldable pub routed_lines : Table Entry → List Bytes
routed_lines [] = []
routed_lines ((host, e) ∷ m) =
    let rest = routed_lines m in
    if has_prefix host (codes "_") || eq_bytes e.target [] then rest else routed_line host e ∷ rest

abbrev nothing_routed : Bytes
nothing_routed =
    codes "  (nothing "
    ++ (226 ∷ 128 ∷ 148 ∷ [])
    ++ codes " no doze service has registered a route)"

-- `routed`
unfoldable pub routed : Table Entry → List Bytes
routed m = elim (routed_lines m) [ [] ↦ nothing_routed ∷ [] | l ∷ ls ↦ l ∷ ls ]

-- the text of the 404
unfoldable pub not_found_body : Table Entry → Bytes → Bytes
not_found_body m host =
    codes "no doze service is fronting "
    ++ host_only host
    ++ (10 ∷ 10 ∷ codes "fronted here:")
    ++ (10 ∷ join 10 (routed m))

-- a URL with a port
unfoldable pub port_url : Bytes → Bytes → Bytes
port_url host port = codes "http://" ++ host ++ (b':' ∷ port)

-- the URL of a host where the front door holds the address
unfoldable pub door_url : Bytes → Bytes → Bytes
door_url host held = elim (split_host_port held) [
  | none ↦ codes "http://" ++ host
  | some (_, port) ↦
      if eq_bytes port (codes "80") then codes "http://" ++ host else port_url host port
]

-- the URL of a host with a backend
unfoldable pub backend_url : Bytes → Bytes → Bytes
backend_url host target = elim (split_host_port target) [
  | none ↦ []
  | some (_, port) ↦ port_url host port
]

-- what `getCertificate` returns: an error, the person's own files, or the authority's leaf for an
-- entry
pub data Certificate : Type 0 where
  nameless stranger : Certificate
  not_served : (name : Bytes) → Certificate
  no_authority : (name : Bytes) → Certificate
  own_files : (cert key : Bytes) → Certificate
  leaf_of : (domain : Bytes) → Certificate

-- the certificate for an entry
unfoldable pub entry_certificate : Bool → Bytes → Entry → Bytes → Certificate
entry_certificate authority name e domain =
    if not (eq_bytes e.cert [])
    then own_files e.cert e.key
    else if authority
    then leaf_of domain
    else no_authority name

module _ ⦃u : Unicode⦄ where
  -- `routeFor`, on a snapshot
  unfoldable pub route_for : Table Entry → Bytes → Bytes
  route_for m host = elim (find_owner m (host_only host)) [ none ↦ [] | some e ↦ e.target ]

  -- is a plain request for the host sent to https?
  unfoldable pub goes_to_https : Table Entry → Bytes → Bool
  goes_to_https m host =
      not (in_zone host)
      && not (is_some (valid_domain host))
      && is_some (lookup_domain m host)
      && has_key ingress_tls_key m

  -- `URLFor`; the holder of the front door is looked up in a snapshot of its own
  unfoldable pub url_for : Table Entry → Table Entry → Bytes → Bytes
  url_for m held host = elim (find_owner m host) [
    | none ↦ []
    | some e ↦ if eq_bytes e.target [] then [] else elim (port_holder ingress_key held) [
      | some h ↦ door_url host h.target
      | none ↦ backend_url host e.target
    ]
  ]

module _ ⦃u : Unicode⦄ (net : Network) (colons : Bytes → Bool) where
  -- `proxy`: the route is looked up again when the request is sent on, and the 404 lists the routes
  unfoldable pub proxy : Table Entry → Table Entry → Request → Reply
  proxy checked then_read r =
      if not (from_this_machine net colons r.peer)
      then forbidden
      else if eq_bytes (route_for checked r.host) []
      then not_found (not_found_body then_read r.host)
      else proxied (route_for then_read r.host)

  -- `withHTTPSRedirect`, before the handler behind it
  unfoldable pub with_https_redirect : Table Entry → (Request → Reply) → Request → Reply
  with_https_redirect m next r =
      let host = normalize (host_only r.host) in
      if not (from_this_machine net colons r.peer)
      then next r
      else if not r.encrypted && goes_to_https m host
      then redirected (codes "https://" ++ host ++ r.uri)
      else next r

  -- the handler of the plain port
  unfoldable pub plain_door : Table Entry → Table Entry → Table Entry → Request → Reply
  plain_door first checked then_read = with_https_redirect first (proxy checked then_read)

  -- is the peer of a handshake, if it has a connection, another machine?
  unfoldable pub refuses_peer : Option Bytes → Bool
  refuses_peer none = false
  refuses_peer (some p) = not (from_this_machine net colons p)

  -- `getCertificate`; `authority` says that there is one
  unfoldable pub get_certificate : Table Entry → Bool → Option Bytes → Bytes → Certificate
  get_certificate m authority peer name =
      if eq_bytes name []
      then nameless
      else if refuses_peer peer
      then stranger
      else elim (lookup_domain m name) [
        | none ↦ not_served name
        | some (e, domain) ↦ entry_certificate authority name e domain
      ]
