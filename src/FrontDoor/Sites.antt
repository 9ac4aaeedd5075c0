-- ===== src/FrontDoor/Sites.antt =====
-- Where the front door and its URLs lead.
use doze_names.Prelude.{
  Bool, true, false, not, ◌&&◌, [], ◌++◌, Option, none, some, ◌≡◌, ◌≢◌, refl, sym, arith,
  Bool-cases, Option-cases, inl, inr, if◌then◌else◌,
}
use doze_names.Text.{Bytes, Unicode, codes, eq_bytes}
use doze_names.Text.Laws.{eq_bytes_ne}
use doze_names.Table.{Table, has_key}
use doze_names.Names.{normalize}
use doze_names.Net.{split_host_port}
use doze_names.Pool.{Network}
use doze_names.Registry.{Entry}
use doze_names.Registry.Doors.{ingress_tls_key}
use doze_names.Registry.Lookups.{lookup_domain, find_owner}
use doze_names.Domains.{host_only, valid_domain}
use doze_names.FrontDoor.{
  Request, redirected, proxied, own_files, leaf_of, no_authority, is_some, from_this_machine,
  route_for, proxy, goes_to_https, with_https_redirect, plain_door, refuses_peer, get_certificate,
  entry_certificate, url_for,
}

is_some_of : {A : Type 0} (o : Option A) → is_some o ≡ true → (a : A) × (o ≡ some a)
unfolding is_some
is_some_of none h = cc
is_some_of (some a) h = (a, refl)

redirected-injective : {a b : Bytes} → redirected a ≡ redirected b → a ≡ b
redirected-injective e = cc

host_only_bare : (host : Bytes) → split_host_port host ≡ none → host_only host ≡ host
unfolding host_only
host_only_bare host bare = rw (bare, host_only) refl

module _ ⦃u : Unicode⦄ (net : Network) (colons : Bytes → Bool) where
  proxy_never :
      (checked then_read : Table Entry) (r : Request) (url : Bytes)
      → proxy net colons checked then_read r ≢ redirected url
  unfolding proxy
  proxy_never checked then_read r url = ground arith

  get_certificate_served :
      (m : Table Entry) (authority : Bool) (peer name domain : Bytes) (e : Entry)
      → name ≢ []
      → from_this_machine net colons peer ≡ true
      → lookup_domain m name ≡ some (e, domain)
      → get_certificate net colons m authority (some peer) name
        ≡ entry_certificate authority name e domain
  unfolding get_certificate refuses_peer
  get_certificate_served m authority peer name domain e named here found =
      rw (eq_bytes_ne name [] named, here, found) refl

  valid_domain_named : (h : Bytes) → is_some (valid_domain h) ≡ false → h ≢ []
  unfolding valid_domain is_some eq_bytes normalize
  valid_domain_named h valid empty =
      let bad : true ≡ false = rw (empty, valid_domain, is_some) at valid in absurd (cc)

  -- A request is sent to https only for a host that the https port answers for: the host's name is that
  -- of a declared domain or below a wildcard's, some process holds the https port, and the handshake for
  -- that host, from the same peer and on the same registry, is offered the files of the domain's own
  -- entry if that names any, and else a leaf for the domain if there is an authority; it fails, for want
  -- of the authority, only if there is neither. That a client takes a wildcard's leaf for the host is
  -- not said: it does so one level below the wildcard alone.
  pub redirect_served :
      (first checked then_read : Table Entry) (r : Request) (url : Bytes) (authority : Bool)
      → plain_door net colons first checked then_read r ≡ redirected url
      → (url ≡ codes "https://" ++ normalize (host_only r.host) ++ r.uri)
        × (has_key ingress_tls_key first ≡ true)
        × ((e : Entry) × (domain : Bytes) × (lookup_domain first (normalize (host_only r.host))
              ≡ some (e, domain))
            × ((name : Bytes) × (name ≡ normalize (host_only r.host))
                × (get_certificate net colons first authority (some r.peer) name ≡ (
                    if not (eq_bytes e.cert [])
                    then own_files e.cert e.key
                    else (if authority then leaf_of domain else no_authority name)))))
  unfolding plain_door with_https_redirect goes_to_https entry_certificate
  redirect_served first checked then_read r url authority sent =
      let host = normalize (host_only r.host) in
      elim (Bool-cases (from_this_machine net colons r.peer)) [
        | inr away ↦ absurd (proxy_never checked then_read r url (rw (away) at sent))
        | inl here ↦ elim (Bool-cases (not r.encrypted && goes_to_https first host)) [
          | inr stays ↦ absurd (proxy_never checked then_read r url (rw (here, stays) at sent))
          | inl goes ↦
              let served : goes_to_https first host ≡ true = ground arith in
              let valid : is_some (valid_domain host) ≡ false = ground arith in
              let held : has_key ingress_tls_key first ≡ true = ground arith in
              let ((e, domain), found) = is_some_of (lookup_domain first host) (ground arith) in
              let same : redirected (codes "https://" ++ host ++ r.uri) ≡ redirected url =
                rw (here, goes) at sent in
              (
                sym (redirected-injective same),
                held,
                (
                  e,
                  domain,
                  found,
                  (
                    host,
                    refl,
                    get_certificate_served first authority r.peer host domain e
                        (valid_domain_named host valid) here found,
                  ),
                ),
              )
        ]
      ]

  bare_route :
      (m : Table Entry) (host : Bytes) (e : Entry)
      → split_host_port host ≡ none
      → find_owner m host ≡ some e
      → route_for m host ≡ e.target
  unfolding route_for
  bare_route m host e bare found = rw (host_only_bare host bare, found, route_for) refl

  -- A host without a port that has a URL is fronted: a request for it from this machine is sent on to
  -- its backend.
  pub url_fronted :
      (m held : Table Entry) (r : Request)
      → split_host_port r.host ≡ none
      → url_for m held r.host ≢ []
      → from_this_machine net colons r.peer ≡ true
      → (e : Entry) × (find_owner m r.host ≡ some e) × (proxy net colons m m r ≡ proxied e.target)
  unfolding url_for proxy
  url_fronted m held r bare url here = elim (Option-cases (find_owner m r.host)) [
    | inl unknown ↦ absurd (url (rw (unknown, url_for) refl))
    | inr (e, found) ↦ elim (Bool-cases (eq_bytes e.target [])) [
      | inl off ↦ absurd (url (rw (found, off, url_for) refl))
      | inr on ↦ (e, found, rw (here, bare_route m r.host e bare found, on) refl)
    ]
  ]
