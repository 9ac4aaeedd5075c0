-- ===== src/Registry/Doors.antt =====
-- ingress.go and domains.go, on the registry file: the entries that say which process holds a shared
-- socket (`claimResolver`, `claimPort`, `releasePort`), and the fields that a holder of a name sets
-- (`Route`, `RouteFor`, `Certificate`).
use doze_names.Prelude.{Option, none, some}
use doze_names.Text.{Bytes, codes}
use doze_names.Table.{Table, lookup, insert, delete}
use doze_names.Names.{normalize}
use doze_names.Registry.{Entry, blank_entry, not_held, Process, Edit, refuse, accept}
use doze_names.Registry.Claims.{mine}

-- `ingressKey`, `ingressTLSKey` and `resolverKey`
abbrev pub ingress_key : Bytes
ingress_key = codes "_ingress"

abbrev pub ingress_tls_key : Bytes
ingress_tls_key = codes "_ingress_tls"

abbrev pub resolver_key : Bytes
resolver_key = codes "_resolver"

-- the function that `claimResolver` and `claimPort` run
unfoldable pub claim_port_edit : Process → Bytes → Bytes → Table Entry → Edit (Unit {0})
claim_port_edit self key addr m =
    accept tt
      (insert key (record blank_entry { pid = self.pid; owner = self.owner; target = addr }) m)

-- the function that `releaseResolver` and `releasePort` run
unfoldable pub release_port_edit : Process → Bytes → Table Entry → Edit (Unit {0})
release_port_edit self key m = elim (mine self (lookup key m)) [
  | none ↦ accept tt m
  | some e ↦ accept tt (delete key m)
]

-- a change to the entry of a name that this process holds
unfoldable pub change_mine :
    Process → Bytes → Bytes → (Entry → Entry) → Table Entry → Edit (Unit {0})
change_mine self host shown change m = elim (mine self (lookup host m)) [
  | none ↦ refuse (not_held shown)
  | some e ↦ accept tt (insert host (change e) m)
]

-- the function that `Route` runs
unfoldable pub route_edit : Process → Bytes → Bytes → Table Entry → Edit (Unit {0})
route_edit self host target = change_mine self host host (λ e. record e { target = target })

-- the function that `RouteFor` runs
unfoldable pub route_for_edit : Process → Bytes → Bytes → Table Entry → Edit (Unit {0})
route_for_edit self host target =
    change_mine self (normalize host) host (λ e. record e { target = target })

-- the function that `Certificate` runs
unfoldable pub certificate_edit : Process → Bytes → Bytes → Bytes → Table Entry → Edit (Unit {0})
certificate_edit self host cert key =
    change_mine self host host (λ e. record e { cert = cert; key = key })

-- `portHolder` and `ResolverHolder`, on a snapshot
unfoldable pub port_holder : Bytes → Table Entry → Option Entry
port_holder = lookup
