-- ===== src/Ports/Listen.antt =====
-- listen.go: how a service listens on its name, on a system that translates and on one that does not.
-- A port is a number; the code's, below zero, is refused where 0 is.
use doze_names.Prelude.{
  ℕ, Bool, false, not, ◌&&◌, ◌||◌, [], ◌∷◌, Option, none, some, ◌≡◌, arith, if◌then◌else◌, ◌==◌,
}
use doze_names.Text.{Bytes, Unicode, eq_bytes}
use doze_names.Table.{Table}
use doze_names.Decimal.{atoi}
use doze_names.Names.{Name, in_zone}
use doze_names.Net.{Ip, ip_text, parse_ip, split_host_port}
use doze_names.Pool.{Network, gateway, in_pool}
use doze_names.Registry.{Entry, Io, Process}
use doze_names.Ports.Store.{Forwarding, Ended, set_port}

-- the part of `Lease` that these read
pub record Lease : Type 0 where
  pub name : Name
  pub ip : Ip

-- `translated`
unfoldable pub translated : Network → Lease → Bool
translated net l = if not net.virtual then false else in_pool net l.ip

-- `BindAddr`
unfoldable pub bind_addr : Network → Lease → Ip
bind_addr net l = if translated net l then gateway net else l.ip

-- what is listened on: the lease's own address and port, or a private port of the gateway that stands
-- for them
pub data Listener : Type 0 where
  direct : (ip : Ip) → (port : ℕ) → Listener
  standing_for : (ip : Ip) → (port private : ℕ) → Listener

-- `Addr`
unfoldable pub shown : Listener → Ip × ℕ
shown (direct ip port) = (ip, port)
shown (standing_for ip port private) = (ip, port)

-- `Listen`'s end: a listener that is open, none, or a run that panics; with the files after it
pub data Listened : Type 0 where
  panics : Listened
  fails : Forwarding → Listened
  listens : Listener → Forwarding → Listened

-- what Forward made of the files, with the private listener open; a listener is closed if it failed
unfoldable pub after_forward : Ip → (port private : ℕ) → Ended → Listened
after_forward ip port private none = panics
after_forward ip port private (some (some e, s)) = fails s
after_forward ip port private (some (none, s)) = listens (standing_for ip port private) s

-- the ways in which the system can be asked for a listener: on an address and port, and on any free port
-- of an address
pub record Sockets : Type 0 where
  pub listen_on : Ip → ℕ → Bool
  pub listen_any : Ip → Option ℕ

module _ (net : Network) (alive : ℕ → Bool) (io io' : Io) (self : Process) where
  -- `Forward`
  unfoldable pub forward : Lease → (public private : ℕ) → Forwarding → Ended
  forward l public private s =
      if not (translated net l)
      then some (none, s)
      else set_port alive io io' self l.name.host (ip_text l.ip) public private s

  -- `Unforward`
  unfoldable pub unforward : Lease → (public : ℕ) → Forwarding → Ended
  unforward l public s =
      if not (translated net l)
      then some (none, s)
      else set_port alive io io' self l.name.host (ip_text l.ip) public 0 s

  -- `Lease.Listen`
  unfoldable pub listen : Sockets → Lease → (port : ℕ) → Forwarding → Listened
  listen system l port s =
      if not (translated net l)
      then (if system.listen_on l.ip port then listens (direct l.ip port) s else fails s)
      else elim (system.listen_any (gateway net)) [
        | none ↦ fails s
        | some private ↦ after_forward l.ip port private (forward l port private s)
      ]

  -- the listener's `Close`: a registration goes with it, whatever becomes of that
  unfoldable pub close_listener : Lease → Listener → Forwarding → Ended
  close_listener l (direct ip port) s = some (none, s)
  close_listener l (standing_for ip port private) s = unforward l port s

-- the name of this process that has an address, of those of a snapshot
unfoldable pub find_lease : ⦃u : Unicode⦄ → Process → Ip → Table Entry → Option Lease
find_lease self ip [] = none
find_lease self ip ((host, e) ∷ m) =
    let later = find_lease self ip m in
    if e.pid == self.pid && eq_bytes e.ip (ip_text ip) && in_zone host
    then some (record { name = record { host = host; tier = e.tier }; ip = ip })
    else later

-- what `Registry.Listen` comes to: an error, the system's own listener on the address, or that of a lease
pub data ByAddress : Type 0 where
  refused : ByAddress
  plain : (addr : Bytes) → ByAddress
  by_lease : (lease : Lease) → (port : ℕ) → ByAddress

-- the lease and the port for an address of the pool; a port below zero is no port of a name either way
unfoldable pub listen_lease : Option Lease → Option ℕ → ByAddress
listen_lease none port = refused
listen_lease (some l) none = refused
listen_lease (some l) (some port) = by_lease l port

-- `Registry.Listen`, up to the listener; `m` is what Snapshot returns
unfoldable pub listen_at :
    ⦃u : Unicode⦄ → Network → Process → (addr : Bytes) → Table Entry → ByAddress
listen_at net self addr m = elim (split_host_port addr) [
  | none ↦ refused
  | some (host, port) ↦ elim (parse_ip host) [
    | none ↦ plain addr
    | some ip ↦
        if not net.virtual || not (in_pool net ip)
        then plain addr
        else listen_lease (find_lease self ip m) (atoi port)
  ]
]

pub after_forward-listens :
    (ip : Ip) (port private : ℕ) (r : Ended) (x : Listener) (s' : Forwarding)
    → after_forward ip port private r ≡ listens x s'
    → (x ≡ standing_for ip port private) × (r ≡ some (none, s'))
unfolding after_forward
after_forward-listens ip port private none x s' e = cc
after_forward-listens ip port private (some (some f, s)) x s' e = cc
after_forward-listens ip port private (some (none, s)) x s' e = ground (arith, e)
