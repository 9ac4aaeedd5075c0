-- ===== src/Ports/Daemon.antt =====
-- `readPortTable` of listen.go: the table that the network daemon translates by, from the registry as
-- it stands and the ports file. The table is the list of what is added to it, in order; what is added
-- later counts. The source goes through the names in any order, and the model in the list's.
use doze_names.Prelude.{
  ℕ, Bool, false, not, ◌&&◌, ◌||◌, List, [], ◌∷◌, ◌++◌, Option, none, some, ◌==◌, if◌then◌else◌,
}
use doze_names.Text.{Bytes, Unicode, codes, eq_bytes}
use doze_names.Table.{Table, lookup}
use doze_names.Decimal.{itoa, atoi}
use doze_names.Names.{in_zone}
use doze_names.Net.{Ip, parse_ip}
use doze_names.Pool.{Network, offset}
use doze_names.Registry.{Entry, Content, holds}
use doze_names.Registry.Doors.{ingress_key}
use doze_names.Ports.{merge_ports, is_port}
use doze_names.Ports.Files.{PortsEntry, read_ports}
use doze_names.Packet.Bytes.{eq_ip}
use doze_names.Packet.{Forwards}

-- `ingressBind`
abbrev pub ingress_bind : Bytes
ingress_bind = codes "0.0.0.0:80"

-- `frontDoorPort`
abbrev pub front_door_port : ℕ
front_door_port = 80

-- what `add` adds
pub record Row : Type 0 where
  pub addr : Ip
  pub public : ℕ
  pub private : ℕ

-- `portTable.private`
unfoldable pub find_private : List Row → Ip → ℕ → Option ℕ
find_private [] v port = none
find_private (r ∷ rs) v port = elim (find_private rs v port) [
  | some p ↦ some p
  | none ↦ if eq_ip r.addr v && r.public == port then some r.private else none
]

-- `portTable.public`
unfoldable pub find_public : List Row → Ip → ℕ → Option ℕ
find_public [] v port = none
find_public (r ∷ rs) v port = elim (find_public rs v port) [
  | some p ↦ some p
  | none ↦ if eq_ip r.addr v && r.private == port then some r.public else none
]

-- the table, as the packet translation uses it
abbrev pub forwards_of : List Row → Forwards
forwards_of rows = record { private = find_private rows; public = find_public rows }

-- does the ports file speak of the same claim?
unfoldable pub same_claim : Entry → PortsEntry → Bool
same_claim e s = s.pid == e.pid && (eq_bytes s.ip [] || eq_bytes s.ip e.ip)

-- the ports of a name: the registry's, and the ports file's over them
unfoldable pub ports_of : Entry → Option PortsEntry → Table ℕ
ports_of e none = e.ports
ports_of e (some s) = if same_claim e s then merge_ports e.ports s.ports else e.ports

-- the rows of one port
unfoldable pub port_row : Ip → Bytes → ℕ → List Row
port_row v k private = elim (atoi k) [
  | none ↦ []
  | some public ↦
      if is_port public && is_port private
      then record { addr = v; public = public; private = private } ∷ []
      else []
]

unfoldable pub port_rows : Ip → Table ℕ → List Row
port_rows v [] = []
port_rows v ((k, private) ∷ more) = port_row v k private ++ port_rows v more

-- does a live process hold the front door, on every address?
unfoldable pub front_door_open : (ℕ → Bool) → Option Entry → Bool
front_door_open alive none = false
front_door_open alive (some d) = alive d.pid && eq_bytes d.target ingress_bind

-- the front door's row, unless the service took the port for itself
unfoldable pub front_row : Ip → Entry → Table ℕ → Bool → List Row
front_row v e ports door = elim (lookup (itoa front_door_port) ports) [
  | some _ ↦ []
  | none ↦
      if not (eq_bytes e.target []) && door
      then record { addr = v; public = front_door_port; private = front_door_port } ∷ []
      else []
]

-- an address of the block
unfoldable pub block_address : Network → Option Ip → Option Ip
block_address net none = none
block_address net (some ip) = elim (offset net ip) [ none ↦ none | some off ↦ some ip ]

-- the rows of one name
unfoldable pub rows_at : Option Ip → Entry → Table ℕ → Bool → List Row
rows_at none e ports door = []
rows_at (some v) e ports door = port_rows v ports ++ front_row v e ports door

unfoldable pub entries_of : Content Entry → Table Entry
entries_of (holds m) = m
entries_of _ = []

module _ ⦃u : Unicode⦄ where
  unfoldable pub name_rows :
      (ℕ → Bool) → Network → Bytes → Entry → Option PortsEntry → Bool → List Row
  name_rows alive net host e side door =
      if not (in_zone host) || not (alive e.pid)
      then []
      else rows_at (block_address net (parse_ip e.ip)) e (ports_of e side) door

  unfoldable pub all_rows : (ℕ → Bool) → Network → Table PortsEntry → Bool → Table Entry → List Row
  all_rows alive net side door [] = []
  all_rows alive net side door ((host, e) ∷ m) =
      name_rows alive net host e (lookup host side) door ++ all_rows alive net side door m

  -- `readPortTable`
  unfoldable pub read_port_table :
      (ℕ → Bool) → Network → Content Entry → Content PortsEntry → List Row
  read_port_table alive net registry side =
      let m = entries_of registry in
      all_rows alive net (read_ports side) (front_door_open alive (lookup ingress_key m)) m
