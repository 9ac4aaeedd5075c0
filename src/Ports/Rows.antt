-- ===== src/Ports/Rows.antt =====
-- What stands in the network daemon's table.
use doze_names.Prelude.{
  ℕ, zero, suc, subst, Bool, true, false, ◌⊎◌, not, ◌&&◌, ◌||◌, List, [], ◌∷◌, ◌++◌, Option, none,
  some, ◌==◌, ◌≡◌, refl, ap, sym, ◌∙◌, arith, if◌then◌else◌, Bool-cases, Option-cases, inl, inr,
  All, All-append, All-map, get_elem?,
}
use doze_names.Text.{Bytes, Unicode, eq_bytes}
use doze_names.Text.Laws.{eq_bytes_refl}
use doze_names.Table.{Table, lookup, insert}
use doze_names.Decimal.{itoa, atoi}
use doze_names.Names.{in_zone}
use doze_names.Net.{Ip, parse_ip}
use doze_names.Pool.{Network}
use doze_names.Registry.{Entry, Content}
use doze_names.Registry.Doors.{ingress_key}
use doze_names.Ports.{is_port, merge_ports}
use doze_names.Ports.Files.{PortsEntry, read_ports}
use doze_names.Packet.Bytes.{eq_ip}
use doze_names.Ports.Daemon.{
  Row, find_private, port_row, port_rows, front_row, front_door_open, block_address, rows_at,
  ports_of, same_claim, entries_of, name_rows, all_rows, read_port_table, front_door_port,
}

-- does a table of ports send a public port to a private one?
unfoldable pub sends : (key : Bytes) → (private : ℕ) → Table ℕ → Bool
sends k p [] = false
sends k p ((j, q) ∷ more) = eq_bytes j k && q == p || sends k p more

sends-insert :
    (k : Bytes) (p : ℕ) (j : Bytes) (q : ℕ) (m : Table ℕ)
    → sends k p (insert j q m) ≡ true
    → sends k p ((j, q) ∷ m) ≡ true
unfolding sends insert
sends-insert k p j q [] h = h
sends-insert k p j q ((i, w) ∷ m) h = ground (arith, h, sends-insert k p j q m)

sends-merge_ports :
    (k : Bytes) (p : ℕ) (base more : Table ℕ)
    → sends k p (merge_ports base more) ≡ true
    → (sends k p base || sends k p more) ≡ true
unfolding sends merge_ports
sends-merge_ports k p base [] h = ground (arith, h)
sends-merge_ports k p base ((j, q) ∷ more) h =
    ground (arith, sends-merge_ports k p (insert j q base) more h, sends-insert k p j q base)

-- does the registry's entry of a name, or the ports file's entry of the same process and address, send
-- the port there?
unfoldable pub says : Entry → Option PortsEntry → (key : Bytes) → (private : ℕ) → Bool
says e none k p = sends k p e.ports
says e (some s) k p =
    sends k p e.ports
    || (s.pid == e.pid && (eq_bytes s.ip [] || eq_bytes s.ip e.ip) && sends k p s.ports)

sends-ports_of :
    (e : Entry) (side : Option PortsEntry) (k : Bytes) (p : ℕ)
    → sends k p (ports_of e side) ≡ true
    → says e side k p ≡ true
unfolding says ports_of same_claim
sends-ports_of e none k p h = h
sends-ports_of e (some s) k p h = elim (Bool-cases (same_claim e s)) [
  | inr other ↦ let own = rw (other, ports_of) at h in ground (arith, own)
  | inl same ↦
      let merged = rw (same, ports_of) at h in
      ground (arith, same, sends-merge_ports k p e.ports s.ports merged)
]

-- Why a row is there: a port of the name, under the public port's number, or the front door's port, which
-- the service did not take, of a routed name while the front door is open.
abbrev pub Reason :
    (key : Bytes → ℕ → Bool) → Entry → (ports : Table ℕ) → (door : Bool) → Row → Type 0
Reason key e ports door r =
    ((k : Bytes) × (atoi k ≡ some r.public) × (key k r.private ≡ true))
    ⊎ ((r.public ≡ front_door_port)
        × (r.private ≡ front_door_port)
        × (lookup (itoa front_door_port) ports ≡ none)
        × ((not (eq_bytes e.target []) && door) ≡ true))

-- a row at an address, for two ports
record IsRow (v : Ip) (key : Bytes → ℕ → Bool) (e : Entry) (ports : Table ℕ) (door : Bool) (r : Row)
    : Type 0 where
  addr : r.addr ≡ v
  public : is_port r.public ≡ true
  private : is_port r.private ≡ true
  reason : Reason key e ports door r

module _ (v : Ip) (key : Bytes → ℕ → Bool) (e : Entry) (ports : Table ℕ) (door : Bool) where
  port_row-IsRow :
      (k : Bytes) (private : ℕ)
      → key k private ≡ true
      → All (IsRow v key e ports door) (port_row v k private)
  unfolding port_row
  port_row-IsRow k private known_key = elim (Option-cases (atoi k)) [
    | inl nothing ↦ rw (nothing, port_row) tt
    | inr (public, known) ↦ elim (Bool-cases (is_port public && is_port private)) [
      | inl both ↦
          rw (known, both, port_row)
            (
              record {
                addr = refl;
                public = ground arith;
                private = ground arith;
                reason = inl (k, known, known_key);
              },
              tt,
            )
      | inr out ↦ rw (known, out, port_row) tt
    ]
  ]

  port_rows-IsRow :
      (some_ports : Table ℕ)
      → ((k : Bytes) (p : ℕ) → sends k p some_ports ≡ true → key k p ≡ true)
      → All (IsRow v key e ports door) (port_rows v some_ports)
  unfolding port_rows sends
  port_rows-IsRow [] within = tt
  port_rows-IsRow ((k, private) ∷ more) within =
      All-append (IsRow v key e ports door) (port_row v k private) (port_rows v more)
        (port_row-IsRow k private (within k private (ground (arith, eq_bytes_refl k))))
        (port_rows-IsRow more (λ j p h. within j p (ground (arith, h))))

  front_row-IsRow : All (IsRow v key e ports door) (front_row v e ports door)
  unfolding front_row is_port
  front_row-IsRow = elim (Option-cases (lookup (itoa front_door_port) ports)) [
    | inr (p, own) ↦ rw (own, front_row) tt
    | inl free ↦ elim (Bool-cases (not (eq_bytes e.target []) && door)) [
      | inl served ↦
          rw (free, served, front_row)
            (
              record {
                addr = refl;
                public = refl;
                private = refl;
                reason = inr (refl, refl, free, served);
              },
              tt,
            )
      | inr shut ↦ rw (free, shut, front_row) tt
    ]
  ]

module _ ⦃u : Unicode⦄ (alive : ℕ → Bool) (net : Network) (side : Table PortsEntry)
    (door : Bool) where
  -- A row of the table: its name is in the zone, the name's process lives, its address is the name's
  -- and in the block, its two numbers are ports, and the name sends the one to the other.
  pub record IsServed (m : Table Entry) (r : Row) : Type 0 where
    pub index : ℕ
    pub host : Bytes
    pub entry : Entry
    pub found : get_elem? m index ≡ some (host, entry)
    pub zone : in_zone host ≡ true
    pub living : alive entry.pid ≡ true
    pub addr : block_address net (parse_ip entry.ip) ≡ some r.addr
    pub public : is_port r.public ≡ true
    pub private : is_port r.private ≡ true
    pub reason :
        Reason (says entry (lookup host side)) entry (ports_of entry (lookup host side)) door r

  IsRow-IsServed :
      (m : Table Entry) (i : ℕ) (host : Bytes) (e : Entry) (v : Ip) (r : Row)
      → get_elem? m i ≡ some (host, e)
      → in_zone host ≡ true
      → alive e.pid ≡ true
      → block_address net (parse_ip e.ip) ≡ some v
      → IsRow v (says e (lookup host side)) e (ports_of e (lookup host side)) door r
      → IsServed m r
  IsRow-IsServed m i host e v r found zone living at_v row = record {
    index = i;
    host = host;
    entry = e;
    found = found;
    zone = zone;
    living = living;
    addr = at_v ∙ ap some (sym row.addr);
    public = row.public;
    private = row.private;
    reason = row.reason;
  }

  name_rows-IsServed :
      (host : Bytes) (e : Entry) (m : Table Entry)
      → All (IsServed ((host, e) ∷ m)) (name_rows alive net host e (lookup host side) door)
  unfolding name_rows rows_at
  name_rows-IsServed host e m = elim (Bool-cases (not (in_zone host) || not (alive e.pid))) [
    | inl out ↦ rw (out, name_rows) tt
    | inr inside ↦ elim (Option-cases (block_address net (parse_ip e.ip))) [
      | inl nowhere ↦ rw (inside, nowhere, name_rows, rows_at) tt
      | inr (v, at_v) ↦
          let file = lookup host side in
          let ports = ports_of e file in
          let rows =
            All-append (IsRow v (says e file) e ports door) (port_rows v ports)
              (front_row v e ports door)
              (port_rows-IsRow v (says e file) e ports door ports (sends-ports_of e file))
              (front_row-IsRow v (says e file) e ports door) in
          rw (inside, at_v, name_rows, rows_at)
            (All-map (IsRow v (says e file) e ports door) (IsServed ((host, e) ∷ m))
              (port_rows v ports ++ front_row v e ports door)
              (λ r row.
                IsRow-IsServed ((host, e) ∷ m) 0 host e v r refl (ground arith) (ground arith) at_v
                  row)
              rows)
    ]
  ]

  all_rows-IsServed : (m : Table Entry) → All (IsServed m) (all_rows alive net side door m)
  unfolding all_rows
  all_rows-IsServed [] = tt
  all_rows-IsServed ((host, e) ∷ m) =
      All-append (IsServed ((host, e) ∷ m)) (name_rows alive net host e (lookup host side) door)
        (all_rows alive net side door m) (name_rows-IsServed host e m)
        (All-map (IsServed m) (IsServed ((host, e) ∷ m)) (all_rows alive net side door m)
          (λ r s. record {
            index = suc s.index;
            host = s.host;
            entry = s.entry;
            found = s.found;
            zone = s.zone;
            living = s.living;
            addr = s.addr;
            public = s.public;
            private = s.private;
            reason = s.reason;
          })
          (all_rows-IsServed m))

-- is the front door open, by the registry?
abbrev pub door_of : (ℕ → Bool) → Content Entry → Bool
door_of alive registry = front_door_open alive (lookup ingress_key (entries_of registry))

read_port_table-IsServed :
    ⦃u : Unicode⦄
    → (alive : ℕ → Bool) (net : Network) (registry : Content Entry) (side : Content PortsEntry)
    → All
        (IsServed alive net (read_ports side) (door_of alive registry) (entries_of registry))
        (read_port_table alive net registry side)
unfolding read_port_table
read_port_table-IsServed alive net registry side =
    all_rows-IsServed alive net (read_ports side) (door_of alive registry) (entries_of registry)

All-get {ℓ κ} :
    {A : Type ℓ} (P : A → Type κ) (xs : List A) (i : ℕ) {x : A}
    → All P xs
    → get_elem? xs i ≡ some x
    → P x
All-get P [] i all h = absurd (cc)
All-get P (y ∷ ys) zero {x} (p, all) h = let same : y ≡ x = cc in subst P same p
All-get P (y ∷ ys) (suc i) (p, all) h = All-get P ys i all h

-- a port that a table translates to is a private port of one of its rows at the address
find_private-row :
    (rows : List Row) (v : Ip) (port : ℕ) {p : ℕ}
    → find_private rows v port ≡ some p
    → (i : ℕ) × (r : Row) × (get_elem? rows i ≡ some r)
      × (eq_ip r.addr v ≡ true)
      × (r.public ≡ port)
      × (r.private ≡ p)
unfolding find_private
find_private-row [] v port h = absurd (cc)
find_private-row (r ∷ rs) v port {p} h = elim (Option-cases (find_private rs v port)) [
  | inr (q, later) ↦
      let same : some q ≡ some p = rw (later, find_private) at h in
      let (i, s, at_i, there, pub_port, priv_port) =
        find_private-row rs v port {p = p} (later ∙ same) in
      (suc i, s, at_i, there, pub_port, priv_port)
  | inl none_later ↦
      let here : (if eq_ip r.addr v && r.public == port then some r.private else none) ≡ some p =
        rw (none_later, find_private) at h in
      (0, r, refl, ground arith, ground arith, ground arith)
]

-- Whatever the two files hold, a packet is translated to a private port only where a name of the
-- registry says so: there is a row for the address and the public port, whose name is one of the
-- registry's and in the zone, whose process lives, and whose address is the name's and in the block;
-- both numbers are ports; and the name's entry sends the public port to the private one, or the entry of
-- the ports file for that name, process and address does, or both are the front door's port, which the
-- service did not take, and the name is routed while a live process holds the front door.
pub find_private-IsServed :
    ⦃u : Unicode⦄
    → (alive : ℕ → Bool) (net : Network) (registry : Content Entry) (side : Content PortsEntry)
      (v : Ip) (port : ℕ) {p : ℕ}
    → find_private (read_port_table alive net registry side) v port ≡ some p
    → (r : Row) × IsServed alive net
        (read_ports side)
        (door_of alive registry)
        (entries_of registry)
        r
      × (eq_ip r.addr v ≡ true)
      × (r.public ≡ port)
      × (r.private ≡ p)
find_private-IsServed alive net registry side v port {p} h =
    let rows = read_port_table alive net registry side in
    let (i, r, at_i, there, pub_port, priv_port) = find_private-row rows v port {p = p} h in
    (
      r,
      All-get (IsServed alive net (read_ports side) (door_of alive registry) (entries_of registry))
          rows i (read_port_table-IsServed alive net registry side) at_i,
      there,
      pub_port,
      priv_port,
    )
