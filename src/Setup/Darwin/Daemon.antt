-- ===== src/Setup/Darwin/Daemon.antt =====
-- netd_darwin.go: how the daemon of a Mac starts, and what it gives up before it serves.
use doze_names.Prelude.{
  ℕ, zero, suc, ◌+◌, ◌*◌, ◌%◌, length, take, drop, Bool, true, false, not, ◌&&◌, ◌||◌, List, [],
  ◌∷◌, ◌++◌, Option, none, some, ltb, ◌==◌, ◌≡◌, refl, arith, if◌then◌else◌, Bool-cases,
  Option-cases, inl, inr,
}
use doze_names.Text.{Bytes, codes, eq_bytes, split, cut}
use doze_names.Text.Space.{trim_space}
use doze_names.Decimal.{unsigned, atoi}
use doze_names.Net.{Ip}
use doze_names.Wire.{byte_at}
use doze_names.Packet.{Forwards, proto_tcp, tcp_syn, tcp_ack, has_flag, translate, packet_len}

-- a number with its sign: is it negative, and its size
abbrev pub Signed : Type 0
Signed = Bool × ℕ

unfoldable pub with_sign : Bool → Option ℕ → Option Signed
with_sign negative none = none
with_sign negative (some n) = some (negative, n)

-- `strconv.Atoi`
unfoldable pub read_number : Bytes → Option Signed
read_number [] = none
read_number (c ∷ s) =
    if c == b'-' then with_sign true (unsigned s) else with_sign false (atoi (c ∷ s))

-- `n > 0`
unfoldable pub is_positive : Signed → Bool
is_positive (negative, n) = not negative && ltb 0 n

-- what the daemon does, in order: a command as root, the three steps that give root up, the pid file,
-- the zone's resolver, the translation of packets, and the `scutil --dns` that the resolver runs when it
-- looks for the servers upstream
pub data Action : Type 0 where
  ran : (command : List Bytes) → Action
  set_groups set_gid set_uid : Signed → Action
  writes_pid serves_zone translates : (registry : Bytes) → Action
  asks_scutil : Action

pub data End : Type 0 where
  usage bad_user taken no_interface command_failed drop_failed translating : End

-- What the system answers: who has the block's route (nobody, if empty), the interface that is opened,
-- whether each command and each of the three steps succeeds, and how often the resolver looks for the
-- servers upstream until the daemon ends. `gateway` and `cidr` are the zone's.
pub record System : Type 0 where
  pub gateway : Bytes
  pub cidr : Bytes
  pub owner : Bytes
  pub tunnel : Option Bytes
  pub configured : Bool
  pub routed : Bool
  pub groups_set : Bool
  pub gid_set : Bool
  pub uid_set : Bool
  pub lookups : ℕ

unfoldable pub configure : System → (name : Bytes) → List Bytes
configure s name =
    codes "/sbin/ifconfig"
    ∷ name
    ∷ codes "inet"
    ∷ s.gateway
    ∷ s.gateway
    ∷ codes "netmask"
    ∷ codes "255.255.255.255"
    ∷ codes "mtu"
    ∷ codes "16384"
    ∷ codes "up"
    ∷ []

unfoldable pub add_route : System → (name : Bytes) → List Bytes
add_route s name =
    codes "/sbin/route"
    ∷ codes "-n"
    ∷ codes "add"
    ∷ codes "-net"
    ∷ s.cidr
    ∷ codes "-interface"
    ∷ name
    ∷ []

-- an action before what follows it
unfoldable pub before : Action → List Action × End → List Action × End
before a (actions, end) = (a ∷ actions, end)

unfoldable pub asks : ℕ → List Action
asks zero = []
asks (suc n) = asks_scutil ∷ asks n

-- giving up root, and the work behind it
unfoldable pub as_user : System → (registry : Bytes) → (uid gid : Signed) → List Action × End
as_user s registry uid gid =
    if not s.groups_set
    then ([], drop_failed)
    else if not s.gid_set
    then (set_groups gid ∷ [], drop_failed)
    else if not s.uid_set
    then (set_groups gid ∷ set_gid gid ∷ [], drop_failed)
    else (
      set_groups gid
          ∷ set_gid gid
          ∷ set_uid uid
          ∷ writes_pid registry
          ∷ serves_zone registry
          ∷ translates registry
          ∷ asks s.lookups,
      translating,
    )

-- the work of root, with the interface open
unfoldable pub as_root : System → (name registry : Bytes) → (uid gid : Signed) → List Action × End
as_root s name registry uid gid =
    if not s.configured
    then (ran (configure s name) ∷ [], command_failed)
    else if not s.routed
    then (ran (configure s name) ∷ ran (add_route s name) ∷ [], command_failed)
    else before (ran (configure s name))
        (before (ran (add_route s name)) (as_user s registry uid gid))

unfoldable pub started :
    System → (registry : Bytes) → Option Signed → Option Signed → List Action × End
started s registry (some uid) (some gid) =
    if not (is_positive uid)
    then ([], bad_user)
    else if not (eq_bytes s.owner [])
    then ([], taken)
    else elim s.tunnel [ none ↦ ([], no_interface) | some name ↦ as_root s name registry uid gid ]
started s registry _ _ = ([], bad_user)

-- `runNetd`, up to the failure of a read or a write of packets
unfoldable pub run_netd : System → (args : List Bytes) → List Action × End
run_netd s (registry ∷ uid ∷ gid ∷ []) = started s registry (read_number uid) (read_number gid)
run_netd s _ = ([], usage)

-- Are the actions in order? The commands of root are run before anything is given up, groups go first, then
-- the group, then the user, who is not root, and only behind these is anything done with the registry or
-- `scutil` run. The number counts the steps that are done.
unfoldable pub in_order : ℕ → List Action → Bool
in_order n [] = true
in_order n (ran c ∷ more) = n == 0 && in_order n more
in_order n (set_groups g ∷ more) = n == 0 && in_order 1 more
in_order n (set_gid g ∷ more) = n == 1 && in_order 2 more
in_order n (set_uid u ∷ more) = n == 2 && is_positive u && in_order 3 more
in_order n (writes_pid r ∷ more) = n == 3 && in_order n more
in_order n (serves_zone r ∷ more) = n == 3 && in_order n more
in_order n (translates r ∷ more) = n == 3 && in_order n more
in_order n (asks_scutil ∷ more) = n == 3 && in_order n more

-- the key and the value of a line of `route get`
unfoldable pub pair_of : Bytes → Bytes × Bytes
pair_of line = elim (cut b':' (trim_space line)) [ none ↦ (trim_space line, []) | some kv ↦ kv ]

-- the last value of a key, of the lines from here on, or what it was before them
unfoldable pub value_of : (key : Bytes) → Bytes → List Bytes → Bytes
value_of key old [] = old
value_of key old (l ∷ ls) =
    value_of key (if eq_bytes (pair_of l).0 key then trim_space (pair_of l).1 else old) ls

-- `routeOwner`, of what `route get` prints, if it succeeds
unfoldable pub route_owner : Option Bytes → Bytes
route_owner none = []
route_owner (some out) =
    let dest = value_of (codes "destination") [] (split 10 out) in
    if eq_bytes dest [] || eq_bytes dest (codes "default")
    then []
    else dest ++ (codes " on " ++ value_of (codes "interface") [] (split 10 out))

-- `firstPacket`
unfoldable pub first_packet : Bytes → Bool
first_packet p =
    let ihl = byte_at p 0 % 16 * 4 in
    let flags = byte_at p (ihl + 13) in
    not (ltb (length p) (ihl + 20))
    && byte_at p 9 == proto_tcp
    && has_flag flags tcp_syn
    && not (has_flag flags tcp_ack)

-- What a read of the interface leads to: `table` is the cache's table, looked at again or not before it
-- is used. The first four bytes are the address family's, and the others the packet; what is written has
-- the same four.
unfoldable pub one_read :
    (gateway : Ip) → (table : (refreshed : Bool) → Forwards) → Bytes → Option Bytes
one_read gateway table buf =
    let p = drop 4 buf in
    if not (ltb 4 (length buf)) || not (byte_at buf 3 == 2)
    then none
    else elim (translate p gateway (table (first_packet p))) [
      | none ↦ none
      | some sent ↦ some (take 4 buf ++ take (packet_len sent) sent)
    ]

asks-in_order : (n : ℕ) → in_order 3 (asks n) ≡ true
unfolding asks in_order
asks-in_order zero = refl
asks-in_order (suc n) = asks-in_order n

as_user-in_order :
    (s : System) (registry : Bytes) (uid gid : Signed)
    → is_positive uid ≡ true
    → in_order 0 (as_user s registry uid gid).0 ≡ true
unfolding as_user in_order
as_user-in_order s registry uid gid h = ground (arith, h, asks-in_order s.lookups)

as_root-in_order :
    (s : System) (name registry : Bytes) (uid gid : Signed)
    → is_positive uid ≡ true
    → in_order 0 (as_root s name registry uid gid).0 ≡ true
unfolding as_root in_order before
as_root-in_order s name registry uid gid h = ground (arith, as_user-in_order s registry uid gid h)

started-in_order :
    (s : System) (registry : Bytes) (uid gid : Option Signed)
    → in_order 0 (started s registry uid gid).0 ≡ true
unfolding started in_order
started-in_order s registry none gid = refl
started-in_order s registry (some uid) none = refl
started-in_order s registry (some uid) (some gid) = elim (Bool-cases (is_positive uid)) [
  | inr root ↦ rw root refl
  | inl user ↦ rw user (elim (Bool-cases (eq_bytes s.owner [])) [
    | inr busy ↦ rw busy refl
    | inl unused ↦ rw unused (elim (Option-cases s.tunnel) [
      | inl shut ↦ rw shut refl
      | inr (name, open_now) ↦ rw open_now (as_root-in_order s name registry uid gid user)
    ])
  ])
]

-- Whatever the daemon is started with and whatever the system answers, it does nothing with the registry
-- before it has given up its groups, its group and its user, in this order and each with success, for a
-- user that is not root; the commands that bring the interface up are all run before that, and the
-- resolver's `scutil` is run only after it.
pub run_netd-in_order : (s : System) (args : List Bytes) → in_order 0 (run_netd s args).0 ≡ true
unfolding run_netd in_order
run_netd-in_order s [] = refl
run_netd-in_order s (a ∷ []) = refl
run_netd-in_order s (a ∷ b ∷ []) = refl
run_netd-in_order s (a ∷ b ∷ c ∷ []) = started-in_order s a (read_number b) (read_number c)
run_netd-in_order s (a ∷ b ∷ c ∷ d ∷ more) = refl
