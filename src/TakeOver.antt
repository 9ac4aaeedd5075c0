-- ===== src/TakeOver.antt =====
-- `holdPort` of ingress.go: the loop by which peers take, hold and hand over a shared port, as steps of
-- a relation. The `claimPort` and `releasePort` of a step are those of Registry.Doors, on the registry's
-- map. Either write may fail, for want of the lock or the file, or before a newer format: the loop goes
-- on, with the file as it was. A process may die at any moment, and another program may take the port
-- when it is free.

pub mod Tidy
pub mod Holder
pub mod Retry
use doze_names.Prelude.{
  ℕ, suc, ◌+◌, Bool, true, false, not, ◌&&◌, ◌||◌, List, [], ◌∷◌, Option, none, some, ◌==◌, ◌≡◌,
  ◌≢◌, if◌then◌else◌,
}
use doze_names.Text.{Bytes}
use doze_names.Table.{Table, lookup, delete}
use doze_names.Registry.{Entry, Process, Edit, refuse, accept}
use doze_names.Registry.Doors.{claim_port_edit, release_port_edit}

-- who has the port
pub data Socket : Type 0 where
  free foreign : Socket
  held_by : ℕ → Socket

-- Where a process is in the loop: before `Listen`, between it and `claimPort`, in `Serve`, between it and
-- `releasePort`, in the wait for the next try, or out of the loop.
pub data Phase : Type 0 where
  trying binding serving closing waiting gone : Phase

-- a process's variables; `told` counts the messages about standing by since it last had the port, and
-- `listed` says whether the write of its last claim worked, and `dead` whether its process has ended
pub record Peer : Type 0 where
  pub phase : Phase
  pub announced : Bool
  pub bound : Bool
  pub cancelled : Bool
  pub told : ℕ
  pub listed : Bool
  pub dead : Bool

pub record World : Type 0 where
  pub socket : Socket
  pub map : Table Entry
  pub peers : ℕ → Peer

-- the peers with another in one place
unfoldable pub set_peer : ℕ → Peer → (ℕ → Peer) → ℕ → Peer
set_peer p x peers q = if q == p then x else peers q

unfoldable pub owns : Socket → ℕ → Bool
owns free p = false
owns foreign p = false
owns (held_by q) p = q == p

unfoldable pub is_free : Socket → Bool
is_free free = true
is_free _ = false

-- the port after a process let go of what it had
unfoldable pub let_go : ℕ → Socket → Socket
let_go p s = if owns s p then free else s

-- a message, unless it was given since the port was last had
unfoldable pub announce : Peer → Peer
announce x = record x { announced = true; told = if x.announced then x.told else suc x.told }

-- a try that did not get the port
unfoldable pub stand_by : Peer → Peer
stand_by x = record (announce x) { phase = waiting }

-- the claim is made, whoever waits for `Bound` is let through, and `Serve` begins
unfoldable pub begin_serving : (written : Bool) → Peer → Peer
begin_serving written x = record x {
  phase = serving;
  announced = false;
  bound = true;
  told = 0;
  listed = written;
}

-- behind `releasePort`
unfoldable pub after_release : Peer → Peer
after_release x = record x { phase = if x.cancelled then gone else waiting }

-- the map after an edit
unfoldable pub edited : Edit (Unit {0}) → Table Entry → Table Entry
edited (refuse e) m = m
edited (accept a m') m = m'

-- a process that enters the loop
abbrev pub new_peer : Peer
new_peer = record {
  phase = trying;
  announced = false;
  bound = false;
  cancelled = false;
  told = 0;
  listed = false;
  dead = false;
}

-- no process has the port
unfoldable pub start : Table Entry → World
start m = record { socket = free; map = m; peers = λ p. new_peer }

module _ (key addr : Bytes) (owner : ℕ → Bytes) where
  abbrev process : ℕ → Process
  process p = record { pid = p; owner = owner p }

  -- the map after `claimPort` and after `releasePort`, whose errors are dropped
  unfoldable pub claimed : (written : Bool) → ℕ → Table Entry → Table Entry
  claimed written p m = if written then edited (claim_port_edit (process p) key addr m) m else m

  unfoldable pub released : (written : Bool) → ℕ → Table Entry → Table Entry
  released written p m = if written then edited (release_port_edit (process p) key m) m else m

  pub data Step : World → World → Type 0 where
    -- `Listen` succeeds
    takes :
        (w : World) (p : ℕ)
        → (w.peers p).phase ≡ trying
        → w.socket ≡ free
        → Step w (record w {
          socket = held_by p;
          peers = set_peer p (record (w.peers p) { phase = binding }) w.peers;
        })
    -- the address is in use, or cannot be bound
    misses :
        (w : World) (p : ℕ)
        → (w.peers p).phase ≡ trying
        → Step w (record w { peers = set_peer p (stand_by (w.peers p)) w.peers })
    claims :
        (w : World) (p : ℕ) (written : Bool)
        → (w.peers p).phase ≡ binding
        → Step w (record w {
          map = claimed written p w.map;
          peers = set_peer p (begin_serving written (w.peers p)) w.peers;
        })
    -- `Serve` returns, and has closed the port
    ends :
        (w : World) (p : ℕ)
        → (w.peers p).phase ≡ serving
        → Step w (record w {
          socket = let_go p w.socket;
          peers = set_peer p (record (w.peers p) { phase = closing }) w.peers;
        })
    releases :
        (w : World) (p : ℕ) (written : Bool)
        → (w.peers p).phase ≡ closing
        → Step w (record w {
          map = released written p w.map;
          peers = set_peer p (after_release (w.peers p)) w.peers;
        })
    wakes :
        (w : World) (p : ℕ)
        → (w.peers p).phase ≡ waiting
        → Step w (record w { peers = set_peer p (record (w.peers p) { phase = trying }) w.peers })
    leaves :
        (w : World) (p : ℕ)
        → (w.peers p).phase ≡ waiting
        → (w.peers p).cancelled ≡ true
        → Step w (record w { peers = set_peer p (record (w.peers p) { phase = gone }) w.peers })
    -- `Close`
    cancels :
        (w : World) (p : ℕ)
        → Step w (record w { peers = set_peer p (record (w.peers p) { cancelled = true }) w.peers })
    dies :
        (w : World) (p : ℕ)
        → Step w (record w {
          socket = let_go p w.socket;
          peers = set_peer p (record (w.peers p) { phase = gone; dead = true }) w.peers;
        })
    -- a run of `update` removes the entry of a process that is gone
    sweeps :
        (w : World) (p : ℕ) (e : Entry)
        → (w.peers p).phase ≡ gone
        → lookup key w.map ≡ some e
        → e.pid ≡ p
        → Step w (record w { map = delete key w.map })
    stranger_takes : (w : World) → w.socket ≡ free → Step w (record w { socket = foreign })
    stranger_leaves : (w : World) → w.socket ≡ foreign → Step w (record w { socket = free })

  pub data Steps : World → World → Type 0 where
    stays : (w : World) → Steps w w
    goes_on : (w w' w'' : World) → Step w w' → Steps w' w'' → Steps w w''
