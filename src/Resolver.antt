-- ===== src/Resolver.antt =====
-- `serveWith`, `serveConn`, `Bound` and `Close` of resolver.go: the loop by which peers take, hold and hand
-- over the zone's socket, as steps of a relation over the world of TakeOver. Unlike a front door, a
-- resolver whose read fails leaves its loop of reading with the socket still open: only the end of its
-- context, or of its process, closes it.
pub mod Servers
pub mod Leak
use doze_names.Prelude.{ℕ, Bool, true, false, some, ◌==◌, ◌≡◌, if◌then◌else◌}
use doze_names.Text.{Bytes}
use doze_names.Table.{Table, lookup, delete}
use doze_names.Registry.{Entry}
use doze_names.Registry.Doors.{resolver_key}
use doze_names.TakeOver.{
  free, foreign, held_by, Phase, trying, binding, serving, closing, waiting, gone, World, set_peer,
  owns, let_go, stand_by, begin_serving, after_release, claimed, released, start,
}

unfoldable pub is_binding : Phase → Bool
is_binding binding = true
is_binding _ = false

-- the answer of `Bound`, if the context of its caller has not ended
unfoldable pub is_bound : World → ℕ → Bool
is_bound w p = (w.peers p).bound

-- `in_registry` says which processes gave a registry
module _ (addr : Bytes) (owner : ℕ → Bytes) (in_registry : ℕ → Bool) where
  -- the map after `claimResolver` and after `releaseResolver`, whose errors are dropped
  unfoldable pub recorded : (written : Bool) → ℕ → Table Entry → Table Entry
  recorded written p m = if in_registry p then claimed resolver_key addr owner written p m else m

  unfoldable pub forgotten : (written : Bool) → ℕ → Table Entry → Table Entry
  forgotten written p m = if in_registry p then released resolver_key addr owner written p m else m

  pub data Step : World → World → Type 0 where
    -- `listen` succeeds
    takes :
        (w : World) (p : ℕ)
        → (w.peers p).phase ≡ trying
        → w.socket ≡ free
        → Step w (record w {
          socket = held_by p;
          peers = set_peer p (record (w.peers p) { phase = binding }) w.peers;
        })
    -- the address is in use, or cannot be listened on
    misses :
        (w : World) (p : ℕ)
        → (w.peers p).phase ≡ trying
        → Step w (record w { peers = set_peer p (stand_by (w.peers p)) w.peers })
    -- the claim is made, whoever waits for `Bound` is let through, and `serveConn` begins
    claims :
        (w : World) (p : ℕ) (written : Bool)
        → (w.peers p).phase ≡ binding
        → Step w (record w {
          map = recorded written p w.map;
          peers = set_peer p (begin_serving written (w.peers p)) w.peers;
        })
    -- the context has ended, and the connection that `serveConn` was given is closed
    closes :
        (w : World) (p : ℕ)
        → is_binding (w.peers p).phase ≡ false
        → (w.peers p).cancelled ≡ true
        → Step w (record w { socket = let_go p w.socket })
    -- a read fails, because the connection was closed or for another reason: `serveConn` returns
    stops_reading :
        (w : World) (p : ℕ)
        → (w.peers p).phase ≡ serving
        → Step w (record w { peers = set_peer p (record (w.peers p) { phase = closing }) w.peers })
    releases :
        (w : World) (p : ℕ) (written : Bool)
        → (w.peers p).phase ≡ closing
        → Step w (record w {
          map = forgotten written p w.map;
          peers = set_peer p (after_release (w.peers p)) w.peers;
        })
    wakes :
        (w : World) (p : ℕ)
        → (w.peers p).phase ≡ waiting
        → Step w (record w { peers = set_peer p (record (w.peers p) { phase = trying }) w.peers })
    leaves :
        (w : World) (p : ℕ)
        → (w.peers p).phase ≡ waiting
        → (w.peers p).cancelled ≡ true
        → Step w (record w { peers = set_peer p (record (w.peers p) { phase = gone }) w.peers })
    -- `Close`, or the end of the caller's context
    cancels :
        (w : World) (p : ℕ)
        → Step w (record w { peers = set_peer p (record (w.peers p) { cancelled = true }) w.peers })
    dies :
        (w : World) (p : ℕ)
        → Step w (record w {
          socket = let_go p w.socket;
          peers = set_peer p (record (w.peers p) { phase = gone; dead = true }) w.peers;
        })
    -- a run of `update` removes the entry of a process that is gone
    sweeps :
        (w : World) (p : ℕ) (e : Entry)
        → (w.peers p).phase ≡ gone
        → lookup resolver_key w.map ≡ some e
        → e.pid ≡ p
        → Step w (record w { map = delete resolver_key w.map })
    stranger_takes : (w : World) → w.socket ≡ free → Step w (record w { socket = foreign })
    stranger_leaves : (w : World) → w.socket ≡ foreign → Step w (record w { socket = free })

  pub data Steps : World → World → Type 0 where
    stays : (w : World) → Steps w w
    goes_on : (w w' w'' : World) → Step w w' → Steps w' w'' → Steps w w''
