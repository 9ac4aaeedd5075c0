-- ===== src/Tests/Resolver.antt =====
-- A process that serves the zone, and one whose read fails.
use doze_names.Prelude.{ℕ, Bool, true, false, not, ◌&&◌, [], ◌≡◌, refl, if◌then◌else◌}
use doze_names.Text.{Bytes, codes, eq_bytes}
use doze_names.Table.{lookup, insert, delete}
use doze_names.Registry.Claims.{mine}
use doze_names.Registry.Doors.{resolver_key, claim_port_edit, release_port_edit}
use doze_names.TakeOver.{
  free, held_by, World, binding, closing, set_peer, owns, let_go, announce, stand_by, begin_serving,
  after_release, edited, claimed, released, start,
}
use doze_names.TakeOver.Tidy.{is_serving, names}
use doze_names.Resolver.{
  recorded, forgotten, Steps, takes, claims, stops_reading, releases, stays, goes_on,
}
use doze_names.Resolver.Servers.{one_server}
use doze_names.Resolver.Leak.{is_gone, failed_read_blocks}

program : Unit {0}
unfolding eq_bytes lookup insert delete mine claim_port_edit release_port_edit set_peer owns let_go
    announce stand_by begin_serving after_release edited claimed released start is_serving names
    recorded forgotten is_gone
program = tt

abbrev addr : Bytes
addr = codes "127.0.0.1:5323"

abbrev owner : ℕ → Bytes
owner p = codes "doze"

abbrev everyone : ℕ → Bool
everyone p = true

abbrev empty : World
empty = record { socket = free; map = []; peers = (start []).peers }

abbrev opened : World
opened = record empty {
  socket = held_by 100;
  peers = set_peer 100 (record (empty.peers 100) { phase = binding }) empty.peers;
}

abbrev serves : World
serves = record opened {
  map = recorded addr owner everyone true 100 opened.map;
  peers = set_peer 100 (begin_serving true (opened.peers 100)) opened.peers;
}

abbrev failed : World
failed = record serves {
  peers = set_peer 100 (record (serves.peers 100) { phase = closing }) serves.peers;
}

abbrev given_up : World
given_up = record failed {
  map = forgotten addr owner everyone false 100 failed.map;
  peers = set_peer 100 (after_release (failed.peers 100)) failed.peers;
}

serves-Steps : Steps addr owner everyone (start []) serves
unfolding program
serves-Steps =
    goes_on (start []) opened serves (takes (start []) 100 refl refl)
      (goes_on opened serves serves (claims opened 100 true refl) (stays serves))

failed-Steps : Steps addr owner everyone (start []) failed
unfolding program
failed-Steps = goes_on (start []) opened failed (takes (start []) 100 refl refl) (
    goes_on opened serves failed (claims opened 100 true refl)
      (goes_on serves failed failed (stops_reading serves 100 refl) (stays failed)))

given_up-Steps : Steps addr owner everyone failed given_up
unfolding program
given_up-Steps = goes_on failed given_up given_up (releases failed 100 false refl) (stays given_up)

one_server_example :
    (owns serves.socket 100 ≡ true)
    × (is_serving (serves.peers 200).phase ≡ true
        → (serves.peers 200).cancelled ≡ false
        → ◌≡◌ {A = ℕ} 200 100)
    × (everyone 100 ≡ true
        → (serves.peers 100).listed ≡ true
        → names (lookup resolver_key serves.map) 100 ≡ true)
    × ((serves.peers 200).told ≡ (if (serves.peers 200).announced then 1 else 0))
unfolding program
one_server_example = one_server addr owner everyone [] serves 100 200 serves-Steps refl refl

failed_read_blocks_example :
    (owns given_up.socket 100 ≡ true)
    × ((is_serving (given_up.peers 200).phase && not (given_up.peers 200).cancelled) ≡ false)
unfolding program
failed_read_blocks_example =
    failed_read_blocks addr owner everyone 100 [] failed given_up 200 failed-Steps refl refl
      given_up-Steps refl refl
