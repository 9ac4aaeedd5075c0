-- ===== src/Tests/TakeOver.antt =====
-- Two processes: the first serves, or dies while the second waits.
use doze_names.Prelude.{ℕ, true, false, [], ◌≡◌, refl}
use doze_names.Text.{Bytes, codes, eq_bytes}
use doze_names.Table.{lookup, insert, delete}
use doze_names.Registry.Claims.{mine}
use doze_names.Registry.Doors.{ingress_key, claim_port_edit, release_port_edit}
use doze_names.TakeOver.{
  gone, misses, dies, held_by, binding, World, set_peer, owns, is_free, let_go, announce, stand_by,
  begin_serving, after_release, edited, claimed, released, start, Steps, takes, claims, stays,
  goes_on,
}
use doze_names.TakeOver.Tidy.{is_serving, has_port, names}
use doze_names.TakeOver.Holder.{one_holder}
use doze_names.TakeOver.Retry.{is_out, CanServe, always_takes}

program : Unit {0}
unfolding eq_bytes lookup insert delete mine claim_port_edit release_port_edit set_peer owns is_free
    let_go announce stand_by begin_serving after_release edited claimed released start is_serving
    has_port names is_out
program = tt

abbrev addr : Bytes
addr = codes "0.0.0.0:80"

abbrev owner : ℕ → Bytes
owner p = codes "doze"

abbrev first_taken : World
first_taken = record (start []) {
  socket = held_by 100;
  peers = set_peer 100 (record ((start []).peers 100) { phase = binding }) (start []).peers;
}

abbrev first_serves : World
first_serves = record first_taken {
  map = claimed ingress_key addr owner true 100 first_taken.map;
  peers = set_peer 100 (begin_serving true (first_taken.peers 100)) first_taken.peers;
}

served-Steps : Steps ingress_key addr owner (start []) first_serves
unfolding program
served-Steps = goes_on (start []) first_taken first_serves (takes (start []) 100 refl refl) (
    goes_on first_taken first_serves first_serves (claims first_taken 100 true refl)
      (stays first_serves))

one_holder_example :
    (has_port (first_serves.peers 200).phase ≡ false)
    × ((first_serves.peers 100).listed ≡ true
        → names (lookup ingress_key first_serves.map) 100 ≡ true)
    × ((first_serves.peers 200).told ≡ 0)
unfolding program
one_holder_example = one_holder ingress_key addr owner [] first_serves 100 200 served-Steps refl

-- the second process misses, and the first dies
abbrev second_missed : World
second_missed = record first_taken {
  peers = set_peer 200 (stand_by (first_taken.peers 200)) first_taken.peers;
}

abbrev first_dead : World
first_dead = record second_missed {
  socket = let_go 100 second_missed.socket;
  peers =
      set_peer 100 (record (second_missed.peers 100) { phase = gone; dead = true })
        second_missed.peers;
}

first_dead-Steps : Steps ingress_key addr owner (start []) first_dead
unfolding program
first_dead-Steps = goes_on (start []) first_taken first_dead (takes (start []) 100 refl refl) (
    goes_on first_taken second_missed first_dead (misses first_taken 200 refl)
      (goes_on second_missed first_dead first_dead (dies second_missed 100) (stays first_dead)))

always_takes_example :
    (is_out (first_dead.peers 200).phase ≡ false) × CanServe ingress_key addr owner 200 first_dead
unfolding program
always_takes_example =
    always_takes ingress_key addr owner [] first_dead 200 first_dead-Steps refl refl refl
