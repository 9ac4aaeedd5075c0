-- ===== src/Tests/PortCache.antt =====
-- A copy of the port table through writes of the registry.
use doze_names.Prelude.{ℕ, Bool, true, false, [], ◌∷◌, none, some, ◌≡◌, refl, ap, arith}
use doze_names.Text.{Unicode, codes, eq_bytes}
use doze_names.Decimal.{digits_onto, itoa}
use doze_names.Pool.{loopback_net}
use doze_names.Registry.{absent}
use doze_names.Ports.Daemon.{read_port_table}
use doze_names.PortCache.{stamp_of, TableCache, refresh, new_table_cache}
use doze_names.PortCache.Recent.{
  History, files, IsSince, IsHonest, refresh-IsSince, new_table_cache-IsHonest,
}

instance abbrev ascii_only : Unicode
ascii_only = record { lower = λ s. s; runes = λ s. s }

program : Unit {0}
unfolding eq_bytes digits_onto itoa stamp_of refresh new_table_cache
program = tt

-- each write makes a new file
abbrev written : History
written = record {
  stat = λ n. record { id = n; modified = 7; size = 100 };
  side_stat = λ n. none;
  registry = λ n. absent;
  side = λ n. absent;
}

stamp_of_two :
    stamp_of (some (record { id = 12; modified = 7; size = 100 }) ∷ none ∷ []) ≡ codes "12/7/100;"
unfolding program
stamp_of_two = refl

abbrev everyone : ℕ → Bool
everyone p = true

abbrev copy : TableCache
copy =
    new_table_cache (files loopback_net written 3)
      (read_port_table everyone loopback_net (written.registry 3) (written.side 4))

copy-IsHonest : IsHonest loopback_net written copy
copy-IsHonest =
    new_table_cache-IsHonest loopback_net written 3 3 4 everyone (omega arith) (omega arith)

refresh-IsSince_example :
    IsHonest loopback_net written (
      refresh false
        (files loopback_net written 5)
        (read_port_table everyone loopback_net (written.registry 5) (written.side 6))
        copy)
    × IsSince loopback_net written 5
        (refresh false
          (files loopback_net written 5)
          (read_port_table everyone loopback_net (written.registry 5) (written.side 6))
          copy).table
refresh-IsSince_example =
    refresh-IsSince loopback_net written (λ m n e side. ap (λ s. s.id) e) false 5 5 6 everyone copy
      (omega arith) (omega arith) copy-IsHonest
