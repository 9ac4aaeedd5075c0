-- ===== src/PortCache/Recent.antt =====
-- How old the table is: the files as a sequence of versions.
use doze_names.Prelude.{
  ℕ, ◌≤◌, Bool, not, ◌&&◌, List, [], ◌∷◌, Option, some, ◌≡◌, refl, ◌∙◌, arith, Bool-cases, inl, inr,
}
use doze_names.Text.{Unicode, eq_bytes}
use doze_names.Text.Laws.{eq_bytes_iff}
use doze_names.Pool.{Network}
use doze_names.Registry.{Entry, Content}
use doze_names.Ports.Files.{PortsEntry}
use doze_names.Ports.Daemon.{Row, read_port_table}
use doze_names.PortCache.{FileStat, stamp_of, TableCache, refresh, new_table_cache}
use doze_names.PortCache.Stamp.{stamp_of-injective}

-- The files at each version: what `os.Stat` says of them, and what they hold. The registry is there.
pub record History : Type 0 where
  pub stat : ℕ → FileStat
  pub side_stat : ℕ → Option FileStat
  pub registry : ℕ → Content Entry
  pub side : ℕ → Content PortsEntry

module _ ⦃u : Unicode⦄ (net : Network) (h : History) where
  abbrev pub files : ℕ → List (Option FileStat)
  files n = some (h.stat n) ∷ h.side_stat n ∷ []

  -- a table made of the files at a version or later ones, for some processes that lived
  abbrev pub IsSince : ℕ → List Row → Type 0
  IsSince n rows =
      (alive : ℕ → Bool) × (a : ℕ) × (b : ℕ) × (n ≤ a)
      × (n ≤ b)
      × (rows ≡ read_port_table alive net (h.registry a) (h.side b))

  -- the stamp is that of a version no later than those that the table is made of
  abbrev pub IsHonest : TableCache → Type 0
  IsHonest c = (n : ℕ) × (c.stamp ≡ stamp_of (files n)) × IsSince n c.table

  module _ (renewed : (m n : ℕ) → h.stat m ≡ h.stat n → h.side_stat m ≡ h.side_stat n → m ≡ n) where
    -- A table is never older than the files were when its last refresh began, whatever is written while
    -- the refresh reads them: a copy that was honest is honest after it, and its table is made of the
    -- files at that version or later ones. No two versions have the same file numbers, times and sizes,
    -- and the registry's file is there.
    pub refresh-IsSince :
        (force : Bool) (n a b : ℕ) (alive : ℕ → Bool) (c : TableCache)
        → n ≤ a
        → n ≤ b
        → IsHonest c
        → IsHonest (refresh force (files n) (read_port_table alive net (h.registry a) (h.side b)) c)
          × IsSince n
              (refresh force
                (files n)
                (read_port_table alive net (h.registry a) (h.side b))
                c).table
    unfolding refresh
    refresh-IsSince force n a b alive c at_a at_b (m, stamped, since) =
        elim (Bool-cases (not force && eq_bytes (stamp_of (files n)) c.stamp)) [
          | inr stale ↦
              let new : IsSince n (read_port_table alive net (h.registry a) (h.side b)) =
                (alive, a, b, at_a, at_b, refl) in
              rw (stale, refresh) ((n, refl, new), new)
          | inl same ↦
              let text : stamp_of (files n) ≡ c.stamp =
                (eq_bytes_iff (stamp_of (files n)) c.stamp).0 (ground arith) in
              let (stat, side) =
                stamp_of-injective (h.stat n) (h.stat m) (h.side_stat n) (h.side_stat m)
                  (text ∙ stamped) in
              let version = renewed n m stat side in
              rw (same, refresh) ((m, stamped, since), rw (version) since)
        ]

  -- a new copy is honest
  pub new_table_cache-IsHonest :
      (n a b : ℕ) (alive : ℕ → Bool)
      → n ≤ a
      → n ≤ b
      → IsHonest (new_table_cache (files n) (read_port_table alive net (h.registry a) (h.side b)))
  unfolding new_table_cache refresh
  new_table_cache-IsHonest n a b alive at_a at_b = (n, refl, (alive, a, b, at_a, at_b, refl))
