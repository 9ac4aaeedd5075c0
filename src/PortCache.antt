-- ===== src/PortCache.antt =====
-- tablecache.go: the daemon's copy of the registered ports. A file's times and sizes are numbers that are
-- not negative; its locks and its atomic pointer are left out, since a refresh runs under its lock. Its two looks at the files,
-- one after the other, are one here.
pub mod Stamp
pub mod Recent
use doze_names.Prelude.{
  ℕ, Bool, true, not, ◌&&◌, List, [], ◌∷◌, ◌++◌, Option, none, some, if◌then◌else◌,
}
use doze_names.Text.{Bytes, eq_bytes}
use doze_names.Decimal.{itoa}
use doze_names.Ports.Daemon.{Row}

-- what `refresh` asks of a file: `fileID`, and the time and size of `os.Stat`
pub record FileStat : Type 0 where
  pub id : ℕ
  pub modified : ℕ
  pub size : ℕ

-- the stamp of the files, of which those that are not there leave nothing
unfoldable pub stamp_of : List (Option FileStat) → Bytes
stamp_of [] = []
stamp_of (none ∷ files) = stamp_of files
stamp_of (some f ∷ files) =
    itoa f.id ++ (b'/' ∷ (itoa f.modified ++ (b'/' ∷ (itoa f.size ++ (b';' ∷ stamp_of files)))))

-- `tableCache`
pub record TableCache : Type 0 where
  pub stamp : Bytes
  pub table : List Row

-- `refresh`: `files` are the registry and the ports file as they are when it begins, and `read` is the
-- table that `readPortTable` then makes
unfoldable pub refresh : Bool → List (Option FileStat) → (read : List Row) → TableCache → TableCache
refresh force files read c =
    if not force && eq_bytes (stamp_of files) c.stamp
    then c
    else record { stamp = stamp_of files; table = read }

-- `newTableCache`
unfoldable pub new_table_cache : List (Option FileStat) → (read : List Row) → TableCache
unfolding refresh
new_table_cache files read = refresh true files read (record { stamp = []; table = [] })
