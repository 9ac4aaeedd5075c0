-- ===== src/Registry.antt =====
-- registry.go: the entries of the shared file, what a file can hold, who opens it, and what can go
-- wrong. The operations are in the modules below.
pub mod Update
pub mod Claims
pub mod Doors
pub mod Stacks
pub mod Lookups
use doze_names.Prelude.{ℕ, ◌+◌, Bool, true, false, ◌&&◌, [], ◌∷◌, Option, none, some}
use doze_names.Text.{Bytes, codes}
use doze_names.Table.{Table}
use doze_names.Names.{Name, Tier}
use doze_names.Net.{Ip}

-- `FormatVersion`
abbrev pub format_version : ℕ
format_version = 2

-- `formatKey`
abbrev pub format_key : Bytes
format_key = codes "_format"

-- `Entry`; a process id and a port are numbers, and an absent text is empty
pub record Entry : Type 0 where
  pub ip : Bytes
  pub pid : ℕ
  pub owner : Bytes
  pub tier : Tier
  pub target : Bytes
  pub cert : Bytes
  pub key : Bytes
  pub ports : Table ℕ
  pub format : ℕ

abbrev pub blank_entry : Entry
blank_entry = record {
  ip = [];
  pid = 0;
  owner = [];
  tier = Tier.bare;
  target = [];
  cert = [];
  key = [];
  ports = [];
  format = 0;
}

-- What a JSON file that should hold a map can turn out to be: not there, not readable, no JSON of
-- a map, the JSON text `null` (which decodes, and leaves a nil map), or a map.
pub data Content {ℓ} (V : Type ℓ) : Type ℓ where
  absent unreadable garbled null : Content V
  holds : Table V → Content V

-- The errors: those of the operating system, and the package's own.
pub data Failure : Type 0 where
  io_error : Failure
  newer_format : ℕ → Failure
  held : Bytes → ℕ → Bytes → Failure
  addr_taken : Bytes → Bytes → ℕ → Bytes → Failure
  stack_taken : Bytes → Bytes → ℕ → Failure
  not_held : Bytes → Failure
  no_reserved_address : Bytes → Failure
  pool_full : Failure
  bad_port : ℕ → Failure

-- Which of the system's calls succeed in one run of `update`.
pub record Io : Type 0 where
  pub mkdir : Bool
  pub open_lock : Bool
  pub lock : Bool
  pub write : Bool
  pub rename : Bool

abbrev pub all_well : Io
all_well = record { mkdir = true; open_lock = true; lock = true; write = true; rename = true }

-- The part of `Registry` that names the process.
pub record Process : Type 0 where
  pub pid : ℕ
  pub owner : Bytes

-- What the function that `update` runs does to the map: it returns an error, or it changes the map
-- and leaves a value with its caller.
pub data Edit {ℓ} (A : Type ℓ) : Type ℓ where
  refuse : Failure → Edit A
  accept : A → Table Entry → Edit A

-- How a run ends: with a panic, or with an error if `failed` says so, the value that the function
-- left if it ran, and the file as it is then.
pub data Outcome {ℓ} (A : Type ℓ) : Type ℓ where
  crash : Outcome A
  done : (failed : Option Failure) (value : Option A) (file : Content Entry) → Outcome A
