-- ===== src/Setup/Linux/Daemon.antt =====
-- helper.go and netd_linux.go: how a program turns into the daemon, and what it serves.
use doze_names.Prelude.{
  ℕ, true, false, not, List, [], ◌∷◌, ◌++◌, ◌≡◌, refl, ◌==◌, if◌then◌else◌, drop,
}
use doze_names.Text.{Bytes, codes, eq_bytes}
use doze_names.Text.Space.{fields, fields_from, is_space, end_field}
use doze_names.Setup.Linux.{netd_path}
use doze_names.Setup.Linux.Unit.{no_space, fields_from_word}

-- what becomes of a program: it goes on as itself, refuses, or answers the zone from a registry
pub data Start : Type 0 where
  as_itself usage never_as_root : Start
  serving : (registry : Bytes) → Start

-- `runNetd`
unfoldable pub run_netd : (args : List Bytes) → (uid : ℕ) → Start
run_netd (registry ∷ []) uid = if uid == 0 then never_as_root else serving registry
run_netd _ uid = usage

-- `Helper`, of the program's arguments with its own name
unfoldable pub helper : (args : List Bytes) → (uid : ℕ) → Start
helper (name ∷ first ∷ args) uid =
    if not (eq_bytes first (codes "__doze-netd")) then as_itself else run_netd args uid
helper _ uid = as_itself

-- The words behind ExecStart= in the daemon's unit make the program answer from the registry that the
-- unit was made for, as anyone but root.
pub helper-exec_start :
    (c : ℕ) (r : Bytes) (uid : ℕ)
    → no_space (c ∷ r) ≡ true
    → (uid == 0) ≡ false
    → helper
        (netd_path
          ∷ drop 1
              (fields (codes "ExecStart=/usr/local/libexec/doze-netd __doze-netd " ++ (c ∷ r))))
        uid
      ≡ serving (c ∷ r)
unfolding helper run_netd fields fields_from is_space end_field eq_bytes
helper-exec_start c r uid h user = rw (fields_from_word [] (c ∷ r) h, user) refl
