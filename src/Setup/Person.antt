-- ===== src/Setup/Person.antt =====
-- netd.go: for whom the machine is set up, and whether a job is this build's.
use doze_names.Prelude.{ℕ, Bool, false, not, [], Option, none, some, ltb, ◌==◌, if◌then◌else◌}
use doze_names.Text.{Bytes, codes, eq_bytes}
use doze_names.Setup.Manager.{contains}

-- What the process and its environment say. A number that sudo sets is what `strconv.Atoi` makes of
-- the variable, 0 where there is none.
pub record Person : Type 0 where
  pub uid : ℕ
  pub gid : ℕ
  pub sudo_uid : ℕ
  pub sudo_gid : ℕ
  -- the folder of the person whom SUDO_UID names, if there is one
  pub sudo_dir : Option Bytes
  -- DOZE_HOME
  pub env_home : Bytes
  -- `Home()`
  pub own_home : Bytes

-- `setupUser`; `none` is its error
unfoldable pub setup_user : Person → Option (ℕ × ℕ)
setup_user p =
    if p.uid == 0
    then (if ltb 0 p.sudo_uid then some (p.sudo_uid, p.sudo_gid) else none)
    else some (p.uid, p.gid)

-- the folder of a person under sudo
unfoldable pub sudo_home : (join : Bytes → Bytes → Bytes) → Person → Bytes
sudo_home join p = elim p.sudo_dir [
  | none ↦ p.own_home
  | some d ↦ if eq_bytes d [] then p.own_home else join d (codes ".doze")
]

-- `setupHome`; `join` is `filepath.Join`
unfoldable pub setup_home : (join : Bytes → Bytes → Bytes) → Person → Bytes
setup_home join p =
    if not (eq_bytes p.env_home [])
    then p.env_home
    else if p.uid == 0
    then sudo_home join p
    else p.own_home

-- the registry that the daemon is to answer from
unfoldable pub setup_registry : (join : Bytes → Bytes → Bytes) → Person → Bytes
setup_registry join p = join (setup_home join p) (codes "names.json")

-- `jobOutdated`, of the text of the job, if it can be read
unfoldable pub job_outdated : Option Bytes → (stamp : Bytes) → Bool
job_outdated none stamp = false
job_outdated (some raw) stamp = not (contains raw stamp)
