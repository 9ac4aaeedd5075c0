-- ===== src/Setup/Status.antt =====
-- setup.go: what Check reports, and how the privileged script is run.
use doze_names.Prelude.{
  ℕ, zero, suc, ◌-◌, Bool, true, false, not, ◌&&◌, List, [], ◌∷◌, ◌++◌, ◌==◌, if◌then◌else◌, length,
}
use doze_names.Text.{Bytes, Unicode, codes, runes_of}
use doze_names.Setup.{pasteable}

-- `Step`
pub record Step : Type 0 where
  pub name : Bytes
  pub done : Bool
  pub detail : Bytes

-- `Status`
pub record Status : Type 0 where
  pub platform : Bytes
  pub steps : List Step

unfoldable pub all_done : List Step → Bool
all_done [] = true
all_done (s ∷ ss) = s.done && all_done ss

-- `Status.OK`
unfoldable pub status_ok : Status → Bool
status_ok s = elim s.steps [ [] ↦ false | t ∷ ts ↦ all_done (t ∷ ts) ]

unfoldable pub spaces : ℕ → Bytes
spaces zero = []
spaces (suc n) = 32 ∷ spaces n

module _ ⦃u : Unicode⦄ where
  -- one line of `Status.String`: the mark, the name in 22 columns, what is said
  unfoldable pub step_line : Step → Bytes
  step_line s =
      (if s.done then 226 ∷ 156 ∷ 147 ∷ [] else 226 ∷ 156 ∷ 151 ∷ [])
      ++ (32 ∷ s.name)
      ++ spaces (22 - length (runes_of s.name))
      ++ (32 ∷ s.detail)
      ++ (10 ∷ [])

  unfoldable pub step_lines : List Step → Bytes
  step_lines [] = []
  step_lines (s ∷ ss) = step_line s ++ step_lines ss

  -- `Status.String`
  unfoldable pub status_text : Status → Bytes
  status_text s = step_lines s.steps

-- what `runPrivileged` does with a script: writes it out, hands it to the caller's own way of
-- asking, or gives it to a shell, under sudo or not
pub data Run : Type 0 where
  printed : (text : Bytes) → Run
  own_way : (what script : Bytes) → Run
  sudo_shell : (said script : Bytes) → Run
  root_shell : (script : Bytes) → Run

-- `runPrivileged`, up to the run itself; `has_run` says that `Options.Run` is set
unfoldable pub run_privileged : (print has_run : Bool) → (euid : ℕ) → (what script : Bytes) → Run
run_privileged print has_run euid what script =
    if print
    then printed (codes "# " ++ (what ++ (10 ∷ pasteable script)))
    else if has_run && not (euid == 0)
    then own_way what script
    else if euid == 0
    then root_shell script
    else sudo_shell (codes "doze needs sudo once: " ++ (what ++ (10 ∷ []))) script
