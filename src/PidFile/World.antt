-- ===== src/PidFile/World.antt =====
-- The processes that use one pid file, with the lock that the system grants.
use srslog.Base.{ℕ, ◌==◌, ◌||◌, Bool, true, none, some, List, [], ◌∷◌, if◌then◌else◌}
use srslog.Base.Int.{ℤ, pos, negsuc, ltb_ℤ}
use srslog.Bytes.{Bytes}
use srslog.PidFile.Steps.{
  Stage, gone, closing, opening, locking, truncating, writing, getting, setting, acquired, failed,
  advance, reload, File, release, touch,
}

pub record World : Type 0 where
  pub file : File
  pub stage : ℕ → Stage

-- What happens: a process starts, a call of a process comes back, a process reloads its pid file, or
-- it ends, at any stage.
pub data Move : Type 0 where
  starts : ℕ → Move
  calls : ℕ → ℤ → ℕ → Move
  reloads : ℕ → Move
  dies : ℕ → Move

-- The system grants the lock to a process only where no other one holds it.
abbrev pub grants : ℕ → Stage → ℤ → File → Bool
grants pid (locking fd pid_fd) r f = elim f.owner [
  | none ↦ true
  | some p ↦ ltb_ℤ r (pos 0) || p == pid
]
grants pid gone r f = true
grants pid (closing pid_fd) r f = true
grants pid (opening pid_fd) r f = true
grants pid (truncating fd pid_fd) r f = true
grants pid (writing fd pid_fd) r f = true
grants pid (getting fd pid_fd) r f = true
grants pid (setting fd pid_fd) r f = true
grants pid (acquired fd) r f = true
grants pid (failed code pid_fd) r f = true

abbrev pub begun : Stage → Stage
begun gone = opening (negsuc 0)
begun (closing pid_fd) = closing pid_fd
begun (opening pid_fd) = opening pid_fd
begun (locking fd pid_fd) = locking fd pid_fd
begun (truncating fd pid_fd) = truncating fd pid_fd
begun (writing fd pid_fd) = writing fd pid_fd
begun (getting fd pid_fd) = getting fd pid_fd
begun (setting fd pid_fd) = setting fd pid_fd
begun (acquired fd) = acquired fd
begun (failed code pid_fd) = failed code pid_fd

abbrev pub set_stage : ℕ → Stage → World → World
set_stage pid stage w = record w { stage = λ p. if p == pid then stage else w.stage p }

abbrev pub move : World → Move → World
move w (starts pid) = set_stage pid (begun (w.stage pid)) w
move w (calls pid r errno) =
    if grants pid (w.stage pid) r w.file
    then set_stage pid (advance pid (w.stage pid) r errno)
        (record w { file = touch pid (w.stage pid) r w.file })
    else w
move w (reloads pid) = set_stage pid (reload (w.stage pid)) w
move w (dies pid) = set_stage pid gone (record w { file = release pid w.file })

abbrev pub moves : World → List Move → World
moves w [] = w
moves w (m ∷ ms) = moves (move w m) ms

-- No process, and a file that an earlier one may have left.
abbrev pub deserted : Bytes → World
deserted text = record { file = record { text = text; owner = none }; stage = λ p. gone }
