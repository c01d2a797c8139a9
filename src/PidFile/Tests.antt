-- ===== src/PidFile/Tests.antt =====
-- The pid file at fixed answers of the system.
use srslog.Base.{ℕ, List, none, some, ◌≡◌, refl, [], ◌∷◌, arith}
use srslog.Base.Int.{ℤ, pos, negsuc}
use srslog.Bytes.{codes, decimal}
use srslog.PidFile.{PidEnv, acquire_pid_file}
use srslog.PidFile.Acquired.{IsClosed, acquire_pid_file_leaks}
use srslog.PidFile.Steps.{gone, opening, acquired, advance, touch, reload}
use srslog.PidFile.World.{World, Move, starts, calls, reloads, dies, moves, deserted}
use srslog.PidFile.Exclusive.{acquired_alone}

abbrev free_file : PidEnv
free_file = record {
  open_fd = pos 4;
  set_lock = pos 0;
  lock_errno = 0;
  truncate = pos 0;
  getpid = 42;
  write_count = pos 2;
  get_flags = pos 0;
  set_flags = pos 0;
}

abbrev locked_file : PidEnv
locked_file = record free_file { set_lock = negsuc 0; lock_errno = 11 }

acquire_pid_file_leaks_example :
    ((acquire_pid_file locked_file (negsuc 0)).1 ≡ negsuc 0)
    × ¬ IsClosed (pos 4) (acquire_pid_file locked_file (negsuc 0)).2
unfolding acquire_pid_file
acquire_pid_file_leaks_example =
    acquire_pid_file_leaks locked_file (negsuc 0) (omega arith) (λ e. ground arith)

-- Process 42 opens the file first, 41 locks it first; 42 is refused and ends, and 41 reloads.
abbrev morning : List Move
morning =
    starts 42
    ∷ calls 42 (pos 4) 0
    ∷ starts 41
    ∷ calls 41 (pos 4) 0
    ∷ calls 41 (pos 0) 0
    ∷ calls 41 (pos 0) 0
    ∷ calls 42 (negsuc 0) 11
    ∷ calls 41 (pos 2) 0
    ∷ dies 42
    ∷ calls 41 (pos 0) 0
    ∷ calls 41 (pos 0) 0
    ∷ []

abbrev noon : World
noon = moves (deserted (codes "stale")) morning

abbrev evening : World
evening = moves noon (reloads 41 ∷ calls 41 (pos 0) 0 ∷ [])

noon_acquired : (noon.stage 41 ≡ acquired (pos 4)) × (noon.stage 42 ≡ gone)
unfolding advance touch decimal
noon_acquired = (refl, refl)

acquired_alone_example :
    (noon.file.owner ≡ some 41)
    × (noon.file.text ≡ decimal 41)
    × ((q : ℕ) (fd' : ℤ) → noon.stage q ≡ acquired fd' → q ≡ 41)
acquired_alone_example = acquired_alone (codes "stale") morning 41 (pos 4) noon_acquired.0

-- A reload gives the lock up before it asks for it again.
evening_released : (evening.file.owner ≡ none) × (evening.stage 41 ≡ opening (negsuc 0))
unfolding advance touch reload decimal
evening_released = (refl, refl)
