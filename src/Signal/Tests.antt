-- ===== src/Signal/Tests.antt =====
-- Signals at fixed inputs.
use srslog.Base.{◌≡◌, refl, none, [], ◌∷◌, List, ℕ}
use srslog.Base.Int.{pos}
use srslog.ErrorCode.{success}
use srslog.Server.{new_server}
use srslog.Signal.{SignalEnv, new_manager, faults, cycle, open_read}

abbrev working : SignalEnv
working = record { pipe = pos 0; read_end = pos 4; write_end = pos 5; start_thread = success }

-- SIGUSR1 and SIGCHLD have no handler.
abbrev signals : List ℕ
signals = 10 ∷ 1 ∷ 17 ∷ 1 ∷ []

-- A read end that `st` does not take is read all the same.
no_handle : cycle (λ fd. none) new_manager new_server ≡ faults
unfolding cycle open_read
no_handle = refl
