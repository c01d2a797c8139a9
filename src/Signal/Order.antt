-- ===== src/Signal/Order.antt =====
-- The thread of the signal manager, cycle after cycle.
use srslog.Base.{
  ℕ, zero, suc, ◌≡◌, Bool, true, false, ◌||◌, Option, none, some, List, [], ◌∷◌, ◌==◌, arith,
  if◌then◌else◌,
}
use srslog.Base.Int.{ℤ}
use srslog.Server.{
  Server, Signalled, goes_on, exits, on_signal, signal_reload_no, sigint, sigusr2, sigterm,
}
use srslog.Signal.{SignalManager, waits, faults, handled, holds, cycle}

-- The signals that end the process.
abbrev pub is_fatal : ℕ → Bool
is_fatal signo = signo == sigint || (signo == sigusr2 || signo == sigterm)

abbrev pub any_fatal : List ℕ → Bool
any_fatal [] = false
any_fatal (a ∷ as') = is_fatal a || any_fatal as'

-- Cycles until the pipe is empty or the process exits; the length of the queue bounds them. `none`
-- is a read from a null handle.
pub cycles : (ℤ → Option ℕ) → ℕ → SignalManager → Server → Option (SignalManager × Signalled)
cycles st_netfd_open zero m s = some (m, goes_on s)
cycles st_netfd_open (suc n) m s = elim (cycle st_netfd_open m s) [
  | waits m' ↦ some (m', goes_on s)
  | faults ↦ none
  | handled m' exits ↦ some (m', exits)
  | handled m' (goes_on s') ↦ cycles st_netfd_open n m' s'
]

-- What a queue of signals does to the server.
abbrev pub outcome : List ℕ → Server → Signalled
outcome q s =
    if any_fatal q
    then exits
    else goes_on (record s { signal_reload = s.signal_reload || holds signal_reload_no q })

pub on_signal_fatal : (a : ℕ) (s : Server) → is_fatal a ≡ true → on_signal a s ≡ exits
unfolding on_signal
on_signal_fatal a s h = ground arith

pub on_signal_mild :
    (a : ℕ) (s : Server)
    → is_fatal a ≡ false
    → on_signal a s
      ≡ goes_on (record s { signal_reload = s.signal_reload || (a == signal_reload_no) })
unfolding on_signal
on_signal_mild a s h = ground arith

abbrev handlers : List ℕ
handlers = signal_reload_no ∷ sigterm ∷ sigint ∷ sigusr2 ∷ []
