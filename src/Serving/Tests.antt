-- ===== src/Serving/Tests.antt =====
-- The serving process at fixed inputs, and the theorems there.
use srslog.Base.{
  ℕ, ◌+◌, ◌/◌, ◌≡◌, ◌≢◌, refl, true, none, some, Option, List, [], ◌∷◌, ◌++◌, ◌&&◌, arith,
}
use srslog.Base.Int.{ℤ, pos, negsuc, ltb_ℤ, ◌<ℤ◌, ◌*ℤ◌, ◌+ℤ◌}
use srslog.ErrorCode.{success}
use srslog.Bytes.{codes, atoi, c_str}
use srslog.Clock.{Timeval, now_us, updates}
use srslog.Kbps.{Statistic, new_kbps}
use srslog.Config.{ConfigInfo, conf_max_connections, get_max_connections, get_value}
use srslog.Listener.{Listener, new_listener, base}
use srslog.Signal.{new_manager}
use srslog.Signal.Order.{any_fatal}
use srslog.Server.{new_server}
use srslog.Server.Cycle.{tick}
use srslog.Descriptors.{Table, Library}
use srslog.Descriptors.Closing.{KeepsOthers}
use srslog.Serving.{
  Serving, running, exited, Turn, accepts, ends, catches, reads_signal, passes, turn, step,
  pass_turn, catch, accept_turn, serve,
}
use srslog.Serving.Sound.{Sound}
use srslog.Serving.Seen.{caught}
use srslog.Serving.Exit.{only_fatal_ends}
use srslog.Serving.Delivery.{fatal_signal_ends}
use srslog.Serving.Passes.{clock_of_passes}

abbrev lazy : Library
lazy = record { fileno = λ h. pos h; netfd_close = λ h t. t }

lazy-KeepsOthers : KeepsOthers lazy
lazy-KeepsOthers h t d e = refl

abbrev ticking : ℕ → Option Timeval
ticking n = some (record { tv_sec = pos (100 + n); tv_usec = pos 0 })

abbrev idle : ℕ → Statistic
idle p = record { recv_bytes = pos 0; send_bytes = pos 0 }

abbrev config : ConfigInfo
config = record { json = []; json_map = (conf_max_connections, codes "2") ∷ [] }

abbrev standard : Table
standard d = ltb_ℤ (negsuc 0) d && ltb_ℤ d (pos 8)

abbrev listening : Listener
listening = record (new_listener base) { fd = pos 5; stfd = some 5; started = true }

-- A reload signal and SIGTERM wait in the pipe.
abbrev serving : Serving
serving = record {
  books = record {
    server = record new_server {
      listeners = listening ∷ [];
      signal_manager = true;
      kbps = some new_kbps;
    };
    clock = record { cache_us = pos 100000000; startup_us = pos 100000000; calls = 1 };
    handles = λ a. none;
    table = standard;
  };
  signals = record new_manager {
    read_end = pos 6;
    write_end = pos 7;
    queue = 1 ∷ 15 ∷ [];
    installed = 1 ∷ 15 ∷ 2 ∷ 12 ∷ [];
    started = true;
  };
  pass = 0;
  status = running;
}

abbrev arrival : ℕ → ℕ → Turn
arrival address h = accepts 0 (some (h, record { address = address; start = success }))

abbrev turns : List Turn
turns =
    arrival 900 8
    ∷ reads_signal
    ∷ arrival 901 9
    ∷ passes
    ∷ ends 900 idle
    ∷ reads_signal
    ∷ passes
    ∷ []

abbrev opens : ℤ → Option ℕ
opens fd = some 7

not_null : opens (pos 6) ≢ none
not_null e = cc

serving-Sound : Sound lazy opens config standard serving
unfolding get_max_connections get_value atoi c_str
serving-Sound = record {
  alive = λ e. cc;
  bounded = omega arith;
  accounted = λ d. omega arith;
  counting = λ e. cc;
  opens = not_null;
}

ended : (serve lazy opens ticking config turns serving).status ≡ exited (pos 0)
ended =
    fatal_signal_ends lazy lazy-KeepsOthers opens ticking config standard turns serving
      serving-Sound refl refl refl (omega arith)

fatal_signal_ends_example : (serve lazy opens ticking config turns serving).status ≡ exited (pos 0)
fatal_signal_ends_example =
    fatal_signal_ends lazy lazy-KeepsOthers opens ticking config standard turns serving
      serving-Sound refl refl refl (omega arith)

only_fatal_ends_example :
    (◌≡◌ {A = ℤ} (pos 0) (pos 0))
    × (any_fatal (1 ∷ 15 ∷ [] ++ caught (1 ∷ 15 ∷ 2 ∷ 12 ∷ []) turns) ≡ true)
only_fatal_ends_example =
    only_fatal_ends lazy opens ticking config turns serving (pos 0) refl not_null ended

abbrev working : List Turn
working = passes ∷ accepts 0 none ∷ passes ∷ catches 1 ∷ passes ∷ passes ∷ []

abbrev quiet : Serving
quiet = record serving { signals = record (serving.signals) { queue = [] } }

still_running : (serve lazy opens ticking config working quiet).status ≡ running
unfolding serve step turn pass_turn catch accept_turn tick
still_running = refl

after_epoch : (n : ℕ) (tv : Timeval) → ticking n ≡ some tv → pos 0 <ℤ now_us tv
unfolding now_us ◌*ℤ◌ ◌+ℤ◌
after_epoch n tv e = ground arith

-- Four passes read the clock twice.
clock_of_passes_example :
    (n : ℕ) × ((serve lazy opens ticking config working quiet).books.clock
      ≡ updates ticking n quiet.books.clock)
    × (n + (0 + 2) / 3 ≡ (0 + 4 + 2) / 3)
clock_of_passes_example =
    clock_of_passes lazy opens ticking config after_epoch working quiet (omega arith) (omega arith)
      still_running
