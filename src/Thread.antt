-- ===== src/Thread.antt =====
-- src/base/app_thread.h and app_thread.cpp: `SrsThread`, a thread of the `st` library that calls a
-- handler in a loop, and the coroutine that starts and stops it. The threads of `st` give way to
-- each other only where they sleep, join, or are inside a handler's callback; a step goes from one
-- such place to the next. A start behind a stop that could not wait for its thread is left out.
pub mod Order
pub mod Ending
pub mod Rounds
mod Tests
use srslog.Base.{
  ℕ, Bool, true, false, not, ◌&&◌, Option, none, some, List, [], ◌∷◌, ◌++◌, if◌then◌else◌,
}
use srslog.Base.Int.{ℤ, pos, negsuc, ltb_ℤ, eqb_ℤ}
use srslog.ErrorCode.{success, st_create_cycle_thread}
use srslog.Context.{ThreadContext, generate_id, get_id}

pub record SrsThread : Type 0 where
  pub tid : Option ℕ
  pub cid : ℤ
  pub loop : Bool
  pub can_run : Bool
  pub joinable : Bool

abbrev pub new_thread : Bool → SrsThread
new_thread joinable = record {
  tid = none;
  cid = negsuc 0;
  loop = false;
  can_run = false;
  joinable = joinable;
}

-- `ISrsThreadHandler`
pub data Callback : Type 0 where
  thread_start before_cycle cycle end_cycle thread_stop : Callback

-- Where `thread_cycle` stands: not begun, in `on_thread_start`, asleep until it can run, in one of
-- the three callbacks of a round, asleep behind a round, in `on_thread_stop`, at its end.
pub data Place : Type 0 where
  absent created starting waiting before cycling ending sleeping stopping exited : Place

-- Where the other coroutine stands: outside, with the code that `start` returned last, asleep in
-- `start`, or in the join of `stop`.
pub data Caller : Type 0 where
  outside : ℤ → Caller
  in_start in_stop : Caller

-- `while (loop)`
unfoldable pub loop_test : SrsThread → Place
loop_test t = if t.loop then before else stopping

-- `while (!can_run && loop)`, then the loop.
unfoldable pub wait_run : SrsThread → Place
unfolding loop_test
wait_run t = if not t.can_run && t.loop then waiting else loop_test t

-- Behind the label `failed`.
unfoldable pub end_round : SrsThread → Place
end_round t = if t.loop then sleeping else stopping

-- The place behind a place; `ret` is what the callback that was running returned.
unfoldable pub next_place : SrsThread → ℤ → Place → Place
unfolding wait_run loop_test end_round
next_place t ret absent = absent
next_place t ret created = starting
next_place t ret starting = wait_run t
next_place t ret waiting = wait_run t
next_place t ret before = if eqb_ℤ ret success then cycling else end_round t
next_place t ret cycling = if eqb_ℤ ret success then ending else end_round t
next_place t ret ending = end_round t
next_place t ret sleeping = loop_test t
next_place t ret stopping = exited
next_place t ret exited = exited

-- `while (_cid < 0 && loop)` of `start`, and what follows it.
unfoldable pub wait_cid : SrsThread → SrsThread × Caller
wait_cid t =
    if ltb_ℤ t.cid (pos 0) && t.loop
    then (t, in_start)
    else (record t { can_run = true }, outside success)

-- The object, its thread and the other coroutine; `trace` has the callbacks made, the latest first.
pub record System : Type 0 where
  pub thread : SrsThread
  pub place : Place
  pub caller : Caller
  pub context : ThreadContext
  pub trace : List Callback

abbrev pub system : Bool → ThreadContext → System
system joinable context = record {
  thread = new_thread joinable;
  place = absent;
  caller = outside success;
  context = context;
  trace = [];
}

-- The callback that is made on the way to a place; waking up where it slept makes none.
abbrev pub called : Place → List Callback
called starting = thread_start ∷ []
called before = before_cycle ∷ []
called cycling = cycle ∷ []
called ending = end_cycle ∷ []
called stopping = thread_stop ∷ []
called _ = []

abbrev pub enter : Place → System → System
enter p s = record s { place = p; trace = called p ++ s.trace }

-- `thread_cycle` up to `on_thread_start`: a new id.
unfoldable pub begin : ℕ → System → System
begin self s =
    let (id, context) = get_id self (generate_id self s.context) in
    record s { thread = record (s.thread) { cid = pos id }; context = context }

abbrev pub self_of : SrsThread → ℕ
self_of t = elim t.tid [ none ↦ 0 | some self ↦ self ]

-- A step of the thread.
unfoldable pub thread_step : ℤ → System → System
unfolding next_place begin
thread_step ret s = elim s.place [
  | absent ↦ s
  | exited ↦ s
  | created ↦ enter starting (begin (self_of s.thread) s)
  | p ↦ enter (next_place s.thread ret p) s
]

-- No thread runs: none was created, or the last has come to its end.
abbrev pub idle : Place → Bool
idle absent = true
idle exited = true
idle _ = false

-- `start`; `handle` is what `st_thread_create` gives, `none` where it fails.
unfoldable pub start : Option ℕ → System → System
unfolding wait_cid
start handle s = elim s.thread.tid [
  | some _ ↦ record s { caller = outside success }
  | none ↦ elim handle [
    | none ↦ record s { caller = outside st_create_cycle_thread }
    | some self ↦
        let (t, caller) = wait_cid (record (s.thread) { tid = some self; loop = true }) in
        record s { thread = t; caller = caller; place = Place.created }
  ]
]

-- `stop` up to the join. The interrupt makes the callback that is running return.
unfoldable pub stop : System → System
stop s = elim s.thread.tid [
  | none ↦ s
  | some _ ↦ record s { thread = record (s.thread) { loop = false }; caller = in_stop }
]

unfoldable pub stop_loop : SrsThread → SrsThread
stop_loop t = record t { loop = false }

-- The join ends with the thread, or at once with an error where the thread is not joinable.
unfoldable pub joins : System → System
joins s =
    if s.thread.joinable && not (idle s.place)
    then s
    else record s { thread = record (s.thread) { tid = none }; caller = outside success }

pub data Move : Type 0 where
  runs : ℤ → Move
  starts : Option ℕ → Move
  wakes stops stops_loop : Move

-- The caller comes back from its sleep or its join.
unfoldable pub wake : System → System
unfolding wait_cid joins
wake s = elim s.caller [
  | outside _ ↦ s
  | in_start ↦ let (t, caller) = wait_cid s.thread in record s { thread = t; caller = caller }
  | in_stop ↦ joins s
]

-- A move that is not possible changes nothing.
unfoldable pub step : System → Move → System
unfolding thread_step start stop wake stop_loop
step s (runs ret) = thread_step ret s
step s (starts handle) = elim s.caller [
  | outside _ ↦
      if idle s.place
      then start handle s
      else (elim s.thread.tid [ none ↦ s | some _ ↦ start handle s ])
  | _ ↦ s
]
step s wakes = wake s
step s stops = elim s.caller [ outside _ ↦ stop s | _ ↦ s ]
step s stops_loop = record s { thread = stop_loop s.thread }

unfoldable pub run : System → List Move → System
run s [] = s
run s (m ∷ ms) = run (step s m) ms
