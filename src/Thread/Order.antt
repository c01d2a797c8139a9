-- ===== src/Thread/Order.antt =====
-- The order in which a thread calls its handler, and what holds while it does.
use srslog.Base.{
  ℕ, ◌≡◌, ◌≢◌, ◌⊎◌, refl, ◌∙◌, Bool, true, false, Option, none, some, List, [], ◌∷◌, arith,
  if◌then◌else◌,
}
use srslog.Base.Int.{ℤ, pos, ◌≤ℤ◌, eqb_ℤ}
use srslog.ErrorCode.{success}
use srslog.Context.{ThreadContext}
use srslog.Thread.{
  Callback, thread_start, before_cycle, cycle, end_cycle, thread_stop, Place, absent, created,
  starting, waiting, before, cycling, ending, sleeping, stopping, exited, in_start, System, system,
  idle, enter, step, end_round, Move, runs, starts, wakes, stops, stops_loop, run, thread_step,
  wake,
}

abbrev pub latest : List Callback → Option Callback
latest [] = none
latest (c ∷ cs) = some c

-- Which callback may come behind which, or come first.
abbrev pub may_follow : Option Callback → Callback → Bool
may_follow none thread_start = true
may_follow (some thread_stop) thread_start = true
may_follow (some thread_start) before_cycle = true
may_follow (some before_cycle) before_cycle = true
may_follow (some cycle) before_cycle = true
may_follow (some end_cycle) before_cycle = true
may_follow (some before_cycle) cycle = true
may_follow (some cycle) end_cycle = true
may_follow (some thread_start) thread_stop = true
may_follow (some before_cycle) thread_stop = true
may_follow (some cycle) thread_stop = true
may_follow (some end_cycle) thread_stop = true
may_follow _ _ = false

-- Every callback of a trace, which has the latest first, may follow the one before.
abbrev pub InOrder : List Callback → Type 0
InOrder [] = Unit
InOrder (c ∷ cs) = (may_follow (latest cs) c ≡ true) × InOrder cs

-- In a round: behind the test of `loop`.
abbrev pub in_round : Place → Bool
in_round before = true
in_round cycling = true
in_round ending = true
in_round sleeping = true
in_round _ = false

abbrev pub begun : Place → Bool
begun absent = false
begun created = false
begun _ = true

-- The callback made last, at each place.
abbrev Latest : Place → Option Callback → Type 0
Latest absent c = c ≡ none
Latest created c = (c ≡ none) ⊎ (c ≡ some thread_stop)
Latest starting c = c ≡ some thread_start
Latest waiting c = c ≡ some thread_start
Latest before c = c ≡ some before_cycle
Latest cycling c = c ≡ some cycle
Latest ending c = c ≡ some end_cycle
Latest sleeping c = (c ≡ some before_cycle) ⊎ ((c ≡ some cycle) ⊎ (c ≡ some end_cycle))
Latest stopping c = c ≡ some thread_stop
Latest exited c = c ≡ some thread_stop

pub record Inv (s : System) : Type 0 where
  pub asleep : s.caller ≡ in_start → (s.thread.can_run ≡ false) × (s.place ≢ absent)
  pub ready : in_round s.place ≡ true → s.thread.can_run ≡ true
  pub has_id : begun s.place ≡ true → pos 0 ≤ℤ s.thread.cid
  pub fresh : s.place ≡ absent → s.thread.can_run ≡ false
  pub held : s.thread.joinable ≡ true → s.thread.tid ≡ none → idle s.place ≡ true
  pub last_call : Latest s.place (latest s.trace)
  pub in_order : InOrder s.trace

system-Inv : (joinable : Bool) (c : ThreadContext) → Inv (system joinable c)
system-Inv joinable c = ground arith

begun-Inv :
    (id : ℕ) (c : ThreadContext) (s : System)
    → s.place ≡ created
    → Inv s
    → Inv (enter starting (record s { thread = record (s.thread) { cid = pos id }; context = c }))
begun-Inv id c s e h = ground arith

-- Behind `on_before_cycle` and `cycle`; `done` says that they returned success.
round-Inv :
    (done : Bool) (s : System)
    → Inv s
    → ((s.place ≡ before) → Inv (enter (if done then cycling else end_round s.thread) s))
      × ((s.place ≡ cycling) → Inv (enter (if done then ending else end_round s.thread) s))
unfolding end_round
round-Inv true s h = (λ e. ground arith, λ e. ground arith)
round-Inv false s h = (λ e. ground arith, λ e. ground arith)

thread_step-Inv : (ret : ℤ) (s : System) (p : Place) → s.place ≡ p → Inv s → Inv (thread_step ret s)
unfolding thread_step
thread_step-Inv ret s absent e h = ground arith
thread_step-Inv ret s created e h = rw (e, thread_step) (begun-Inv _ _ s e h)
thread_step-Inv ret s starting e h = ground arith
thread_step-Inv ret s waiting e h = ground arith
thread_step-Inv ret s before e h = rw (e, thread_step) ((round-Inv (eqb_ℤ ret success) s h).0 e)
thread_step-Inv ret s cycling e h = rw (e, thread_step) ((round-Inv (eqb_ℤ ret success) s h).1 e)
thread_step-Inv ret s ending e h = ground arith
thread_step-Inv ret s sleeping e h = ground arith
thread_step-Inv ret s stopping e h = ground arith
thread_step-Inv ret s exited e h = ground arith

step-Inv : (s : System) (m : Move) → Inv s → Inv (step s m)
unfolding step wake
step-Inv s (runs ret) h = thread_step-Inv ret s s.place refl h
step-Inv s (starts handle) h = ground arith
step-Inv s wakes h = ground arith
step-Inv s stops h = ground arith
step-Inv s stops_loop h = ground arith

run-Inv : (s : System) (ms : List Move) → Inv s → Inv (run s ms)
unfolding run
run-Inv s [] h = h
run-Inv s (m ∷ ms) h = run-Inv (step s m) ms (step-Inv s m h)

step-joinable : (s : System) (m : Move) → (step s m).thread.joinable ≡ s.thread.joinable
unfolding step wake
step-joinable s (runs ret) = ground arith
step-joinable s m = ground arith

run-joinable : (s : System) (ms : List Move) → (run s ms).thread.joinable ≡ s.thread.joinable
unfolding run
run-joinable s [] = refl
run-joinable s (m ∷ ms) = run-joinable (step s m) ms ∙ step-joinable s m

last_idle :
    (p : Place) (c : Option Callback)
    → idle p ≡ true
    → Latest p c
    → (p ≡ absent) ⊎ ((p ≡ exited) × (c ≡ some thread_stop))
last_idle absent c i l = ground arith
last_idle exited c i l = ground arith
last_idle _ c i l = cc

pub reached-Inv :
    (joinable : Bool) (c : ThreadContext) (ms : List Move) → Inv (run (system joinable c) ms)
reached-Inv joinable c ms = run-Inv (system joinable c) ms (system-Inv joinable c)

module _ (joinable : Bool) (c : ThreadContext) (ms : List Move) where
  abbrev reached : System
  reached = run (system joinable c) ms

  -- Whatever the schedule, a thread calls its handler in this order, and again so from the start
  -- when it is started again: `on_thread_start` first, then rounds, then `on_thread_stop`; a round is
  -- `on_before_cycle`, `cycle` if that was called, `on_end_cycle` if that was.
  pub callbacks-InOrder : InOrder reached.trace
  callbacks-InOrder = (reached-Inv joinable c ms).in_order

  -- A round only runs where `start` does not sleep any more: it has been let to run, and the id of
  -- the thread is there to be read.
  pub round_after_start :
      in_round reached.place ≡ true
      → (reached.thread.can_run ≡ true)
        × (reached.caller ≢ in_start)
        × (pos 0 ≤ℤ reached.thread.cid)
  round_after_start r = let h = reached-Inv joinable c ms in ground (arith, h)

  -- Once `stop` has taken the handle of a joinable thread away, no thread runs: none was created, or
  -- the last has returned from `on_thread_stop`, its last callback.
  pub stopped_thread_exited :
      joinable ≡ true
      → reached.thread.tid ≡ none
      → (reached.place ≡ absent)
        ⊎ ((reached.place ≡ exited) × (latest reached.trace ≡ some thread_stop))
  stopped_thread_exited j e =
      let h = reached-Inv joinable c ms in
      last_idle reached.place _ (h.held (run-joinable (system joinable c) ms ∙ j) e) h.last_call
