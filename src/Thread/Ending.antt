-- ===== src/Thread/Ending.antt =====
-- How a thread ends, what `stop` waits for, and what a second start finds.
use srslog.Base.{
  ℕ, suc, ◌-◌, ◌≤◌, ◌≡◌, ◌⊎◌, refl, ap, Bool, true, false, none, some, List, [], ◌∷◌, arith,
  if◌then◌else◌,
}
use srslog.Base.Int.{ℤ, pos, ◌≤ℤ◌, eqb_ℤ}
use srslog.ErrorCode.{success}
use srslog.Context.{ThreadContext}
use srslog.Thread.{
  Place, absent, created, starting, waiting, before, cycling, ending, sleeping, stopping, exited,
  outside, in_stop, System, system, idle, Move, runs, starts, wakes, stops, stops_loop, step, run,
  thread_step, wake, start, wait_cid, stop, end_round,
}
use srslog.Thread.Order.{reached-Inv}

-- The steps that the thread has left once `loop` is off, at most.
abbrev left : Place → ℕ
left absent = 0
left created = 3
left starting = 2
left waiting = 2
left before = 4
left cycling = 3
left ending = 2
left sleeping = 2
left stopping = 1
left exited = 0

-- The thread's own moves in a schedule, and whether it has no start.
abbrev pub turns : List Move → ℕ
turns [] = 0
turns (runs ret ∷ ms) = suc (turns ms)
turns (_ ∷ ms) = turns ms

abbrev pub no_starts : List Move → Bool
no_starts [] = true
no_starts (starts handle ∷ ms) = false
no_starts (_ ∷ ms) = no_starts ms

round_ends :
    (done : Bool) (s : System)
    → s.thread.loop ≡ false
    → (left (if done then cycling else end_round s.thread) ≤ 3)
      × (left (if done then ending else end_round s.thread) ≤ 2)
unfolding end_round
round_ends done s off = ground arith

turn_ends :
    (ret : ℤ) (s : System) (p : Place)
    → s.place ≡ p
    → s.thread.loop ≡ false
    → ((thread_step ret s).thread.loop ≡ false) × (left (thread_step ret s).place ≤ left p - 1)
unfolding thread_step
turn_ends ret s absent e off = ground arith
turn_ends ret s created e off = ground arith
turn_ends ret s starting e off = ground arith
turn_ends ret s waiting e off = ground arith
turn_ends ret s before e off = ground (arith, round_ends (eqb_ℤ ret success) s)
turn_ends ret s cycling e off = ground (arith, round_ends (eqb_ℤ ret success) s)
turn_ends ret s ending e off = ground arith
turn_ends ret s sleeping e off = ground arith
turn_ends ret s stopping e off = ground arith
turn_ends ret s exited e off = ground arith

other_keeps :
    (s : System) (m : Move)
    → no_starts (m ∷ []) ≡ true
    → turns (m ∷ []) ≡ 0
    → s.thread.loop ≡ false
    → ((step s m).thread.loop ≡ false) × ((step s m).place ≡ s.place)
unfolding step wake
other_keeps s wakes n t off = (ground arith, ground arith)
other_keeps s stops n t off = ground arith
other_keeps s stops_loop n t off = ground arith
other_keeps s (runs ret) n t off = absurd (omega arith)
other_keeps s (starts handle) n t off = cc

left-run :
    (s : System) (ms : List Move)
    → s.thread.loop ≡ false
    → no_starts ms ≡ true
    → left (run s ms).place ≤ left s.place - turns ms
unfolding run step
left-run s [] off n = omega arith
left-run s (runs ret ∷ ms) off n =
    let (off', less) = turn_ends ret s s.place refl off in
    omega (arith, less, left-run (thread_step ret s) ms off' n)
left-run s (starts handle ∷ ms) off n = cc
left-run s (wakes ∷ ms) off n =
    let (off', same) = other_keeps s wakes refl refl off in
    omega (arith, ap left same, left-run (step s wakes) ms off' n)
left-run s (stops ∷ ms) off n =
    let (off', same) = other_keeps s stops refl refl off in
    omega (arith, ap left same, left-run (step s stops) ms off' n)
left-run s (stops_loop ∷ ms) off n =
    let (off', same) = other_keeps s stops_loop refl refl off in
    omega (arith, ap left same, left-run (step s stops_loop) ms off' n)

left_none : (p : Place) → left p ≤ 0 → idle p ≡ true
left_none absent h = refl
left_none exited h = refl
left_none _ h = absurd (omega arith)

left_four : (p : Place) → left p ≤ 4
left_four p = ground arith

-- Once `loop` is off, a thread that gets four turns is at its end, whatever its callbacks return and
-- whatever else is scheduled between, as long as it is not started again.
pub thread_ends :
    (s : System) (ms : List Move)
    → s.thread.loop ≡ false
    → no_starts ms ≡ true
    → 4 ≤ turns ms
    → idle (run s ms).place ≡ true
thread_ends s ms off n four =
    left_none (run s ms).place (omega (arith, left-run s ms off n, left_four s.place))

-- A `stop` that has begun: it waits in the join, or has come back.
record Stopping (s : System) : Type 0 where
  off : s.thread.loop ≡ false
  waits : (s.caller ≡ in_stop) ⊎ ((s.caller ≡ outside success) × (s.thread.tid ≡ none))

turn_caller :
    (ret : ℤ) (s : System)
    → ((thread_step ret s).caller ≡ s.caller) × ((thread_step ret s).thread.tid ≡ s.thread.tid)
unfolding thread_step
turn_caller ret s = ground arith

step-Stopping :
    (s : System) (m : Move) → no_starts (m ∷ []) ≡ true → Stopping s → Stopping (step s m)
unfolding step wake stop
step-Stopping s (runs ret) n h =
    let (off, _) = turn_ends ret s s.place refl h.off in
    let (caller, tid) = turn_caller ret s in record { off = off; waits = rw (caller, tid) h.waits }
step-Stopping s (starts handle) n h = cc
step-Stopping s wakes n h = ground arith
step-Stopping s stops n h = ground arith
step-Stopping s stops_loop n h = ground arith

run-Stopping :
    (s : System) (ms : List Move) → no_starts ms ≡ true → Stopping s → Stopping (run s ms)
unfolding run
run-Stopping s [] n h = h
run-Stopping s (starts handle ∷ ms) n h = cc
run-Stopping s (runs ret ∷ ms) n h =
    run-Stopping (step s (runs ret)) ms n (step-Stopping s (runs ret) refl h)
run-Stopping s (wakes ∷ ms) n h = run-Stopping (step s wakes) ms n (step-Stopping s wakes refl h)
run-Stopping s (stops ∷ ms) n h = run-Stopping (step s stops) ms n (step-Stopping s stops refl h)
run-Stopping s (stops_loop ∷ ms) n h =
    run-Stopping (step s stops_loop) ms n (step-Stopping s stops_loop refl h)

woken_returns :
    (s : System)
    → Stopping s
    → idle s.place ≡ true
    → let t = step s wakes in
      (t.caller ≡ outside success) × (t.thread.tid ≡ none) × (idle t.place ≡ true)
unfolding step wake
woken_returns s h i = ground arith

stop-Stopping :
    (s : System) (ret : ℤ) (self : ℕ)
    → s.caller ≡ outside ret
    → s.thread.tid ≡ some self
    → Stopping (step s stops)
unfolding step stop
stop-Stopping s ret self out has = ground arith

-- A `stop` of a thread that was started comes back, with the thread at its end and its handle gone,
-- in every schedule that gives the thread four turns and then wakes the caller, whatever the
-- callbacks return and whatever else is scheduled, starts excepted.
pub stop_returns :
    (s : System) (ret : ℤ) (self : ℕ) (ms : List Move)
    → s.caller ≡ outside ret
    → s.thread.tid ≡ some self
    → no_starts ms ≡ true
    → 4 ≤ turns ms
    → let t = step (run (step s stops) ms) wakes in
      (t.caller ≡ outside success) × (t.thread.tid ≡ none) × (idle t.place ≡ true)
stop_returns s ret self ms out has n four =
    let h = stop-Stopping s ret self out has in
    woken_returns (run (step s stops) ms) (run-Stopping (step s stops) ms n h)
      (thread_ends (step s stops) ms h.off n four)

module _ (joinable : Bool) (c : ThreadContext) (ms : List Move) where
  abbrev reached : System
  reached = run (system joinable c) ms

  -- A thread that has ended and is started again is not waited for: `start` comes back at once with
  -- success, before the new thread has begun, and `cid` still gives the id of the thread that ended.
  pub second_start_stale :
      (self : ℕ) (ret : ℤ)
      → reached.caller ≡ outside ret
      → reached.place ≡ exited
      → reached.thread.tid ≡ none
      → let t = step reached (starts (some self)) in
        (t.caller ≡ outside success)
        × (t.place ≡ created)
        × (t.thread.cid ≡ reached.thread.cid)
        × (pos 0 ≤ℤ t.thread.cid)
  unfolding step start wait_cid
  second_start_stale self ret out ended gone =
      let h = reached-Inv joinable c ms in ground (arith, h)
