-- ===== src/Thread/Tests.antt =====
-- A thread at fixed schedules.
use srslog.Base.{◌+◌, ◌≤◌, ◌≡◌, ◌⊎◌, refl, true, none, some, List, [], ◌∷◌, ◌++◌, arith}
use srslog.Base.Int.{pos, ◌≤ℤ◌}
use srslog.ErrorCode.{success}
use srslog.Context.{new_context, get_id, find, generate_id, assign}
use srslog.Thread.{
  thread_start, before_cycle, cycle, end_cycle, thread_stop, absent, created, exited, outside,
  system, idle, Move, runs, starts, wakes, stops, stops_loop, step, run,
}
use srslog.Thread.Order.{InOrder, in_round, latest, callbacks-InOrder, stopped_thread_exited}
use srslog.Thread.Rounds.{rounds, rounds_go_on}
use srslog.Thread.Ending.{thread_ends, stop_returns, second_start_stale}

-- The parent starts the thread and sleeps until it has its id; then a round and the next callback.
abbrev life : List Move
life =
    starts (some 9)
    ∷ runs success
    ∷ runs success
    ∷ wakes
    ∷ runs success
    ∷ runs success
    ∷ runs success
    ∷ runs success
    ∷ runs success
    ∷ []

alive :
    (run (system true new_context) life).trace
    ≡ before_cycle ∷ end_cycle ∷ cycle ∷ before_cycle ∷ thread_start ∷ []
unfolding run step get_id find generate_id assign
alive = refl

callbacks-InOrder_example : InOrder (run (system true new_context) life).trace
callbacks-InOrder_example = callbacks-InOrder true new_context life

abbrev four_turns : List Move
four_turns = runs success ∷ runs success ∷ runs success ∷ runs success ∷ []

abbrev death : List Move
death = life ++ (stops ∷ four_turns ++ wakes ∷ [])

stopped_thread_exited_example :
    let s = run (system true new_context) death in
    (s.place ≡ absent) ⊎ ((s.place ≡ exited) × (latest s.trace ≡ some thread_stop))
unfolding run step get_id find generate_id assign
stopped_thread_exited_example = stopped_thread_exited true new_context death refl refl

thread_ends_example :
    idle (run (run (system true new_context) (life ++ stops_loop ∷ [])) four_turns).place ≡ true
unfolding run step get_id find generate_id assign
thread_ends_example =
    thread_ends (run (system true new_context) (life ++ stops_loop ∷ [])) four_turns refl refl
      (omega arith)

stop_returns_example :
    let t = step (run (step (run (system true new_context) life) stops) four_turns) wakes in
    (t.caller ≡ outside success) × (t.thread.tid ≡ none) × (idle t.place ≡ true)
unfolding run step get_id find generate_id assign
stop_returns_example =
    stop_returns (run (system true new_context) life) success 9 four_turns refl refl refl
      (omega arith)

second_start_stale_example :
    let s = run (system true new_context) death in
    let t = step s (starts (some 12)) in
    (t.caller ≡ outside success)
    × (t.place ≡ created)
    × (t.thread.cid ≡ s.thread.cid)
    × (pos 0 ≤ℤ t.thread.cid)
unfolding run step get_id find generate_id assign
second_start_stale_example = second_start_stale true new_context death 12 success refl refl refl

abbrev five_turns : List Move
five_turns = runs (pos 1009) ∷ wakes ∷ runs success ∷ runs success ∷ starts none ∷ runs success ∷ []

rounds_go_on_example :
    let s = run (system true new_context) life in
    (rounds s.trace + 1 ≤ rounds (run s five_turns).trace)
    × (in_round (run s five_turns).place ≡ true)
unfolding run step get_id find generate_id assign
rounds_go_on_example =
    rounds_go_on (run (system true new_context) life) five_turns 1 refl refl refl (omega arith)
