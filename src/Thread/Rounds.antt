-- ===== src/Thread/Rounds.antt =====
-- A thread goes on with its rounds as long as nobody turns its loop off.
use srslog.Base.{
  ℕ, suc, ◌+◌, ◌*◌, ◌≤◌, ◌≡◌, refl, Bool, true, false, List, [], ◌∷◌, arith, inl, inr, Bool-cases,
}
use srslog.Base.Int.{ℤ, eqb_ℤ}
use srslog.ErrorCode.{success}
use srslog.Thread.{
  Callback, before_cycle, Place, before, cycling, ending, sleeping, System, Move, runs, starts,
  wakes, stops, stops_loop, step, run, thread_step, wake,
}
use srslog.Thread.Order.{in_round}
use srslog.Thread.Ending.{turns}

abbrev pub undisturbed : List Move → Bool
undisturbed [] = true
undisturbed (stops ∷ ms) = false
undisturbed (stops_loop ∷ ms) = false
undisturbed (_ ∷ ms) = undisturbed ms

-- The rounds begun.
abbrev pub rounds : List Callback → ℕ
rounds [] = 0
rounds (before_cycle ∷ cs) = suc (rounds cs)
rounds (_ ∷ cs) = rounds cs

-- How far a round has come.
abbrev phase : Place → ℕ
phase cycling = 1
phase ending = 2
phase sleeping = 3
phase _ = 0

phase_three : (p : Place) → phase p ≤ 3
phase_three p = ground arith

record Rounding (s s' : System) (n : ℕ) : Type 0 where
  on : s'.thread.loop ≡ true
  inside : in_round s'.place ≡ true
  further : 4 * rounds s.trace + phase s.place + n ≤ 4 * rounds s'.trace + phase s'.place

turn_rounds :
    (ret : ℤ) (s : System) (p : Place)
    → s.place ≡ p
    → s.thread.loop ≡ true
    → in_round p ≡ true
    → Rounding s (thread_step ret s) 1
unfolding thread_step
turn_rounds ret s before e on i = elim (Bool-cases (eqb_ℤ ret success)) [
  | inl done ↦ ground (arith, done)
  | inr failed ↦ ground (arith, failed)
]
turn_rounds ret s cycling e on i = elim (Bool-cases (eqb_ℤ ret success)) [
  | inl done ↦ ground (arith, done)
  | inr failed ↦ ground (arith, failed)
]
turn_rounds ret s ending e on i = ground arith
turn_rounds ret s sleeping e on i = ground arith
turn_rounds ret s p e on i = cc

other_rounds :
    (s : System) (m : Move)
    → undisturbed (m ∷ []) ≡ true
    → turns (m ∷ []) ≡ 0
    → s.thread.loop ≡ true
    → in_round s.place ≡ true
    → Rounding s (step s m) 0
unfolding step wake
other_rounds s wakes u t on i = ground arith
other_rounds s (starts handle) u t on i = ground arith
other_rounds s (runs ret) u t on i = absurd (omega arith)
other_rounds s stops u t on i = cc
other_rounds s stops_loop u t on i = cc

run_rounds :
    (s : System) (ms : List Move)
    → undisturbed ms ≡ true
    → s.thread.loop ≡ true
    → in_round s.place ≡ true
    → Rounding s (run s ms) (turns ms)
unfolding run step
run_rounds s [] u on i = ground arith
run_rounds s (runs ret ∷ ms) u on i =
    let r = turn_rounds ret s s.place refl on i in
    ground (arith, r, run_rounds (thread_step ret s) ms u r.on r.inside)
run_rounds s (wakes ∷ ms) u on i =
    let r = other_rounds s wakes refl refl on i in
    ground (arith, r, run_rounds (step s wakes) ms u r.on r.inside)
run_rounds s (starts handle ∷ ms) u on i =
    let r = other_rounds s (starts handle) refl refl on i in
    ground (arith, r, run_rounds (step s (starts handle)) ms u r.on r.inside)
run_rounds s (stops ∷ ms) u on i = cc
run_rounds s (stops_loop ∷ ms) u on i = cc

-- A thread in its rounds goes on with them, whatever codes its callbacks return: in a schedule in
-- which nobody turns its loop off, every four of its turns begin one more round at least.
pub rounds_go_on :
    (s : System) (ms : List Move) (n : ℕ)
    → undisturbed ms ≡ true
    → s.thread.loop ≡ true
    → in_round s.place ≡ true
    → 4 * n ≤ turns ms
    → (rounds s.trace + n ≤ rounds (run s ms).trace) × (in_round (run s ms).place ≡ true)
rounds_go_on s ms n u on i four =
    let r = run_rounds s ms u on i in
    (omega (arith, r.further, phase_three (run s ms).place), r.inside)
