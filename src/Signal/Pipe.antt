-- ===== src/Signal/Pipe.antt =====
-- Signals that come one after another, and the numbers that they leave in the pipe.
use mathlib.Core.List.{append-nil, append_assoc}
use srslog.Base.{
  ℕ, ◌+◌, ◌≤◌, ◌≡◌, refl, sym, ◌∙◌, inl, inr, Bool-cases, Option, none, some, List, [], ◌∷◌, ◌++◌,
  length, arith, length-append, if◌then◌else◌, ltb, true,
}
use srslog.Signal.{SignalManager, holds, pipe_room, sig_catcher, catches}

-- `none` is a process that is blocked.
unfoldable pub catch_all : List ℕ → SignalManager → Option SignalManager
catch_all [] m = some m
catch_all (a ∷ as') m = elim (catches a m) [ none ↦ none | some m' ↦ catch_all as' m' ]

-- The signals that have a handler.
abbrev pub reaching : List ℕ → List ℕ → List ℕ
reaching installed [] = []
reaching installed (a ∷ as') =
    if holds a installed then a ∷ reaching installed as' else reaching installed as'

pub record Caught (as' : List ℕ) (m m' : SignalManager) : Type 0 where
  pub queue : m'.queue ≡ m.queue ++ reaching m.installed as'
  pub read_end : m'.read_end ≡ m.read_end

pub catch_all-Caught :
    (as' : List ℕ) (m : SignalManager)
    → length m.queue + length as' ≤ pipe_room
    → (m' : SignalManager) × (catch_all as' m ≡ some m') × Caught as' m m'
unfolding catch_all catches sig_catcher
catch_all-Caught [] m room = (m, refl, record { queue = sym (append-nil m.queue); read_end = refl })
catch_all-Caught (a ∷ as') m room = elim (Bool-cases (holds a m.installed)) [
  | inl e ↦
      let fits : ltb (length m.queue) pipe_room ≡ true = ground (arith, room) in
      let (m', c, r) =
        catch_all-Caught as' (sig_catcher a m)
          (ground (arith, room, length-append m.queue (a ∷ []))) in
      (
        m',
        rw (e, fits, catch_all, catches) c,
        record {
          queue = rw e (r.queue ∙ append_assoc m.queue (a ∷ []) (reaching m.installed as'));
          read_end = r.read_end;
        },
      )
  | inr e ↦
      let (m', c, r) = catch_all-Caught as' m (ground (arith, room)) in
      (m', rw (e, catch_all, catches) c, record { queue = rw e r.queue; read_end = r.read_end })
]
