-- ===== src/PidFile/Exclusive.antt =====
-- Several processes over one pid file, in any order of their system calls.
use mathlib.Core.Path.{subst}
use mathlib.Core.Option.{some-injective}
use srslog.Base.{
  ℕ, ◌==◌, ◌≡◌, ◌≢◌, refl, sym, ◌∙◌, true, some, List, [], ◌∷◌, Bool-cases, inl, inr, ==_iff,
}
use srslog.Base.Int.{ℤ}
use mathlib.Core.Bool.{false≢true}
use srslog.Bytes.{Bytes, decimal}
use srslog.PidFile.Steps.{Stage, gone, acquired, advance, reload, release, touch}
use srslog.PidFile.World.{
  World, Move, starts, calls, reloads, dies, grants, begun, set_stage, move, moves, deserted,
}
use srslog.PidFile.Fits.{
  Fits, kept-Fits, release-other, begun-Fits, reload-Fits, own-Fits, touch-other,
}

abbrev AllFit : World → Type 0
AllFit w = (p : ℕ) → Fits p (w.stage p) w.file

set_stage-AllFit :
    (pid : ℕ) (stage : Stage) (w : World)
    → Fits pid stage w.file
    → ((p : ℕ) → p ≢ pid → Fits p (w.stage p) w.file)
    → AllFit (set_stage pid stage w)
set_stage-AllFit pid stage w own others p = elim (Bool-cases (p == pid)) [
  | inl e ↦ rw e (subst (λ x. Fits x stage w.file) (sym ((==_iff p pid).0 e)) own)
  | inr e ↦ rw e (others p (λ q. false≢true (sym e ∙ (==_iff p pid).1 q)))
]

called-AllFit :
    (pid : ℕ) (r : ℤ) (errno : ℕ) (w : World)
    → grants pid (w.stage pid) r w.file ≡ true
    → AllFit w
    → AllFit (
        set_stage pid
          (advance pid (w.stage pid) r errno)
          (record w { file = touch pid (w.stage pid) r w.file }))
called-AllFit pid r errno w g h =
    set_stage-AllFit pid (advance pid (w.stage pid) r errno)
      (record w { file = touch pid (w.stage pid) r w.file })
      (own-Fits pid (w.stage pid) r errno w.file g (h pid))
      (λ p n.
        kept-Fits p (w.stage p) w.file (touch pid (w.stage pid) r w.file) (h p)
          (touch-other p pid (w.stage pid) r w.file n g (h pid)))

move-AllFit : (w : World) (m : Move) → AllFit w → AllFit (move w m)
move-AllFit w (starts pid) h =
    set_stage-AllFit pid (begun (w.stage pid)) w (begun-Fits pid (w.stage pid) w.file (h pid))
      (λ p n. h p)
move-AllFit w (calls pid r errno) h = elim (Bool-cases (grants pid (w.stage pid) r w.file)) [
  | inl e ↦ rw e (called-AllFit pid r errno w e h)
  | inr e ↦ rw e h
]
move-AllFit w (reloads pid) h =
    set_stage-AllFit pid (reload (w.stage pid)) w (reload-Fits pid (w.stage pid) w.file (h pid))
      (λ p n. h p)
move-AllFit w (dies pid) h =
    set_stage-AllFit pid gone (record w { file = release pid w.file })
      (record { owned = λ e. absurd (false≢true e); text = tt })
      (λ p n.
        kept-Fits p (w.stage p) w.file (release pid w.file) (h p) (release-other p pid w.file n))

moves-AllFit : (w : World) (ms : List Move) → AllFit w → AllFit (moves w ms)
moves-AllFit w [] h = h
moves-AllFit w (m ∷ ms) h = moves-AllFit (move w m) ms (move-AllFit w m h)

idle-AllFit : (text : Bytes) → AllFit (deserted text)
idle-AllFit text p = record { owned = λ e. absurd (false≢true e); text = tt }

-- Where the system grants the write lock to one process at a time, and takes it back when that
-- process ends or closes the file: however the system calls of any processes that start, reload the
-- pid file, fail and end are interleaved, whatever the calls return, a process that has acquired
-- the file holds its lock, the text of the file is the process's id, and no other process has
-- acquired it.
pub acquired_alone :
    (text : Bytes) (ms : List Move) (p : ℕ) (fd : ℤ)
    → let w = moves (deserted text) ms in
      w.stage p ≡ acquired fd
      → (w.file.owner ≡ some p)
        × (w.file.text ≡ decimal p)
        × ((q : ℕ) (fd' : ℤ) → w.stage q ≡ acquired fd' → q ≡ p)
acquired_alone text ms p fd e =
    let w = moves (deserted text) ms in
    let all = moves-AllFit (deserted text) ms (idle-AllFit text) in
    let mine = subst (λ s. Fits p s w.file) e (all p) in
    (
      mine.owned refl,
      mine.text,
      λ q fd' e'.
          let his = subst (λ s. Fits q s w.file) e' (all q) in
          some-injective q p (sym (his.owned refl) ∙ mine.owned refl),
    )
