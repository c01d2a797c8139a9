-- ===== src/PidFile/Fits.antt =====
-- What a process at each stage can rely on, whatever it and the others do.
use mathlib.Core.Path.{subst}
use mathlib.Core.List.{append-nil}
use srslog.Base.{
  ℕ, zero, suc, ◌==◌, ◌≡◌, ◌≢◌, ◌||◌, refl, sym, ◌∙◌, ap, Bool, true, false, some, [], ◌++◌, length,
  take, drop, take_all, arith, if◌then◌else◌, Bool-cases, inl, inr,
}
use srslog.Base.Int.{ℤ, pos, pos_part, ltb_ℤ, eqb_ℤ, eqb→eq}
use mathlib.Core.Bool.{false≢true}
use srslog.ErrorCode.{
  pid_acquire, pid_already_running, pid_get_file_info, pid_lock, pid_set_file_info,
  pid_truncate_file, pid_write_file,
}
use srslog.PidFile.{eacces, eagain}
use srslog.Bytes.{Bytes, decimal}
use srslog.PidFile.Steps.{
  Stage, gone, closing, opening, locking, truncating, writing, getting, setting, acquired, failed,
  advance, reload, File, release, overwrite, touch,
}
use srslog.PidFile.World.{grants, begun}

-- What a stage tells of the file.
abbrev pub is_locked : Stage → Bool
is_locked gone = false
is_locked (closing pid_fd) = false
is_locked (opening pid_fd) = false
is_locked (locking fd pid_fd) = false
is_locked (truncating fd pid_fd) = true
is_locked (writing fd pid_fd) = true
is_locked (getting fd pid_fd) = true
is_locked (setting fd pid_fd) = true
is_locked (acquired fd) = true
is_locked (failed code pid_fd) = false

abbrev pub TextFits : ℕ → Stage → Bytes → Type 0
TextFits pid (writing fd pid_fd) text = text ≡ []
TextFits pid (getting fd pid_fd) text = text ≡ decimal pid
TextFits pid (setting fd pid_fd) text = text ≡ decimal pid
TextFits pid (acquired fd) text = text ≡ decimal pid
TextFits pid gone text = Unit
TextFits pid (closing pid_fd) text = Unit
TextFits pid (opening pid_fd) text = Unit
TextFits pid (locking fd pid_fd) text = Unit
TextFits pid (truncating fd pid_fd) text = Unit
TextFits pid (failed code pid_fd) text = Unit

-- What a process can rely on.
pub record Fits (pid : ℕ) (stage : Stage) (f : File) : Type 0 where
  pub owned : is_locked stage ≡ true → f.owner ≡ some pid
  pub text : TextFits pid stage f.text

drop-nil : (n : ℕ) → drop {A = ℕ} n [] ≡ []
drop-nil zero = refl
drop-nil (suc n) = refl

written :
    (pid : ℕ) (r : ℤ)
    → eqb_ℤ r (pos (length (decimal pid))) ≡ true
    → overwrite (take (pos_part r) (decimal pid)) [] ≡ decimal pid
written pid r e =
    let all : take (pos_part r) (decimal pid) ≡ decimal pid =
      rw (eqb→eq r (pos (length (decimal pid))) e)
        (take_all (length (decimal pid)) (decimal pid) (omega arith)) in
    rw all (ap (λ t. decimal pid ++ t) (drop-nil (length (decimal pid))) ∙ append-nil (decimal pid))

failed-Fits : (pid : ℕ) (code pid_fd : ℤ) (f : File) → Fits pid (failed code pid_fd) f
failed-Fits pid code pid_fd f = record { owned = λ e. absurd (false≢true e); text = tt }

refused-Fits :
    (pid : ℕ) (pid_fd : ℤ) (errno : ℕ) (f : File)
    → Fits pid
        (if errno == eacces || errno == eagain
          then failed pid_already_running pid_fd
          else failed pid_lock pid_fd)
        f
refused-Fits pid pid_fd errno f = elim (Bool-cases (errno == eacces || errno == eagain)) [
  | inl e ↦ rw e (failed-Fits pid pid_already_running pid_fd f)
  | inr e ↦ rw e (failed-Fits pid pid_lock pid_fd f)
]

-- A process's own call.
pub own-Fits :
    (pid : ℕ) (stage : Stage) (r : ℤ) (errno : ℕ) (f : File)
    → grants pid stage r f ≡ true
    → Fits pid stage f
    → Fits pid (advance pid stage r errno) (touch pid stage r f)
unfolding advance touch
own-Fits pid gone r errno f g h = h
own-Fits pid (closing pid_fd) r errno f g h = record { owned = λ e. ground arith; text = tt }
own-Fits pid (opening pid_fd) r errno f g h = elim (Bool-cases (ltb_ℤ r (pos 0))) [
  | inl e ↦ rw e (failed-Fits pid pid_acquire pid_fd f)
  | inr e ↦ rw e (record { owned = λ e. absurd (false≢true e); text = tt })
]
own-Fits pid (locking fd pid_fd) r errno f g h = elim (Bool-cases (ltb_ℤ r (pos 0))) [
  | inl e ↦ rw e (refused-Fits pid pid_fd errno f)
  | inr e ↦ rw e (record { owned = λ l. refl; text = tt })
]
own-Fits pid (truncating fd pid_fd) r errno f g h = elim (Bool-cases (ltb_ℤ r (pos 0))) [
  | inl e ↦ rw e (failed-Fits pid pid_truncate_file pid_fd f)
  | inr e ↦ rw e (record { owned = λ l. h.owned refl; text = refl })
]
own-Fits pid (writing fd pid_fd) r errno f g h =
    elim (Bool-cases (eqb_ℤ r (pos (length (decimal pid))))) [
      | inl e ↦ rw e (record {
        owned = λ l. h.owned refl;
        text = ap (overwrite (take (pos_part r) (decimal pid))) h.text ∙ written pid r e;
      })
      | inr e ↦ rw e (failed-Fits pid pid_write_file pid_fd _)
    ]
own-Fits pid (getting fd pid_fd) r errno f g h = elim (Bool-cases (ltb_ℤ r (pos 0))) [
  | inl e ↦ rw e (failed-Fits pid pid_get_file_info pid_fd f)
  | inr e ↦ rw e (record { owned = λ l. h.owned refl; text = h.text })
]
own-Fits pid (setting fd pid_fd) r errno f g h = elim (Bool-cases (ltb_ℤ r (pos 0))) [
  | inl e ↦ rw e (failed-Fits pid pid_set_file_info pid_fd f)
  | inr e ↦ rw e (record { owned = λ l. h.owned refl; text = h.text })
]
own-Fits pid (acquired fd) r errno f g h = h
own-Fits pid (failed code pid_fd) r errno f g h = h

-- The call of another process leaves the file of an owner alone.
pub touch-other :
    (pid other : ℕ) (stage : Stage) (r : ℤ) (f : File)
    → pid ≢ other
    → grants other stage r f ≡ true
    → Fits other stage f
    → f.owner ≡ some pid
    → touch other stage r f ≡ f
unfolding touch
touch-other pid other gone r f n g h o = refl
touch-other pid other (closing pid_fd) r f n g h o = ground (arith, o, n)
touch-other pid other (opening pid_fd) r f n g h o = refl
touch-other pid other (locking fd pid_fd) r f n g h o = ground (arith, o, n)
touch-other pid other (truncating fd pid_fd) r f n g h o = absurd (ground (arith, h.owned refl))
touch-other pid other (writing fd pid_fd) r f n g h o = absurd (ground (arith, h.owned refl))
touch-other pid other (getting fd pid_fd) r f n g h o = refl
touch-other pid other (setting fd pid_fd) r f n g h o = refl
touch-other pid other (acquired fd) r f n g h o = refl
touch-other pid other (failed code pid_fd) r f n g h o = refl

TextFits-unlocked :
    (pid : ℕ) (stage : Stage) (text : Bytes) → is_locked stage ≡ false → TextFits pid stage text
TextFits-unlocked pid gone text e = tt
TextFits-unlocked pid (closing pid_fd) text e = tt
TextFits-unlocked pid (opening pid_fd) text e = tt
TextFits-unlocked pid (locking fd pid_fd) text e = tt
TextFits-unlocked pid (truncating fd pid_fd) text e = tt
TextFits-unlocked pid (writing fd pid_fd) text e = absurd (false≢true (sym e))
TextFits-unlocked pid (getting fd pid_fd) text e = absurd (false≢true (sym e))
TextFits-unlocked pid (setting fd pid_fd) text e = absurd (false≢true (sym e))
TextFits-unlocked pid (acquired fd) text e = absurd (false≢true (sym e))
TextFits-unlocked pid (failed code pid_fd) text e = tt

pub kept-Fits :
    (pid : ℕ) (stage : Stage) (f f' : File)
    → Fits pid stage f
    → (f.owner ≡ some pid → f' ≡ f)
    → Fits pid stage f'
kept-Fits pid stage f f' h same = elim (Bool-cases (is_locked stage)) [
  | inl e ↦ subst (Fits pid stage) (sym (same (h.owned e))) h
  | inr e ↦ record {
    owned = λ l. absurd (false≢true (sym e ∙ l));
    text = TextFits-unlocked pid stage f'.text e;
  }
]

pub release-other :
    (pid other : ℕ) (f : File) → pid ≢ other → f.owner ≡ some pid → release other f ≡ f
release-other pid other f n o = ground (arith, o, n)

pub begun-Fits : (pid : ℕ) (stage : Stage) (f : File) → Fits pid stage f → Fits pid (begun stage) f
begun-Fits pid gone f h = record { owned = λ e. absurd (false≢true e); text = tt }
begun-Fits pid (closing pid_fd) f h = h
begun-Fits pid (opening pid_fd) f h = h
begun-Fits pid (locking fd pid_fd) f h = h
begun-Fits pid (truncating fd pid_fd) f h = h
begun-Fits pid (writing fd pid_fd) f h = h
begun-Fits pid (getting fd pid_fd) f h = h
begun-Fits pid (setting fd pid_fd) f h = h
begun-Fits pid (acquired fd) f h = h
begun-Fits pid (failed code pid_fd) f h = h

reopen-Fits :
    (pid : ℕ) (pid_fd : ℤ) (f : File)
    → Fits pid (if ltb_ℤ (pos 0) pid_fd then closing pid_fd else opening pid_fd) f
reopen-Fits pid pid_fd f = elim (Bool-cases (ltb_ℤ (pos 0) pid_fd)) [
  | inl e ↦ rw e (record { owned = λ l. absurd (false≢true l); text = tt })
  | inr e ↦ rw e (record { owned = λ l. absurd (false≢true l); text = tt })
]

pub reload-Fits :
    (pid : ℕ) (stage : Stage) (f : File) → Fits pid stage f → Fits pid (reload stage) f
unfolding reload
reload-Fits pid gone f h = h
reload-Fits pid (closing pid_fd) f h = h
reload-Fits pid (opening pid_fd) f h = h
reload-Fits pid (locking fd pid_fd) f h = h
reload-Fits pid (truncating fd pid_fd) f h = h
reload-Fits pid (writing fd pid_fd) f h = h
reload-Fits pid (getting fd pid_fd) f h = h
reload-Fits pid (setting fd pid_fd) f h = h
reload-Fits pid (acquired fd) f h = reopen-Fits pid fd f
reload-Fits pid (failed code pid_fd) f h = reopen-Fits pid pid_fd f
