-- ===== src/Log/Holds.antt =====
-- What the buffer holds while a line is put together: the beginning of a text, as much as fits.
use mathlib.Core.List.{append-nil, append_assoc}
use srslog.Base.{
  ℕ, suc, ◌+◌, ◌-◌, ◌≤◌, ◌<◌, ◌≡◌, refl, sym, ◌∙◌, ap, inl, inr, none, some, [], ◌∷◌, ◌++◌, arith,
  length, take, drop, length-append, length-take, length-drop, take-append, take_all, take-take,
  take-length_append, drop-length_add, take-append-drop, leb, Bool-cases,
}
use srslog.Base.Int.{ℤ, pos}
use srslog.Bytes.{Bytes}
use srslog.Log.Buffer.{store, snprintf}

-- Where the bytes fit behind `s`, they replace what stood there.
pub store_behind :
    (s t rest : Bytes)
    → length t ≤ length rest
    → store (pos (length s)) t (s ++ rest) ≡ some ((s ++ t) ++ drop (length t) rest)
unfolding store
store_behind s t rest h =
    rw (take-length_append s rest, drop-length_add (length t) s rest, length-append s rest)
      (elim (Bool-cases (leb (length s + length t) (length s + length rest))) [
        | inl fits ↦ rw fits (ap some (sym (append_assoc s t (drop (length t) rest))))
        | inr past ↦ absurd (ground arith)
      ])

pub store_past : (at : ℕ) (t buf : Bytes) → length buf < at + length t → store (pos at) t buf ≡ none
unfolding store
store_past at t buf h = elim (Bool-cases (leb (at + length t) (length buf))) [
  | inl fits ↦ absurd (ground arith)
  | inr past ↦ rw past
]

-- The buffer holds the first 4095 bytes of the text; a byte or more is left behind them.
pub record Holds (text buf : Bytes) : Type 0 where
  pub rest : Bytes
  pub split : buf ≡ take 4095 text ++ rest
  pub whole : length buf ≡ 4096

take-4095-append :
    (s text : Bytes) → length s ≤ 4095 → take 4095 (s ++ text) ≡ s ++ take (4095 - length s) text
take-4095-append s text h =
    take-append 4095 s text ∙ ap (λ u. u ++ take (4095 - length s) text) (take_all 4095 s h)

Holds-rest : (s buf : Bytes) (b : Holds s buf) → length s ≤ 4095 → length s + length b.rest ≡ 4096
Holds-rest s buf b h =
    omega
      (arith, b.whole, ap length b.split, length-append (take 4095 s) b.rest, length-take 4095 s)

behind_zero :
    (s text t : Bytes)
    → length s ≤ 4095
    → (s ++ (take (4095 - length s) text ++ (0 ∷ []))) ++ t ≡ take 4095 (s ++ text) ++ (0 ∷ t)
behind_zero s text t h = rw (take-4095-append s text h) (simp append_assoc)

pub snprintf-zero : (at : ℤ) (text buf : Bytes) → snprintf at 0 text buf ≡ some buf
unfolding snprintf
snprintf-zero at text buf = refl

pub Holds-snprintf :
    (s text buf : Bytes)
    → length s ≤ 4095
    → Holds s buf
    → (buf' : Bytes) × (snprintf (pos (length s)) (4096 - length s) text buf ≡ some buf')
      × Holds (s ++ text) buf'
unfolding snprintf
Holds-snprintf s text buf h b =
    let n = 4095 - length s in
    let e : 4096 - length s ≡ suc n = omega arith in
    let sized = Holds-rest s buf b h in
    let new = take n text ++ (0 ∷ []) in
    let size_new : length new ≤ length b.rest =
      omega (arith, length-append (take n text) (0 ∷ []), length-take n text) in
    let old : buf ≡ s ++ b.rest = b.split ∙ ap (λ u. u ++ b.rest) (take_all 4095 s h) in
    let after = drop (length new) b.rest in
    let buf' = (s ++ new) ++ after in
    (
      buf',
      rw (e, old) (store_behind s new b.rest size_new),
      record {
        rest = 0 ∷ after;
        split = behind_zero s text after h;
        whole = omega (
          arith,
          length-append (s ++ new) after,
          length-append s new,
          length-drop (length new) b.rest,
        );
      },
    )

-- A full buffer holds the beginning of any longer text.
pub Holds-full : (s text buf : Bytes) → 4095 ≤ length s → Holds s buf → Holds (s ++ text) buf
Holds-full s text buf h b =
    let e : 4095 - length s ≡ 0 = omega arith in
    let same : take 4095 (s ++ text) ≡ take 4095 s =
      take-append 4095 s text ∙ rw e (append-nil (take 4095 s)) in
    record { rest = b.rest; split = rw same b.split; whole = b.whole }

-- The first 4094 bytes of a text that the buffer holds, and what stands behind them.
pub Holds-cut :
    (text buf : Bytes)
    → Holds text buf
    → (rest : Bytes) × (buf ≡ take 4094 text ++ rest)
      × (length (take 4094 text) + length rest ≡ 4096)
Holds-cut text buf b =
    let cut = take-append-drop 4094 (take 4095 text) in
    let front = take-take 4094 4095 text (omega arith) in
    let q = drop 4094 (take 4095 text) in
    let e : buf ≡ take 4094 text ++ (q ++ b.rest) =
      b.split
      ∙ ap (λ u. u ++ b.rest) (sym cut ∙ ap (λ u. u ++ q) front)
      ∙ append_assoc (take 4094 text) q b.rest in
    (
      q ++ b.rest,
      e,
      omega (arith, b.whole, ap length e, length-append (take 4094 text) (q ++ b.rest)),
    )
