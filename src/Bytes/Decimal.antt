-- ===== src/Bytes/Decimal.antt =====
-- Printing a number and reading it back.
use srslog.Base.{
  ℕ, zero, suc, ◌+◌, ◌*◌, ◌/◌, ◌%◌, ◌<◌, ◌≡◌, refl, sym, ap, ◌∙◌, inl, inr, true, Bool-cases, [],
  ◌∷◌, arith, ltb, ltb→lt,
}
use srslog.Base.Int.{pos}
use srslog.Bytes.{Bytes, is_digit, read_digits, atoi, c_str, digits_before, decimal}

read_digits_cons :
    (acc d : ℕ) (s : Bytes)
    → d < 10
    → read_digits acc ((b'0' + d) ∷ s) ≡ read_digits (acc * 10 + d) s
unfolding read_digits
read_digits_cons acc d s h = ground arith

read_digits-digits_before :
    (f n : ℕ) (acc : Bytes) → n < f → read_digits 0 (digits_before f n acc) ≡ read_digits n acc
unfolding digits_before
read_digits-digits_before zero n acc h = absurd (omega arith)
read_digits-digits_before (suc f) n acc h = elim (Bool-cases (ltb n 10)) [
  | inl small ↦
      rw small
        (read_digits_cons 0 n acc (ltb→lt n 10 small) ∙ ap (λ m. read_digits m acc) (omega arith))
  | inr large ↦ rw large (
      read_digits-digits_before f (n / 10) ((b'0' + n % 10) ∷ acc) (ground arith)
      ∙ read_digits_cons (n / 10) (n % 10) acc (omega arith)
      ∙ ap (λ m. read_digits m acc) (omega arith))
]

-- A printed number begins with a digit.
digits_before-digit :
    (f n : ℕ) (acc : Bytes)
    → n < f
    → (c : ℕ) × (s : Bytes) × (digits_before f n acc ≡ c ∷ s) × (is_digit c ≡ true)
unfolding digits_before
digits_before-digit zero n acc h = absurd (omega arith)
digits_before-digit (suc f) n acc h = elim (Bool-cases (ltb n 10)) [
  | inl small ↦ (b'0' + n, acc, rw small, ground arith)
  | inr large ↦
      let (c, s, e, d) = digits_before-digit f (n / 10) ((b'0' + n % 10) ∷ acc) (ground arith) in
      (c, s, rw large e, d)
]

atoi_digit : (c : ℕ) (s : Bytes) → is_digit c ≡ true → atoi (c ∷ s) ≡ pos (read_digits 0 (c ∷ s))
unfolding atoi
atoi_digit c s h = ground arith

-- `atoi` reads back every number that `%d` prints.
pub atoi-decimal : (n : ℕ) → atoi (decimal n) ≡ pos n
unfolding decimal read_digits
atoi-decimal n =
    let (c, s, e, d) = digits_before-digit (suc n) n [] (omega arith) in
    let value : read_digits 0 (c ∷ s) ≡ n =
      ap (read_digits 0) (sym e) ∙ read_digits-digits_before (suc n) n [] (omega arith) in
    rw e (atoi_digit c s d ∙ ap pos value)

-- A printed number holds no zero byte.
c_str_cons : (a : ℕ) (s : Bytes) → 0 < a → c_str (a ∷ s) ≡ a ∷ c_str s
unfolding c_str
c_str_cons a s h = ground arith

c_str-digits_before :
    (f n : ℕ) (acc : Bytes)
    → n < f
    → c_str acc ≡ acc
    → c_str (digits_before f n acc) ≡ digits_before f n acc
unfolding digits_before
c_str-digits_before zero n acc h e = absurd (omega arith)
c_str-digits_before (suc f) n acc h e = elim (Bool-cases (ltb n 10)) [
  | inl small ↦ rw small (c_str_cons (b'0' + n) acc (omega arith) ∙ ap (◌∷◌ (b'0' + n)) e)
  | inr large ↦ rw large (
      c_str-digits_before f (n / 10) ((b'0' + n % 10) ∷ acc) (ground arith)
        (c_str_cons (b'0' + n % 10) acc (omega arith) ∙ ap (◌∷◌ (b'0' + n % 10)) e))
]

pub c_str-decimal : (n : ℕ) → c_str (decimal n) ≡ decimal n
unfolding decimal c_str
c_str-decimal n = c_str-digits_before (suc n) n [] (omega arith) refl
