-- ===== src/Address/Endian.antt =====
-- `srs_is_little_endian` of src/base/app_utility.cpp. How the machine lays out an `int32_t` is the
-- argument `layout`, which gives for a value the byte at each offset.
use srslog.Base.{
  ℕ, zero, suc, ◌-◌, ◌/◌, ◌%◌, ◌^◌, ◌<◌, ◌≡◌, refl, ap, Bool, true, false, List, [], ◌∷◌, arith,
  ltb, if◌then◌else◌, replicate,
}
use srslog.Base.Int.{ℤ, pos, negsuc, eqb_ℤ, sub_ℕ}

-- A byte read as an `int8_t`.
abbrev to_int8 : ℕ → ℤ
to_int8 b = if ltb b 128 then pos b else sub_ℕ b 256

module _ (layout : ℕ → ℕ → ℕ) where
  -- The argument and the second result are the static `little_endian_check`.
  unfoldable pub srs_is_little_endian : ℤ → Bool × ℤ
  srs_is_little_endian little_endian_check =
      let check =
        if eqb_ℤ little_endian_check (negsuc 0)
        then to_int8 (layout 1 0)
        else little_endian_check in
      (eqb_ℤ check (pos 1), check)

  -- The answers of some calls, one after another.
  abbrev pub answers : ℕ → ℤ → List Bool
  answers zero check = []
  answers (suc n) check = let (b, check') = srs_is_little_endian check in b ∷ answers n check'

  -- The machine stores the low byte first, or the high one.
  abbrev IsLittle : Type 0
  IsLittle = (v i : ℕ) → i < 4 → layout v i ≡ v / 256 ^ i % 256

  abbrev IsBig : Type 0
  IsBig = (v i : ℕ) → i < 4 → layout v i ≡ v / 256 ^ (3 - i) % 256

  little_one : IsLittle → layout 1 0 ≡ 1
  little_one h = h 1 0 (omega arith)

  big_one : IsBig → layout 1 0 ≡ 0
  big_one h = h 1 0 (omega arith)

  kept_true : (n : ℕ) → answers n (pos 1) ≡ replicate n true
  unfolding srs_is_little_endian
  kept_true zero = refl
  kept_true (suc n) = ap (λ bs. true ∷ bs) (kept_true n)

  kept_false : (n : ℕ) → answers n (pos 0) ≡ replicate n false
  unfolding srs_is_little_endian
  kept_false zero = refl
  kept_false (suc n) = ap (λ bs. false ∷ bs) (kept_false n)

  answers-IsLittle : (n : ℕ) → IsLittle → answers n (negsuc 0) ≡ replicate n true
  unfolding srs_is_little_endian
  answers-IsLittle zero h = refl
  answers-IsLittle (suc n) h = rw (little_one h) (ap (λ bs. true ∷ bs) (kept_true n))

  answers-IsBig : (n : ℕ) → IsBig → answers n (negsuc 0) ≡ replicate n false
  unfolding srs_is_little_endian
  answers-IsBig zero h = refl
  answers-IsBig (suc n) h = rw (big_one h) (ap (λ bs. false ∷ bs) (kept_false n))

  -- However often it is called, `srs_is_little_endian` says on every call that a machine which
  -- stores the low byte of an int first is little-endian, and that one which stores the high byte
  -- first is not.
  pub answers-endian :
      (n : ℕ)
      → (IsLittle → answers n (negsuc 0) ≡ replicate n true)
        × (IsBig → answers n (negsuc 0) ≡ replicate n false)
  answers-endian n = (answers-IsLittle n, answers-IsBig n)
