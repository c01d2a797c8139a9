-- ===== src/Bytes.antt =====
-- Strings of bytes, as `std::string` and `char*` hold them, and the two conversions of the C library
-- that the program uses: `atoi`, and `%d` of a number that is not negative.
pub mod Equality
pub mod Decimal
mod Tests
use Prim.Native.Char.{code}
use Prim.Native.String.{String}
use srslog.Base.{
  ℕ, zero, suc, ◌+◌, ◌-◌, ◌*◌, ◌/◌, ◌%◌, Bool, true, false, ◌&&◌, ◌||◌, ltb, leb, ◌==◌,
  if◌then◌else◌, List, [], ◌∷◌,
}
use srslog.Base.Int.{ℤ, pos, ◌-ℤ◌}

abbrev pub Bytes : Type 0
Bytes = List ℕ

-- The bytes of a text in ASCII.
abbrev pub codes : String → Bytes
codes String.[] = []
codes (String.◌∷◌ c s) = code c ∷ codes s

abbrev pub beq : Bytes → Bytes → Bool
beq [] [] = true
beq [] (b ∷ t) = false
beq (a ∷ s) [] = false
beq (a ∷ s) (b ∷ t) = a == b && beq s t

abbrev pub empty : Bytes → Bool
empty [] = true
empty (_ ∷ _) = false

-- What a `char*` reader sees of a string: the bytes before the first zero.
unfoldable pub c_str : Bytes → Bytes
c_str [] = []
c_str (a ∷ s) = if a == 0 then [] else a ∷ c_str s

abbrev pub is_space : ℕ → Bool
is_space c = c == 32 || (leb 9 c && leb c 13)

abbrev pub is_digit : ℕ → Bool
is_digit c = leb b'0' c && leb c b'9'

unfoldable pub read_digits : ℕ → Bytes → ℕ
read_digits acc [] = acc
read_digits acc (c ∷ s) = if is_digit c then read_digits (acc * 10 + (c - b'0')) s else acc

unfoldable pub read_signed : Bytes → ℤ
unfolding read_digits
read_signed [] = pos 0
read_signed (c ∷ s) =
    if c == b'-'
    then pos 0 -ℤ pos (read_digits 0 s)
    else if c == b'+'
    then pos (read_digits 0 s)
    else pos (read_digits 0 (c ∷ s))

-- `atoi`; a number that does not fit an `int`, which is undefined there, gives its value here.
unfoldable pub atoi : Bytes → ℤ
unfolding read_signed
atoi [] = pos 0
atoi (c ∷ s) = if is_space c then atoi s else read_signed (c ∷ s)

-- The digits of n in front of `acc`. The fuel n + 1 is enough.
unfoldable pub digits_before : ℕ → ℕ → Bytes → Bytes
digits_before zero n acc = acc
digits_before (suc f) n acc =
    let rest = digits_before f (n / 10) ((b'0' + n % 10) ∷ acc) in
    if ltb n 10 then (b'0' + n) ∷ acc else rest

unfoldable pub decimal : ℕ → Bytes
unfolding digits_before
decimal n = digits_before (suc n) n []
