-- ===== src/Log/Fields.antt =====
-- The header of a line, read back: its fields in brackets, the blank, and what follows.
use mathlib.Core.List.{append_assoc}
use srslog.Base.{
  ℕ, zero, suc, ◌+◌, ◌-◌, ◌/◌, ◌%◌, ◌==◌, ◌≡◌, refl, ap, ◌∙◌, Bool, true, false, ◌&&◌, not, Option,
  none, some, List, [], ◌∷◌, ◌++◌, arith, length, replicate, if◌then◌else◌,
}
use srslog.Bytes.{Bytes, codes, decimal, digits_before}
use srslog.Log.Header.{Tm, padded, bracketed, stamp, header_text}

-- The bytes before the next `]`, and those behind it.
abbrev pub until_bracket : Bytes → Bytes × Bytes
until_bracket [] = ([], [])
until_bracket (c ∷ s) = let (t, r) = until_bracket s in if c == b']' then ([], s) else (c ∷ t, r)

abbrev pub field : Bytes → Option (Bytes × Bytes)
field [] = none
field (c ∷ s) = if c == b'[' then some (until_bracket s) else none

-- So many fields, a blank, and the rest.
unfoldable pub fields : ℕ → Bytes → Option (List Bytes × Bytes)
fields zero [] = none
fields zero (c ∷ s) = if c == b' ' then some ([], s) else none
fields (suc n) s = elim (field s) [
  | none ↦ none
  | some (t, r) ↦ elim (fields n r) [ none ↦ none | some (ts, m) ↦ some (t ∷ ts, m) ]
]

-- A text without `]`.
abbrev pub is_free : Bytes → Bool
is_free [] = true
is_free (c ∷ s) = not (c == b']') && is_free s

is_free-append : (s t : Bytes) → is_free s ≡ true → is_free t ≡ true → is_free (s ++ t) ≡ true
is_free-append [] t a b = b
is_free-append (c ∷ s) t a b = ground (arith, is_free-append s t)

until_bracket-free :
    (s rest : Bytes) → is_free s ≡ true → until_bracket (s ++ b']' ∷ rest) ≡ (s, rest)
until_bracket-free [] rest h = refl
until_bracket-free (c ∷ s) rest h = ground (arith, until_bracket-free s rest)

is_free-digits_before :
    (f n : ℕ) (acc : Bytes) → is_free acc ≡ true → is_free (digits_before f n acc) ≡ true
unfolding digits_before
is_free-digits_before zero n acc h = h
is_free-digits_before (suc f) n acc h =
    ground (arith, is_free-digits_before f (n / 10) ((b'0' + n % 10) ∷ acc))

pub is_free-decimal : (n : ℕ) → is_free (decimal n) ≡ true
unfolding decimal
is_free-decimal n = is_free-digits_before (suc n) n [] refl

is_free-zeros : (n : ℕ) → is_free (replicate n b'0') ≡ true
is_free-zeros zero = refl
is_free-zeros (suc n) = is_free-zeros n

is_free-padded : (w n : ℕ) → is_free (padded w n) ≡ true
unfolding padded
is_free-padded w n =
    is_free-append (replicate (w - length (decimal n)) b'0') (decimal n)
      (is_free-zeros (w - length (decimal n))) (is_free-decimal n)

field-bracketed : (s rest : Bytes) → is_free s ≡ true → field (bracketed s ++ rest) ≡ some (s, rest)
unfolding bracketed
field-bracketed s rest h =
    ap (λ t. some (until_bracket t)) (append_assoc s (codes "]") rest)
    ∙ ap some (until_bracket-free s rest h)

fields-suc :
    (n : ℕ) (x t r : Bytes) (ts : List Bytes) (m : Bytes)
    → field x ≡ some (t, r)
    → fields n r ≡ some (ts, m)
    → fields (suc n) x ≡ some (t ∷ ts, m)
unfolding fields
fields-suc n x t r ts m e e' = rw (fields, e, e') refl

fields-bracketed :
    (n : ℕ) (s rest : Bytes) (ts : List Bytes) (m : Bytes)
    → is_free s ≡ true
    → fields n rest ≡ some (ts, m)
    → fields (suc n) (bracketed s ++ rest) ≡ some (s ∷ ts, m)
fields-bracketed n s rest ts m h e =
    fields-suc n (bracketed s ++ rest) s rest ts m (field-bracketed s rest h) e

fields-blank : (rest : Bytes) → fields 0 (b' ' ∷ rest) ≡ some ([], rest)
unfolding fields
fields-blank rest = refl

is_free-stamp : (tm : Tm) (usec : ℕ) → is_free (stamp tm usec) ≡ true
unfolding stamp
is_free-stamp tm usec = search (is_free-append, is_free-decimal, is_free-padded) depth 24

-- The texts of the fields that stand in a header with no tag.
abbrev pub field_texts : Bool → Tm → ℕ → Bytes → ℕ → ℕ → ℕ → List Bytes
field_texts error tm usec level_name pid context_id errno =
    stamp tm usec
    ∷ level_name
    ∷ decimal pid
    ∷ decimal context_id
    ∷ (if error then decimal errno ∷ [] else [])

header_parts :
    (error : Bool) (tm : Tm) (usec : ℕ) (level_name : Bytes) (pid context_id errno : ℕ)
    (rest : Bytes)
    → header_text error none tm usec level_name pid context_id errno ++ rest
      ≡ bracketed (stamp tm usec)
        ++ (bracketed level_name
            ++ (bracketed (decimal pid)
                ++ (bracketed (decimal context_id)
                    ++ ((if error then bracketed (decimal errno) else []) ++ b' ' ∷ rest))))
unfolding header_text
header_parts error tm usec level_name pid context_id errno rest = simp append_assoc

-- A header with no tag reads back as its fields, whatever follows it, if the name of the level has
-- no closing bracket.
pub fields-header_text :
    (error : Bool) (tm : Tm) (usec : ℕ) (level_name : Bytes) (pid context_id errno : ℕ)
    (rest : Bytes)
    → is_free level_name ≡ true
    → fields
        (if error then 5 else 4)
        (header_text error none tm usec level_name pid context_id errno ++ rest)
      ≡ some (field_texts error tm usec level_name pid context_id errno, rest)
fields-header_text true tm usec level_name pid context_id errno rest h =
    ap (fields 5) (header_parts true tm usec level_name pid context_id errno rest)
    ∙ fields-bracketed 4 (stamp tm usec) _ _ rest (is_free-stamp tm usec) (
        fields-bracketed 3 level_name _ _ rest h (
          fields-bracketed 2 (decimal pid) _ _ rest (is_free-decimal pid) (
            fields-bracketed 1 (decimal context_id) _ _ rest (is_free-decimal context_id) (
              fields-bracketed 0 (decimal errno) _ _ rest (is_free-decimal errno)
                (fields-blank rest)))))
fields-header_text false tm usec level_name pid context_id errno rest h =
    ap (fields 4) (header_parts false tm usec level_name pid context_id errno rest)
    ∙ fields-bracketed 3 (stamp tm usec) _ _ rest (is_free-stamp tm usec) (
        fields-bracketed 2 level_name _ _ rest h (
          fields-bracketed 1 (decimal pid) _ _ rest (is_free-decimal pid) (
            fields-bracketed 0 (decimal context_id) _ _ rest (is_free-decimal context_id)
              (fields-blank rest))))
