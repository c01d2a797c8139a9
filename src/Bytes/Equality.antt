-- ===== src/Bytes/Equality.antt =====
-- `==` of strings decides equality.
use srslog.Base.{
  ◌≢◌, sym, inl, inr, false, Bool-cases, ◌≡◌, ◌↔◌, refl, true, [], ◌∷◌, arith, ==_iff,
}
use srslog.Bytes.{Bytes, beq}

pub beq→eq : (s t : Bytes) → beq s t ≡ true → s ≡ t
beq→eq [] [] h = refl
beq→eq [] (b ∷ t) h = cc
beq→eq (a ∷ s) [] h = cc
beq→eq (a ∷ s) (b ∷ t) h = ground (arith, ==_iff a b, beq→eq s t)

pub beq_self : (s : Bytes) → beq s s ≡ true
beq_self [] = refl
beq_self (a ∷ s) = ground (arith, beq_self s)

pub beq_iff : (s t : Bytes) → (beq s t ≡ true) ↔ (s ≡ t)
beq_iff s t = (beq→eq s t, λ e. rw e (beq_self t))

pub beq_ne : (s t : Bytes) → t ≢ s → beq s t ≡ false
beq_ne s t n = elim (Bool-cases (beq s t)) [ inl e ↦ absurd (n (sym (beq→eq s t e))) | inr e ↦ e ]
