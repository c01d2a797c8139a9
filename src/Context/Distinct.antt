-- ===== src/Context/Distinct.antt =====
-- Ids are never handed out twice.
use mathlib.Core.Path.{subst}
use srslog.Base.{
  ◌∙◌, ◌+◌, ◌≤◌, false, ℕ, ◌<◌, ◌≡◌, ◌≢◌, refl, inl, inr, Option, none, some, Option-cases, List,
  [], ◌∷◌, ◌==◌, if◌then◌else◌, arith,
}
use srslog.Context.{int_max, ThreadContext, new_context, assign, find, generate_id, get_id}

find-assign :
    (t self id : ℕ) (m : List (ℕ × ℕ))
    → find t (assign self id m) ≡ (if self == t then some id else find t m)
unfolding find assign
find-assign t self id [] = refl
find-assign t self id ((u, i) ∷ m) = ground (arith, find-assign t self id m)

-- The id that a thread would read: 0 where it has none.
abbrev pub or_zero : Option ℕ → ℕ
or_zero none = 0
or_zero (some i) = i

abbrev pub id_of : ThreadContext → ℕ → ℕ
id_of c t = or_zero (find t c.cache)

pub record IsDistinct (c : ThreadContext) : Type 0 where
  pub used : (t : ℕ) → id_of c t < c.next_id
  pub apart : (t u : ℕ) → t ≢ u → id_of c t ≢ 0 → id_of c t ≢ id_of c u

generate_id-IsDistinct :
    (self : ℕ) (c : ThreadContext) → IsDistinct c → IsDistinct (generate_id self c)
unfolding generate_id
generate_id-IsDistinct self c h = record {
  used = λ t. ground (arith, find-assign t self c.next_id c.cache, h.used t);
  apart = λ t u n z. ground (
    arith,
    find-assign t self c.next_id c.cache,
    find-assign u self c.next_id c.cache,
    h.used t,
    h.used u,
    h.apart t u,
  );
}

get_id-IsDistinct : (self : ℕ) (c : ThreadContext) → IsDistinct c → IsDistinct (get_id self c).1
unfolding get_id
get_id-IsDistinct self c h = elim (Option-cases (find self c.cache)) [
  | inl e ↦
      rw (e, get_id)
        (record {
          used = λ t. ground (arith, e, find-assign t self 0 c.cache, h.used t, h.used self);
          apart = λ t u n z.
              ground
                (arith, e, find-assign t self 0 c.cache, find-assign u self 0 c.cache, h.apart t u);
        })
  | inr (i, e) ↦ rw (e, get_id) h
]

pub data Call : Type 0 where
  generates gets : ℕ → Call

abbrev pub step : ThreadContext → Call → ThreadContext
step c (generates t) = generate_id t c
step c (gets t) = (get_id t c).1

abbrev pub run : ThreadContext → List Call → ThreadContext
run c [] = c
run c (a ∷ as') = run (step c a) as'

pub run-IsDistinct : (c : ThreadContext) (cs : List Call) → IsDistinct c → IsDistinct (run c cs)
run-IsDistinct c [] h = h
run-IsDistinct c (generates t ∷ cs) h =
    run-IsDistinct (generate_id t c) cs (generate_id-IsDistinct t c h)
run-IsDistinct c (gets t ∷ cs) h = run-IsDistinct (get_id t c).1 cs (get_id-IsDistinct t c h)

pub new_context-IsDistinct : IsDistinct new_context
unfolding find
new_context-IsDistinct = record { used = λ t. omega arith; apart = λ t u n z. absurd (z refl) }

pub get_id-id_of : (t : ℕ) (c : ThreadContext) → (get_id t c).0 ≡ id_of c t
unfolding get_id
get_id-id_of t c = ground arith

-- How many ids some calls generate.
abbrev pub generated : List Call → ℕ
generated [] = 0
generated (generates t ∷ cs) = 1 + generated cs
generated (gets t ∷ cs) = generated cs

-- The counter after n more ids, while it stays an `int`.
pub record Counted (c : ThreadContext) (n : ℕ) (c' : ThreadContext) : Type 0 where
  pub counter : c'.next_id ≡ c.next_id + n
  pub in_range : c.next_id + n ≤ int_max → c'.overflowed ≡ c.overflowed

Counted-trans :
    (c c' c'' : ThreadContext) (m n : ℕ) → Counted c m c' → Counted c' n c'' → Counted c (m + n) c''
Counted-trans c c' c'' m n h h' = record {
  counter = omega (arith, h.counter, h'.counter);
  in_range = λ r. h'.in_range (omega (arith, h.counter, r)) ∙ h.in_range (omega (arith, r));
}

generate_id-Counted : (t : ℕ) (c : ThreadContext) → Counted c 1 (generate_id t c)
unfolding generate_id
generate_id-Counted t c = record { counter = refl; in_range = λ h. ground (arith, h) }

get_id-Counted : (t : ℕ) (c : ThreadContext) → Counted c 0 (get_id t c).1
unfolding get_id
get_id-Counted t c = elim (Option-cases (find t c.cache)) [
  | inl e ↦ rw (e, get_id) (record { counter = omega arith; in_range = λ h. refl })
  | inr (i, e) ↦ rw (e, get_id) (record { counter = omega arith; in_range = λ h. refl })
]

pub run-Counted : (c : ThreadContext) (cs : List Call) → Counted c (generated cs) (run c cs)
run-Counted c [] = record { counter = omega arith; in_range = λ h. refl }
run-Counted c (generates t ∷ cs) =
    Counted-trans c (generate_id t c) (run (generate_id t c) cs) 1 (generated cs)
      (generate_id-Counted t c) (run-Counted (generate_id t c) cs)
run-Counted c (gets t ∷ cs) =
    subst (λ n. Counted c n (run (get_id t c).1 cs)) (omega arith)
      (Counted-trans c (get_id t c).1 (run (get_id t c).1 cs) 0 (generated cs) (get_id-Counted t c)
        (run-Counted (get_id t c).1 cs))

-- Whatever calls came before, while the ids fit an `int`: the id that a thread generates is the
-- next one from 100 on, no counting has overflowed, it is what the thread reads next, a positive
-- `int`, and it is the id of no other thread.
pub generated_id_distinct :
    (cs : List Call) (self other : ℕ)
    → self ≢ other
    → 100 + generated cs < int_max
    → let c = generate_id self (run new_context cs) in
      (c.overflowed ≡ false)
      × ((get_id self c).0 ≡ 100 + generated cs)
      × (0 < (get_id self c).0)
      × ((get_id self c).0 ≤ int_max)
      × ((get_id self c).0 ≢ id_of c other)
unfolding get_id generate_id
generated_id_distinct cs self other ne room =
    let c = run new_context cs in
    let d = run-IsDistinct new_context cs new_context-IsDistinct in
    let n = run-Counted new_context cs in
    let own = find-assign self self c.next_id c.cache in
    let others = find-assign other self c.next_id c.cache in
    (
      ground (arith, n.counter, n.in_range (omega (arith, room))),
      ground (arith, own, n.counter),
      ground (arith, own, d.used self),
      ground (arith, own, n.counter),
      ground (arith, own, others, d.used other),
    )
