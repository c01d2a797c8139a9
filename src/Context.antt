-- ===== src/Context.antt =====
-- src/base/app_thread_context.h and app_thread_context.cpp: the id of each state thread. A thread,
-- as `st_thread_self` gives it, is a number.
pub mod Distinct
mod Tests
use srslog.Base.{
  Bool, true, false, leb, ◌||◌, ℕ, ◌+◌, Option, none, some, List, [], ◌∷◌, ◌==◌, if◌then◌else◌,
}

abbrev pub int_max : ℕ
int_max = 2147483647

-- `std::map<st_thread_t, int>`; `next_id` is the static `int` of `generate_id`. Counting it up past
-- the largest `int` is undefined: from then on, `overflowed`, the ids mean nothing.
pub record ThreadContext : Type 0 where
  pub cache : List (ℕ × ℕ)
  pub next_id : ℕ
  pub overflowed : Bool

abbrev pub new_context : ThreadContext
new_context = record { cache = []; next_id = 100; overflowed = false }

-- `cache[self] = id`
unfoldable pub assign : ℕ → ℕ → List (ℕ × ℕ) → List (ℕ × ℕ)
assign self id [] = (self, id) ∷ []
assign self id ((t, i) ∷ m) = if t == self then (t, id) ∷ m else (t, i) ∷ assign self id m

unfoldable pub find : ℕ → List (ℕ × ℕ) → Option ℕ
find self [] = none
find self ((t, i) ∷ m) = if t == self then some i else find self m

unfoldable pub generate_id : ℕ → ThreadContext → ThreadContext
generate_id self c = record {
  cache = assign self c.next_id c.cache;
  next_id = c.next_id + 1;
  overflowed = c.overflowed || leb int_max c.next_id;
}

-- `cache[self]` makes an entry of 0 where there is none.
unfoldable pub get_id : ℕ → ThreadContext → ℕ × ThreadContext
get_id self c = elim (find self c.cache) [
  | none ↦ (0, record c { cache = assign self 0 c.cache })
  | some i ↦ (i, c)
]
