-- ===== src/Context/Tests.antt =====
-- Ids at a fixed history.
use srslog.Base.{false, ◌≤◌, ◌<◌, ◌≡◌, ◌≢◌, List, [], ◌∷◌, arith}
use srslog.Context.{int_max, new_context, generate_id, get_id}
use srslog.Context.Distinct.{Call, generates, gets, run, id_of, generated_id_distinct}

abbrev history : List Call
history = generates 1 ∷ gets 2 ∷ generates 1 ∷ []

generated_id_distinct_example :
    let c = generate_id 2 (run new_context history) in
    (c.overflowed ≡ false)
    × ((get_id 2 c).0 ≡ 102)
    × (0 < (get_id 2 c).0)
    × ((get_id 2 c).0 ≤ int_max)
    × ((get_id 2 c).0 ≢ id_of c 1)
generated_id_distinct_example = generated_id_distinct history 2 1 (omega arith) (omega arith)
