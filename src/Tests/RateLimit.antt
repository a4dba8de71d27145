-- ===== src/Tests/RateLimit.antt =====
-- Counters with their deadlines in a function, and three questions under limits of two and one.
use liviq.Base.{
  ℕ, suc, ◌+◌, ◌≤◌, ◌<◌, refl, true, none, some, List, [], ◌∷◌, arith, if◌then◌else◌, Text, codes,
  text_eq, All,
}
use liviq.RateLimit.{Counters}
use liviq.RateLimit.Counting.{Entry, CounterLaws, counted, incremented, timed}
use liviq.RateLimit.Bound.{passed, passed_user-le, passed_tenant-le}

abbrev counters : Counters
counters = record {
  S = Text → Entry;
  incr = λ now k s.
      (some (suc (counted now (s k))), λ q. if text_eq q k then incremented now (s q) else s q);
  expire = λ now k ttl s. (true, λ q. if text_eq q k then timed now ttl (s q) else s q);
}

abbrev counters-CounterLaws : CounterLaws counters
counters-CounterLaws = record {
  entry = λ s k. s k;
  incr_counts = λ now k s. refl;
  incr_stores = λ now k s q. refl;
  expire_answers = λ now k ttl s. refl;
  expire_stores = λ now k ttl s q. refl;
}

abbrev nothing : Text → Entry
nothing k = none

abbrev questions : List (ℕ × Text × Text)
questions =
    (60001, codes "u", codes "t")
    ∷ (70000, codes "u", codes "t")
    ∷ (119999, codes "v", codes "t")
    ∷ []

abbrev window : Text
window = codes "202601010900"

within_minute : All (λ (q : ℕ × Text × Text). (60000 ≤ q.0) × (q.0 < 60000 + 60000)) questions
within_minute =
    ((omega arith, omega arith), ((omega arith, omega arith), ((omega arith, omega arith), tt)))

passed_user-le_example :
    passed counters counters-CounterLaws 60000 window 1 2
      (λ q. text_eq q.1 (codes "u"))
      questions
      nothing
    ≤ 1
passed_user-le_example =
    passed_user-le counters counters-CounterLaws 60000 window 1 2 (codes "u") questions nothing
      (omega arith) within_minute refl

passed_tenant-le_example :
    passed counters counters-CounterLaws 60000 window 1 2
      (λ q. text_eq q.2 (codes "t"))
      questions
      nothing
    ≤ 2
passed_tenant-le_example =
    passed_tenant-le counters counters-CounterLaws 60000 window 1 2 (codes "t") questions nothing
      (omega arith) within_minute refl
