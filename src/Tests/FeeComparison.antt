-- ===== src/Tests/FeeComparison.antt =====
-- A household, the complex with twelve bills and a building with three.
use liviq.Base.{ℕ, ◌≡◌, refl, true, false, none, some, [], codes, text_eq}
use liviq.Budget.{text_ltb}
use liviq.Base.Int.{pos}
use liviq.FeeComparison.{
  Queries, entries, self_target, of_household, self_household, of_fee, own_value,
}
use liviq.FeeComparison.Arguments.{Reading, CompareFeesArgs}
use liviq.FeeComparison.Answer.{
  Printing, compare_fees, resolve_target, scope_target, aggregate, of_average,
}
use liviq.FeeComparison.Disclosed.{IsCareful, compare_fees-IsCareful}

abbrev queries : Queries
queries = record {
  user = some (record { household_id = some (codes "h1"); approved = some (codes "2026-05") });
  fee = λ household period. some (record { total_amount = some (pos 120); breakdown = entries [] });
  latest_period = some (codes "2026-07");
  complex_total = λ period. some (record { avg_total = some (pos 100); sample_size = some 12 });
  dong_total = λ names period. some (record { avg_total = some (pos 90); sample_size = some 3 });
  complex_items = λ period. [];
  dong_items = λ names period. [];
}

abbrev reading : Reading
reading = record {
  is_space = λ c. false;
  lower = λ s. s;
  is_digits = λ s. false;
  match = λ s. none;
  this_year = 2026;
}

abbrev printing : Printing ℕ
printing = record {
  money = λ z. codes "1";
  rate = λ d b. 0;
  is_increase = λ r. true;
  shown = λ r. codes "0.0";
}

abbrev asked : CompareFeesArgs
asked = record {
  targets = some (codes "__self__,__complex__,401동");
  period = some (codes "2026-07");
  item = none;
}

small_sample_is_left_out :
    (resolve_target reading queries (codes "401동") (codes "2026-07") none).row.amount ≡ none
unfolding resolve_target text_eq scope_target aggregate of_average
small_sample_is_left_out = refl

own_bill_is_shown :
    (resolve_target reading queries (codes "__self__") (codes "2026-07") none).row.amount
    ≡ some (pos 120)
unfolding resolve_target text_eq self_target of_household self_household text_ltb of_fee own_value
own_bill_is_shown = refl

bill_before_approval_is_not_shown :
    (resolve_target reading queries (codes "__self__") (codes "2026-04") none).row.amount ≡ none
unfolding resolve_target text_eq self_target of_household self_household text_ltb
bill_before_approval_is_not_shown = refl

compare_fees-IsCareful_example :
    IsCareful reading queries asked (compare_fees reading queries printing asked)
compare_fees-IsCareful_example = compare_fees-IsCareful reading queries printing asked
