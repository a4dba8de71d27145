-- ===== src/Tests/FeePeriods.antt =====
-- Two months without a year.
use liviq.Base.{
  ℕ, ◌≡◌, refl, ◌⊎◌, true, false, Option, none, some, List, [], ◌∷◌, if◌then◌else◌, join, is_empty,
  Text, codes, strip, lstrip, text_eq,
}
use liviq.Base.Decimal.{dec}
use liviq.FeePeriods.{MonthMatch, fold_periods, fold_period_token, split_from, all_some}
use liviq.FeePeriods.Months.{HasUnread, AreRead, fold_periods-AreRead}
use liviq.Tests.World.{is_space}

abbrev month : ℕ → MonthMatch
month n = record { year = none; month = n; marker = true }

abbrev match : Text → Option MonthMatch
match t =
    if text_eq t (codes "7m")
    then some (month 7)
    else if text_eq t (codes "8m")
    then some (month 8)
    else none

folded : fold_periods is_space match 2026 (codes "7m, 8m") ≡ codes "2026-07,2026-08"
unfolding fold_periods fold_period_token split_from all_some strip lstrip text_eq dec join
folded = refl

unread : fold_periods is_space match 2026 (codes "7m, 13m") ≡ codes "7m, 13m"
unfolding fold_periods fold_period_token split_from all_some strip lstrip text_eq join
unread = refl

fold_periods-AreRead_example :
    ((fold_periods is_space match 2026 (codes "7m, 8m") ≡ codes "7m, 8m")
      × ((is_empty (strip is_space (codes "7m, 8m")) ≡ true)
          ⊎ HasUnread is_space match 2026 (split_from [] (codes "7m, 8m"))))
    ⊎ ((is_empty (strip is_space (codes "7m, 8m")) ≡ false)
        × ((months : List Text) × (fold_periods is_space match 2026 (codes "7m, 8m")
              ≡ join (44 ∷ []) months)
            × AreRead is_space match 2026 (split_from [] (codes "7m, 8m")) months))
fold_periods-AreRead_example = fold_periods-AreRead is_space match 2026 (codes "7m, 8m")
