-- ===== src/Tests/Budget.antt =====
-- A budget for one of two chunks.
use liviq.Base.{ℕ, ◌≤◌, ◌≡◌, true, none, some, List, [], ◌∷◌, codes, ltb, All, arith}
use liviq.Budget.{ScoredChunk, fit_chunks}
use liviq.Budget.Fit.{total, HasDistinctKeys, accounted, total-fit_chunks-le, fit_chunks_complete}
use liviq.Tests.World.{is_space}

abbrev offered : List (ScoredChunk ℕ)
offered =
    record { id = codes "a"; content = codes "first"; score = 700; token_count = some 30 }
    ∷ record { id = codes "b"; content = codes "second"; score = 900; token_count = none }
    ∷ []

total-fit_chunks-le_example : total (fit_chunks is_space ltb offered 31) ≤ 31
total-fit_chunks-le_example = total-fit_chunks-le is_space ltb offered 31

fit_chunks_complete_example :
    let chosen = fit_chunks is_space ltb offered 31 in
    HasDistinctKeys is_space chosen × All (λ c. accounted is_space chosen 31 c ≡ true) offered
fit_chunks_complete_example = fit_chunks_complete is_space ltb offered 31 (omega arith)
