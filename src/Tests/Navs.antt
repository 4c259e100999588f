-- ===== src/Tests/Navs.antt =====
-- Tests of the NAV history index (src/domain/nav_history_index.py).
use portfolio_management.Common.{ℕ, ◌≡◌, refl, none, some, List, [], ◌∷◌, arith}
use portfolio_management.Nav.Dates.{Date, before}
use portfolio_management.Nav.HistoryIndex.{
  build, find_latest_before, find_year_end, find_prev_month_end, find_first_in_month_before,
  find_first_in_year_before, find_mtd_return_base, find_ytd_return_base,
}
use portfolio_management.Nav.HistoryIndex.Extremes.{
  DiffersFromRest-HasDistinctDates, HasDistinctDates, IsLatest,
}
use portfolio_management.Nav.HistoryIndex.Equivalence.{search-build, find_latest_before-IsLatest}

-- a record is its date here
abbrev at : Date → Date
at d = d

abbrev day : ℕ → ℕ → ℕ → Date
day y m d = record { year = y; month = m; day = d }

abbrev history : List Date
history = day 2026 1 30 ∷ day 2025 12 31 ∷ day 2026 2 27 ∷ day 2026 3 2 ∷ []

mtd_base :
    find_mtd_return_base at history (day 2026 3 16) (some (build at history)) ≡ some (day 2026 2 27)
unfolding find_mtd_return_base build
mtd_base = refl

ytd_base : find_ytd_return_base at history (day 2026 3 16) none ≡ some (day 2025 12 31)
unfolding find_ytd_return_base
ytd_base = refl

distinct : HasDistinctDates at history
distinct = DiffersFromRest-HasDistinctDates at history (omega arith)

search-build_example :
    let index = some (build at history) in
    (find_latest_before at history (day 2026 3 1) index
      ≡ find_latest_before at history (day 2026 3 1) none)
    × (find_year_end at history 2025 index ≡ find_year_end at history 2025 none)
    × (find_prev_month_end at history 2025 3 index ≡ find_prev_month_end at history 2025 3 none)
    × (find_first_in_month_before at history 2025 3 (day 2026 3 1) index
        ≡ find_first_in_month_before at history 2025 3 (day 2026 3 1) none)
    × (find_first_in_year_before at history 2025 (day 2026 3 1) index
        ≡ find_first_in_year_before at history 2025 (day 2026 3 1) none)
    × (find_mtd_return_base at history (day 2026 3 1) index
        ≡ find_mtd_return_base at history (day 2026 3 1) none)
    × (find_ytd_return_base at history (day 2026 3 1) index
        ≡ find_ytd_return_base at history (day 2026 3 1) none)
search-build_example = search-build at history (day 2026 3 1) 2025 3 distinct

find_latest_before-IsLatest_example :
    IsLatest at
      (λ n. before (at n) (day 2026 3 1))
      history
      (find_latest_before at history (day 2026 3 1) (some (build at history)))
    × IsLatest at
        (λ n. before (at n) (day 2026 3 1))
        history
        (find_latest_before at history (day 2026 3 1) none)
find_latest_before-IsLatest_example = find_latest_before-IsLatest at history (day 2026 3 1)
