-- ===== src/Tests/Calendars.antt =====
-- Tests of the business-day calendar (src/app/business_calendar_service.py).
use portfolio_management.Common.{
  ℕ, ◌-◌, ◌≡◌, refl, false, none, some, [], ◌∷◌, ok, err, arith, runtime_error,
}
use portfolio_management.Calendar.{Service, previous_business_day, default_nav_date}
use portfolio_management.Calendar.Search.{IsLast, previous-IsLast, previous-finds}

-- Monday, 5 January 2026
abbrev monday : ℕ
monday = 739_621

-- the Friday before it, and New Year's Day
abbrev service : Service
service = record { holidays = 739_618 ∷ 739_617 ∷ []; market_days = none }

abbrev silent : Service
silent = record {
  holidays = [];
  market_days = some (λ day. ok (record { cn = some false; hk = none; us = some false }));
}

-- New Year's Eve
previous_run : previous_business_day service monday ≡ ok 739_616
unfolding previous_business_day
previous_run = refl

-- a market that is not known does not count as closed
silent_raises :
    default_nav_date silent none 739_619 ≡ err (runtime_error "trading calendar unavailable")
unfolding default_nav_date
silent_raises = refl

previous-IsLast_example : IsLast service 366 (monday - 1) 739_616
previous-IsLast_example = previous-IsLast service monday 739_616 (omega arith) previous_run

previous-finds_example : previous_business_day service monday ≡ ok 739_616
previous-finds_example = previous-finds service monday 739_616 previous-IsLast_example
