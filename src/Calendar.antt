-- ===== src/Calendar.antt =====
-- The business-day calendar of the daily NAV job: src/app/business_calendar_service.py. A date is its
-- ordinal (`date.toordinal()`), which is far above the 366 days that the search goes back.
pub mod Search
use portfolio_management.Common.{
  ℕ, zero, suc, ◌+◌, ◌-◌, ◌%◌, String, Bool, true, false, not, ◌&&◌, ◌||◌, Option, none, some, List,
  [], ◌∷◌, leb, ◌==◌, if◌then◌else◌, value_error, runtime_error, Error, Result, ok, err, ◌>>=◌,
  any_of,
}

-- What the calendar knows of the three markets on a day: open, closed, or nothing.
pub record Markets : Type 0 where
  pub cn : Option Bool
  pub hk : Option Bool
  pub us : Option Bool

-- `is True`, `is not False`
abbrev pub is_open : Option Bool → Bool
is_open (some true) = true
is_open _ = false

abbrev pub not_closed : Option Bool → Bool
not_closed (some false) = false
not_closed _ = true

abbrev pub any_market : (Option Bool → Bool) → Markets → Bool
any_market p m = p m.cn || (p m.hk || p m.us)

-- `holidays`, and `market_days` with its quote service, which may raise
pub record Service : Type 0 where
  pub holidays : List ℕ
  pub market_days : Option (ℕ → Result Markets)

-- `date.weekday()`, Monday being 0
abbrev pub weekday : ℕ → ℕ
weekday day = (day + 6) % 7

pub data Reason : Type 0 where
  weekend market_open all_markets_closed holiday business_day : Reason

pub record Explanation : Type 0 where
  pub is_business : Bool
  pub reason : Reason

explain_markets : Markets → Result Explanation
explain_markets m =
    if any_market is_open m
    then ok (record { is_business = true; reason = market_open })
    else if any_market not_closed m
    then err (runtime_error "trading calendar unavailable")
    else ok (record { is_business = false; reason = all_markets_closed })

explain_weekday : Service → ℕ → Option (ℕ → Result Markets) → Result Explanation
unfolding explain_markets
explain_weekday s day (some market_days) = market_days day >>= explain_markets
explain_weekday s day none =
    if any_of (λ h. h == day) s.holidays
    then ok (record { is_business = false; reason = holiday })
    else ok (record { is_business = true; reason = business_day })

unfoldable pub explain : Service → ℕ → Result Explanation
unfolding explain_weekday
explain s day =
    if leb 5 (weekday day)
    then ok (record { is_business = false; reason = weekend })
    else explain_weekday s day s.market_days

unfoldable pub is_business_day : Service → ℕ → Result Bool
unfolding explain
is_business_day s day = explain s day >>= λ e. ok e.is_business

abbrev pub no_day : Error
no_day = value_error "no business day found within one year before run date"

-- the loop, for `n` more candidates
unfoldable pub search_back : Service → ℕ → ℕ → Result ℕ
unfolding is_business_day
search_back s zero candidate = err no_day
search_back s (suc n) candidate = do
  found ← is_business_day s candidate
  if found then ok candidate else search_back s n (candidate - 1)

unfoldable pub previous_business_day : Service → ℕ → Result ℕ
unfolding search_back
previous_business_day s before = search_back s 366 (before - 1)

-- `today` is the argument's default
unfoldable pub default_nav_date : Service → Option ℕ → ℕ → Result ℕ
unfolding previous_business_day
default_nav_date s none today = previous_business_day s today
default_nav_date s (some run_date) today = previous_business_day s run_date
