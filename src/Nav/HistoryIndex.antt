-- ===== src/Nav/HistoryIndex.antt =====
-- The in-memory NAV history index: src/domain/nav_history_index.py. A NAV record is any type with a
-- date; dicts keep their insertion order, and the year that a caller passes as text is its number.
pub mod Extremes
pub mod Scans
pub mod Lookups
pub mod Equivalence
use portfolio_management.Common.{
  ℕ, suc, ◌-◌, Bool, ◌&&◌, Option, none, some, List, [], ◌∷◌, map, ltb, ◌==◌, if◌then◌else◌, keep,
  get_elem?,
}
use portfolio_management.Common.Dict.{nat_eq, pair_eq, dict_get, dict_set, set_default, or_read}
use portfolio_management.Common.Table.{order_by}
use portfolio_management.Nav.Dates.{Date, date_key, before}

-- The four maps of the index.
pub record Maps (N : Type 0) : Type 0 where
  pub year_end_map : List (ℕ × N)
  pub year_first_map : List (ℕ × N)
  pub month_end_map : List ((ℕ × ℕ) × N)
  pub month_first_map : List ((ℕ × ℕ) × N)

pub record NavIndex (N : Type 0) : Type 0 where
  pub sorted_navs : List N
  pub dates : List Date
  pub maps : Maps N

-- `bisect.bisect_left`: the number of leading dates before `d`
unfoldable pub bisect_left : Date → List Date → ℕ
bisect_left d [] = 0
bisect_left d (x ∷ xs) = let rest = bisect_left d xs in if before x d then suc rest else 0

module _ {N : Type 0} (date : N → Date) where
  abbrev pub key_of : N → ℕ
  key_of n = date_key (date n)

  abbrev pub year_of : N → ℕ
  year_of n = (date n).year

  abbrev pub month_of : N → ℕ × ℕ
  month_of n = ((date n).year, (date n).month)

  -- the body of the loop over the sorted records
  unfoldable pub add_nav : N → Maps N → Maps N
  add_nav n m = record {
    year_end_map = dict_set (year_of n) n m.year_end_map;
    year_first_map = set_default (year_of n) n m.year_first_map;
    month_end_map = dict_set (month_of n) n m.month_end_map;
    month_first_map = set_default (month_of n) n m.month_first_map;
  }

  unfoldable pub add_navs : List N → Maps N → Maps N
  unfolding add_nav
  add_navs [] m = m
  add_navs (n ∷ ns) m = add_navs ns (add_nav n m)

  unfoldable pub build : List N → NavIndex N
  unfolding add_navs order_by
  build navs =
      let sorted = order_by key_of navs in
      record {
        sorted_navs = sorted;
        dates = map date sorted;
        maps = add_navs sorted (record {
          year_end_map = [];
          year_first_map = [];
          month_end_map = [];
          month_first_map = [];
        });
      }

  -- Python's `max` and `min` by date: the first of equals wins
  unfoldable pub max_from : N → List N → N
  max_from best [] = best
  max_from best (x ∷ xs) = max_from (if ltb (key_of best) (key_of x) then x else best) xs

  unfoldable pub latest : List N → Option N
  unfolding max_from
  latest [] = none
  latest (x ∷ xs) = some (max_from x xs)

  unfoldable pub min_from : N → List N → N
  min_from best [] = best
  min_from best (x ∷ xs) = min_from (if ltb (key_of x) (key_of best) then x else best) xs

  unfoldable pub earliest : List N → Option N
  unfolding min_from
  earliest [] = none
  earliest (x ∷ xs) = some (min_from x xs)

  -- the record before position `i`, if there is one
  abbrev pub at_before : List N → ℕ → Option N
  at_before ns i = if i == 0 then none else get_elem? ns (i - 1)

  unfoldable pub find_latest_before : List N → Date → Option (NavIndex N) → Option N
  unfolding bisect_left latest
  find_latest_before navs d (some index) = at_before index.sorted_navs (bisect_left d index.dates)
  find_latest_before navs d none = latest (keep (λ n. before (date n) d) navs)

  unfoldable pub find_year_end : List N → ℕ → Option (NavIndex N) → Option N
  unfolding latest
  find_year_end navs year (some index) = dict_get year index.maps.year_end_map
  find_year_end navs year none = latest (keep (λ n. year_of n == year) navs)

  abbrev pub prev_month : ℕ → ℕ → ℕ × ℕ
  prev_month year month = if month == 1 then (year - 1, 12) else (year, month - 1)

  abbrev pub in_month : ℕ → ℕ → N → Bool
  in_month year month n = year_of n == year && (date n).month == month

  unfoldable pub find_prev_month_end : List N → ℕ → ℕ → Option (NavIndex N) → Option N
  unfolding latest
  find_prev_month_end navs year month (some index) =
      dict_get (prev_month year month) index.maps.month_end_map
  find_prev_month_end navs year month none =
      let (y, m) = prev_month year month in latest (keep (in_month y m) navs)

  -- `candidate if candidate and candidate.date < before_date`
  abbrev pub if_before : Date → Option N → Option N
  if_before d none = none
  if_before d (some n) = if before (date n) d then some n else none

  unfoldable pub find_first_in_month_before : List N → ℕ → ℕ → Date → Option (NavIndex N) → Option N
  unfolding earliest
  find_first_in_month_before navs year month d (some index) =
      if_before d (dict_get (year, month) index.maps.month_first_map)
  find_first_in_month_before navs year month d none =
      earliest (keep (λ n. before (date n) d && in_month year month n) navs)

  unfoldable pub find_first_in_year_before : List N → ℕ → Date → Option (NavIndex N) → Option N
  unfolding earliest
  find_first_in_year_before navs year d (some index) =
      if_before d (dict_get year index.maps.year_first_map)
  find_first_in_year_before navs year d none =
      earliest (keep (λ n. before (date n) d && year_of n == year) navs)

  unfoldable pub find_mtd_return_base : List N → Date → Option (NavIndex N) → Option N
  unfolding find_prev_month_end find_first_in_month_before
  find_mtd_return_base navs d index =
      or_read (find_prev_month_end navs d.year d.month index)
        (find_first_in_month_before navs d.year d.month d index)

  unfoldable pub find_ytd_return_base : List N → Date → Option (NavIndex N) → Option N
  unfolding find_year_end find_first_in_year_before
  find_ytd_return_base navs d index =
      or_read (find_year_end navs (d.year - 1) index)
        (find_first_in_year_before navs d.year d index)
