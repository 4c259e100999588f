-- ===== src/Nav/HistoryIndex/Equivalence.antt =====
-- The index and the scans find the same records.
use portfolio_management.Common.{
  ℕ, ◌-◌, ◌≡◌, sym, ap, ap₂, ◌∙◌, subst, inl, inr, Bool, Option, none, some, List, [], arith, ◌==◌,
  ◌&&◌, All-map, Bool-cases,
}
use portfolio_management.Common.Dict.{or_read, or_read-none, dict_get, nat_eq, pair_eq}
use portfolio_management.Common.Table.{fetch_one, order_by}
use portfolio_management.Common.Table.Order.{order_by-IsSorted}
use portfolio_management.Nav.Dates.{Date, before}
use portfolio_management.Nav.HistoryIndex.{
  NavIndex, key_of, year_of, month_of, build, in_month, if_before, prev_month, find_latest_before,
  find_year_end, find_prev_month_end, find_first_in_month_before, find_first_in_year_before,
  find_mtd_return_base, find_ytd_return_base,
}
use portfolio_management.Nav.HistoryIndex.Extremes.{
  IsLatest, IsEarliest, last_with, HasDistinctDates, IsLatest-unique, IsEarliest-unique,
  IsLatest-order_by, IsEarliest-order_by, last_with-IsLatest, fetch_one-IsEarliest,
}
use portfolio_management.Nav.HistoryIndex.Scans.{latest-IsLatest, earliest-IsEarliest}
use portfolio_management.Nav.HistoryIndex.Lookups.{
  dict_get-sets, dict_get-defaults, add_navs_year_end, add_navs_year_first, add_navs_month_end,
  add_navs_month_first, at_before-bisect,
}

module _ {N : Type 0} (date : N → Date) where
  abbrev navs_key : N → ℕ
  navs_key n = key_of date n

  -- The index reads a latest record of a group.
  last_in-IsLatest :
      (p : N → Bool) (navs : List N)
      → IsLatest date p navs (last_with date p (order_by navs_key navs))
  last_in-IsLatest p navs =
      IsLatest-order_by date p navs _
        (last_with-IsLatest date p _ (order_by-IsSorted navs_key navs))

  first_in-IsEarliest :
      (p : N → Bool) (navs : List N) → IsEarliest date p navs (fetch_one p (order_by navs_key navs))
  first_in-IsEarliest p navs =
      IsEarliest-order_by date p navs _
        (fetch_one-IsEarliest date p _ (order_by-IsSorted navs_key navs))

  -- A first record of a group that lies before a date is the first of the group's records before it.
  if_before-IsEarliest :
      (q : N → Bool) (d : Date) (l : List N) (o : Option N)
      → IsEarliest date q l o
      → IsEarliest date (λ n. before (date n) d && q n) l (if_before date d o)
  if_before-IsEarliest q d l none h = All-map _ _ (λ m f. ground arith) l h
  if_before-IsEarliest q d l (some n) h = elim (Bool-cases (before (date n) d)) [
    | inl t ↦ rw t (h.0, ground arith, All-map _ _ (λ m f. ground arith) l h.2)
    | inr t ↦ rw t (All-map _ _ (λ m f. ground arith) l h.2)
  ]

  -- With the index or without it, the search for the last record before a date gives a latest one of
  -- those before it, or nothing where there is none; dates may repeat.
  pub find_latest_before-IsLatest :
      (navs : List N) (d : Date)
      → IsLatest date
          (λ n. before (date n) d)
          navs
          (find_latest_before date navs d (some (build date navs)))
        × IsLatest date (λ n. before (date n) d) navs (find_latest_before date navs d none)
  unfolding find_latest_before build
  find_latest_before-IsLatest navs d = (
    subst (IsLatest date (λ n. before (date n) d) navs)
        (sym (at_before-bisect date d (order_by navs_key navs) (order_by-IsSorted navs_key navs)))
        (last_in-IsLatest (λ n. before (date n) d) navs),
    latest-IsLatest date (λ n. before (date n) d) navs,
  )

  module _ (navs : List N) where
    abbrev index : NavIndex N
    index = build date navs

    year_end_read :
        (y : ℕ) → IsLatest date (λ n. year_of date n == y) navs (dict_get y index.maps.year_end_map)
    unfolding build
    year_end_read y =
        let sorted = order_by navs_key navs in
        subst (IsLatest date (λ n. year_of date n == y) navs)
          (sym (
            ap (dict_get y) (add_navs_year_end date sorted _)
            ∙ dict_get-sets (year_of date) y sorted []
            ∙ or_read-none _))
          (last_in-IsLatest (λ n. year_of date n == y) navs)

    month_end_read :
        (y m : ℕ)
        → IsLatest date (in_month date y m) navs (dict_get (y, m) index.maps.month_end_map)
    unfolding build
    month_end_read y m =
        let sorted = order_by navs_key navs in
        subst (IsLatest date (in_month date y m) navs)
          (sym (
            ap (dict_get (y, m)) (add_navs_month_end date sorted _)
            ∙ dict_get-sets (month_of date) (y, m) sorted []
            ∙ or_read-none _))
          (last_in-IsLatest (in_month date y m) navs)

    year_first_read :
        (y : ℕ)
        → IsEarliest date (λ n. year_of date n == y) navs (dict_get y index.maps.year_first_map)
    unfolding build
    year_first_read y =
        let sorted = order_by navs_key navs in
        subst (IsEarliest date (λ n. year_of date n == y) navs)
          (sym (
            ap (dict_get y) (add_navs_year_first date sorted _)
            ∙ dict_get-defaults (year_of date) y sorted []))
          (first_in-IsEarliest (λ n. year_of date n == y) navs)

    month_first_read :
        (y m : ℕ)
        → IsEarliest date (in_month date y m) navs (dict_get (y, m) index.maps.month_first_map)
    unfolding build
    month_first_read y m =
        let sorted = order_by navs_key navs in
        subst (IsEarliest date (in_month date y m) navs)
          (sym (
            ap (dict_get (y, m)) (add_navs_month_first date sorted _)
            ∙ dict_get-defaults (month_of date) (y, m) sorted []))
          (first_in-IsEarliest (in_month date y m) navs)

    module _ (distinct : HasDistinctDates date navs) where
      latest_before_agree :
          (d : Date)
          → find_latest_before date navs d (some index) ≡ find_latest_before date navs d none
      latest_before_agree d =
          let (a, b) = find_latest_before-IsLatest navs d in
          IsLatest-unique date (λ n. before (date n) d) navs _ _ distinct a b

      year_end_agree :
          (y : ℕ) → find_year_end date navs y (some index) ≡ find_year_end date navs y none
      unfolding find_year_end
      year_end_agree y =
          IsLatest-unique date (λ n. year_of date n == y) navs _ _ distinct (year_end_read y)
            (latest-IsLatest date (λ n. year_of date n == y) navs)

      prev_month_agree :
          (y m : ℕ)
          → find_prev_month_end date navs y m (some index) ≡ find_prev_month_end date navs y m none
      unfolding find_prev_month_end
      prev_month_agree y m =
          let (py, pm) = prev_month date y m in
          IsLatest-unique date (in_month date py pm) navs _ _ distinct (month_end_read py pm)
            (latest-IsLatest date (in_month date py pm) navs)

      month_first_agree :
          (y m : ℕ) (d : Date)
          → find_first_in_month_before date navs y m d (some index)
            ≡ find_first_in_month_before date navs y m d none
      unfolding find_first_in_month_before
      month_first_agree y m d =
          IsEarliest-unique date (λ n. before (date n) d && in_month date y m n) navs _ _ distinct
            (if_before-IsEarliest (in_month date y m) d navs _ (month_first_read y m))
            (earliest-IsEarliest date (λ n. before (date n) d && in_month date y m n) navs)

      year_first_agree :
          (y : ℕ) (d : Date)
          → find_first_in_year_before date navs y d (some index)
            ≡ find_first_in_year_before date navs y d none
      unfolding find_first_in_year_before
      year_first_agree y d =
          IsEarliest-unique date (λ n. before (date n) d && year_of date n == y) navs _ _ distinct
            (if_before-IsEarliest (λ n. year_of date n == y) d navs _ (year_first_read y))
            (earliest-IsEarliest date (λ n. before (date n) d && year_of date n == y) navs)

  mtd_agree :
      (navs : List N) (d : Date)
      → HasDistinctDates date navs
      → find_mtd_return_base date navs d (some (build date navs))
        ≡ find_mtd_return_base date navs d none
  unfolding find_mtd_return_base
  mtd_agree navs d distinct =
      ap₂ or_read (prev_month_agree navs distinct d.year d.month)
        (month_first_agree navs distinct d.year d.month d)

  ytd_agree :
      (navs : List N) (d : Date)
      → HasDistinctDates date navs
      → find_ytd_return_base date navs d (some (build date navs))
        ≡ find_ytd_return_base date navs d none
  unfolding find_ytd_return_base
  ytd_agree navs d distinct =
      ap₂ or_read (year_end_agree navs distinct (d.year - 1))
        (year_first_agree navs distinct d.year d)

  -- Where no two records have the same date, every search of a history gives with its index the
  -- record that it gives by scanning the list, the bases of the month's and the year's return
  -- included.
  pub search-build :
      (navs : List N) (d : Date) (year month : ℕ)
      → HasDistinctDates date navs
      → let index = some (build date navs) in
        (find_latest_before date navs d index ≡ find_latest_before date navs d none)
        × (find_year_end date navs year index ≡ find_year_end date navs year none)
        × (find_prev_month_end date navs year month index
            ≡ find_prev_month_end date navs year month none)
        × (find_first_in_month_before date navs year month d index
            ≡ find_first_in_month_before date navs year month d none)
        × (find_first_in_year_before date navs year d index
            ≡ find_first_in_year_before date navs year d none)
        × (find_mtd_return_base date navs d index ≡ find_mtd_return_base date navs d none)
        × (find_ytd_return_base date navs d index ≡ find_ytd_return_base date navs d none)
  search-build navs d year month distinct = (
    latest_before_agree navs distinct d,
    year_end_agree navs distinct year,
    prev_month_agree navs distinct year month,
    month_first_agree navs distinct year month d,
    year_first_agree navs distinct year d,
    mtd_agree navs d distinct,
    ytd_agree navs d distinct,
  )
