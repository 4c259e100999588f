-- ===== src/Calendar/Search.antt =====
-- What the search for the previous business day finds.
use portfolio_management.Common.{
  ℕ, zero, suc, ◌+◌, ◌-◌, ◌≤◌, ◌<◌, ◌≡◌, refl, subst, inl, inr, true, false, arith, Bool-cases,
  Result, ok, >>=-eq-ok, ◌==◌,
}
use portfolio_management.Calendar.{Service, is_business_day, search_back, previous_business_day}

-- The last business day among the `n` days that end with `top`.
pub record IsLast (s : Service) (n top d : ℕ) : Type 0 where
  pub not_after : d ≤ top
  pub in_reach : top < d + n
  pub is_business : is_business_day s d ≡ ok true
  pub none_between : (e : ℕ) → d < e → e ≤ top → is_business_day s e ≡ ok false

extend :
    (s : Service) (n top d : ℕ)
    → 1 ≤ top
    → is_business_day s top ≡ ok false
    → IsLast s n (top - 1) d
    → IsLast s (suc n) top d
extend s n top d pos closed l = record {
  not_after = omega (arith, l.not_after);
  in_reach = omega (arith, l.in_reach);
  is_business = l.is_business;
  none_between = λ e lo hi. elim (Bool-cases (e == top)) [
    | inl q ↦ let same : e ≡ top = ground arith in rw same closed
    | inr q ↦ let below : e ≤ top - 1 = ground arith in l.none_between e lo below
  ];
}

search-IsLast :
    (s : Service) (n top d : ℕ) → n ≤ top → search_back s n top ≡ ok d → IsLast s n top d
unfolding search_back
search-IsLast s zero top d far h = cc
search-IsLast s (suc n) top d far h =
    let (found, e, rest) = >>=-eq-ok (is_business_day s top) _ h in
    elim (Bool-cases found) [
      | inl q ↦
          let g : ◌≡◌ {A = Result ℕ} (ok top) (ok d) = rw q at rest in
          let same : top ≡ d = cc in
          subst (λ x. IsLast s (suc n) top x) same
            (record {
              not_after = omega arith;
              in_reach = omega arith;
              is_business = rw q at e;
              none_between = λ x lo hi. absurd (omega (arith, lo, hi));
            })
      | inr q ↦
          extend s n top d (omega (arith, far)) (rw q at e)
            (search-IsLast s n (top - 1) d (omega (arith, far)) (rw q at rest))
    ]

-- The previous business day that the service gives is the last one before the date, within a year:
-- it is a business day, and every day between it and the date is known not to be one.
pub previous-IsLast :
    (s : Service) (before d : ℕ)
    → 366 < before
    → previous_business_day s before ≡ ok d
    → IsLast s 366 (before - 1) d
unfolding previous_business_day
previous-IsLast s before d far h = search-IsLast s 366 (before - 1) d (omega (arith, far)) h

search-finds : (s : Service) (n top d : ℕ) → IsLast s n top d → search_back s n top ≡ ok d
unfolding search_back
search-finds s zero top d l = absurd (omega (arith, l.not_after, l.in_reach))
search-finds s (suc n) top d l = elim (Bool-cases (d == top)) [
  | inl q ↦
      let same : d ≡ top = ground arith in
      let b : is_business_day s top ≡ ok true = rw (← same) l.is_business in rw (b, same) refl
  | inr q ↦
      let below : d < top = ground (arith, l.not_after) in
      rw (l.none_between top below (omega arith)) (
        search-finds s n (top - 1) d (record {
          not_after = omega (arith, below);
          in_reach = omega (arith, l.in_reach, below);
          is_business = l.is_business;
          none_between = λ e lo hi. l.none_between e lo (omega (arith, hi));
        }))
]

-- Where there is a business day in the year before the date, and the days after it are known not
-- to be business days, the service finds it.
pub previous-finds :
    (s : Service) (before d : ℕ)
    → IsLast s 366 (before - 1) d
    → previous_business_day s before ≡ ok d
unfolding previous_business_day
previous-finds s before d l = search-finds s 366 (before - 1) d l
