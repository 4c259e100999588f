-- ===== src/OperationState/FutuRefresh/Claims.antt =====
-- Which request a claim takes, and what it leaves.
use portfolio_management.Common.{
  ℕ, ◌≤◌, ◌≡◌, refl, inl, inr, String, Bool, true, false, none, some, List, [], ◌∷◌, arith, All,
  Bool-cases, Option-cases, and_true, subst, sym, keep, if◌then◌else◌,
}
use portfolio_management.Common.Table.{update, fetch_one}
use portfolio_management.Common.Table.Order.{All-keep_self}
use portfolio_management.OperationState.FutuRefresh.{
  Refresh, Store, has_request, is_due, is_pending, row_before, first_from, first_row, begin_attempt,
  is_waiting, claim_row, claim_futu_refresh, get_futu_refresh,
}

not_later : (a b : Refresh) → row_before a b ≡ true → a.next_attempt_at ≤ b.next_attempt_at
unfolding row_before
not_later a b h = ground arith

not_sooner : (a b : Refresh) → row_before a b ≡ false → b.next_attempt_at ≤ a.next_attempt_at
unfolding row_before
not_sooner a b h = ground arith

-- No row of the list has an earlier time.
abbrev IsEarliest : Refresh → List Refresh → Type 0
IsEarliest r rs = All (λ x. r.next_attempt_at ≤ x.next_attempt_at) rs

abbrev pick : Refresh → Refresh → Refresh
pick best r = if row_before r best then r else best

pick_earlier :
    (best r : Refresh)
    → ((pick best r).next_attempt_at ≤ best.next_attempt_at)
      × ((pick best r).next_attempt_at ≤ r.next_attempt_at)
pick_earlier best r = elim (Bool-cases (row_before r best)) [
  | inl q ↦ rw q (not_later r best q, omega arith)
  | inr q ↦ rw q (omega arith, not_sooner r best q)
]

first_from-IsEarliest :
    (best : Refresh) (rs : List Refresh)
    → ((first_from best rs).next_attempt_at ≤ best.next_attempt_at)
      × IsEarliest (first_from best rs) rs
unfolding first_from
first_from-IsEarliest best [] = (omega arith, tt)
first_from-IsEarliest best (r ∷ rs) =
    let l = pick_earlier best r in
    let h = first_from-IsEarliest (pick best r) rs in
    (omega (arith, h.0, l.0), (omega (arith, h.0, l.1), h.1))

first_from-All :
    (P : Refresh → Type 0) (best : Refresh) (rs : List Refresh)
    → P best
    → All P rs
    → P (first_from best rs)
unfolding first_from
first_from-All P best [] p h = p
first_from-All P best (r ∷ rs) p h =
    let picked : P (pick best r) = elim (Bool-cases (row_before r best)) [
      | inl q ↦ rw q h.0
      | inr q ↦ rw q p
    ] in
    first_from-All P (pick best r) rs picked h.1

-- `p` passes a filter where it holds, and a bound on what it keeps is one on what passes.
All-keep_if :
    (P : Refresh → Type 0) (p : Refresh → Bool) (rs : List Refresh)
    → All P (keep p rs)
    → All (λ x. p x ≡ true → P x) rs
All-keep_if P p [] h = tt
All-keep_if P p (x ∷ xs) h = elim (Bool-cases (p x)) [
  | inl q ↦ let k : All _ (x ∷ keep p xs) = rw q at h in ((λ _. k.0), All-keep_if P p xs k.1)
  | inr q ↦ ((λ t. absurd (not_both (p x) t q)), All-keep_if P p xs (rw q at h))
]
  where
    not_both : (b : Bool) → b ≡ true → b ≡ false → ⊥
    not_both b t f = ground arith

-- what the claim promises of the request that it returns
abbrev pub IsFirstDue : ℕ → List Refresh → Refresh → Type 0
IsFirstDue now t r =
    (is_due now r ≡ true) × All (λ x. is_due now x ≡ true → r.next_attempt_at ≤ x.next_attempt_at) t

due_of :
    (now : ℕ) (t ks : List Refresh) (r : Refresh)
    → keep (is_due now) t ≡ ks
    → first_row ks ≡ some r
    → IsFirstDue now t r
unfolding first_row
due_of now t [] r e q = cc
due_of now t (k ∷ ks) r e q =
    let same : first_from k ks ≡ r = cc in
    let dues : All (λ x. is_due now x ≡ true) (k ∷ ks) =
      subst (All (λ x. is_due now x ≡ true)) e (All-keep_self (is_due now) t) in
    let b = first_from-IsEarliest k ks in
    subst (IsFirstDue now t) same (
      first_from-All (λ x. is_due now x ≡ true) k ks dues.0 dues.1,
      All-keep_if (λ x. (first_from k ks).next_attempt_at ≤ x.next_attempt_at) (is_due now) t
          (subst (IsEarliest (first_from k ks)) (sym e) (b.0, b.1)),
    )

none_due :
    (now : ℕ) (t : List Refresh)
    → first_row (keep (is_due now) t) ≡ none
    → All (λ x. is_due now x ≡ false) t
unfolding first_row
none_due now [] h = tt
none_due now (x ∷ t) h = elim (Bool-cases (is_due now x)) [
  | inl q ↦ let g : some (first_from x (keep (is_due now) t)) ≡ none = rw q at h in cc
  | inr q ↦ (q, none_due now t (rw q at h))
]

-- the claim's update reaches the request that a read finds
found_begun :
    (account id : String) (now : ℕ) (t : List Refresh) (r : Refresh)
    → fetch_one (has_request account id) t ≡ some r
    → is_pending r.state ≡ true
    → fetch_one (has_request account id) (update (is_waiting account id) (begin_attempt now) t)
      ≡ some (begin_attempt now r)
unfolding is_waiting begin_attempt
found_begun account id now [] r g p = cc
found_begun account id now (x ∷ xs) r g p = elim (Bool-cases (has_request account id x)) [
  | inl q ↦
      let e : some x ≡ some r = rw q at g in
      let same : x ≡ r = cc in
      let f : is_pending x.state ≡ true = rw same p in rw (q, f, q, same) refl
  | inr q ↦ rw (q, q) (found_begun account id now xs r (rw q at g) p)
]

-- A claim returns a request that is due and that no due request precedes in time; in the table,
-- where its key finds it, it is being run with one more attempt. It returns nothing only where
-- nothing is due, and then changes nothing.
pub claim-earliest :
    (now : ℕ) (s : Store)
    → let (o, s') = claim_futu_refresh now s in
      ((r : Refresh)
        → o ≡ some r
        → IsFirstDue now s.refreshes r
          × (get_futu_refresh r.account r.request_id s ≡ some r
              → get_futu_refresh r.account r.request_id s' ≡ some (begin_attempt now r)))
      × (o ≡ none → All (λ x. is_due now x ≡ false) s.refreshes × (s' ≡ s))
unfolding claim_futu_refresh get_futu_refresh claim_row is_due
claim-earliest now s = elim (Option-cases (first_row (keep (is_due now) s.refreshes))) [
  | inl e ↦ rw e ((λ r q. cc), (λ _. (none_due now s.refreshes e, refl)))
  | inr (r, e) ↦
      let first = due_of now s.refreshes (keep (is_due now) s.refreshes) r refl e in
      rw e (
        (λ u q.
            let same : r ≡ u = cc in
            subst
              (λ (w : Refresh).
                IsFirstDue now s.refreshes w
                × (fetch_one (has_request w.account w.request_id) s.refreshes ≡ some w
                    → fetch_one (has_request w.account w.request_id)
                        (update (is_waiting r.account r.request_id) (begin_attempt now) s.refreshes)
                      ≡ some (begin_attempt now w)))
              same
              (
                first,
                (λ g. found_begun r.account r.request_id now s.refreshes r g (and_true first.0).0),
              )),
        (λ q. cc),
      )
]
