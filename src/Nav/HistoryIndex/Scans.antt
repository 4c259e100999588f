-- ===== src/Nav/HistoryIndex/Scans.antt =====
-- The two ways to search: Python's `max` and `min` over a filtered list, and the sorted list and the
-- maps of the index.
use portfolio_management.Common.{
  ℕ, ◌≤◌, ◌<◌, ◌≡◌, refl, sym, subst, inl, inr, Bool, true, false, List, [], ◌∷◌, arith, ltb, keep,
  All, Memᴰ, Bool-cases,
}
use portfolio_management.Common.Dict.{nat_eq, pair_eq}
use portfolio_management.Nav.Dates.{Date}
use portfolio_management.Nav.HistoryIndex.{key_of, max_from, latest, min_from, earliest}
use portfolio_management.Nav.HistoryIndex.Extremes.{IsLatest, IsEarliest}

skip {ℓ} : {A : Type ℓ} {a b c : A} {ys : List A} → Memᴰ a (b ∷ ys) → Memᴰ a (b ∷ c ∷ ys)
skip (Memᴰ.head e) = Memᴰ.head e
skip (Memᴰ.tail m) = Memᴰ.tail (Memᴰ.tail m)

module _ {N : Type 0} (date : N → Date) where
  abbrev key : N → ℕ
  key n = key_of date n

  abbrev IsMaxOf : List N → N → Type 0
  IsMaxOf l r = Memᴰ r l × All (λ m. key m ≤ key r) l

  abbrev IsMinOf : List N → N → Type 0
  IsMinOf l r = Memᴰ r l × All (λ m. key r ≤ key m) l

  max_from-IsMaxOf : (best : N) (xs : List N) → IsMaxOf (best ∷ xs) (max_from date best xs)
  unfolding max_from
  max_from-IsMaxOf best [] = (Memᴰ.head refl, (omega arith, tt))
  max_from-IsMaxOf best (x ∷ xs) = elim (Bool-cases (ltb (key best) (key x))) [
    | inl t ↦
        let (m, h) = max_from-IsMaxOf x xs in
        let lt : key best < key x = ground arith in
        let e : max_from date x xs ≡ max_from date best (x ∷ xs) = rw t refl in
        subst (IsMaxOf (best ∷ x ∷ xs)) e (Memᴰ.tail m, (omega (arith, h.0), h))
    | inr t ↦
        let (m, h) = max_from-IsMaxOf best xs in
        let le : key x ≤ key best = ground arith in
        let e : max_from date best xs ≡ max_from date best (x ∷ xs) = rw t refl in
        subst (IsMaxOf (best ∷ x ∷ xs)) e (skip m, (h.0, (omega (arith, h.0), h.1)))
  ]

  min_from-IsMinOf : (best : N) (xs : List N) → IsMinOf (best ∷ xs) (min_from date best xs)
  unfolding min_from
  min_from-IsMinOf best [] = (Memᴰ.head refl, (omega arith, tt))
  min_from-IsMinOf best (x ∷ xs) = elim (Bool-cases (ltb (key x) (key best))) [
    | inl t ↦
        let (m, h) = min_from-IsMinOf x xs in
        let lt : key x < key best = ground arith in
        let e : min_from date x xs ≡ min_from date best (x ∷ xs) = rw t refl in
        subst (IsMinOf (best ∷ x ∷ xs)) e (Memᴰ.tail m, (omega (arith, h.0), h))
    | inr t ↦
        let (m, h) = min_from-IsMinOf best xs in
        let le : key best ≤ key x = ground arith in
        let e : min_from date best xs ≡ min_from date best (x ∷ xs) = rw t refl in
        subst (IsMinOf (best ∷ x ∷ xs)) e (skip m, (h.0, (omega (arith, h.0), h.1)))
  ]

module _ {N : Type 0} (p : N → Bool) where
  mem_keep : (l : List N) {n : N} → Memᴰ n (keep p l) → Memᴰ n l × (p n ≡ true)
  mem_keep [] m = elim m [ ]
  mem_keep (x ∷ xs) {n} m = elim (Bool-cases (p x)) [
    | inl t ↦ kept (mem_keep xs) t (rw t at m)
    | inr t ↦ let (q, h) = mem_keep xs (rw t at m) in (Memᴰ.tail q, h)
  ]
    where
      kept :
          (Memᴰ n (keep p xs) → Memᴰ n xs × (p n ≡ true))
          → p x ≡ true
          → Memᴰ n (x ∷ keep p xs)
          → Memᴰ n (x ∷ xs) × (p n ≡ true)
      kept f t (Memᴰ.head e) = (Memᴰ.head e, rw e t)
      kept f t (Memᴰ.tail q) = let (r, h) = f q in (Memᴰ.tail r, h)

  All-keep_inv : (P : N → Type 0) (l : List N) → All P (keep p l) → All (λ m. p m ≡ true → P m) l
  All-keep_inv P [] h = tt
  All-keep_inv P (x ∷ xs) h = elim (Bool-cases (p x)) [
    | inl t ↦ let g : All P (x ∷ keep p xs) = rw t at h in ((λ _. g.0), All-keep_inv P xs g.1)
    | inr t ↦ ((λ q. absurd (cc)), All-keep_inv P xs (rw t at h))
  ]

  keep_nil : (l : List N) → keep p l ≡ [] → All (λ m. p m ≡ false) l
  keep_nil [] e = tt
  keep_nil (x ∷ xs) e = elim (Bool-cases (p x)) [
    | inl t ↦ let g : x ∷ keep p xs ≡ [] = rw t at e in cc
    | inr t ↦ (t, keep_nil xs (rw t at e))
  ]

module _ {N : Type 0} (date : N → Date) (p : N → Bool) where
  -- The latest of the filtered list, as `max` computes it.
  pub latest-IsLatest : (l : List N) → IsLatest date p l (latest date (keep p l))
  unfolding latest
  latest-IsLatest l = by_kept (keep p l) refl
    where
      by_kept : (ks : List N) → keep p l ≡ ks → IsLatest date p l (latest date ks)
      by_kept [] e = keep_nil p l e
      by_kept (k ∷ ks) e =
          let (m, h) = max_from-IsMaxOf date k ks in
          let (q, t) = mem_keep p l (subst (λ zs. Memᴰ (max_from date k ks) zs) (sym e) m) in
          (
            q,
            t,
            All-keep_inv p _ l
                (subst (All (λ y. key_of date y ≤ key_of date (max_from date k ks))) (sym e) h),
          )

  -- The earliest of the filtered list, as `min` computes it.
  pub earliest-IsEarliest : (l : List N) → IsEarliest date p l (earliest date (keep p l))
  unfolding earliest
  earliest-IsEarliest l = by_kept (keep p l) refl
    where
      by_kept : (ks : List N) → keep p l ≡ ks → IsEarliest date p l (earliest date ks)
      by_kept [] e = keep_nil p l e
      by_kept (k ∷ ks) e =
          let (m, h) = min_from-IsMinOf date k ks in
          let (q, t) = mem_keep p l (subst (λ zs. Memᴰ (min_from date k ks) zs) (sym e) m) in
          (
            q,
            t,
            All-keep_inv p _ l
                (subst (All (λ y. key_of date (min_from date k ks) ≤ key_of date y)) (sym e) h),
          )
