-- ===== src/Nav/HistoryIndex/Extremes.antt =====
-- The latest and the earliest of the records that pass a test: what they are, that any two agree,
-- and that the scans and the sorted list find them.
use portfolio_management.Common.{
  ℕ, ◌≤◌, ◌≡◌, ◌≢◌, ◌∙◌, refl, sym, ap, inl, inr, Bool, true, false, Option, none, some, List, [],
  ◌∷◌, arith, if◌then◌else◌, All, All-map, All-mem, All-mem_self, Memᴰ, Bool-cases,
}
use portfolio_management.Common.Dict.{or_read}
use portfolio_management.Common.Table.{fetch_one, order_by}
use portfolio_management.Common.Table.Order.{IsSorted, All-order_by, All-order_by_inv}
use portfolio_management.Nav.Dates.{Date}
use portfolio_management.Nav.HistoryIndex.{key_of}

module _ {N : Type 0} (date : N → Date) where
  -- No two records have the same date.
  abbrev pub HasDistinctDates : List N → Type 0
  HasDistinctDates l = (m n : N) → Memᴰ m l → Memᴰ n l → key_of date m ≡ key_of date n → m ≡ n

  -- each record against those behind it
  abbrev pub DiffersFromRest : List N → Type 0
  DiffersFromRest [] = Unit
  DiffersFromRest (x ∷ xs) = All (λ m. key_of date x ≢ key_of date m) xs × DiffersFromRest xs

  pub DiffersFromRest-HasDistinctDates : (l : List N) → DiffersFromRest l → HasDistinctDates l
  DiffersFromRest-HasDistinctDates [] h m n p q e = elim p [ ]
  DiffersFromRest-HasDistinctDates (x ∷ xs) h m n (Memᴰ.head p) (Memᴰ.head q) e = p ∙ sym q
  DiffersFromRest-HasDistinctDates (x ∷ xs) h m n (Memᴰ.head p) (Memᴰ.tail q) e =
      absurd (All-mem (λ y. key_of date x ≢ key_of date y) h.0 q (ap (key_of date) (sym p) ∙ e))
  DiffersFromRest-HasDistinctDates (x ∷ xs) h m n (Memᴰ.tail p) (Memᴰ.head q) e =
      absurd (All-mem (λ y. key_of date x ≢ key_of date y) h.0 p (ap (key_of date) (sym q) ∙ sym e))
  DiffersFromRest-HasDistinctDates (x ∷ xs) h m n (Memᴰ.tail p) (Memᴰ.tail q) e =
      DiffersFromRest-HasDistinctDates xs h.1 m n p q e

module _ {N : Type 0} (date : N → Date) (p : N → Bool) where
  abbrev key : N → ℕ
  key n = key_of date n

  -- `o` is a latest record of `l` that passes `p`, or there is none.
  abbrev pub IsLatest : List N → Option N → Type 0
  IsLatest l none = All (λ m. p m ≡ false) l
  IsLatest l (some n) = Memᴰ n l × (p n ≡ true) × All (λ m. p m ≡ true → key m ≤ key n) l

  abbrev pub IsEarliest : List N → Option N → Type 0
  IsEarliest l none = All (λ m. p m ≡ false) l
  IsEarliest l (some n) = Memᴰ n l × (p n ≡ true) × All (λ m. p m ≡ true → key n ≤ key m) l

  clash : (l : List N) (n : N) → Memᴰ n l → p n ≡ true → All (λ m. p m ≡ false) l → ⊥
  clash l n m t h = let f : p n ≡ false = All-mem (λ x. p x ≡ false) h m in cc

  pub IsLatest-unique :
      (l : List N) (o o' : Option N)
      → HasDistinctDates date l
      → IsLatest l o
      → IsLatest l o'
      → o ≡ o'
  IsLatest-unique l none none d h h' = refl
  IsLatest-unique l none (some n) d h h' = absurd (clash l n h'.0 h'.1 h)
  IsLatest-unique l (some n) none d h h' = absurd (clash l n h.0 h.1 h')
  IsLatest-unique l (some n) (some n') d h h' =
      let a : key n' ≤ key n = All-mem (λ m. p m ≡ true → key m ≤ key n) h.2 h'.0 h'.1 in
      let b : key n ≤ key n' = All-mem (λ m. p m ≡ true → key m ≤ key n') h'.2 h.0 h.1 in
      ap some (d n n' h.0 h'.0 (omega arith))

  pub IsEarliest-unique :
      (l : List N) (o o' : Option N)
      → HasDistinctDates date l
      → IsEarliest l o
      → IsEarliest l o'
      → o ≡ o'
  IsEarliest-unique l none none d h h' = refl
  IsEarliest-unique l none (some n) d h h' = absurd (clash l n h'.0 h'.1 h)
  IsEarliest-unique l (some n) none d h h' = absurd (clash l n h.0 h.1 h')
  IsEarliest-unique l (some n) (some n') d h h' =
      let a : key n ≤ key n' = All-mem (λ m. p m ≡ true → key n ≤ key m) h.2 h'.0 h'.1 in
      let b : key n' ≤ key n = All-mem (λ m. p m ≡ true → key n' ≤ key m) h'.2 h.0 h.1 in
      ap some (d n n' h.0 h'.0 (omega arith))

  of_sorted : (l : List N) {n : N} → Memᴰ n (order_by key l) → Memᴰ n l
  of_sorted l m = All-mem (λ x. Memᴰ x l) (All-order_by key (λ x. Memᴰ x l) l (All-mem_self l)) m

  -- Sorting changes nothing.
  pub IsLatest-order_by : (l : List N) (o : Option N) → IsLatest (order_by key l) o → IsLatest l o
  IsLatest-order_by l none h = All-order_by_inv key _ l h
  IsLatest-order_by l (some n) h = (of_sorted l h.0, h.1, All-order_by_inv key _ l h.2)

  pub IsEarliest-order_by :
      (l : List N) (o : Option N) → IsEarliest (order_by key l) o → IsEarliest l o
  IsEarliest-order_by l none h = All-order_by_inv key _ l h
  IsEarliest-order_by l (some n) h = (of_sorted l h.0, h.1, All-order_by_inv key _ l h.2)

  -- On a sorted list the last record that passes is a latest one.
  abbrev pub last_with : List N → Option N
  last_with [] = none
  last_with (x ∷ xs) = or_read (last_with xs) (if p x then some x else none)

  last_step :
      (x : N) (xs : List N) (o : Option N)
      → All (λ m. key x ≤ key m) xs
      → IsLatest xs o
      → IsLatest (x ∷ xs) (or_read o (if p x then some x else none))
  last_step x xs (some n) s h = (Memᴰ.tail h.0, h.1, (λ _. All-mem (λ m. key x ≤ key m) s h.0, h.2))
  last_step x xs none s h = elim (Bool-cases (p x)) [
    | inl t ↦ rw t (Memᴰ.head refl, t, (λ _. omega arith, All-map _ _ (λ m f q. absurd (cc)) xs h))
    | inr t ↦ rw t (t, h)
  ]

  pub last_with-IsLatest : (l : List N) → IsSorted key l → IsLatest l (last_with l)
  last_with-IsLatest [] s = tt
  last_with-IsLatest (x ∷ xs) s = last_step x xs (last_with xs) s.0 (last_with-IsLatest xs s.1)

  -- On a sorted list the first record that passes is an earliest one.
  pub fetch_one-IsEarliest : (l : List N) → IsSorted key l → IsEarliest l (fetch_one p l)
  fetch_one-IsEarliest [] s = tt
  fetch_one-IsEarliest (x ∷ xs) s = elim (Bool-cases (p x)) [
    | inl t ↦ rw t (Memᴰ.head refl, t, (λ _. omega arith, All-map _ _ (λ m f q. f) xs s.0))
    | inr t ↦ rw t (earliest_skip x xs (fetch_one p xs) t (fetch_one-IsEarliest xs s.1))
  ]
    where
      earliest_skip :
          (x : N) (xs : List N) (o : Option N)
          → p x ≡ false
          → IsEarliest xs o
          → IsEarliest (x ∷ xs) o
      earliest_skip x xs none t h = (t, h)
      earliest_skip x xs (some n) t h = (Memᴰ.tail h.0, h.1, (λ q. absurd (cc), h.2))
