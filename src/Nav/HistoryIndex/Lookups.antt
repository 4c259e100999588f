-- ===== src/Nav/HistoryIndex/Lookups.antt =====
-- What the index reads: the last or the first record of a group on the sorted list, and the record
-- before the position that `bisect_left` gives.
use portfolio_management.Common.{
  ℕ, zero, suc, ◌-◌, ◌≤◌, ◌<◌, ◌≡◌, refl, sym, ap, ◌∙◌, inl, inr, Bool, true, false, Option, none,
  some, List, [], ◌∷◌, map, arith, ◌==◌, if◌then◌else◌, get_elem?, All, Bool-cases, length,
}
use portfolio_management.Common.Dict.{
  Eq, or_read, or_read-none, dict_get, dict_set, set_default, dict_get-set, dict_get-set_default,
  nat_eq, pair_eq,
}
use portfolio_management.Common.Table.{fetch_one}
use portfolio_management.Common.Table.Order.{IsSorted}
use portfolio_management.Nav.Dates.{Date, before}
use portfolio_management.Nav.HistoryIndex.{
  Maps, key_of, year_of, month_of, at_before, bisect_left, add_nav, add_navs,
}
use portfolio_management.Nav.HistoryIndex.Extremes.{last_with}

-- a map of the last, and of the first, record of each group
module _ {N K : Type 0} ⦃e : Eq K⦄ (group : N → K) where
  abbrev pub sets : List N → List (K × N) → List (K × N)
  sets [] d = d
  sets (n ∷ ns) d = sets ns (dict_set (group n) n d)

  abbrev pub defaults : List N → List (K × N) → List (K × N)
  defaults [] d = d
  defaults (n ∷ ns) d = defaults ns (set_default (group n) n d)

  abbrev pub last_in : K → List N → Option N
  last_in k [] = none
  last_in k (x ∷ xs) = or_read (last_in k xs) (if e.beq (group x) k then some x else none)

  or_read_assoc : (a b c : Option N) → or_read a (or_read b c) ≡ or_read (or_read a b) c
  or_read_assoc none b c = refl
  or_read_assoc (some x) b c = refl

  written :
      (b : Bool) (x : N) (o : Option N)
      → (if b then some x else o) ≡ or_read (if b then some x else none) o
  written true x o = refl
  written false x o = refl

  pub dict_get-sets :
      (k : K) (ns : List N) (d : List (K × N))
      → dict_get k (sets ns d) ≡ or_read (last_in k ns) (dict_get k d)
  dict_get-sets k [] d = refl
  dict_get-sets k (n ∷ ns) d =
      dict_get-sets k ns (dict_set (group n) n d)
      ∙ ap (or_read (last_in k ns))
          (dict_get-set (group n) k n d ∙ written (e.beq (group n) k) n (dict_get k d))
      ∙ or_read_assoc (last_in k ns) _ (dict_get k d)

  fetched :
      (b : Bool) (x : N) (o : Option N)
      → or_read (if b then some x else none) o ≡ (if b then some x else o)
  fetched true x o = refl
  fetched false x o = refl

  pub dict_get-defaults :
      (k : K) (ns : List N) (d : List (K × N))
      → dict_get k (defaults ns d) ≡ or_read (dict_get k d) (fetch_one (λ n. e.beq (group n) k) ns)
  dict_get-defaults k [] d = sym (or_read-none (dict_get k d))
  dict_get-defaults k (n ∷ ns) d =
      dict_get-defaults k ns (set_default (group n) n d)
      ∙ ap (λ o. or_read o (fetch_one (λ m. e.beq (group m) k) ns))
          (dict_get-set_default (group n) k n d)
      ∙ sym (or_read_assoc (dict_get k d) _ _)
      ∙ ap (or_read (dict_get k d))
          (fetched (e.beq (group n) k) n (fetch_one (λ m. e.beq (group m) k) ns))

module _ {N : Type 0} (date : N → Date) where
  abbrev navs_key : N → ℕ
  navs_key n = key_of date n

  -- the four maps of the loop
  pub add_navs_year_end :
      (ns : List N) (m : Maps N)
      → (add_navs date ns m).year_end_map ≡ sets (year_of date) ns m.year_end_map
  unfolding add_navs
  add_navs_year_end [] m = refl
  add_navs_year_end (n ∷ ns) m = add_navs_year_end ns (add_nav date n m)

  pub add_navs_year_first :
      (ns : List N) (m : Maps N)
      → (add_navs date ns m).year_first_map ≡ defaults (year_of date) ns m.year_first_map
  unfolding add_navs
  add_navs_year_first [] m = refl
  add_navs_year_first (n ∷ ns) m = add_navs_year_first ns (add_nav date n m)

  pub add_navs_month_end :
      (ns : List N) (m : Maps N)
      → (add_navs date ns m).month_end_map ≡ sets (month_of date) ns m.month_end_map
  unfolding add_navs
  add_navs_month_end [] m = refl
  add_navs_month_end (n ∷ ns) m = add_navs_month_end ns (add_nav date n m)

  pub add_navs_month_first :
      (ns : List N) (m : Maps N)
      → (add_navs date ns m).month_first_map ≡ defaults (month_of date) ns m.month_first_map
  unfolding add_navs
  add_navs_month_first [] m = refl
  add_navs_month_first (n ∷ ns) m = add_navs_month_first ns (add_nav date n m)

  -- the last record before the position that `bisect_left` gives
  get_elem?-some : (xs : List N) (i : ℕ) → i < length xs → (n : N) × (get_elem? xs i ≡ some n)
  get_elem?-some [] i h = elim h [ ]
  get_elem?-some (x ∷ xs) zero h = (x, refl)
  get_elem?-some (x ∷ xs) (suc i) h = get_elem?-some xs i (omega arith)

  bisect_left-le : (d : Date) (xs : List N) → bisect_left d (map date xs) ≤ length xs
  unfolding bisect_left
  bisect_left-le d [] = omega arith
  bisect_left-le d (x ∷ xs) = ground (arith, bisect_left-le d xs)

  at_suc : (xs : List N) (b : ℕ) → at_before date xs (suc b) ≡ get_elem? xs b
  at_suc xs b =
      let e : suc b - 1 ≡ b = omega arith in
      let z : (suc b == 0) ≡ false = ground arith in rw (e, z) refl

  at_before-suc :
      (x : N) (xs : List N) (b : ℕ)
      → b ≤ length xs
      → at_before date (x ∷ xs) (suc b) ≡ or_read (at_before date xs b) (some x)
  at_before-suc x xs zero h = refl
  at_before-suc x xs (suc b) h =
      let (n, e) = get_elem?-some xs b h in
      at_suc (x ∷ xs) (suc b) ∙ e ∙ sym (ap (λ o. or_read o (some x)) (at_suc xs b ∙ e))

  none-before :
      (d : Date) (x : N) (xs : List N)
      → before (date x) d ≡ false
      → All (λ m. navs_key x ≤ navs_key m) xs
      → last_with date (λ n. before (date n) d) xs ≡ none
  none-before d x [] f h = refl
  none-before d x (y ∷ ys) f h =
      let g : before (date y) d ≡ false = ground (arith, h.0) in
      rw (none-before d x ys f h.1, g) refl

  pub at_before-bisect :
      (d : Date) (xs : List N)
      → IsSorted navs_key xs
      → at_before date xs (bisect_left d (map date xs)) ≡ last_with date (λ n. before (date n) d) xs
  unfolding bisect_left
  at_before-bisect d [] s = refl
  at_before-bisect d (x ∷ xs) s = elim (Bool-cases (before (date x) d)) [
    | inl t ↦ rw t (
        at_before-suc x xs _ (bisect_left-le d xs)
        ∙ ap (λ o. or_read o (some x)) (at_before-bisect d xs s.1))
    | inr t ↦ rw t (sym (ap (λ o. or_read o none) (none-before d x xs t s.0)))
  ]
