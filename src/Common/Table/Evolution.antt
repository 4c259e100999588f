-- ===== src/Common/Table/Evolution.antt =====
-- How a table changes: its rows take steps of a relation in place, and new rows follow at the end.
use Prim.Native.String.{String}
use mathlib.Core.Path.{◌≡◌, ap, subst}
use mathlib.Core.Logic.{inl, inr}
use mathlib.Core.Bool.{Bool, true, false}
use mathlib.Core.List.{List, [], ◌∷◌, ◌++◌}
use mathlib.Core.Option.{some}
use portfolio_management.Common.Tests.{str_eq, Bool-cases}
use portfolio_management.Common.Lists.{All, All-map}
use portfolio_management.Common.Table.{update, fetch_one}

-- `S` relates a row to what it has become, and `N` holds of the rows that are new.
pub data Evolves {ℓ κ μ} {R : Type ℓ} (S : R → R → Type κ) (N : R → Type μ)
    : List R → List R → Type (ℓ ⊔ κ ⊔ μ) where
  fresh : {ys : List R} → All N ys → Evolves S N [] ys
  step : {x y : R} {xs ys : List R} → S x y → Evolves S N xs ys → Evolves S N (x ∷ xs) (y ∷ ys)

module _ {ℓ κ μ} {R : Type ℓ} (S : R → R → Type κ) (N : R → Type μ) where
  pub Evolves-refl : ((r : R) → S r r) → (rs : List R) → Evolves S N rs rs
  Evolves-refl s [] = fresh tt
  Evolves-refl s (r ∷ rs) = step (s r) (Evolves-refl s rs)

  pub Evolves-update :
      ((r : R) → S r r)
      → (p : R → Bool) (f : R → R) → ((r : R) → p r ≡ true → S r (f r))
      → (rs : List R) → Evolves S N rs (update p f rs)
  Evolves-update s p f h [] = fresh tt
  Evolves-update s p f h (r ∷ rs) =
      step (elim (Bool-cases (p r)) [ inl e ↦ rw e (h r e) | inr e ↦ rw e (s r) ])
        (Evolves-update s p f h rs)

  pub Evolves-append : ((r : R) → S r r) → (rs ys : List R) → All N ys → Evolves S N rs (rs ++ ys)
  Evolves-append s [] ys n = fresh n
  Evolves-append s (r ∷ rs) ys n = step (s r) (Evolves-append s rs ys n)

  pub All-Evolves {ν} :
      (P : R → Type ν)
      → ((x y : R) → S x y → P x → P y)
      → {xs ys : List R} → Evolves S N xs ys
      → ((y : R) → N y → P y)
      → All P xs
      → All P ys
  All-Evolves P k (fresh {ys = ys} n) new h = new_map ys n
    where
      new_map : (zs : List R) → All N zs → All P zs
      new_map [] a = tt
      new_map (z ∷ zs) a = (new z a.0, new_map zs a.1)
  All-Evolves P k (step {x = x} {y = y} s e) new h = (k x y s h.0, All-Evolves P k e new h.1)

  new_All :
      ((x y : R) → S x y → N x → N y) → {xs ys : List R} → Evolves S N xs ys → All N xs → All N ys
  new_All k e h = All-Evolves N k e (λ y n. n) h

  pub Evolves-trans :
      ((x y z : R) → S x y → S y z → S x z)
      → ((x y : R) → S x y → N x → N y)
      → {xs ys zs : List R} → Evolves S N xs ys
      → Evolves S N ys zs
      → Evolves S N xs zs
  Evolves-trans t k (fresh n) e = fresh (new_All k e n)
  Evolves-trans t k (step {x = x} {y = y} s d) (step {y = z} u e) =
      step (t x y z s u) (Evolves-trans t k d e)

  -- A row that a test on the key's columns finds before is found after, and has taken a step.
  pub found-Evolves :
      (p : R → Bool)
      → ((x y : R) → S x y → p y ≡ p x)
      → {xs ys : List R} → Evolves S N xs ys
      → (r : R) → fetch_one p xs ≡ some r
      → (r' : R) × (fetch_one p ys ≡ some r') × S r r'
  found-Evolves p same (fresh n) r h = cc
  found-Evolves p same (step {x = x} {y = y} s e) r h = elim (Bool-cases (p x)) [
    | inl t ↦
        let q : p y ≡ true = rw (same x y s) t in
        let g : some x ≡ some r = rw t at h in
        let same_row : x ≡ r = cc in (y, rw q, subst (λ z. S z y) same_row s)
    | inr t ↦ let q : p y ≡ false = rw (same x y s) t in rw q (found-Evolves p same e r (rw t at h))
  ]

  pub fetch_one-Evolves :
      (key : R → String)
      → ((x y : R) → S x y → key y ≡ key x)
      → (k : String) → {xs ys : List R} → Evolves S N xs ys
      → (r : R) → fetch_one (λ x. str_eq (key x) k) xs ≡ some r
      → (r' : R) × (fetch_one (λ x. str_eq (key x) k) ys ≡ some r') × S r r'
  fetch_one-Evolves key same k e r h =
      found-Evolves (λ x. str_eq (key x) k) (λ x y d. ap (λ s. str_eq s k) (same x y d)) e r h

-- The same under weaker relations.
pub Evolves-map {ℓ κ μ κ' μ'} :
    {R : Type ℓ} (S : R → R → Type κ) (N : R → Type μ) (S' : R → R → Type κ') (N' : R → Type μ')
    → ((x y : R) → S x y → S' x y)
    → ((y : R) → N y → N' y)
    → {xs ys : List R} → Evolves S N xs ys
    → Evolves S' N' xs ys
Evolves-map S N S' N' f g (fresh {ys = ys} n) = fresh (All-map N N' g ys n)
Evolves-map S N S' N' f g (step {x = x} {y = y} s e) = step (f x y s) (Evolves-map S N S' N' f g e)

-- Steps of one relation, then of another.
pub Evolves-compose {ℓ κ κ₂ μ ν} :
    {R : Type ℓ} (S : R → R → Type κ) (S' : R → R → Type κ₂) (S'' : R → R → Type ν) (N : R → Type μ)
    → ((x y z : R) → S x y → S' y z → S'' x z)
    → ((x y : R) → S' x y → N x → N y)
    → {xs ys zs : List R} → Evolves S N xs ys
    → Evolves S' N ys zs
    → Evolves S'' N xs zs
Evolves-compose S S' S'' N t k (fresh n) e = fresh (new_All S' N k e n)
Evolves-compose S S' S'' N t k (step {x = x} {y = y} s d) (step {y = z} u e) =
    step (t x y z s u) (Evolves-compose S S' S'' N t k d e)
