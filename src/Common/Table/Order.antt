-- ===== src/Common/Table/Order.antt =====
-- ORDER BY gives a sorted list of the same rows.
use Prim.Native.Nat.{ℕ, zero, suc, ◌≤◌}
use mathlib.Core.Path.{◌≡◌}
use mathlib.Core.Logic.{inl, inr}
use mathlib.Core.Bool.{Bool, true}
use mathlib.Core.List.{List, [], ◌∷◌}
use native.Mathlib.Omega.{arith}
use portfolio_management.Common.Tests.{leb, Bool-cases}
use portfolio_management.Common.Lists.{All, All-map, All-take, keep, take}
use portfolio_management.Common.Table.{insert_by, order_by}

module _ {ℓ} {R : Type ℓ} (k : R → ℕ) where
  -- Each row's key is at most those of the rows behind it.
  abbrev pub IsSorted : List R → Type ℓ
  IsSorted [] = Unit
  IsSorted (r ∷ rs) = All (λ x. k r ≤ k x) rs × IsSorted rs

module _ {ℓ} {R : Type ℓ} (k : R → ℕ) where
  pub All-insert_by {κ} :
      (P : R → Type κ) (r : R) (xs : List R) → P r → All P xs → All P (insert_by k r xs)
  unfolding insert_by
  All-insert_by P r [] p h = (p, tt)
  All-insert_by P r (x ∷ xs) p h = elim (Bool-cases (leb (k r) (k x))) [
    | inl e ↦ rw e (p, h)
    | inr e ↦ rw e (h.0, All-insert_by P r xs p h.1)
  ]

  pub All-order_by {κ} : (P : R → Type κ) (xs : List R) → All P xs → All P (order_by k xs)
  unfolding order_by
  All-order_by P [] h = tt
  All-order_by P (x ∷ xs) h = All-insert_by P x (order_by k xs) h.0 (All-order_by P xs h.1)

  All-insert_by_inv {κ} :
      (P : R → Type κ) (r : R) (xs : List R) → All P (insert_by k r xs) → P r × All P xs
  unfolding insert_by
  All-insert_by_inv P r [] h = (h.0, tt)
  All-insert_by_inv P r (x ∷ xs) h = elim (Bool-cases (leb (k r) (k x))) [
    | inl e ↦ let g : All P (r ∷ x ∷ xs) = rw e at h in (g.0, g.1)
    | inr e ↦
        let g : All P (x ∷ insert_by k r xs) = rw e at h in
        let (p, q) = All-insert_by_inv P r xs g.1 in (p, (g.0, q))
  ]

  pub All-order_by_inv {κ} : (P : R → Type κ) (xs : List R) → All P (order_by k xs) → All P xs
  unfolding order_by
  All-order_by_inv P [] h = tt
  All-order_by_inv P (x ∷ xs) h =
      let (p, q) = All-insert_by_inv P x (order_by k xs) h in (p, All-order_by_inv P xs q)

  insert_by-IsSorted : (r : R) (xs : List R) → IsSorted k xs → IsSorted k (insert_by k r xs)
  unfolding insert_by
  insert_by-IsSorted r [] h = (tt, tt)
  insert_by-IsSorted r (x ∷ xs) h = elim (Bool-cases (leb (k r) (k x))) [
    | inl e ↦ rw e ((ground arith, All-map _ _ (λ y q. ground arith) xs h.0), h)
    | inr e ↦
        rw e (All-insert_by (λ y. k x ≤ k y) r xs (ground arith) h.0, insert_by-IsSorted r xs h.1)
  ]

  pub order_by-IsSorted : (xs : List R) → IsSorted k (order_by k xs)
  unfolding order_by
  order_by-IsSorted [] = tt
  order_by-IsSorted (x ∷ xs) = insert_by-IsSorted x (order_by k xs) (order_by-IsSorted xs)

  pub take-IsSorted : (n : ℕ) (xs : List R) → IsSorted k xs → IsSorted k (take n xs)
  take-IsSorted zero xs h = tt
  take-IsSorted (suc n) [] h = tt
  take-IsSorted (suc n) (x ∷ xs) h = (All-take (λ y. k x ≤ k y) n xs h.0, take-IsSorted n xs h.1)

-- What a filter keeps passes its test.
pub All-keep_self {ℓ} :
    {A : Type ℓ} (p : A → Bool) (xs : List A) → All (λ x. p x ≡ true) (keep p xs)
All-keep_self p [] = tt
All-keep_self p (x ∷ xs) = elim (Bool-cases (p x)) [
  | inl e ↦ rw e (e, All-keep_self p xs)
  | inr e ↦ rw e (All-keep_self p xs)
]
