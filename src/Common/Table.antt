-- ===== src/Common/Table.antt =====
-- A database table as the list of its rows, with the statements that the stores use.
pub mod Edges
pub mod Evolution
pub mod Keys
pub mod Order
pub mod Selection
use Prim.Native.Nat.{ℕ, suc}
use mathlib.Core.Bool.{Bool}
use mathlib.Core.List.{List, [], ◌∷◌}
use mathlib.Core.Option.{Option, none, some}
use portfolio_management.Common.Tests.{if◌then◌else◌, leb}

module _ {ℓ} {R : Type ℓ} where
  -- UPDATE … SET f WHERE p
  abbrev pub update : (R → Bool) → (R → R) → List R → List R
  update p f [] = []
  update p f (r ∷ rs) = (if p r then f r else r) ∷ update p f rs

  -- the `rowcount` of that statement
  abbrev pub row_count : (R → Bool) → List R → ℕ
  row_count p [] = 0
  row_count p (r ∷ rs) = let rest = row_count p rs in if p r then suc rest else rest

  -- SELECT … WHERE p, `fetchone`
  abbrev pub fetch_one : (R → Bool) → List R → Option R
  fetch_one p [] = none
  fetch_one p (r ∷ rs) = let rest = fetch_one p rs in if p r then some r else rest

  -- ORDER BY k; rows with equal keys keep the table's order
  unfoldable pub insert_by : (R → ℕ) → R → List R → List R
  insert_by k r [] = r ∷ []
  insert_by k r (x ∷ xs) =
      let rest = insert_by k r xs in if leb (k r) (k x) then r ∷ x ∷ xs else x ∷ rest

  unfoldable pub order_by : (R → ℕ) → List R → List R
  unfolding insert_by
  order_by k [] = []
  order_by k (r ∷ rs) = insert_by k r (order_by k rs)
