-- ===== src/Common/Table/Selection.antt =====
-- What a SELECT finds of one key, where keys are unique.
use Prim.Native.String.{String}
use mathlib.Core.Path.{◌≡◌, refl, ap, subst}
use mathlib.Core.Logic.{inl, inr}
use mathlib.Core.Bool.{Bool, true, false, ◌||◌}
use mathlib.Core.List.{List, [], ◌∷◌, ◌++◌}
use mathlib.Core.Option.{some, none}
use text.Mathlib.TextEquality.{eq_iff}
use portfolio_management.Common.Tests.{if◌then◌else◌, str_eq, Bool-cases, or_false}
use portfolio_management.Common.Lists.{All, keep, any_of}
use portfolio_management.Common.Table.{fetch_one}
use portfolio_management.Common.Table.Keys.{with_key, HasUniqueKeys}

module _ {ℓ} {R : Type ℓ} (key : R → String) (k : String) (p : R → Bool) where
  -- Every row has another key.
  abbrev pub Others : List R → Type 0
  Others = All (λ r. str_eq (key r) k ≡ false)

  Others-keep : (rs : List R) → fetch_one (with_key key k) rs ≡ none → Others (keep p rs)
  Others-keep [] e = tt
  Others-keep (x ∷ rs) e = elim (Bool-cases (str_eq (key x) k)) [
    | inl t ↦ let g : some x ≡ none = rw t at e in cc
    | inr t ↦ elim (Bool-cases (p x)) [
      | inl h ↦ rw h (t, Others-keep rs (rw t at e))
      | inr h ↦ rw h (Others-keep rs (rw t at e))
    ]
  ]

  -- The row of a key is selected once or not at all, and every other row that is selected has
  -- another key.
  pub keep-split :
      (rs : List R) (r : R)
      → HasUniqueKeys key rs
      → fetch_one (with_key key k) rs ≡ some r
      → (before after : List R) × Others before
        × Others after
        × (keep p rs ≡ before ++ (if p r then r ∷ after else after))
  keep-split [] r u e = cc
  keep-split (x ∷ rs) r u e = elim (Bool-cases (str_eq (key x) k)) [
    | inl t ↦
        let g : some x ≡ some r = rw t at e in
        let same : x ≡ r = cc in
        let alone : fetch_one (with_key key k) rs ≡ none =
          subst (λ s. fetch_one (with_key key s) rs ≡ none) ((eq_iff (key x) k).0 t) u.0 in
        ([], keep p rs, tt, Others-keep rs alone, rw same refl)
    | inr t ↦
        let (before, after, b, a, h) = keep-split rs r u.1 (rw t at e) in
        elim (Bool-cases (p x)) [
          | inl q ↦ (x ∷ before, after, (t, b), a, rw q (ap (◌∷◌ x) h))
          | inr q ↦ (before, after, b, a, rw q h)
        ]
  ]

  -- Where nothing that is selected passes a test that the row of a key passes, all selected rows have
  -- another key.
  pub Others-selected :
      (q : R → Bool) (rs : List R) (r : R)
      → HasUniqueKeys key rs
      → fetch_one (with_key key k) rs ≡ some r
      → q r ≡ true
      → any_of q (keep p rs) ≡ false
      → Others (keep p rs)
  Others-selected q [] r u e h none_such = tt
  Others-selected q (x ∷ rs) r u e h none_such = elim (Bool-cases (str_eq (key x) k)) [
    | inl t ↦
        let g : some x ≡ some r = rw t at e in
        let same : x ≡ r = cc in
        let alone : fetch_one (with_key key k) rs ≡ none =
          subst (λ s. fetch_one (with_key key s) rs ≡ none) ((eq_iff (key x) k).0 t) u.0 in
        elim (Bool-cases (p x)) [
          | inl s ↦
              let q_x : q x ≡ true = rw same h in
              let impossible : true ≡ false = rw (s, q_x) at none_such in cc
          | inr s ↦ rw s (Others-keep rs alone)
        ]
    | inr t ↦ elim (Bool-cases (p x)) [
      | inl s ↦
          let rest : (q x || any_of q (keep p rs)) ≡ false = rw s at none_such in
          rw s (t, Others-selected q rs r u.1 (rw t at e) h (or_false rest).1)
      | inr s ↦ rw s (Others-selected q rs r u.1 (rw t at e) h (rw s at none_such))
    ]
  ]
