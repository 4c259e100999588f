-- ===== src/Common/Table/Keys.antt =====
-- Tables with a primary key: no two rows have the same key, and statements keep it so.
use Prim.Native.Nat.{ℕ}
use Prim.Native.String.{String}
use mathlib.Core.Path.{◌≡◌, refl, subst, ap, ◌∙◌}
use mathlib.Core.Logic.{inl, inr}
use mathlib.Core.Bool.{Bool, true, false, ◌&&◌}
use mathlib.Core.List.{List, [], ◌∷◌, ◌++◌}
use mathlib.Core.Option.{Option, none, some}
use native.Mathlib.Omega.{arith}
use text.Mathlib.TextEquality.{eq_iff}
use portfolio_management.Common.Tests.{if◌then◌else◌, str_eq, str_eq_refl, Bool-cases}
use portfolio_management.Common.Table.{update, row_count, fetch_one}

pub str_ne_sym : (s t : String) → str_eq s t ≡ false → str_eq t s ≡ false
str_ne_sym s t h = ground (arith, eq_iff s t, eq_iff t s)

module _ {ℓ} {R : Type ℓ} where
  -- What `fetchone` returns passes the test.
  pub fetch_one_holds : (p : R → Bool) (rs : List R) {r : R} → fetch_one p rs ≡ some r → p r ≡ true
  fetch_one_holds p [] e = cc
  fetch_one_holds p (x ∷ rs) {r} e = elim (Bool-cases (p x)) [
    | inl t ↦
        let g : some x ≡ some r = rw t at e in
        let same : x ≡ r = cc in subst (λ y. p y ≡ true) same t
    | inr t ↦ fetch_one_holds p rs (rw t at e)
  ]

module _ {ℓ} {R : Type ℓ} (key : R → String) where
  abbrev pub with_key : String → R → Bool
  with_key k r = str_eq (key r) k

  abbrev pub HasUniqueKeys : List R → Type ℓ
  HasUniqueKeys [] = Unit
  HasUniqueKeys (r ∷ rs) = (fetch_one (with_key (key r)) rs ≡ none) × HasUniqueKeys rs

module _ {ℓ} {R : Type ℓ} where
  -- what an update makes of a row that is there
  abbrev pub image : (R → Bool) → (R → R) → Option R → Option R
  image p f none = none
  image p f (some r) = some (if p r then f r else r)

  abbrev pub found : (R → Bool) → Option R → ℕ
  found q none = 0
  found q (some r) = if q r then 1 else 0

module _ {ℓ} {R : Type ℓ} (key : R → String) where
  row_count-none :
      (k : String) (q : R → Bool) (rs : List R)
      → fetch_one (with_key key k) rs ≡ none
      → row_count (λ x. str_eq (key x) k && q x) rs ≡ 0
  row_count-none k q [] e = refl
  row_count-none k q (x ∷ rs) e = elim (Bool-cases (str_eq (key x) k)) [
    | inl t ↦ let g : some x ≡ none = rw t at e in cc
    | inr t ↦ rw t (row_count-none k q rs (rw t at e))
  ]

  -- With a primary key, a statement on one key hits the row that a read finds, or nothing.
  pub row_count-key :
      (k : String) (q : R → Bool) (rs : List R)
      → HasUniqueKeys key rs
      → row_count (λ x. str_eq (key x) k && q x) rs ≡ found q (fetch_one (with_key key k) rs)
  row_count-key k q [] u = refl
  row_count-key k q (x ∷ rs) u = elim (Bool-cases (str_eq (key x) k)) [
    | inl t ↦
        let e : key x ≡ k = (eq_iff (key x) k).0 t in
        let alone : fetch_one (with_key key k) rs ≡ none =
          subst (λ s. fetch_one (with_key key s) rs ≡ none) e u.0 in
        rw t (rw (row_count-none k q rs alone))
    | inr t ↦ rw t (row_count-key k q rs u.1)
  ]

  module _ (p : R → Bool) (f : R → R) (same : (r : R) → key (f r) ≡ key r) where
    same_if : (r : R) → key (if p r then f r else r) ≡ key r
    same_if r = elim (Bool-cases (p r)) [ inl t ↦ rw t (same r) | inr t ↦ rw t refl ]

    -- An update that keeps keys changes the row that a read finds.
    pub fetch_one-update :
        (k : String) (rs : List R)
        → fetch_one (with_key key k) (update p f rs) ≡ image p f (fetch_one (with_key key k) rs)
    fetch_one-update k [] = refl
    fetch_one-update k (x ∷ rs) = elim (Bool-cases (str_eq (key x) k)) [
      | inl u ↦ rw (same_if x, u) refl
      | inr u ↦ rw (same_if x, u) (fetch_one-update k rs)
    ]

    fetch_one-update-none :
        (k : String) (rs : List R)
        → fetch_one (with_key key k) rs ≡ none
        → fetch_one (with_key key k) (update p f rs) ≡ none
    fetch_one-update-none k rs e = fetch_one-update k rs ∙ ap (image p f) e

    pub update-HasUniqueKeys :
        (rs : List R) → HasUniqueKeys key rs → HasUniqueKeys key (update p f rs)
    update-HasUniqueKeys [] u = tt
    update-HasUniqueKeys (x ∷ rs) u =
        (rw (same_if x) (fetch_one-update-none (key x) rs u.0), update-HasUniqueKeys rs u.1)

  image_other :
      (j k : String) (q : R → Bool) (f : R → R) (rs : List R) (o : Option R)
      → fetch_one (with_key key j) rs ≡ o
      → str_eq j k ≡ false
      → image (λ x. str_eq (key x) k && q x) f o ≡ o
  image_other j k q f rs none e d = refl
  image_other j k q f rs (some r) e d =
      let is_j : key r ≡ j = (eq_iff (key r) j).0 (fetch_one_holds (with_key key j) rs e) in
      rw (is_j, d) refl

  -- A statement on one key changes no other key's row.
  pub fetch_one-update_other :
      (j k : String) (q : R → Bool) (f : R → R)
      → ((r : R) → key (f r) ≡ key r)
      → str_eq j k ≡ false
      → (rs : List R)
      → fetch_one (with_key key j) (update (λ x. str_eq (key x) k && q x) f rs)
        ≡ fetch_one (with_key key j) rs
  fetch_one-update_other j k q f same d rs =
      fetch_one-update (λ x. str_eq (key x) k && q x) f same j rs
      ∙ image_other j k q f rs (fetch_one (with_key key j) rs) refl d

  -- A read by key and a further test finds the row that the key finds, if it passes the test.
  pub fetch_one-and :
      (k : String) (q : R → Bool) (rs : List R) (r : R)
      → fetch_one (with_key key k) rs ≡ some r
      → q r ≡ true
      → fetch_one (λ x. str_eq (key x) k && q x) rs ≡ some r
  fetch_one-and k q [] r e h = cc
  fetch_one-and k q (x ∷ rs) r e h = elim (Bool-cases (str_eq (key x) k)) [
    | inl t ↦ let g : some x ≡ some r = rw t at e in let same : x ≡ r = cc in rw (t, same, h) refl
    | inr t ↦ rw t (fetch_one-and k q rs r (rw t at e) h)
  ]

  -- … and without the key's row nothing, whatever the test.
  fetch_one-and_none :
      (k : String) (q : R → Bool) (rs : List R)
      → fetch_one (with_key key k) rs ≡ none
      → fetch_one (λ x. str_eq (key x) k && q x) rs ≡ none
  fetch_one-and_none k q [] e = refl
  fetch_one-and_none k q (x ∷ rs) e = elim (Bool-cases (str_eq (key x) k)) [
    | inl t ↦ let g : some x ≡ none = rw t at e in cc
    | inr t ↦ rw t (fetch_one-and_none k q rs (rw t at e))
  ]

  -- With a primary key, a read by key and a further test finds nothing where the key's row fails it.
  pub fetch_one-and_fails :
      (k : String) (q : R → Bool) (rs : List R) (r : R)
      → HasUniqueKeys key rs
      → fetch_one (with_key key k) rs ≡ some r
      → q r ≡ false
      → fetch_one (λ x. str_eq (key x) k && q x) rs ≡ none
  fetch_one-and_fails k q [] r u e h = cc
  fetch_one-and_fails k q (x ∷ rs) r u e h = elim (Bool-cases (str_eq (key x) k)) [
    | inl t ↦
        let g : some x ≡ some r = rw t at e in
        let same : x ≡ r = cc in
        let is_k : key x ≡ k = (eq_iff (key x) k).0 t in
        let alone : fetch_one (with_key key k) rs ≡ none =
          subst (λ s. fetch_one (with_key key s) rs ≡ none) is_k u.0 in
        rw (t, same, h) (fetch_one-and_none k q rs alone)
    | inr t ↦ rw t (fetch_one-and_fails k q rs r u.1 (rw t at e) h)
  ]

  fetch_one-append_ne :
      (k : String) (rs : List R) (r : R)
      → fetch_one (with_key key k) rs ≡ none
      → str_eq (key r) k ≡ false
      → fetch_one (with_key key k) (rs ++ r ∷ []) ≡ none
  fetch_one-append_ne k [] r e d = rw d
  fetch_one-append_ne k (x ∷ rs) r e d = elim (Bool-cases (str_eq (key x) k)) [
    | inl t ↦ let g : some x ≡ none = rw t at e in cc
    | inr t ↦ rw t (fetch_one-append_ne k rs r (rw t at e) d)
  ]

  -- An append hides no row that is there.
  pub fetch_one-append_keeps :
      (k : String) (rs : List R) (x r : R)
      → fetch_one (with_key key k) rs ≡ some r
      → fetch_one (with_key key k) (rs ++ x ∷ []) ≡ some r
  fetch_one-append_keeps k [] x r e = cc
  fetch_one-append_keeps k (y ∷ rs) x r e = elim (Bool-cases (str_eq (key y) k)) [
    | inl t ↦ rw t (rw t at e)
    | inr t ↦ rw t (fetch_one-append_keeps k rs x r (rw t at e))
  ]

  -- The row that is appended under a new key is the one that a read of the key finds.
  pub fetch_one-append :
      (rs : List R) (r : R)
      → fetch_one (with_key key (key r)) rs ≡ none
      → fetch_one (with_key key (key r)) (rs ++ r ∷ []) ≡ some r
  fetch_one-append [] r e = rw (str_eq_refl (key r))
  fetch_one-append (x ∷ rs) r e = elim (Bool-cases (str_eq (key x) (key r))) [
    | inl t ↦ let g : some x ≡ none = rw t at e in cc
    | inr t ↦ rw t (fetch_one-append rs r (rw t at e))
  ]

  pub append-HasUniqueKeys :
      (rs : List R) (r : R)
      → fetch_one (with_key key (key r)) rs ≡ none
      → HasUniqueKeys key rs
      → HasUniqueKeys key (rs ++ r ∷ [])
  append-HasUniqueKeys [] r e u = (refl, tt)
  append-HasUniqueKeys (x ∷ rs) r e u = elim (Bool-cases (str_eq (key x) (key r))) [
    | inl t ↦ let g : some x ≡ none = rw t at e in cc
    | inr t ↦ (
      fetch_one-append_ne (key x) rs r u.0 (str_ne_sym (key x) (key r) t),
      append-HasUniqueKeys rs r (rw t at e) u.1,
    )
  ]
