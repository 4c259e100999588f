-- ===== src/Common/Table/Edges.antt =====
-- Rows that stay as they are, or go along one edge of a diagram with their identity frozen.
use mathlib.Core.Path.{◌≡◌, sym, subst}
use mathlib.Core.Logic.{◌⊎◌, inl, inr}

module _ {R St : Type 0} (status : R → St) (Frozen : R → R → Type 0) where
  abbrev pub Via : (St → St → Type 0) → R → R → Type 0
  Via E x y = (y ≡ x) ⊎ (Frozen x y × E (status x) (status y))

  pub Via-map :
      (E F : St → St → Type 0) → ((a b : St) → E a b → F a b) → (x y : R) → Via E x y → Via F x y
  Via-map E F f x y (inl p) = inl p
  Via-map E F f x y (inr (frozen, e)) = inr (frozen, f (status x) (status y) e)

  module _ (frozen_trans : (x y z : R) → Frozen x y → Frozen y z → Frozen x z) where
    pub Via-then :
        (E F G : St → St → Type 0)
        → ((a b : St) → E a b → G a b)
        → ((a b : St) → F a b → G a b)
        → ((a b c : St) → E a b → F b c → G a c)
        → (x y z : R) → Via E x y
        → Via F y z
        → Via G x z
    Via-then E F G f g h x y z (inl p) d = Via-map F G g x z (subst (λ w. Via F w z) p d)
    Via-then E F G f g h x y z (inr (frozen, e)) (inl q) = inr (
        subst (λ w. Frozen x w × G (status x) (status w)) (sym q)
          (frozen, f (status x) (status y) e))
    Via-then E F G f g h x y z (inr (frozen, e)) (inr (frozen', e')) =
        inr (frozen_trans x y z frozen frozen', h (status x) (status y) (status z) e e')

    -- Where no edge follows another, going along two is going along one.
    pub Via-join :
        (E : St → St → Type 0)
        → ((a b c : St) → E a b → E b c → ⊥)
        → (x y z : R) → Via E x y
        → Via E y z
        → Via E x z
    Via-join E none_follows =
        Via-then E E E (λ a b e. e) (λ a b e. e) (λ a b c e e'. absurd (none_follows a b c e e'))
