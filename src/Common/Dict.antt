-- ===== src/Common/Dict.antt =====
-- A Python dict as an association list in insertion order, over any type of keys with a test.
use Prim.Native.Nat.{ℕ}
use Prim.Native.String.{String}
use text.Mathlib.TextEquality.{eq_iff}
use mathlib.Core.Path.{◌≡◌, refl, ap}
use mathlib.Core.Logic.{◌↔◌, inl, inr}
use mathlib.Core.Bool.{Bool, true, ◌&&◌}
use mathlib.Core.Option.{Option, none, some}
use mathlib.Core.List.{List, [], ◌∷◌}
use native.Mathlib.Omega.{arith}
use portfolio_management.Common.Tests.{if◌then◌else◌, ◌==◌, str_eq, Bool-cases}

pub record Eq {ℓ} (K : Type ℓ) : Type ℓ where
  pub beq : K → K → Bool
  pub beq_iff : (a b : K) → (beq a b ≡ true) ↔ (a ≡ b)

pub nat_beq_iff : (a b : ℕ) → ((a == b) ≡ true) ↔ (a ≡ b)
nat_beq_iff a b = ground arith

instance abbrev pub nat_eq : Eq ℕ
nat_eq = record { beq = λ a b. a == b; beq_iff = nat_beq_iff }

pub pair_beq_iff : (a b : ℕ × ℕ) → ((a.0 == b.0 && a.1 == b.1) ≡ true) ↔ (a ≡ b)
pair_beq_iff a b = ground arith

instance abbrev pub pair_eq : Eq (ℕ × ℕ)
pair_eq = record { beq = λ a b. a.0 == b.0 && a.1 == b.1; beq_iff = pair_beq_iff }

instance abbrev pub text_eq : Eq String
text_eq = record { beq = str_eq; beq_iff = eq_iff }

-- The first of two reads that finds something.
abbrev pub or_read {ℓ} : {A : Type ℓ} → Option A → Option A → Option A
or_read none o = o
or_read (some a) _ = some a

pub or_read-none {ℓ} : {A : Type ℓ} (o : Option A) → or_read o none ≡ o
or_read-none none = refl
or_read-none (some a) = refl

module _ {ℓ κ} {K : Type ℓ} {V : Type κ} ⦃e : Eq K⦄ where
  -- `d.get(k)`
  abbrev pub dict_get : K → List (K × V) → Option V
  dict_get k [] = none
  dict_get k ((j, v) ∷ d) = let rest = dict_get k d in if e.beq j k then some v else rest

  -- `d[k] = v`
  abbrev pub dict_set : K → V → List (K × V) → List (K × V)
  dict_set k v [] = (k, v) ∷ []
  dict_set k v ((j, w) ∷ d) =
      let rest = dict_set k v d in if e.beq j k then (j, v) ∷ d else (j, w) ∷ rest

  -- `d.setdefault(k, v)`
  abbrev pub set_unless : Option V → K → V → List (K × V) → List (K × V)
  set_unless none k v d = dict_set k v d
  set_unless (some _) k v d = d

  abbrev pub set_default : K → V → List (K × V) → List (K × V)
  set_default k v d = set_unless (dict_get k d) k v d

module _ {ℓ} {K : Type ℓ} ⦃e : Eq K⦄ where
  beq_left : (a b c : K) → e.beq a b ≡ true → e.beq a c ≡ e.beq b c
  beq_left a b c h = ap (λ x. e.beq x c) ((e.beq_iff a b).0 h)

  beq_right : (a b c : K) → e.beq b c ≡ true → e.beq a b ≡ e.beq a c
  beq_right a b c h = ap (e.beq a) ((e.beq_iff b c).0 h)

module _ {ℓ κ} {K : Type ℓ} {V : Type κ} ⦃e : Eq K⦄ where
  -- What a read finds after a write.
  pub dict_get-set :
      (k j : K) (v : V) (d : List (K × V))
      → dict_get j (dict_set k v d) ≡ (if e.beq k j then some v else dict_get j d)
  dict_get-set k j v [] = refl
  dict_get-set k j v ((i, w) ∷ d) = elim (Bool-cases (e.beq i k)) [
    | inl t ↦
        rw (t, beq_left i k j t)
          (elim (Bool-cases (e.beq k j)) [ inl u ↦ rw u refl | inr u ↦ rw u refl ])
    | inr t ↦
        rw (t, dict_get-set k j v d)
          (elim (Bool-cases (e.beq k j)) [
            | inl u ↦ rw (u, ← beq_right i k j u, t) refl
            | inr u ↦ rw u refl
          ])
  ]

  dict_get-set_unless :
      (k j : K) (v : V) (d : List (K × V)) (o : Option V)
      → dict_get k d ≡ o
      → dict_get j (set_unless o k v d)
        ≡ or_read (dict_get j d) (if e.beq k j then some v else none)
  dict_get-set_unless k j v d none h = elim (Bool-cases (e.beq k j)) [
    | inl u ↦ rw (dict_get-set k j v d, u, ← (e.beq_iff k j).0 u, h) refl
    | inr u ↦ rw (dict_get-set k j v d, u, or_read-none (dict_get j d)) refl
  ]
  dict_get-set_unless k j v d (some w) h = elim (Bool-cases (e.beq k j)) [
    | inl u ↦ rw (u, ← (e.beq_iff k j).0 u, h) refl
    | inr u ↦ rw (u, or_read-none (dict_get j d)) refl
  ]

  -- `setdefault` writes only where nothing is found.
  pub dict_get-set_default :
      (k j : K) (v : V) (d : List (K × V))
      → dict_get j (set_default k v d) ≡ or_read (dict_get j d) (if e.beq k j then some v else none)
  dict_get-set_default k j v d = dict_get-set_unless k j v d (dict_get k d) refl
