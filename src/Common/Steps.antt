-- ===== src/Common/Steps.antt =====
-- What a step relation reaches in any number of steps.
module _ {ℓ κ} {S : Type ℓ} (R : S → S → Type κ) where
  pub data Reaches : S → S → Type (ℓ ⊔ κ) where
    here : {s : S} → Reaches s s
    move : {s t u : S} → R s t → Reaches t u → Reaches s u

  pub Reaches-trans : {s t u : S} → Reaches s t → Reaches t u → Reaches s u
  Reaches-trans here later = later
  Reaches-trans (move first rest) later = move first (Reaches-trans rest later)
