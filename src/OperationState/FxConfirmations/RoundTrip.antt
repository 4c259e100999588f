-- ===== src/OperationState/FxConfirmations/RoundTrip.antt =====
-- What was recorded last is what is read.
use portfolio_management.Common.{
  ℕ, ◌<◌, ◌≡◌, refl, inl, inr, true, false, not, some, List, [], ◌∷◌, ◌++◌, arith, ltb, str_eq,
  str_eq_refl, Bool-cases, keep, All,
}
use portfolio_management.OperationState.FxConfirmations.{
  FxConfirmation, has_confirmation, record_fx_confirmation, latest_fx_confirmation,
}

-- A confirmation of the record other than the one of the key is earlier.
abbrev pub IsEarlier : FxConfirmation → ℕ → FxConfirmation → Type 0
IsEarlier c now r =
    str_eq r.record_id c.record_id ≡ true
    → has_confirmation c.confirmation_id r ≡ false
    → r.confirmed_at < now

latest-append :
    (c : FxConfirmation) (now : ℕ) (t : List FxConfirmation)
    → All (IsEarlier c now) t
    → latest_fx_confirmation c.record_id (
        keep (λ r. not (has_confirmation c.confirmation_id r)) t
        ++ record c { confirmed_at = now } ∷ [])
      ≡ some (record c { confirmed_at = now })
unfolding latest_fx_confirmation
latest-append c now [] h = rw (str_eq_refl c.record_id) refl
latest-append c now (r ∷ rs) h = elim (Bool-cases (has_confirmation c.confirmation_id r)) [
  | inl k ↦ rw k (latest-append c now rs h.1)
  | inr k ↦ rw k (elim (Bool-cases (str_eq r.record_id c.record_id)) [
    | inr m ↦ rw m (latest-append c now rs h.1)
    | inl m ↦
        let before : ltb r.confirmed_at now ≡ true = ground (arith, h.0 m k) in
        rw (m, latest-append c now rs h.1, before) refl
  ])
]

-- A confirmation that is recorded later than every other confirmation of its record is what the
-- read of the record gives, with the time of the call; any confirmation under the same key is gone.
pub record-latest :
    (c : FxConfirmation) (now : ℕ) (t : List FxConfirmation)
    → All (IsEarlier c now) t
    → latest_fx_confirmation c.record_id (record_fx_confirmation c now t)
      ≡ some (record c { confirmed_at = now })
unfolding record_fx_confirmation
record-latest c now t h = latest-append c now t h
