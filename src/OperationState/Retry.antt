-- ===== src/OperationState/Retry.antt =====
-- The retry ladder and the claim lease of src/app/operation_state/_base.py, in microseconds.
use portfolio_management.Common.{
  ℕ, zero, suc, ◌+◌, ◌-◌, ◌*◌, ◌≤◌, ◌≡◌, min, List, [], ◌∷◌, arith, length, get_or, Option, none,
  some, Bool, false, leb,
}

abbrev pub minute : ℕ
minute = 60_000_000

-- `_RETRY_MINUTES`
abbrev pub retry_minutes : List ℕ
retry_minutes = 1 ∷ 5 ∷ 15 ∷ 60 ∷ []

-- `_CLAIM_LEASE_MINUTES`
abbrev pub claim_lease : ℕ
claim_lease = 5 * minute

-- `timedelta(minutes=_RETRY_MINUTES[min(attempt - 1, len(_RETRY_MINUTES) - 1)])`; callers pass
-- an attempt number of at least 1.
unfoldable pub retry_delay : ℕ → ℕ
retry_delay attempt = get_or retry_minutes (min (attempt - 1) (length retry_minutes - 1)) 0 * minute

last_rung : (n : ℕ) → min (suc (suc (suc (suc n))) - 1) 3 ≡ 3
last_rung n = omega arith

-- `claimed_at <= now - lease` on a nullable column, with the lease on the other side: a date is
-- far from the epoch, so the source's subtraction does not stop at 0.
abbrev pub lease_expired : ℕ → Option ℕ → Bool
lease_expired now none = false
lease_expired now (some t) = leb (t + claim_lease) now

pub retry_delay_bounds : (n : ℕ) → (minute ≤ retry_delay n) × (retry_delay n ≤ 60 * minute)
unfolding retry_delay
retry_delay_bounds zero = omega arith
retry_delay_bounds (suc zero) = omega arith
retry_delay_bounds (suc (suc zero)) = omega arith
retry_delay_bounds (suc (suc (suc zero))) = omega arith
retry_delay_bounds (suc (suc (suc (suc n)))) = rw (last_rung n) (omega arith)

pub retry_delay_step : (n : ℕ) → retry_delay n ≤ retry_delay (suc n)
unfolding retry_delay
retry_delay_step zero = omega arith
retry_delay_step (suc zero) = omega arith
retry_delay_step (suc (suc zero)) = omega arith
retry_delay_step (suc (suc (suc zero))) = omega arith
retry_delay_step (suc (suc (suc (suc n)))) = rw (last_rung n) (rw (last_rung (suc n)) (omega arith))
