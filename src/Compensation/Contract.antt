-- ===== src/Compensation/Contract.antt =====
-- The lifecycle contract of compensation tasks: src/domain/compensation_contracts.py. A status is
-- one of the five texts that the enumeration accepts.
use portfolio_management.Common.{
  Bool, true, false, not, ◌||◌, List, [], ◌∷◌, if◌then◌else◌, value_error, Result, ok, err,
}

pub data CompensationStatus : Type 0 where
  prepared pending running failed resolved : CompensationStatus

abbrev pub same_status : CompensationStatus → CompensationStatus → Bool
same_status prepared prepared = true
same_status pending pending = true
same_status running running = true
same_status failed failed = true
same_status resolved resolved = true
same_status _ _ = false

abbrev pub status_in : CompensationStatus → List CompensationStatus → Bool
status_in s [] = false
status_in s (t ∷ ts) = same_status s t || status_in s ts

abbrev pub mirror_activating : List CompensationStatus
mirror_activating = pending ∷ running ∷ failed ∷ []

-- `COMPENSATION_TRANSITIONS`
abbrev pub transitions : CompensationStatus → List CompensationStatus
transitions prepared = prepared ∷ pending ∷ running ∷ failed ∷ resolved ∷ []
transitions pending = pending ∷ running ∷ failed ∷ resolved ∷ []
transitions running = running ∷ failed ∷ resolved ∷ []
transitions failed = failed ∷ running ∷ resolved ∷ []
transitions resolved = resolved ∷ []

unfoldable pub validate_compensation_transition :
    CompensationStatus → CompensationStatus → Result CompensationStatus
validate_compensation_transition current target =
    if not (status_in target (transitions current))
    then err (value_error "invalid compensation transition")
    else ok target
