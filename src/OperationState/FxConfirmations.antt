-- ===== src/OperationState/FxConfirmations.antt =====
-- Confirmed exchange rates of cash flows: src/app/operation_state/_fx_confirmation_mixin.py.
-- `confirmation_json` is the canonical text; rates, dates and amounts are texts in the code too.
pub mod RoundTrip
pub mod Import
use portfolio_management.Common.{
  ℕ, ◌+◌, String, Bool, true, false, not, Option, none, some, List, [], ◌∷◌, ◌++◌, ltb,
  if◌then◌else◌, str_eq, keep, length, Result, ok, err, runtime_error,
}
use portfolio_management.Common.Table.{fetch_one}

pub record FxConfirmation : Type 0 where
  pub confirmation_id : String
  pub record_id : String
  pub source_hash : String
  pub exchange_rate : String
  pub exchange_rate_date : String
  pub exchange_rate_source : String
  pub exchange_rate_evidence_type : String
  pub cny_amount : String
  pub confirmation_json : String
  pub confirmed_at : ℕ

abbrev pub confirmation_of : FxConfirmation → String
confirmation_of r = r.confirmation_id

abbrev pub has_confirmation : String → FxConfirmation → Bool
has_confirmation k r = str_eq r.confirmation_id k

-- INSERT OR REPLACE: the row of the key is deleted, the new one follows the others. The time of the
-- row that is given is replaced by the call's.
unfoldable pub record_fx_confirmation :
    FxConfirmation → ℕ → List FxConfirmation → List FxConfirmation
record_fx_confirmation c now t =
    keep (λ r. not (has_confirmation c.confirmation_id r)) t ++ record c { confirmed_at = now } ∷ []

-- the later of a row and what the rows behind it give; of equal times the first, as the index on
-- (record_id, confirmed_at DESC) has them
abbrev pub later_of : FxConfirmation → Option FxConfirmation → FxConfirmation
later_of r none = r
later_of r (some x) = if ltb r.confirmed_at x.confirmed_at then x else r

-- WHERE record_id = ? ORDER BY confirmed_at DESC LIMIT 1
unfoldable pub latest_fx_confirmation : String → List FxConfirmation → Option FxConfirmation
latest_fx_confirmation id [] = none
latest_fx_confirmation id (r ∷ rs) =
    let rest = latest_fx_confirmation id rs in
    if str_eq r.record_id id then some (later_of r rest) else rest

-- What is found at the path of the earlier database.
pub data Legacy : Type 0 where
  no_file : Legacy
  no_table : Legacy
  table : List FxConfirmation → Legacy

pub record ImportReport : Type 0 where
  pub scanned : ℕ
  pub imported : ℕ

-- INSERT OR IGNORE of one row, with the count of what it added
unfoldable pub import_over :
    FxConfirmation → List FxConfirmation → Option FxConfirmation → ℕ × List FxConfirmation
import_over r t none = (1, t ++ r ∷ [])
import_over r t (some _) = (0, t)

unfoldable pub import_rows : List FxConfirmation → List FxConfirmation → ℕ × List FxConfirmation
unfolding import_over
import_rows [] t = (0, t)
import_rows (r ∷ rs) t =
    let (n, t') = import_over r t (fetch_one (has_confirmation r.confirmation_id) t) in
    let (m, t'') = import_rows rs t' in (n + m, t'')

unfoldable pub import_legacy_fx_confirmations :
    Legacy → List FxConfirmation → Result (ImportReport × List FxConfirmation)
unfolding import_rows
import_legacy_fx_confirmations no_file t = err (runtime_error "legacy effect database not found")
import_legacy_fx_confirmations no_table t = ok (record { scanned = 0; imported = 0 }, t)
import_legacy_fx_confirmations (table rows) t =
    let (n, t') = import_rows rows t in ok (record { scanned = length rows; imported = n }, t')
