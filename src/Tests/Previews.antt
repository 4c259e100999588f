-- ===== src/Tests/Previews.antt =====
-- Runs of the agent previews and of the exchange-rate confirmations at concrete inputs.
use portfolio_management.Common.{◌≤◌, ◌≡◌, refl, String, some, List, [], ◌∷◌, All, ok, arith}
use portfolio_management.OperationState.AgentNames.{
  Preview, Claim, create_agent_name_operation, claim_agent_name_operation,
  finish_agent_name_operation,
}
use portfolio_management.OperationState.AgentNames.SingleUse.{
  Call, create, claim, finish, wins, claims-single_use,
}
use portfolio_management.OperationState.FxConfirmations.{
  FxConfirmation, table, record_fx_confirmation, latest_fx_confirmation,
  import_legacy_fx_confirmations,
}
use portfolio_management.OperationState.FxConfirmations.RoundTrip.{record-latest}
use portfolio_management.OperationState.FxConfirmations.Import.{read, IsThere, import-idempotent}

abbrev preview : Preview
preview = record {
  preview_id = "preview";
  principal_id = "agent";
  record_id = "rec-1";
  grant_digest = "grant";
  expires_at = 100;
  snapshot_json = "{}";
}

abbrev by_agent : Claim
by_agent = record {
  preview_id = "preview";
  principal_id = "agent";
  record_id = "rec-1";
  grant_digest = "grant";
}

-- two claims, an ending, and another creation and claim
abbrev work : List Call
work =
    create preview
    ∷ claim by_agent 10
    ∷ claim by_agent 11
    ∷ finish "preview" "succeeded" "{}"
    ∷ create preview
    ∷ claim by_agent 12
    ∷ []

claims-single_use_example : wins "preview" work [] ≤ 1
claims-single_use_example = claims-single_use "preview" work [] tt

one_wins : wins "preview" work [] ≡ 1
unfolding wins claim_agent_name_operation create_agent_name_operation finish_agent_name_operation
one_wins = refl

abbrev confirmation : FxConfirmation
confirmation = record {
  confirmation_id = "fx-1";
  record_id = "flow-1";
  source_hash = "hash";
  exchange_rate = "7.1";
  exchange_rate_date = "2025-01-02";
  exchange_rate_source = "manual";
  exchange_rate_evidence_type = "manual";
  cny_amount = "710";
  confirmation_json = "{}";
  confirmed_at = 3;
}

abbrev other : FxConfirmation
other = record confirmation { confirmation_id = "fx-2"; confirmed_at = 9 }

record-latest_example :
    latest_fx_confirmation "flow-1"
      (record_fx_confirmation confirmation 12 (confirmation ∷ other ∷ []))
    ≡ some (record confirmation { confirmed_at = 12 })
record-latest_example =
    record-latest confirmation 12 (confirmation ∷ other ∷ [])
      ((λ h d. ground arith), ((λ h d. ground arith), tt))

abbrev imported_rows : List FxConfirmation
imported_rows = other ∷ confirmation ∷ []

imports :
    import_legacy_fx_confirmations (table (confirmation ∷ other ∷ [])) (other ∷ [])
    ≡ ok (record { scanned = 2; imported = 1 }, imported_rows)
unfolding import_legacy_fx_confirmations
imports = refl

import-idempotent_example :
    ((k : String) (x : FxConfirmation)
      → read k (other ∷ []) ≡ some x
      → read k imported_rows ≡ some x)
    × All (IsThere imported_rows) (confirmation ∷ other ∷ [])
    × (import_legacy_fx_confirmations (table (confirmation ∷ other ∷ [])) imported_rows
        ≡ ok (record { scanned = 2; imported = 0 }, imported_rows))
import-idempotent_example =
    import-idempotent (confirmation ∷ other ∷ []) (other ∷ [])
      (record { scanned = 2; imported = 1 }) imported_rows imports
