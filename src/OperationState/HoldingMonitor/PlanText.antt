-- ===== src/OperationState/HoldingMonitor/PlanText.antt =====
-- The texts of a plan that a settlement stores: `canonical_json` of the rows and of the changes that
-- `observe` of src/domain/holding_changes.py builds, as
-- src/app/operation_state/_holding_monitor_mixin.py calls it. Times are written by `isoformat`, which
-- is a parameter.
use portfolio_management.Common.{
  ℕ, String, Bool, true, false, Option, none, some, List, [], ◌∷◌, map, str_eq, join_text, Json,
  null_json, text_json, raw_json, object_json, Members, member, end, nullable_text, canonical_json,
  commas,
}
use portfolio_management.Holdings.Changes.{
  Change, Row, RowState, Rows, Snapshot, active, gap, missing_candidate, deleted, out_of_scope,
}

-- an identity field that is missing is None, which the model writes as ""
abbrev pub identity_value : String → Json
identity_value s = if_empty (str_eq s "")
  where
    if_empty : Bool → Json
    if_empty true = null_json
    if_empty false = text_json s

unfoldable pub snapshot_value : Snapshot → Json
snapshot_value s = object_json (
    member "asset_id" (identity_value s.asset_id) (
      member "account" (identity_value s.account) (
        member "broker" (identity_value s.broker) (
          member "asset_type" (text_json s.asset_type) (
            member "currency" (text_json s.currency) (
              member "asset_name" (nullable_text s.asset_name) (
                member "quantity" (nullable_text s.quantity)
                  (member "avg_cost" (nullable_text s.avg_cost) end))))))))

abbrev pub state_text : RowState → String
state_text active = "active"
state_text gap = "gap"
state_text missing_candidate = "missing_candidate"
state_text deleted = "deleted"
state_text out_of_scope = "out_of_scope"

abbrev pub optional_snapshot : Option Snapshot → Json
optional_snapshot none = null_json
optional_snapshot (some s) = snapshot_value s

-- the key `current` stands only in a row that has one
abbrev pub current_member : Option Snapshot → Members
current_member none = end
current_member (some s) = member "current" (snapshot_value s) end

abbrev pub truth_value : Bool → Json
truth_value true = raw_json "true"
truth_value false = raw_json "false"

-- only a replacement names another record
abbrev pub predecessor_member : Option String → Members
predecessor_member none = end
predecessor_member (some id) = member "previous_record_id" (text_json id) end

module _ (isoformat : ℕ → String) where
  abbrev pub optional_time : Option ℕ → Json
  optional_time none = null_json
  optional_time (some t) = text_json (isoformat t)

  unfoldable pub row_value : Row → Json
  unfolding snapshot_value
  row_value r = object_json (
      member "state" (text_json (state_text r.state)) (
        member "snapshot" (optional_snapshot r.snapshot) (
          member "observed_at" (optional_time r.observed_at) (
            member "reason" (nullable_text r.reason) (
              member "missing_since" (optional_time r.missing_since) (current_member r.current))))))

  unfoldable pub change_value : Change → Json
  unfolding snapshot_value
  change_value c = object_json (
      member "kind" (text_json c.kind) (
        member "record_id" (text_json c.record_id) (
          member "before" (optional_snapshot c.before) (
            member "after" (optional_snapshot c.after) (
              member "previous_observed_at" (optional_time c.previous_observed_at) (
                member "observed_at" (text_json (isoformat c.observed_at)) (
                  member "after_gap" (truth_value c.after_gap)
                    (predecessor_member c.previous_record_id))))))))

  row_members : Rows → Members
  unfolding row_value
  row_members [] = end
  row_members ((id, r) ∷ rows) = member id (row_value r) (row_members rows)

  unfoldable pub rows_text : Rows → String
  unfolding row_members canonical_json
  rows_text rows = canonical_json (object_json (row_members rows))

  unfoldable pub changes_text : List Change → String
  unfolding change_value canonical_json commas
  changes_text changes =
      join_text ("[" ∷ commas (map (λ c. canonical_json (change_value c)) changes) ∷ "]" ∷ [])
