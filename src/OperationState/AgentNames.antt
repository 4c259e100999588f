-- ===== src/OperationState/AgentNames.antt =====
-- Single-use previews of an agent's naming operation: src/app/operation_state/_agent_name_mixin.py.
-- Times are microseconds; `snapshot_json` and `result_json` are the texts that `json.dumps` gives.
pub mod SingleUse
use portfolio_management.Common.{
  ℕ, String, Bool, true, false, not, ◌&&◌, Option, none, some, List, [], ◌∷◌, ◌++◌, ltb, ◌==◌,
  if◌then◌else◌, str_eq, text_in, Result, ok, err, ◌>>◌, raise_if, value_error, runtime_error,
}
use portfolio_management.Common.Table.{update, row_count, fetch_one}

pub record AgentOperation : Type 0 where
  pub preview_id : String
  pub principal_id : String
  pub record_id : String
  pub grant_digest : String
  pub state : String
  pub expires_at : ℕ
  pub snapshot_json : String
  pub result_json : Option String

-- What a preview is created from.
pub record Preview : Type 0 where
  pub preview_id : String
  pub principal_id : String
  pub record_id : String
  pub grant_digest : String
  pub expires_at : ℕ
  pub snapshot_json : String

abbrev pub preview_of : AgentOperation → String
preview_of r = r.preview_id

abbrev pub has_preview : String → AgentOperation → Bool
has_preview k r = str_eq r.preview_id k

unfoldable pub new_operation : Preview → AgentOperation
new_operation p = record {
  preview_id = p.preview_id;
  principal_id = p.principal_id;
  record_id = p.record_id;
  grant_digest = p.grant_digest;
  state = "previewed";
  expires_at = p.expires_at;
  snapshot_json = p.snapshot_json;
  result_json = none;
}

-- INSERT, which the primary key refuses for a preview that is there
unfoldable pub create_over :
    Preview → List AgentOperation → Option AgentOperation → Result (List AgentOperation)
unfolding new_operation
create_over p t none = ok (t ++ new_operation p ∷ [])
create_over p t (some _) = err (runtime_error "UNIQUE constraint failed")

unfoldable pub create_agent_name_operation :
    Preview → List AgentOperation → Result (List AgentOperation)
unfolding create_over
create_agent_name_operation p t = create_over p t (fetch_one (has_preview p.preview_id) t)

unfoldable pub get_agent_name_operation : String → List AgentOperation → Option AgentOperation
get_agent_name_operation k t = fetch_one (has_preview k) t

-- Who claims a preview, and for what.
pub record Claim : Type 0 where
  pub preview_id : String
  pub principal_id : String
  pub record_id : String
  pub grant_digest : String

unfoldable pub may_claim : Claim → ℕ → AgentOperation → Bool
may_claim c now r =
    has_preview c.preview_id r
    && (str_eq r.state "previewed"
        && (str_eq r.principal_id c.principal_id
            && (str_eq r.record_id c.record_id
                && (str_eq r.grant_digest c.grant_digest && ltb now r.expires_at))))

unfoldable pub begin_execution : AgentOperation → AgentOperation
begin_execution r = record r { state = "executing" }

unfoldable pub claim_agent_name_operation :
    Claim → ℕ → List AgentOperation → Bool × List AgentOperation
unfolding may_claim begin_execution
claim_agent_name_operation c now t =
    (row_count (may_claim c now) t == 1, update (may_claim c now) begin_execution t)

abbrev pub terminal_states : List String
terminal_states = "succeeded" ∷ "noop" ∷ "rejected" ∷ "unknown" ∷ []

unfoldable pub is_executing : String → AgentOperation → Bool
is_executing k r = has_preview k r && str_eq r.state "executing"

unfoldable pub end_execution : String → String → AgentOperation → AgentOperation
end_execution state result r = record r { state = state; result_json = some result }

unfoldable pub finish_agent_name_operation :
    String → String → String → List AgentOperation → Result (List AgentOperation)
unfolding is_executing end_execution
finish_agent_name_operation k state result t = do
  raise_if (not (text_in state terminal_states))
      (value_error "invalid Agent operation terminal state")
  ok (update (is_executing k) (end_execution state result) t)
