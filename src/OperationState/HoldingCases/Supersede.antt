-- ===== src/OperationState/HoldingCases/Supersede.antt =====
-- What the storing of observed cases works on, and how an observed case replaces the other cases of
-- its field: the first half of `_materialize_holding_cases_tx` in
-- src/app/operation_state/_holding_case_mixin.py.
use portfolio_management.Common.{
  ℕ, String, Bool, not, ◌&&◌, Option, none, some, List, [], ◌∷◌, ◌++◌, if◌then◌else◌, str_eq,
  text_in, any_of, Result, ok, ◌>>=◌, Json, text_json, object_json, Members, member, end,
  get_member, merge, members_of, join_text, strip,
}
use portfolio_management.Common.Table.{update}
use portfolio_management.OperationState.HoldingCases.{
  Case, CaseStore, Candidate, superseedable_states, has_case_key, insert_case_event_tx,
  with_previous, enqueue_closure,
}
use portfolio_management.OperationState.HoldingCases.Contract.{is_text}

pub record DiscoveryReceipt : Type 0 where
  pub case_key : String
  pub receipt_key : String
  pub receipt_type : String
  pub payload_json : String

-- The arguments that all cases of a call share. The trigger is its members.
pub record Pass : Type 0 where
  pub discovery_receipts : List DiscoveryReceipt
  pub trigger : Members
  pub now : ℕ
  pub enqueue_receipts : Bool

-- The store and the five lists of keys that the call returns.
pub record Progress : Type 0 where
  pub store : CaseStore
  pub created_case_keys : List String
  pub refreshed_case_keys : List String
  pub reopened_case_keys : List String
  pub superseded_case_keys : List String
  pub enqueued_receipt_keys : List String

-- `receipt_by_case.get(key)`: the last receipt of the case
abbrev pub receipt_for : String → List DiscoveryReceipt → Option DiscoveryReceipt
receipt_for k [] = none
receipt_for k (d ∷ ds) = later (receipt_for k ds) (if str_eq d.case_key k then some d else none)
  where
    later : Option DiscoveryReceipt → Option DiscoveryReceipt → Option DiscoveryReceipt
    later (some x) _ = some x
    later none o = o

-- the required texts, stripped
unfoldable pub normalized : Candidate → Candidate
normalized c = record c {
  case_key = strip c.case_key;
  record_id = strip c.record_id;
  field = strip c.field;
  kind = strip c.kind;
  state = strip c.state;
  policy_version = strip c.policy_version;
  case_precondition_digest = strip c.case_precondition_digest;
  record_digest = strip c.record_digest;
}

unfoldable pub lacks_identity : Candidate → Bool
lacks_identity c = any_of (str_eq "") (
    c.case_key ∷ c.record_id ∷ c.field ∷ c.kind ∷ c.state ∷ c.policy_version
    ∷ c.case_precondition_digest ∷ c.record_digest ∷ [])

-- another case of the same field that the observation replaces
unfoldable pub is_replaced : Candidate → Case → Bool
is_replaced c r =
    str_eq r.record_id c.record_id
    && (str_eq r.field c.field
        && (not (str_eq r.case_key c.case_key) && text_in r.state superseedable_states))

-- `resolution.get("apply_operator_context") or resolution.get("operator_context", {})`
abbrev pub operator_context : Members → Members → Members
operator_context end other = other
operator_context (member k v d) other = member k v d

unfoldable pub is_automatic : Option Json → Bool
is_automatic resolution =
    let d = members_of resolution in
    is_text
      (get_member "method" (
        operator_context (members_of (get_member "apply_operator_context" d))
          (members_of (get_member "operator_context" d))))
      "automatic_policy"

unfoldable pub holds_automatic_write : Case → Bool
unfolding is_automatic
holds_automatic_write r =
    text_in r.state ("applying" ∷ "apply_outcome_unknown" ∷ []) && is_automatic r.resolution

unfoldable pub supersede_row : Members → ℕ → Case → Case
supersede_row resolution now r = record r {
  state = "superseded";
  resolution = some (object_json resolution);
  updated_at = now;
}

unfoldable pub is_superseedable : String → Case → Bool
is_superseedable k r = has_case_key k r && text_in r.state superseedable_states

unfoldable pub supersede_resolution : Pass → Candidate → Case → Members
supersede_resolution pass c old = with_previous old.resolution (
    member "reason" (text_json "semantic_case_changed") (
      member "replacement_case_key" (text_json c.case_key)
        (member "trigger" (object_json pass.trigger) end)))

-- the store with the row superseded and its event
unfoldable pub superseded : Pass → Candidate → Case → CaseStore → CaseStore
unfolding supersede_row is_superseedable supersede_resolution insert_case_event_tx
superseded pass c old s =
    let resolution = supersede_resolution pass c old in
    insert_case_event_tx old.case_key "superseded" resolution pass.now (record s {
      rows = update (is_superseedable old.case_key) (supersede_row resolution pass.now) s.rows;
    })

unfoldable pub supersede_receipt :
    Pass → Candidate → Case → CaseStore → Result (List String × CaseStore)
unfolding supersede_resolution enqueue_closure
supersede_receipt pass c old s =
    enqueue_closure pass.enqueue_receipts
      (join_text ("holdings:case:closed:" ∷ old.case_key ∷ ":superseded:" ∷ c.record_digest ∷ []))
      (merge
        (member "case_key" (text_json old.case_key) (
          member "record_id" (text_json old.record_id) (
            member "field" (text_json old.field)
              (member "terminal_state" (text_json "superseded") end))))
        (supersede_resolution pass c old))
      pass.now s

unfoldable pub note_superseded : Case → Progress → List String × CaseStore → Progress
note_superseded old p (keys, s) = record p {
  store = s;
  superseded_case_keys = p.superseded_case_keys ++ old.case_key ∷ [];
  enqueued_receipt_keys = p.enqueued_receipt_keys ++ keys;
}

unfoldable pub supersede_one : Pass → Candidate → Case → Progress → Result Progress
unfolding superseded supersede_receipt note_superseded
supersede_one pass c old p =
    supersede_receipt pass c old (superseded pass c old p.store) >>= λ closed.
    ok (note_superseded old p closed)

unfoldable pub supersede_all : Pass → Candidate → List Case → Progress → Result Progress
unfolding supersede_one
supersede_all pass c [] p = ok p
supersede_all pass c (old ∷ rest) p = supersede_one pass c old p >>= supersede_all pass c rest
