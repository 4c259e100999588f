-- ===== src/OperationState/HoldingCases/Resolve.antt =====
-- Open cases that a fresh scan of their record no longer shows are closed:
-- `_resolve_absent_holding_cases_tx` of src/app/operation_state/_holding_case_mixin.py.
use portfolio_management.Common.{
  ℕ, String, Bool, true, false, not, ◌&&◌, none, some, List, [], ◌∷◌, ◌++◌, if◌then◌else◌, str_eq,
  text_in, keep, Result, ok, ◌>>=◌, text_json, raw_json, object_json, Members, member, end, merge,
  nullable_text, join_text,
}
use portfolio_management.Common.Table.{update}
use portfolio_management.OperationState.HoldingCases.{
  Case, CaseStore, has_case_key, insert_case_event_tx, enqueue_closure,
}

-- The arguments of the call; `current_identity` is the canonical text of the dict.
pub record Scan : Type 0 where
  pub record_id : String
  pub active_case_keys : List String
  pub record_digest : String
  pub current_identity : String
  pub trigger : Members
  pub now : ℕ
  pub enqueue_receipts : Bool

-- The store and the three lists of keys that the call returns.
pub record Closing : Type 0 where
  pub store : CaseStore
  pub closed_case_keys : List String
  pub superseded_case_keys : List String
  pub enqueued_receipt_keys : List String

abbrev pub eligible_states : List String
eligible_states =
    "pending_apply" ∷ "pending_confirmation" ∷ "pending_manual_edit" ∷ "failed_retryable" ∷ []

unfoldable pub is_absent : Scan → Case → Bool
is_absent scan r =
    str_eq r.record_id scan.record_id
    && (text_in r.state eligible_states && not (text_in r.case_key scan.active_case_keys))

abbrev pub terminal_state : Bool → String
terminal_state true = "resolved_external"
terminal_state false = "superseded"

abbrev pub decision : Bool → String
decision true = "fresh_scan_proved_repair"
decision false = "record_identity_changed"

-- `json.loads(row["identity_json"] or "{}")`, as its canonical text
abbrev pub stored_identity : Case → String
stored_identity r = if str_eq r.identity_json "" then "{}" else r.identity_json

unfoldable pub resolution_of : Scan → Case → Bool → Members
resolution_of scan r matches = member "decision" (text_json (decision matches)) (
    member "readback_digest" (text_json scan.record_digest) (
      member "expected_identity" (raw_json (stored_identity r)) (
        member "observed_identity" (raw_json scan.current_identity)
          (member "trigger" (object_json scan.trigger) end))))

unfoldable pub close_row : String → Members → ℕ → Case → Case
close_row state resolution now r = record r {
  state = state;
  resolution = some (object_json resolution);
  last_error = none;
  updated_at = now;
}

unfoldable pub is_eligible : String → Case → Bool
is_eligible k r = has_case_key k r && text_in r.state eligible_states

unfoldable pub note_closed : Bool → String → List String × CaseStore → Closing → Closing
note_closed true k (keys, s) p = record p {
  store = s;
  closed_case_keys = p.closed_case_keys ++ k ∷ [];
  enqueued_receipt_keys = p.enqueued_receipt_keys ++ keys;
}
note_closed false k (keys, s) p = record p {
  store = s;
  superseded_case_keys = p.superseded_case_keys ++ k ∷ [];
  enqueued_receipt_keys = p.enqueued_receipt_keys ++ keys;
}

-- the store with the row closed and its event
unfoldable pub closed_store : Scan → Case → Bool → CaseStore → CaseStore
unfolding resolution_of close_row is_eligible insert_case_event_tx
closed_store scan r matches s =
    let state = terminal_state matches in
    let resolution = resolution_of scan r matches in
    insert_case_event_tx r.case_key state resolution scan.now (record s {
      rows = update (is_eligible r.case_key) (close_row state resolution scan.now) s.rows;
    })

unfoldable pub close_receipt : Scan → Case → Bool → CaseStore → Result (List String × CaseStore)
unfolding resolution_of enqueue_closure
close_receipt scan r matches s =
    let state = terminal_state matches in
    enqueue_closure scan.enqueue_receipts
      (join_text
        ("holdings:case:closed:" ∷ r.case_key ∷ ":" ∷ state ∷ ":" ∷ scan.record_digest ∷ []))
      (merge
        (member "case_key" (text_json r.case_key) (
          member "record_id" (text_json r.record_id) (
            member "account" (nullable_text r.account) (
              member "field" (text_json r.field) (member "terminal_state" (text_json state) end)))))
        (resolution_of scan r matches))
      scan.now s

unfoldable pub close_as : Scan → Case → Bool → Closing → Result Closing
unfolding closed_store close_receipt note_closed
close_as scan r matches p =
    close_receipt scan r matches (closed_store scan r matches p.store) >>= λ closed.
    ok (note_closed matches r.case_key closed p)

-- a scan of one record never proves that an identity shared across records is repaired
unfoldable pub close_absent : Scan → Case → Closing → Result Closing
unfolding close_as
close_absent scan r p =
    if str_eq r.kind "duplicate_identity"
    then ok p
    else close_as scan r (str_eq (stored_identity r) scan.current_identity) p

unfoldable pub close_all : Scan → List Case → Closing → Result Closing
unfolding close_absent
close_all scan [] p = ok p
close_all scan (r ∷ rs) p = close_absent scan r p >>= close_all scan rs

unfoldable pub resolve_holding_cases_external : Scan → CaseStore → Result Closing
unfolding is_absent close_all
resolve_holding_cases_external scan s = close_all scan (keep (is_absent scan) s.rows) (record {
  store = s;
  closed_case_keys = [];
  superseded_case_keys = [];
  enqueued_receipt_keys = [];
})
