-- ===== src/Tests/CashFlows.antt =====
-- Tests of the cash-flow event inbox (src/app/operation_state/_cash_flow_event_mixin.py).
use portfolio_management.Common.{
  ℕ, ◌+◌, ◌≤◌, ◌<◌, ◌≡◌, ◌≢◌, ◌⊎◌, refl, String, Option, none, some, List, [], ◌∷◌, map, ok,
}
use portfolio_management.OperationState.Retry.{retry_delay}
use portfolio_management.OperationState.Receipts.{new_receipt, insert_operation_receipt_tx}
use portfolio_management.OperationState.EventInbox.{
  Event, EventState, Delivery, Outcome, claimed, processed, failed_retryable, finish,
}
use portfolio_management.OperationState.EventInbox.Edges.{Along}
use portfolio_management.OperationState.CashFlowInbox.Edges.{Edge, IsNew, call-Along}
use portfolio_management.Common.Table.Evolution.{Evolves}
use portfolio_management.OperationState.CashFlowInbox.{
  finish_failed, Store, ReceiptRequest, Marked, request_key, complete_cash_flow_event,
  mark_cash_flow_event_failed, get_cash_flow_event, claim_cash_flow_events, accept_cash_flow_event,
}
use portfolio_management.OperationState.CashFlowInbox.Atomicity.{AllStored, complete-atomic}
use portfolio_management.OperationState.CashFlowInbox.Failures.{
  Waits, GivenUp, mark_failed-accounted,
}
use portfolio_management.OperationState.CashFlowInbox.Runs.{
  Call, accept, claim, complete, fail, call, calls, calls-processed,
}

abbrev delivery : String → Delivery
delivery id = record {
  event_id = id;
  event_type = "drive.file.bitable_record_changed_v1";
  file_token = "file";
  table_id = "table";
  revision = none;
  action_json = "[]";
  payload_digest = "d";
}

abbrev event : String → EventState → Option String → Event
event id state owner = record {
  event_id = id;
  event_type = "drive.file.bitable_record_changed_v1";
  file_token = "file";
  table_id = "table";
  revision = none;
  action_list_json = "[]";
  payload_digest = "d";
  state = state;
  attempt_count = 2;
  next_attempt_at = 5;
  claim_id = owner;
  claimed_at = some 5;
  outcome = none;
  last_error = none;
  received_at = 5;
  updated_at = 5;
}

abbrev outcome : Outcome
outcome = record {
  other_entries = "{}";
  workflow = none;
  status = none;
  attempt_count = none;
  receipt_keys = [];
  enqueued_receipt_keys = [];
}

abbrev attention : List ReceiptRequest
attention =
    record {
      receipt_key = "a";
      receipt_type = "cash_flow_reconcile_attention_required";
      payload = "{}";
    }
    ∷ []

abbrev store : Store
store = record {
  events = event "old" processed none ∷ event "e1" claimed (some "w1") ∷ [];
  outbox = [];
}

abbrev work : List (ℕ × Call)
work =
    (10, accept (delivery "e2"))
    ∷ (20, fail "e1" "w1" "boom" 3 outcome attention)
    ∷ (30, claim 5 (some "w2") "uuid")
    ∷ (40, complete "e2" "w2" outcome attention)
    ∷ (50, accept (delivery "old"))
    ∷ []

abbrev state_of : Option Event → Option EventState
state_of none = none
state_of (some e) = some e.state

e2_processed : state_of (get_cash_flow_event "e2" (calls work store)) ≡ some processed
unfolding calls get_cash_flow_event accept_cash_flow_event complete_cash_flow_event
    claim_cash_flow_events mark_cash_flow_event_failed insert_operation_receipt_tx retry_delay
e2_processed = refl

abbrev claiming : Call
claiming = claim 5 (some "w2") "uuid"

call-Along_example :
    Evolves (Along (Edge claiming)) (IsNew 90 claiming) store.events (call 90 claiming store).events
call-Along_example = call-Along 90 claiming store

calls-processed_example :
    get_cash_flow_event "old" (calls work store) ≡ some (event "old" processed none)
unfolding get_cash_flow_event
calls-processed_example = calls-processed "old" work store (event "old" processed none) refl refl

abbrev stored_outcome : Outcome
stored_outcome = record outcome { receipt_keys = "a" ∷ []; enqueued_receipt_keys = "a" ∷ [] }

abbrev after_complete : Store
after_complete = record {
  events =
      event "old" processed none ∷ finish stored_outcome 40 (event "e1" claimed (some "w1")) ∷ [];
  outbox = new_receipt "a" "cash_flow_reconcile_attention_required" "{}" 40 ∷ [];
}

complete_run :
    complete_cash_flow_event "e1" "w1" outcome attention 40 store
    ≡ ok (stored_outcome, after_complete)
unfolding complete_cash_flow_event insert_operation_receipt_tx new_receipt
complete_run = refl

complete-atomic_example :
    AllStored attention after_complete.outbox
    × (stored_outcome.receipt_keys ≡ map request_key attention)
    × ((e' : Event) × (get_cash_flow_event "e1" after_complete ≡ some e')
        × (e'.state ≡ processed)
        × (e'.outcome ≡ some stored_outcome)
        × (e'.claim_id ≡ none))
unfolding get_cash_flow_event
complete-atomic_example =
    complete-atomic "e1" "w1" outcome stored_outcome attention 40 store after_complete
      (event "e1" claimed (some "w1")) refl refl refl complete_run

abbrev given_up : Outcome
given_up = record outcome {
  status = some "attention_required";
  attempt_count = some 3;
  receipt_keys = "a" ∷ [];
  enqueued_receipt_keys = "a" ∷ [];
}

abbrev after_failure : Store
after_failure = record {
  events =
      event "old" processed none
      ∷ finish_failed given_up 3 "boom" 40 (event "e1" claimed (some "w1"))
      ∷ [];
  outbox = new_receipt "a" "cash_flow_reconcile_attention_required" "{}" 40 ∷ [];
}

abbrev limit : ℕ
limit = 3

abbrev marked : Marked
marked = record {
  state = processed;
  attempt_count = 3;
  next_attempt_at = none;
  outcome = some given_up;
}

failure_run :
    mark_cash_flow_event_failed "e1" "w1" "boom" 3 outcome attention 40 store
    ≡ ok (marked, after_failure)
unfolding mark_cash_flow_event_failed insert_operation_receipt_tx new_receipt finish_failed
failure_run = refl

mark_failed-accounted_example :
    ((limit ≡ 0) ⊎ (2 + 1 < limit))
      × (marked.state ≡ failed_retryable)
      × Waits "e1" (event "e1" claimed (some "w1")) 40 store after_failure
    ⊎ (limit ≢ 0)
      × (limit ≤ 2 + 1)
      × (marked.state ≡ processed)
      × GivenUp "e1" (event "e1" claimed (some "w1")) attention after_failure
unfolding get_cash_flow_event
mark_failed-accounted_example =
    mark_failed-accounted "e1" "w1" "boom" outcome attention 40 store after_failure marked
      (event "e1" claimed (some "w1")) refl refl refl limit failure_run
