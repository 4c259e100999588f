-- ===== src/Tests/Cases.antt =====
-- Runs of the holding cases at concrete inputs.
use portfolio_management.Common.{
  ℕ, ◌≡◌, ◌⊎◌, refl, String, true, false, none, some, List, [], ◌∷◌, ◌++◌, Memᴰ, map, All, Error,
  ok, err, Json, text_json, object_json, Members, member, end, strip,
}
use portfolio_management.Common.Table.{fetch_one}
use portfolio_management.Common.Table.Keys.{HasUniqueKeys}
use portfolio_management.OperationState.Receipts.{insert_repeatable_closure_receipt_tx}
use portfolio_management.OperationState.EventInbox.{Event, Outcome, claimed}
use portfolio_management.OperationState.HoldingCases.{
  Case, CaseEvent, CaseStore, Candidate, has_case_key,
}
use portfolio_management.OperationState.HoldingCases.Supersede.{
  DiscoveryReceipt, Pass, Progress, normalized,
}
use portfolio_management.OperationState.HoldingCases.Materialize.{
  discovered, materialize_holding_cases,
}
use portfolio_management.OperationState.HoldingCases.Resolve.{
  Scan, Closing, close_row, resolve_holding_cases_external,
}
use portfolio_management.OperationState.HoldingCases.Apply.{
  Application, prepare_holding_apply, mark_holding_remote_attempt,
}
use portfolio_management.OperationState.HoldingCases.Audit.{subject, has_event}
use portfolio_management.OperationState.HoldingCases.Audit.Runs.{
  materialize, mark, calls, calls-logged,
}
use portfolio_management.OperationState.HoldingCases.Held.{write}
use portfolio_management.OperationState.HoldingCases.Held.Observation.{materialize-holds_automatic}
use portfolio_management.OperationState.HoldingCases.Attempts.{Started, mark-once}
use portfolio_management.OperationState.HoldingCases.Preparations.{
  Matches, Waits, prepare-then_starts,
}
use portfolio_management.OperationState.HoldingCases.Closings.{settled_row}
use portfolio_management.OperationState.HoldingCases.Closed.{Settles, resolve-Settles}
use portfolio_management.OperationState.HoldingInbox.Completion.{
  EventsAndCases, Materialization, complete_holding_event,
}
use portfolio_management.OperationState.HoldingInbox.Completed.{
  event_key, Completes, complete-processes,
}

-- any function stands for the digest here
abbrev sha256 : String → String
sha256 s = s

abbrev candidate : Candidate
candidate = record {
  case_key = " case-2 ";
  record_id = "rec-1";
  account = some "main";
  identity = some "{\"asset_id\":\"A\"}";
  field = "currency";
  kind = "missing_value";
  blocks_official_nav = true;
  policy_version = "v1";
  authority_id = none;
  current = text_json "";
  proposed = "\"USD\"";
  record_digest = "digest";
  case_precondition_digest = "precondition";
  legacy_case_precondition_digest = "";
  latest_evidence_instance_id = none;
  evidence = none;
  state = "pending_apply";
}

abbrev pending_case : Case
pending_case = record {
  case_key = "case-1";
  record_id = "rec-1";
  account = some "main";
  identity_json = "{\"asset_id\":\"A\"}";
  field = "currency";
  kind = "missing_value";
  blocks_official_nav = true;
  policy_version = "v1";
  authority_id = none;
  current = text_json "";
  proposed_json = "\"EUR\"";
  record_digest = "digest";
  case_precondition_digest = "precondition";
  latest_evidence_instance_id = none;
  evidence_json = "{}";
  state = "pending_apply";
  resolution = none;
  target_json = none;
  before_json = none;
  apply_attempt_id = none;
  remote_attempt_started_at = none;
  last_error = none;
  created_at = 1;
  updated_at = 1;
}

abbrev automatic : Json
automatic = object_json (
    member "operator_context" (object_json (member "method" (text_json "automatic_policy") end))
      end)

abbrev applying_case : Case
applying_case = record pending_case {
  state = "applying";
  resolution = some automatic;
  apply_attempt_id = some "attempt-1";
}

abbrev store_of : Case → CaseStore
store_of r = record { rows = r ∷ []; events = []; outbox = [] }

abbrev receipt : DiscoveryReceipt
receipt = record {
  case_key = "case-2";
  receipt_key = "holdings:case:case-2";
  receipt_type = "holding_case_discovered";
  payload_json = "{}";
}

abbrev pass : Pass
pass = record {
  discovery_receipts = receipt ∷ [];
  trigger = end;
  now = 5;
  enqueue_receipts = false;
}

-- a case of another field, which the observation adds beside the case that is held
abbrev other_field : Candidate
other_field = record candidate { case_key = "case-2"; field = "asset_class" }

abbrev observed : Progress
observed = record {
  store = discovered pass (normalized other_field) (store_of applying_case);
  created_case_keys = "case-2" ∷ [];
  refreshed_case_keys = [];
  reopened_case_keys = [];
  superseded_case_keys = [];
  enqueued_receipt_keys = [];
}

materialize-holds_automatic_example :
    (r' : Case) × (fetch_one (has_case_key "case-1") observed.store.rows ≡ some r')
    × (write r' ≡ write applying_case)
unfolding materialize_holding_cases normalized discovered strip
materialize-holds_automatic_example =
    materialize-holds_automatic sha256 pass (candidate ∷ other_field ∷ []) (store_of applying_case)
      "case-1" applying_case observed (refl, tt) refl refl refl

calls-logged_example :
    (events : List CaseEvent) × ((calls sha256
        (materialize pass (candidate ∷ []) ∷ mark "attempt-1" 7 ("case-1" ∷ []) ∷ [])
        (store_of pending_case)).events
      ≡ [] ++ events)
    × ((key : String) (r : Case)
        → fetch_one (has_case_key key) (pending_case ∷ []) ≡ some r
        → (r' : Case) × (fetch_one
              (has_case_key key)
              (calls sha256
                (materialize pass (candidate ∷ []) ∷ mark "attempt-1" 7 ("case-1" ∷ []) ∷ [])
                (store_of pending_case)).rows
            ≡ some r')
          × (subject r' ≡ subject r)
          × ((r'.state ≡ r.state) ⊎ (has_event r.case_key events ≡ true)))
calls-logged_example =
    calls-logged sha256
      (materialize pass (candidate ∷ []) ∷ mark "attempt-1" 7 ("case-1" ∷ []) ∷ [])
      (store_of pending_case)

abbrev started_store : CaseStore
started_store = record {
  rows = record applying_case { remote_attempt_started_at = some 7; updated_at = 7 } ∷ [];
  events =
      record {
        case_key = "case-1";
        event_type = "remote_attempt_started";
        payload = object_json (member "apply_attempt_id" (text_json "attempt-1") end);
        created_at = 7;
      }
      ∷ [];
  outbox = [];
}

mark-once_example :
    All (Started "attempt-1" 7 started_store) ("case-1" ∷ [])
    × ((key other : String) (later : ℕ) (more : List String)
        → Memᴰ key ("case-1" ∷ [])
        → Memᴰ key more
        → (x : Error) × (mark_holding_remote_attempt other later more started_store ≡ err x))
unfolding mark_holding_remote_attempt
mark-once_example =
    mark-once "attempt-1" 7 ("case-1" ∷ []) (store_of applying_case) started_store (refl, tt) refl

abbrev application : Application
application = record {
  case_key = "case-1";
  allowed_states = "pending_apply" ∷ "pending_confirmation" ∷ [];
  case_precondition_digest = "precondition";
  target = "{}";
  before = "{}";
  decision = text_json "accept";
  reason = text_json "";
  confirmation_scope = text_json "";
}

abbrev prepared_resolution : Members
prepared_resolution = member "operator_context" (object_json end) (
    member "decision" (text_json "accept")
      (member "reason" (text_json "") (member "confirmation_scope" (text_json "") end)))

prepare-runs :
    (t : CaseStore) × (prepare_holding_apply "attempt-1" end 6
        (application ∷ [])
        (store_of pending_case)
      ≡ ok t)
unfolding prepare_holding_apply
prepare-runs = (_, refl)

prepare-then_starts_example :
    All (Matches (store_of pending_case)) (application ∷ [])
    × All (λ (a : Application). Waits "attempt-1" prepare-runs.0 a.case_key) (application ∷ [])
    × ((later : ℕ)
        → (v : CaseStore) × (mark_holding_remote_attempt "attempt-1" later
              (map (λ (a : Application). a.case_key) (application ∷ []))
              prepare-runs.0
            ≡ ok v))
prepare-then_starts_example =
    prepare-then_starts "attempt-1" end 6 (application ∷ []) (store_of pending_case) prepare-runs.0
      (refl, tt) (tt, tt) prepare-runs.1

abbrev scan : Scan
scan = record {
  record_id = "rec-1";
  active_case_keys = "case-2" ∷ [];
  record_digest = "digest-2";
  current_identity = "{\"asset_id\":\"A\"}";
  trigger = end;
  now = 9;
  enqueue_receipts = true;
}

resolve-runs : (p : Closing) × (resolve_holding_cases_external scan (store_of pending_case) ≡ ok p)
unfolding resolve_holding_cases_external insert_repeatable_closure_receipt_tx
resolve-runs = (_, refl)

resolve-Settles_example :
    (r' : Case) × (fetch_one (has_case_key "case-1") resolve-runs.0.store.rows ≡ some r')
    × Settles scan pending_case r'
resolve-Settles_example =
    resolve-Settles scan (store_of pending_case) resolve-runs.0 "case-1" pending_case (refl, tt)
      resolve-runs.1 refl

-- the scan shows another case of the record, and the identity of the closed one
closes : (settled_row scan pending_case).state ≡ "resolved_external"
unfolding settled_row close_row
closes = refl

abbrev event : Event
event = record {
  event_id = "event-1";
  event_type = "record_changed";
  file_token = "file";
  table_id = "table";
  revision = none;
  action_list_json = "[]";
  payload_digest = "p";
  state = claimed;
  attempt_count = 0;
  next_attempt_at = 0;
  claim_id = some "claim-1";
  claimed_at = some 3;
  outcome = none;
  last_error = none;
  received_at = 1;
  updated_at = 3;
}

abbrev outcome : Outcome
outcome = record {
  other_entries = "\"status\":\"done\"";
  workflow = none;
  status = none;
  attempt_count = none;
  receipt_keys = [];
  enqueued_receipt_keys = [];
}

abbrev inbox : EventsAndCases
inbox = record { events = event ∷ []; cases = store_of pending_case }

complete-runs :
    (done : Outcome × EventsAndCases) × (complete_holding_event sha256 "event-1" "claim-1" []
        outcome 8 inbox
      ≡ ok done)
unfolding complete_holding_event
complete-runs = (_, refl)

complete-processes_example :
    Completes "event-1" "claim-1" inbox complete-runs.0
    × ((other : String) (more : List Materialization) (late : Outcome) (later : ℕ)
        → HasUniqueKeys event_key complete-runs.0.1.events
        → (x : Error) × (complete_holding_event sha256 "event-1" other more late later
              complete-runs.0.1
            ≡ err x))
complete-processes_example =
    complete-processes sha256 "event-1" "claim-1" [] outcome 8 inbox complete-runs.0 (refl, tt)
      complete-runs.1
