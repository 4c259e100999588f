-- ===== src/Tests/Holdings.antt =====
-- Tests of the holding event inbox and the change monitor (src/app/operation_state/
-- _holding_event_mixin.py and _holding_monitor_mixin.py).
use portfolio_management.Common.{
  ℕ, ◌*◌, ◌≡◌, refl, String, true, false, none, some, List, [], ◌∷◌, ok,
}
use portfolio_management.OperationState.EventInbox.{Event, Delivery, Outcome, processed, new_event}
use portfolio_management.OperationState.HoldingMonitor.{Monitor, second, new_monitor}
use portfolio_management.OperationState.HoldingInbox.{
  coalesce_time, Store, Settings, accept_holding_event, get_holding_event,
}
use portfolio_management.Common.Table.Evolution.{Evolves}
use portfolio_management.OperationState.EventInbox.Edges.{Accepted}
use portfolio_management.OperationState.HoldingInbox.Accepts.{Woken, accept-once}
use portfolio_management.OperationState.HoldingInbox.Runs.{
  Call, accept, claim, process, fail, complete, Tables, calls, calls-kept,
}

abbrev delivery : String → Delivery
delivery id = record {
  event_id = id;
  event_type = "drive.file.bitable_record_changed_v1";
  file_token = "file";
  table_id = "table";
  revision = some "7";
  action_json = "[]";
  payload_digest = "d";
}

abbrev outcome : Outcome
outcome = record {
  other_entries = "{}";
  workflow = none;
  status = none;
  attempt_count = none;
  receipt_keys = [];
  enqueued_receipt_keys = [];
}

abbrev settings : Settings
settings = record { enabled = true; coalesce = none }

abbrev monitor : Monitor
monitor = record (new_monitor "scope" "file" "table" "{}" "{}" "epoch") {
  enabled = true;
  next_due = some (90 * second);
}

abbrev sha256 : String → String
sha256 s = s

abbrev done : Event
done = record (new_event (delivery "old") 5) { state = processed }

abbrev store : Store
store = record { events = done ∷ []; monitors = monitor ∷ [] }

abbrev work : List (ℕ × Call)
work =
    (10, accept settings (delivery "e1"))
    ∷ (20, claim 5 (some "w") "uuid")
    ∷ (30, fail "e1" "w" "boom")
    ∷ (40, process "old" "w" outcome)
    ∷ (50, complete "old" "w" [] outcome)
    ∷ []

abbrev tables : Tables
tables = record { store = store; cases = record { rows = []; events = []; outbox = [] } }

calls-kept_example :
    (e' : Event) × (get_holding_event "old" (calls sha256 work tables).store ≡ some e')
    × (e'.event_type ≡ done.event_type)
    × (e'.file_token ≡ done.file_token)
    × (e'.table_id ≡ done.table_id)
    × (e'.revision ≡ done.revision)
    × (e'.action_list_json ≡ "[]")
    × (e'.payload_digest ≡ "d")
    × (e'.received_at ≡ 5)
    × (done.state ≡ processed → e' ≡ done)
unfolding get_holding_event new_event
calls-kept_example = calls-kept sha256 "old" work tables done refl

accept-once_example :
    (s' : Store) × (accept_holding_event settings (delivery "e1") 10 store ≡ ok (true, s'))
    × ((e : Event) × (get_holding_event "e1" s' ≡ some e) × Accepted (delivery "e1") 10 e)
    × (settings.enabled ≡ false → s'.monitors ≡ store.monitors)
    × (settings.enabled ≡ true
        → Evolves
            (Woken (delivery "e1") (coalesce_time settings.coalesce) 10)
            (λ m. ⊥)
            store.monitors
            s'.monitors)
    × ((other : Settings) (later : ℕ)
        → accept_holding_event other (delivery "e1") later s' ≡ ok (false, s'))
unfolding get_holding_event new_event
accept-once_example = accept-once settings (delivery "e1") 10 store refl
