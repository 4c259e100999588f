-- ===== src/Compensation/Service.antt =====
-- The operations of the compensation service (src/app/compensation_service.py) on its log. Applying
-- a target, which writes holdings, and the remote mirror are parameters. A call reads its clock once.
use portfolio_management.Common.{
  String, Bool, true, false, not, ◌&&◌, Option, none, some, List, [], ◌∷◌, ◌++◌, if◌then◌else◌,
  str_eq, strip, is_empty, all_of, value_error, Error, Result, ok, err, ◌>>=◌, ◌>>◌, raise_if,
}
use portfolio_management.Compensation.Contract.{
  CompensationStatus, prepared, pending, status_in, mirror_activating,
  validate_compensation_transition,
}
use portfolio_management.Compensation.Log.{
  LogEvent, Task, Metadata, MirrorReceipt, get_task, payload_is_supported,
}

-- what the mirror's call does
pub data MirrorOutcome : Type 0 where
  returned : MirrorReceipt → MirrorOutcome
  raised : String → MirrorOutcome

abbrev pub no_metadata : {O : Type 0} → Metadata O
no_metadata = record {
  related_record_id = none;
  stage = none;
  snapshot_result = none;
  retry_count = none;
  target_outcomes = none;
  error = none;
  error_type = none;
  resolution = none;
  resolved_at = none;
}

abbrev pub status_event :
    {T O : Type 0} → String → CompensationStatus → Metadata O → String → Bool → LogEvent T O
status_event id status meta now eligible = record {
  task_id = id;
  operation_type = none;
  account = none;
  payload = none;
  created_at = none;
  status = some status;
  metadata = meta;
  updated_at = some now;
  mirror_eligible = some eligible;
  mirror_receipt = none;
  mirror_record_id = none;
}

abbrev pub receipt_of : MirrorOutcome → MirrorReceipt
receipt_of (returned r) = r
receipt_of (raised e) = record { status = "failed"; record_id = none; error = some e }

-- `str(receipt.get("record_id") or "").strip()`, where the code tests it
abbrev pub nonempty_id : Option String → Option String
nonempty_id none = none
nonempty_id (some s) = if str_eq (strip s) "" then none else some (strip s)

abbrev pub mirror_event : {T O : Type 0} → String → MirrorReceipt → LogEvent T O
mirror_event id receipt = record {
  task_id = id;
  operation_type = none;
  account = none;
  payload = none;
  created_at = none;
  status = none;
  metadata = no_metadata;
  updated_at = none;
  mirror_eligible = none;
  mirror_receipt = some receipt;
  mirror_record_id = nonempty_id receipt.record_id;
}

abbrev pub created_event :
    {T O : Type 0}
    → String
    → String
    → String
    → CompensationStatus
    → List T
    → String
    → Option String
    → String
    → Bool
    → LogEvent T O
created_event id operation account status targets error related now eligible = record {
  task_id = id;
  operation_type = some operation;
  account = some account;
  payload = some targets;
  created_at = some now;
  status = some status;
  metadata = record no_metadata {
    related_record_id = some related;
    retry_count = some 0;
    error = some error;
  };
  updated_at = some now;
  mirror_eligible = some eligible;
  mirror_receipt = none;
  mirror_record_id = none;
}

abbrev pub not_found : Error
not_found = value_error "compensation task not found"

module _ {T O : Type 0} (supports : T → Bool) (mirror : Task T O → Option MirrorOutcome) where
  unfoldable pub mirror_found :
      String → List (LogEvent T O) → Option MirrorOutcome → List (LogEvent T O)
  mirror_found id log none = log
  mirror_found id log (some outcome) = log ++ mirror_event id (receipt_of outcome) ∷ []

  unfoldable pub mirror_task :
      String → List (LogEvent T O) → Option (Task T O) → List (LogEvent T O)
  unfolding mirror_found
  mirror_task id log none = log
  mirror_task id log (some t) =
      if not t.mirror_eligible then log else mirror_found id log (mirror t)

  -- `_mirror_current_state`
  unfoldable pub mirror_current_state : String → List (LogEvent T O) → List (LogEvent T O)
  unfolding mirror_task
  mirror_current_state id log = mirror_task id log (get_task supports id log)

  unfoldable pub mirror_if : Bool → String → List (LogEvent T O) → List (LogEvent T O)
  unfolding mirror_current_state
  mirror_if eligible id log = if eligible then mirror_current_state id log else log

  -- `record`
  unfoldable pub record_task :
      String
      → String
      → String
      → List T
      → String
      → Option String
      → String
      → List (LogEvent T O)
      → List (LogEvent T O)
  unfolding mirror_if
  record_task id operation account targets error related now log =
      let eligible = payload_is_supported supports (some targets) in
      mirror_if eligible id
        (log ++ created_event id operation account pending targets error related now eligible ∷ [])

  unfoldable pub prepare :
      String
      → String
      → String
      → List T
      → String
      → List (LogEvent T O)
      → Result (List (LogEvent T O))
  prepare id operation account targets now log = do
    raise_if (is_empty targets) (value_error "prepared compensation payload requires targets")
    raise_if (not (all_of supports targets))
        (value_error "prepared compensation payload contains unsupported target")
    ok (log ++ created_event id operation account prepared targets "" none now false ∷ [])

  -- whether the task is mirrored from this event on
  abbrev pub eligible_after : Task T O → CompensationStatus → Bool
  eligible_after t status =
      if not t.mirror_eligible && (t.supported && status_in status mirror_activating)
      then true
      else t.mirror_eligible

  unfoldable pub append_found :
      String
      → CompensationStatus
      → Metadata O
      → String
      → List (LogEvent T O)
      → Option (Task T O)
      → Result (List (LogEvent T O))
  unfolding mirror_if
  append_found id status meta now log none = err not_found
  append_found id status meta now log (some t) = do
    target ← validate_compensation_transition t.status status
    ok (
        mirror_if (eligible_after t target) id
          (log ++ status_event id target meta now (eligible_after t target) ∷ []))

  -- `_append_status`; `update_status` is the same under the task's lock
  unfoldable pub append_status :
      String
      → CompensationStatus
      → Metadata O
      → String
      → List (LogEvent T O)
      → Result (List (LogEvent T O))
  unfolding append_found
  append_status id status meta now log =
      append_found id status meta now log (get_task supports id log)
