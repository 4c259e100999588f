-- ===== src/Compensation/Log.antt =====
-- The event log of compensation tasks and its fold (src/app/compensation_service.py). A log event is
-- a JSON object; a key that an event lacks is `none` here. `T` is the type of the write targets,
-- which the log does not look into, and `O` that of an applied target's outcome.
use portfolio_management.Common.{
  ℕ, String, Bool, false, not, ◌&&◌, Option, none, some, List, [], ◌∷◌, or_else, is_empty, length,
  all_of,
}
use portfolio_management.Common.Dict.{text_eq, dict_get, dict_set, or_read}
use portfolio_management.Compensation.Contract.{CompensationStatus, prepared, pending, same_status}

-- An entry of `target_outcomes`.
pub record TargetOutcome (O : Type 0) : Type 0 where
  pub index : ℕ
  pub target_type : String
  pub outcome : O

pub record MirrorReceipt : Type 0 where
  pub status : String
  pub record_id : Option String
  pub error : Option String

-- What a status event carries besides the status: the keys that the repository's callers give. A record
-- id that is written as null is `some none`, and a snapshot result counts by its canonical text.
pub record Metadata (O : Type 0) : Type 0 where
  pub related_record_id : Option (Option String)
  pub stage : Option String
  pub snapshot_result : Option String
  pub retry_count : Option ℕ
  pub target_outcomes : Option (List (TargetOutcome O))
  pub error : Option String
  pub error_type : Option String
  pub resolution : Option String
  pub resolved_at : Option String

-- A payload counts by its list of targets, if it has one.
pub record LogEvent (T O : Type 0) : Type 0 where
  pub task_id : String
  pub operation_type : Option String
  pub account : Option String
  pub payload : Option (List T)
  pub created_at : Option String
  pub status : Option CompensationStatus
  pub metadata : Metadata O
  pub updated_at : Option String
  pub mirror_eligible : Option Bool
  pub mirror_receipt : Option MirrorReceipt
  pub mirror_record_id : Option String

-- A task as the fold builds it.
pub record Task (T O : Type 0) : Type 0 where
  pub task_id : String
  pub operation_type : Option String
  pub account : Option String
  pub payload : Option (List T)
  pub created_at : Option String
  pub related_record_id : Option String
  pub stage : Option String
  pub snapshot_result : Option String
  pub status : CompensationStatus
  pub retry_count : ℕ
  pub target_outcomes : List (TargetOutcome O)
  pub error : Option String
  pub error_type : Option String
  pub resolution : Option String
  pub resolved_at : Option String
  pub updated_at : Option String
  pub mirror_eligible : Bool
  pub mirror_receipt : Option MirrorReceipt
  pub mirror_record_id : Option String
  pub supported : Bool
  pub target_count : ℕ

abbrev pub count_targets : {T : Type 0} → Option (List T) → ℕ
count_targets none = 0
count_targets (some ts) = length ts

-- `_payload_is_supported`, by the test of one target
abbrev pub payload_is_supported : {T : Type 0} → (T → Bool) → Option (List T) → Bool
payload_is_supported supports none = false
payload_is_supported supports (some ts) = not (is_empty ts) && all_of supports ts

module _ {T O : Type 0} (supports : T → Bool) where
  -- the first event of a task, with its defaults
  unfoldable pub begin_task : LogEvent T O → Task T O
  begin_task e =
      let status = or_else e.status pending in
      let supported = payload_is_supported supports e.payload in
      record {
        task_id = e.task_id;
        operation_type = e.operation_type;
        account = e.account;
        payload = e.payload;
        created_at = e.created_at;
        related_record_id = or_else e.metadata.related_record_id none;
        stage = e.metadata.stage;
        snapshot_result = e.metadata.snapshot_result;
        status = status;
        retry_count = or_else e.metadata.retry_count 0;
        target_outcomes = or_else e.metadata.target_outcomes [];
        error = e.metadata.error;
        error_type = e.metadata.error_type;
        resolution = e.metadata.resolution;
        resolved_at = e.metadata.resolved_at;
        updated_at = e.updated_at;
        mirror_eligible =
            or_else e.mirror_eligible (supported && not (same_status status prepared));
        mirror_receipt = e.mirror_receipt;
        mirror_record_id = e.mirror_record_id;
        supported = supported;
        target_count = count_targets e.payload;
      }

  -- a later event: its keys replace the task's, but for those that identify the operation
  unfoldable pub merge_event : LogEvent T O → Task T O → Task T O
  merge_event e t = record t {
    related_record_id = or_else e.metadata.related_record_id t.related_record_id;
    stage = or_read e.metadata.stage t.stage;
    snapshot_result = or_read e.metadata.snapshot_result t.snapshot_result;
    status = or_else e.status t.status;
    retry_count = or_else e.metadata.retry_count t.retry_count;
    target_outcomes = or_else e.metadata.target_outcomes t.target_outcomes;
    error = or_read e.metadata.error t.error;
    error_type = or_read e.metadata.error_type t.error_type;
    resolution = or_read e.metadata.resolution t.resolution;
    resolved_at = or_read e.metadata.resolved_at t.resolved_at;
    updated_at = or_read e.updated_at t.updated_at;
    mirror_eligible = or_else e.mirror_eligible t.mirror_eligible;
    mirror_receipt = or_read e.mirror_receipt t.mirror_receipt;
    mirror_record_id = or_read e.mirror_record_id t.mirror_record_id;
    supported = payload_is_supported supports t.payload;
    target_count = count_targets t.payload;
  }

  abbrev pub fold_task : LogEvent T O → Option (Task T O) → Task T O
  fold_task e none = begin_task e
  fold_task e (some t) = merge_event e t

  unfoldable pub fold_from :
      List (String × Task T O) → List (LogEvent T O) → List (String × Task T O)
  unfolding begin_task merge_event
  fold_from folded [] = folded
  fold_from folded (e ∷ es) =
      fold_from (dict_set e.task_id (fold_task e (dict_get e.task_id folded)) folded) es

  abbrev pub fold_events : List (LogEvent T O) → List (String × Task T O)
  fold_events log = fold_from [] log

  unfoldable pub get_task : String → List (LogEvent T O) → Option (Task T O)
  unfolding fold_from
  get_task id log = dict_get id (fold_events log)
