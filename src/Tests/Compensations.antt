-- ===== src/Tests/Compensations.antt =====
-- Tests of the compensation service (src/app/compensation_service.py). A target is a text that is
-- written to a list; the target `bad` raises.
use portfolio_management.Common.{
  ◌+◌, ◌≡◌, refl, String, Bool, true, false, not, Option, none, some, List, [], ◌∷◌, is_some,
  if◌then◌else◌, str_eq, strip, Error, runtime_error, Result, ok, err,
}
use portfolio_management.Compensation.Contract.{pending, failed, resolved}
use portfolio_management.Compensation.Log.{LogEvent, Task, get_task}
use portfolio_management.Compensation.Service.{MirrorOutcome, returned, no_metadata, record_task}
use portfolio_management.Compensation.Retry.{retry}
use portfolio_management.Compensation.Retries.{apply_all, retry-apply_all}
use portfolio_management.Compensation.Traces.{Op, create, update_status, retry_task, run, run-task}
use portfolio_management.Compensation.Lifecycle.{Follows}

abbrev supports : String → Bool
supports target = not (str_eq target "legacy")

abbrev target_type : String → String
target_type target = "HOLDING_TARGET_SET"

abbrev is_conflict : Error → Bool
is_conflict e = false

abbrev text_of : Error → String
text_of e = "failed"

abbrev apply_target : String → List String → Result String × List String
apply_target target w =
    if str_eq target "bad" then (err (runtime_error "bad"), w) else (ok "applied", target ∷ w)

abbrev mirror : Task String String → Option MirrorOutcome
mirror t = some (returned (record { status = "created"; record_id = some "rec"; error = none }))

abbrev targets : List String
targets = "a" ∷ "bad" ∷ "b" ∷ []

abbrev log : List (LogEvent String String)
log = record_task supports mirror "t" "BUY" "acc" targets "boom" none "now" []

abbrev found : Option (Task String String) → Task String String → Task String String
found none d = d
found (some t) d = t

abbrev task : Task String String
task = record {
  task_id = "t";
  operation_type = some "BUY";
  account = some "acc";
  payload = some targets;
  created_at = some "now";
  related_record_id = none;
  stage = none;
  snapshot_result = none;
  status = pending;
  retry_count = 0;
  target_outcomes = [];
  error = some "boom";
  error_type = none;
  resolution = none;
  resolved_at = none;
  updated_at = some "now";
  mirror_eligible = true;
  mirror_receipt = some (record { status = "created"; record_id = some "rec"; error = none });
  mirror_record_id = some "rec";
  supported = true;
  target_count = 3;
}

read_task : get_task supports "t" log ≡ some task
unfolding get_task record_task strip
read_task = refl

-- the second target raises: the first is written, the third is not
stops_at_bad : (apply_all target_type apply_target 0 targets [] []).world ≡ "a" ∷ []
stops_at_bad = refl

retry-apply_all_example :
    let (log', w', result) =
      retry supports mirror target_type is_conflict text_of apply_target "t" true "later" log [] in
    let spec = apply_all target_type apply_target 0 targets [] [] in
    (w' ≡ spec.world)
    × (result ≡ ok (not (is_some spec.stop)))
    × (t' : Task String String) × (get_task supports "t" log' ≡ some t')
    × (t'.status ≡ (if is_some spec.stop then failed else resolved))
    × (t'.retry_count ≡ 0 + 1)
    × (t'.target_outcomes ≡ spec.outcomes)
    × (t'.payload ≡ some targets)
retry-apply_all_example =
    retry-apply_all supports mirror target_type is_conflict text_of apply_target "t" "later" log []
      task targets read_task refl refl refl

abbrev work : List (String × Op String String)
work =
    ("1", create "u" "SELL" "acc" ("c" ∷ []) "e" none)
    ∷ ("2", retry_task "t" true)
    ∷ ("3", update_status "t" resolved no_metadata)
    ∷ ("4", update_status "t" pending no_metadata)
    ∷ ("5", retry_task "u" true)
    ∷ []

run-task_example :
    (t' : Task String String) × (get_task supports "t"
        (run supports mirror target_type is_conflict text_of apply_target work (log, [])).0
      ≡ some t')
    × Follows task t'
    × (pending ≡ resolved → t'.status ≡ resolved)
run-task_example =
    run-task supports mirror target_type is_conflict text_of apply_target "t" work log [] task
      read_task (refl, (refl, (refl, (refl, (refl, tt)))))
