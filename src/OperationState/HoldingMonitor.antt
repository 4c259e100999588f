-- ===== src/OperationState/HoldingMonitor.antt =====
-- The schedule of the holdings change monitor: src/app/operation_state/_holding_monitor_mixin.py.
-- JSON columns are their canonical texts. `settle_holding_monitor`, which also reconciles the
-- duplicate cases, is in Settling.
pub mod Schedule
pub mod PlanText
pub mod Settling
use portfolio_management.Common.{
  ℕ, ◌+◌, ◌-◌, ◌*◌, String, Bool, true, false, not, ◌&&◌, Option, none, some, List, [], ◌∷◌, ◌++◌,
  ltb, ◌==◌, min, get_or, if◌then◌else◌, str_eq, is_some, value_error, Result, ok, err, keep,
}
use portfolio_management.Common.Table.{update, fetch_one}

abbrev pub second : ℕ
second = 1_000_000

pub record Monitor : Type 0 where
  pub scope_key : String
  pub file_token : String
  pub table_id : String
  pub settings_json : String
  pub epoch : String
  pub enabled : Bool
  pub ready : Bool
  pub rows_json : String
  pub requested : ℕ
  pub completed : ℕ
  pub observation_seq : ℕ
  pub next_due : Option ℕ
  pub failure_count : ℕ
  pub manual_attempt_at : Option ℕ
  pub manual_success_at : Option ℕ
  pub manual_error : Option String
  pub background_attempt_at : Option ℕ
  pub background_success_at : Option ℕ
  pub background_error : Option String

abbrev pub has_scope : String → Monitor → Bool
has_scope k m = str_eq m.scope_key k

-- CASE WHEN next_due IS NULL OR next_due>? THEN ? ELSE next_due END
unfoldable pub sooner : Option ℕ → ℕ → ℕ
sooner none due = due
sooner (some d) due = if ltb due d then due else d

-- requested=requested+1, and the new next_due; a monitor that backs off keeps its time
unfoldable pub request : ℕ → Monitor → Monitor
unfolding sooner
request due m = record m {
  requested = m.requested + 1;
  next_due = if ltb 0 m.failure_count then m.next_due else some (sooner m.next_due due);
}

unfoldable pub new_monitor : String → String → String → String → String → String → Monitor
new_monitor scope file table settings rows epoch = record {
  scope_key = scope;
  file_token = file;
  table_id = table;
  settings_json = settings;
  epoch = epoch;
  enabled = false;
  ready = true;
  rows_json = rows;
  requested = 0;
  completed = 0;
  observation_seq = 0;
  next_due = none;
  failure_count = 0;
  manual_attempt_at = none;
  manual_success_at = none;
  manual_error = none;
  background_attempt_at = none;
  background_success_at = none;
  background_error = none;
}

-- `epoch` is a fresh uuid; the row that was there is deleted
unfoldable pub initialize_holding_monitor :
    String
    → String
    → String
    → String
    → String
    → Bool
    → String
    → List Monitor
    → Result (List Monitor)
unfolding new_monitor
initialize_holding_monitor scope file table settings rows rebuild epoch t =
    if is_some (fetch_one (has_scope scope) t) && not rebuild
    then err (value_error "monitor baseline already exists; preview and explicitly --rebuild")
    else ok (
        keep (λ m. not (has_scope scope m)) t
        ++ new_monitor scope file table settings rows epoch ∷ [])

settings_match : String → Option Monitor → Bool
settings_match settings none = false
settings_match settings (some m) = str_eq m.settings_json settings

unfoldable pub configure_holding_monitor :
    String → String → Bool → List Monitor → Bool × List Monitor
unfolding settings_match
configure_holding_monitor scope settings enabled t =
    let valid = settings_match settings (fetch_one (λ m. has_scope scope m && m.ready) t) in
    (valid, update (has_scope scope) (λ m. record m { enabled = enabled && valid }) t)

-- `delay` is the argument `seconds`
unfoldable pub request_holding_monitor : String → ℕ → ℕ → List Monitor → List Monitor
unfolding request
request_holding_monitor scope delay now t =
    update (λ m. has_scope scope m && (m.ready && m.enabled)) (request (now + delay)) t

-- `(2, 5, 15, 30, 60)[min(count - 1, 4)]` seconds
unfoldable pub failure_delay : ℕ → ℕ
failure_delay count = get_or (2 ∷ 5 ∷ 15 ∷ 30 ∷ 60 ∷ []) (min (count - 1) 4) 0 * second

pub data Mode : Type 0 where
  manual background : Mode

abbrev pub mode_of : String → Option Mode
mode_of s =
    if str_eq s "manual"
    then some manual
    else if str_eq s "background"
    then some background
    else none

unfoldable pub back_off : ℕ → String → ℕ → Monitor → Monitor
unfolding failure_delay
back_off count error now m = record m {
  failure_count = count;
  next_due = some (now + failure_delay count);
  background_attempt_at = some now;
  background_error = some error;
}

unfoldable pub note_manual : String → ℕ → Monitor → Monitor
note_manual error now m = record m { manual_attempt_at = some now; manual_error = some error }

fail_as : String → Option Mode → String → ℕ → List Monitor → Option Monitor → Result (List Monitor)
unfolding back_off note_manual
fail_as scope none error now t row = err (value_error "invalid monitor mode")
fail_as scope (some background) error now t (some m) =
    ok (update (has_scope scope) (back_off (m.failure_count + 1) error now) t)
fail_as scope (some background) error now t none =
    ok (update (has_scope scope) (note_manual error now) t)
fail_as scope (some manual) error now t row =
    ok (update (has_scope scope) (note_manual error now) t)

unfoldable pub fail_holding_monitor :
    String → String → String → ℕ → List Monitor → Result (List Monitor)
unfolding fail_as
fail_holding_monitor scope mode error now t =
    fail_as scope (mode_of mode) error now t (fetch_one (has_scope scope) t)

unfoldable pub read_monitor : String → List Monitor → Option Monitor
read_monitor scope t = fetch_one (has_scope scope) t
