-- ===== src/Compensation/Retry.antt =====
-- The retry of a compensation task (`retry` of src/app/compensation_service.py). Applying a target,
-- which writes holdings, is a parameter.
use portfolio_management.Common.{
  ℕ, suc, ◌+◌, String, Bool, true, false, not, Option, none, some, List, [], ◌∷◌, ◌++◌, or_else,
  if◌then◌else◌, value_error, Error, Result, ok, err, try_except, ◌>>=◌,
}
use portfolio_management.Compensation.Contract.{running, failed, resolved, same_status}
use portfolio_management.Compensation.Log.{LogEvent, Task, Metadata, TargetOutcome, get_task}
use portfolio_management.Compensation.Service.{MirrorOutcome, append_status, no_metadata, not_found}

abbrev pub progress : {O : Type 0} → ℕ → List (TargetOutcome O) → Metadata O
progress count outcomes = record no_metadata {
  retry_count = some count;
  target_outcomes = some outcomes;
}

abbrev pub error_type : (Error → Bool) → Error → String
error_type is_conflict e = if is_conflict e then "state_conflict" else "target_apply_failed"

-- What the loop over the targets leaves: log, written state, outcomes, and the exception.
pub record Applied (T O W : Type 0) : Type 0 where
  pub log : List (LogEvent T O)
  pub world : W
  pub outcomes : List (TargetOutcome O)
  pub stop : Option Error

module _ {T O : Type 0} (supports : T → Bool) (mirror : Task T O → Option MirrorOutcome) where
  module _ {W : Type 0} (target_type : T → String) (is_conflict : Error → Bool)
      (text_of : Error → String) (apply_target : T → W → Result O × W) where
    unfoldable pub apply_targets :
        String
        → ℕ
        → String
        → ℕ
        → List T
        → List (TargetOutcome O)
        → List (LogEvent T O)
        → W
        → Applied T O W
    apply_targets id count now index [] outcomes log w = record {
      log = log;
      world = w;
      outcomes = outcomes;
      stop = none;
    }
    apply_targets id count now index (t ∷ ts) outcomes log w =
        let (result, w') = apply_target t w in
        try_except result
          (λ outcome.
            let outcomes' =
              outcomes
              ++ record { index = index; target_type = target_type t; outcome = outcome } ∷ [] in
            try_except (append_status supports mirror id running (progress count outcomes') now log)
              (λ log'. apply_targets id count now (suc index) ts outcomes' log' w')
              (λ e. record { log = log; world = w'; outcomes = outcomes'; stop = some e }))
          (λ e. record { log = log; world = w'; outcomes = outcomes; stop = some e })

    -- the last event of a retry, after the loop
    unfoldable pub close_retry :
        String → ℕ → String → Applied T O W → Option Error → Result (Bool × List (LogEvent T O))
    close_retry id count now a none = do
      log ←
          append_status supports mirror id resolved
            (record (progress count a.outcomes) {
              error = some "";
              resolution = some "targets_applied_and_read_back";
              resolved_at = some now;
            })
            now a.log
      ok (true, log)
    close_retry id count now a (some e) = do
      log ←
          append_status supports mirror id failed
            (record (progress count a.outcomes) {
              error = some (text_of e);
              error_type = some (error_type is_conflict e);
            })
            now a.log
      ok (false, log)

    -- the part under the locks, where the task is read again
    unfoldable pub retry_locked :
        String
        → String
        → List (LogEvent T O)
        → W
        → Option (Task T O)
        → List (LogEvent T O) × W × Result Bool
    unfolding apply_targets close_retry
    retry_locked id now log w none = (log, w, err not_found)
    retry_locked id now log w (some t) =
        if same_status t.status resolved
        then (log, w, ok true)
        else let count = t.retry_count + 1 in
          try_except (append_status supports mirror id running (progress count []) now log)
            (λ log'.
              let a = apply_targets id count now 0 (or_else t.payload []) [] log' w in
              try_except (close_retry id count now a a.stop) (λ r. (r.1, a.world, ok r.0))
                (λ e. (a.log, a.world, err e)))
            (λ e. (log, w, err e))

    unfoldable pub retry_found :
        String
        → String
        → List (LogEvent T O)
        → W
        → Option (Task T O)
        → List (LogEvent T O) × W × Result Bool
    unfolding retry_locked
    retry_found id now log w none = (log, w, err not_found)
    retry_found id now log w (some t) =
        if not t.supported
        then (log, w, ok false)
        else retry_locked id now log w (get_task supports id log)

    -- `retry`: its log, the written state, and its `success`
    unfoldable pub retry :
        String → Bool → String → List (LogEvent T O) → W → List (LogEvent T O) × W × Result Bool
    unfolding retry_found
    retry id confirm now log w =
        if not confirm
        then (log, w, err (value_error "compensation retry requires confirm=True"))
        else retry_found id now log w (get_task supports id log)
