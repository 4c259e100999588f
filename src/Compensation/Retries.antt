-- ===== src/Compensation/Retries.antt =====
-- What a retry does, against a plain description of it: apply the targets in their order until one
-- raises.
use portfolio_management.Common.{
  ℕ, suc, ◌+◌, ◌≡◌, refl, ◌∙◌, inl, inr, String, Bool, true, false, not, Option, none, some, List,
  [], ◌∷◌, ◌++◌, is_some, if◌then◌else◌, arith, Error, Result, ok, try_except, Result-cases,
}
use portfolio_management.Compensation.Contract.{
  CompensationStatus, running, failed, resolved, same_status, status_in, transitions,
}
use portfolio_management.Compensation.Log.{LogEvent, Task, TargetOutcome, get_task}
use portfolio_management.Compensation.Service.{MirrorOutcome}
use portfolio_management.Compensation.Retry.{
  Applied, apply_targets, progress, close_retry, retry, retry_found, retry_locked, error_type,
}
use portfolio_management.Compensation.Reads.{append_status-Updated}

-- What applying the targets comes to.
pub record Effect (O W : Type 0) : Type 0 where
  pub world : W
  pub outcomes : List (TargetOutcome O)
  pub stop : Option Error

module _ {T O W : Type 0} (target_type : T → String) (apply_target : T → W → Result O × W) where
  -- the description: no log, no statuses
  abbrev pub apply_all : ℕ → List T → List (TargetOutcome O) → W → Effect O W
  apply_all index [] outcomes w = record { world = w; outcomes = outcomes; stop = none }
  apply_all index (t ∷ ts) outcomes w =
      let (result, w') = apply_target t w in
      try_except result
        (λ outcome.
          apply_all (suc index) ts
            (outcomes
              ++ record { index = index; target_type = target_type t; outcome = outcome } ∷ [])
            w')
        (λ e. record { world = w'; outcomes = outcomes; stop = some e })

-- A task that is being retried for the `count`-th time.
pub record Going {T O : Type 0} (count : ℕ) (t t' : Task T O) : Type 0 where
  pub same_payload : t'.payload ≡ t.payload
  pub is_running : t'.status ≡ running
  pub counted : t'.retry_count ≡ count

module _ {T O W : Type 0} (supports : T → Bool) (mirror : Task T O → Option MirrorOutcome)
    (target_type : T → String) (is_conflict : Error → Bool) (text_of : Error → String)
    (apply_target : T → W → Result O × W) where
  abbrev Loop :
      String
      → ℕ
      → String
      → ℕ
      → List T
      → List (TargetOutcome O)
      → List (LogEvent T O)
      → W
      → Task T O
      → Type 0
  Loop id count now index ts outcomes log w t =
      let a =
        apply_targets supports mirror target_type is_conflict text_of apply_target id count now
          index ts outcomes log w in
      let spec = apply_all target_type apply_target index ts outcomes w in
      (a.world ≡ spec.world)
      × (a.outcomes ≡ spec.outcomes)
      × (a.stop ≡ spec.stop)
      × (t' : Task T O) × (get_task supports id a.log ≡ some t')
      × Going count t t'

  apply_targets-apply_all :
      (id : String) (count : ℕ) (now : String) (index : ℕ) (ts : List T)
      (outcomes : List (TargetOutcome O)) (log : List (LogEvent T O)) (w : W) (t u : Task T O)
      → get_task supports id log ≡ some u
      → Going count t u
      → Loop id count now index ts outcomes log w t
  unfolding apply_targets
  apply_targets-apply_all id count now index [] outcomes log w t u g going =
      (refl, refl, refl, u, g, going)
  apply_targets-apply_all id count now index (x ∷ ts) outcomes log w t u g going =
      elim (Result-cases (apply_target x w).0) [
        | inl (outcome, e) ↦
            let outcomes' =
              outcomes
              ++ record { index = index; target_type = target_type x; outcome = outcome } ∷ [] in
            let (log', f, (v, g', d)) =
              append_status-Updated supports mirror id running (progress count outcomes') now log u
                g (rw going.is_running refl) in
            rw (e, f)
              (apply_targets-apply_all id count now (suc index) ts outcomes' log'
                (apply_target x w).1 t v g'
                (record {
                  same_payload = d.same_payload ∙ going.same_payload;
                  is_running = d.new_status;
                  counted = d.new_count;
                }))
        | inr (x, e) ↦ rw e (refl, refl, refl, u, g, going)
      ]

  -- The end of a retry: the status that its outcome calls for, on the task that the loop left.
  abbrev Closed : String → Applied T O W → Option Error → List (LogEvent T O) → Task T O → Type 0
  Closed id a stop log t =
      (t' : Task T O) × (get_task supports id log ≡ some t')
      × (t'.status ≡ (if is_some stop then failed else resolved))
      × (t'.retry_count ≡ t.retry_count + 1)
      × (t'.target_outcomes ≡ a.outcomes)
      × (t'.payload ≡ t.payload)

  close_retry-Closed :
      (id : String) (now : String) (a : Applied T O W) (stop : Option Error) (t u : Task T O)
      → get_task supports id a.log ≡ some u
      → Going (t.retry_count + 1) t u
      → (log : List (LogEvent T O)) × (close_retry supports mirror target_type is_conflict text_of
            apply_target id
            (t.retry_count + 1)
            now
            a
            stop
          ≡ ok (not (is_some stop), log))
        × Closed id a stop log t
  unfolding close_retry
  close_retry-Closed id now a none t u g going =
      let meta = record (progress (t.retry_count + 1) a.outcomes) {
        error = some "";
        resolution = some "targets_applied_and_read_back";
        resolved_at = some now;
      } in
      let (log, f, (v, h, d)) =
        append_status-Updated supports mirror id resolved meta now a.log u g
          (rw going.is_running refl) in
      (
        log,
        rw f refl,
        (v, h, d.new_status, d.new_count, d.new_outcomes, d.same_payload ∙ going.same_payload),
      )
  close_retry-Closed id now a (some e) t u g going =
      let meta = record (progress (t.retry_count + 1) a.outcomes) {
        error = some (text_of e);
        error_type = some (error_type is_conflict e);
      } in
      let (log, f, (v, h, d)) =
        append_status-Updated supports mirror id failed meta now a.log u g
          (rw going.is_running refl) in
      (
        log,
        rw f refl,
        (v, h, d.new_status, d.new_count, d.new_outcomes, d.same_payload ∙ going.same_payload),
      )

  may_run :
      (s : CompensationStatus)
      → same_status s resolved ≡ false
      → status_in running (transitions s) ≡ true
  may_run s h = ground arith

  -- A confirmed retry of a supported task that is not resolved applies the task's targets in their
  -- order until one raises: the written state and the stored outcomes are those of the plain
  -- description; it succeeds and resolves the task where none raised, and marks it failed where one
  -- did; one more retry is counted and the payload is as it was.
  pub retry-apply_all :
      (id now : String) (log : List (LogEvent T O)) (w : W) (t : Task T O) (ts : List T)
      → get_task supports id log ≡ some t
      → t.supported ≡ true
      → t.payload ≡ some ts
      → same_status t.status resolved ≡ false
      → let (log', w', result) =
          retry supports mirror target_type is_conflict text_of apply_target id true now log w in
        let spec = apply_all target_type apply_target 0 ts [] w in
        (w' ≡ spec.world)
        × (result ≡ ok (not (is_some spec.stop)))
        × (t' : Task T O) × (get_task supports id log' ≡ some t')
        × (t'.status ≡ (if is_some spec.stop then failed else resolved))
        × (t'.retry_count ≡ t.retry_count + 1)
        × (t'.target_outcomes ≡ spec.outcomes)
        × (t'.payload ≡ some ts)
  unfolding retry retry_found retry_locked
  retry-apply_all id now log w t ts g sup pay unresolved =
      let count = t.retry_count + 1 in
      let (log₁, f, (u, h, d)) =
        append_status-Updated supports mirror id running (progress count []) now log t g
          (may_run t.status unresolved) in
      let going : Going count t u = record {
        same_payload = d.same_payload;
        is_running = d.new_status;
        counted = d.new_count;
      } in
      let a =
        apply_targets supports mirror target_type is_conflict text_of apply_target id count now 0 ts
          [] log₁ w in
      let (same_world, same_outcomes, same_stop, v, k, going') =
        apply_targets-apply_all id count now 0 ts [] log₁ w t u h going in
      let (log₂, c, (x, m, st, n, o, p)) = close_retry-Closed id now a a.stop t v k going' in
      rw (g, sup, g, unresolved, f, pay, c)
        (same_world, rw same_stop refl, x, m, st ∙ rw same_stop refl, n, o ∙ same_outcomes, p ∙ pay)
