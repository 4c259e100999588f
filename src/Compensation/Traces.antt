-- ===== src/Compensation/Traces.antt =====
-- A compensation task over every sequence of operations of the service.
use portfolio_management.Common.{
  ℕ, suc, ◌+◌, ◌≡◌, subst, inl, inr, String, Bool, true, false, not, Option, none, some, List, [],
  ◌∷◌, ◌++◌, or_else, Bool-cases, Error, Result, ok, err, try_except, Result-cases, >>=-eq-ok,
  str_eq, All, is_empty, all_of,
}
use portfolio_management.Compensation.Contract.{
  CompensationStatus, prepared, pending, running, failed, resolved, same_status,
}
use portfolio_management.Compensation.Log.{LogEvent, Task, Metadata, TargetOutcome, get_task}
use portfolio_management.Compensation.Service.{
  MirrorOutcome, append_status, record_task, prepare, mirror_if, created_event,
}
use portfolio_management.Compensation.Retry.{
  Applied, apply_targets, progress, close_retry, retry, retry_found, retry_locked,
}
use portfolio_management.Compensation.Lifecycle.{
  Follows, Kept, Kept-refl, Kept-trans, Kept-other, mirror_if-Kept, append_status-Kept,
  stays_resolved,
}

-- The service's operations, with the written state that a retry works on.
pub data Op (T O : Type 0) : Type 0 where
  create : String → String → String → List T → String → Option String → Op T O
  prepare_task : String → String → String → List T → Op T O
  update_status : String → CompensationStatus → Metadata O → Op T O
  retry_task : String → Bool → Op T O

-- The operations that write a created event for task `k`.
abbrev pub creates : {T O : Type 0} → String → Op T O → Bool
creates k (create id operation account targets error related) = str_eq id k
creates k (prepare_task id operation account targets) = str_eq id k
creates k _ = false

-- an operation that raises before its event leaves the log alone
abbrev after : {A : Type 0} → A → Result A → A
after log (ok log') = log'
after log (err _) = log

module _ {T O W : Type 0} (supports : T → Bool) (mirror : Task T O → Option MirrorOutcome)
    (target_type : T → String) (is_conflict : Error → Bool) (text_of : Error → String)
    (apply_target : T → W → Result O × W) where
  unfoldable pub apply : String → Op T O → List (LogEvent T O) × W → List (LogEvent T O) × W
  apply now (create id operation account targets error related) (log, w) =
      (record_task supports mirror id operation account targets error related now log, w)
  apply now (prepare_task id operation account targets) (log, w) =
      (after log (prepare supports mirror id operation account targets now log), w)
  apply now (update_status id status meta) (log, w) =
      (after log (append_status supports mirror id status meta now log), w)
  apply now (retry_task id confirm) (log, w) =
      let (log', w', _) =
        retry supports mirror target_type is_conflict text_of apply_target id confirm now log w in
      (log', w')

  unfoldable pub run : List (String × Op T O) → List (LogEvent T O) × W → List (LogEvent T O) × W
  unfolding apply
  run [] s = s
  run ((now, op) ∷ ops) s = run ops (apply now op s)

  module _ (k : String) where
    targets-Kept :
        (id : String) (count : ℕ) (now : String) (index : ℕ) (ts : List T)
        (outcomes : List (TargetOutcome O)) (log : List (LogEvent T O)) (w : W)
        → Kept supports k log
            (apply_targets supports mirror target_type is_conflict text_of apply_target id count now
              index ts outcomes log w).log
    unfolding apply_targets
    targets-Kept id count now index [] outcomes log w = Kept-refl supports k log
    targets-Kept id count now index (x ∷ ts) outcomes log w =
        elim (Result-cases (apply_target x w).0) [
          | inl (outcome, e) ↦
              let outcomes' =
                outcomes
                ++ record { index = index; target_type = target_type x; outcome = outcome } ∷ [] in
              elim (Result-cases
                (append_status supports mirror id running (progress count outcomes') now log)) [
                  | inl (log', f) ↦
                      rw (e, f)
                        (Kept-trans supports k log log' _
                          (append_status-Kept supports mirror k id running
                            (progress count outcomes') now log log' f)
                          (targets-Kept id count now (suc index) ts outcomes' log'
                            (apply_target x w).1))
                  | inr (x, f) ↦ rw (e, f) (Kept-refl supports k log)
                ]
          | inr (x, e) ↦ rw e (Kept-refl supports k log)
        ]

    close-Kept :
        (id : String) (count : ℕ) (now : String) (a : Applied T O W) (stop : Option Error)
        (b : Bool) (log : List (LogEvent T O))
        → close_retry supports mirror target_type is_conflict text_of apply_target id count now a
            stop
          ≡ ok (b, log)
        → Kept supports k a.log log
    unfolding close_retry
    close-Kept id count now a none b log h =
        let (log', f, g) = >>=-eq-ok (append_status supports mirror id resolved _ now a.log) _ h in
        let same : log' ≡ log = cc in
        subst (Kept supports k a.log) same
          (append_status-Kept supports mirror k id resolved _ now a.log log' f)
    close-Kept id count now a (some e) b log h =
        let (log', f, g) = >>=-eq-ok (append_status supports mirror id failed _ now a.log) _ h in
        let same : log' ≡ log = cc in
        subst (Kept supports k a.log) same
          (append_status-Kept supports mirror k id failed _ now a.log log' f)

    loop-Kept :
        (id : String) (count : ℕ) (now : String) (ts : List T) (log : List (LogEvent T O)) (w : W)
        → let a =
            apply_targets supports mirror target_type is_conflict text_of apply_target id count now
              0 ts [] log w in
          Kept supports k log
            (try_except {C = List (LogEvent T O) × W × Result Bool}
              (close_retry supports mirror target_type is_conflict text_of apply_target id count now
                a a.stop)
              (λ r. (r.1, a.world, ok r.0))
              (λ e. (a.log, a.world, err e))).0
    loop-Kept id count now ts log w =
        let a =
          apply_targets supports mirror target_type is_conflict text_of apply_target id count now 0
            ts [] log w in
        let looped = targets-Kept id count now 0 ts [] log w in
        elim (Result-cases (
          close_retry supports mirror target_type is_conflict text_of apply_target id count now a
            a.stop)) [
              | inl (r, e) ↦ rw e (
                  Kept-trans supports k log a.log r.1 looped
                    (close-Kept id count now a a.stop r.0 r.1 e))
              | inr (x, e) ↦ rw e looped
            ]

    retry_locked-Kept :
        (id now : String) (log : List (LogEvent T O)) (w : W) (o : Option (Task T O))
        → Kept supports k log
            (retry_locked supports mirror target_type is_conflict text_of apply_target id now log w
              o).0
    unfolding retry_locked
    retry_locked-Kept id now log w none = Kept-refl supports k log
    retry_locked-Kept id now log w (some t) = elim (Bool-cases (same_status t.status resolved)) [
      | inl r ↦ rw r (Kept-refl supports k log)
      | inr r ↦
          let meta = progress (t.retry_count + 1) [] in
          elim (Result-cases (append_status supports mirror id running meta now log)) [
            | inl (log', e) ↦
                rw (r, e)
                  (Kept-trans supports k log log' _
                    (append_status-Kept supports mirror k id running meta now log log' e)
                    (loop-Kept id (t.retry_count + 1) now (or_else t.payload []) log' w))
            | inr (x, e) ↦ rw (r, e) (Kept-refl supports k log)
          ]
    ]

    retry_found-Kept :
        (id now : String) (log : List (LogEvent T O)) (w : W) (o : Option (Task T O))
        → Kept supports k log
            (retry_found supports mirror target_type is_conflict text_of apply_target id now log w
              o).0
    unfolding retry_found
    retry_found-Kept id now log w none = Kept-refl supports k log
    retry_found-Kept id now log w (some t) = elim (Bool-cases (not t.supported)) [
      | inl q ↦ rw q (Kept-refl supports k log)
      | inr q ↦ rw q (retry_locked-Kept id now log w (get_task supports id log))
    ]

    create-Kept :
        (b : Bool) (id operation account : String) (status : CompensationStatus) (targets : List T)
        (error : String) (related : Option String) (now : String) (c : Bool)
        (log : List (LogEvent T O))
        → str_eq id k ≡ false
        → Kept supports k log (
            mirror_if supports mirror b id
              (log ++ created_event id operation account status targets error related now c ∷ []))
    create-Kept b id operation account status targets error related now c log n =
        let e = created_event id operation account status targets error related now c in
        Kept-trans supports k log (log ++ e ∷ []) _ (Kept-other supports k log e n)
          (mirror_if-Kept supports mirror k b id (log ++ e ∷ []))

    prepare-Kept :
        (id operation account : String) (targets : List T) (now : String)
        (log : List (LogEvent T O))
        → str_eq id k ≡ false
        → Kept supports k log
            (after log (prepare supports mirror id operation account targets now log))
    unfolding prepare
    prepare-Kept id operation account targets now log n =
        let e = created_event id operation account prepared targets "" none now false in
        elim (Bool-cases (is_empty targets)) [
          | inl q ↦ rw q (Kept-refl supports k log)
          | inr q ↦ elim (Bool-cases (not (all_of supports targets))) [
            | inl r ↦ rw (q, r) (Kept-refl supports k log)
            | inr r ↦ rw (q, r) (Kept-other supports k log e n)
          ]
        ]

    apply-Kept :
        (now : String) (op : Op T O) (s : List (LogEvent T O) × W)
        → creates k op ≡ false
        → Kept supports k s.0 (apply now op s).0
    unfolding apply record_task retry
    apply-Kept now (create id operation account targets error related) (log, w) n =
        create-Kept _ id operation account pending targets error related now _ log n
    apply-Kept now (prepare_task id operation account targets) (log, w) n =
        prepare-Kept id operation account targets now log n
    apply-Kept now (update_status id status meta) (log, w) n =
        elim (Result-cases (append_status supports mirror id status meta now log)) [
          | inl (log', e) ↦
              rw e (append_status-Kept supports mirror k id status meta now log log' e)
          | inr (x, e) ↦ rw e (Kept-refl supports k log)
        ]
    apply-Kept now (retry_task id true) (log, w) n =
        retry_found-Kept id now log w (get_task supports id log)
    apply-Kept now (retry_task id false) (log, w) n = Kept-refl supports k log

    run-Kept :
        (ops : List (String × Op T O)) (s : List (LogEvent T O) × W)
        → All (λ o. creates k o.1 ≡ false) ops
        → Kept supports k s.0 (run ops s).0
    unfolding run
    run-Kept [] s h = Kept-refl supports k s.0
    run-Kept ((now, op) ∷ ops) s h =
        Kept-trans supports k s.0 (apply now op s).0 _ (apply-Kept now op s h.0)
          (run-Kept ops (apply now op s) h.1)

    -- Whatever operations follow, but for a second creation under its id: a task is still there, with
    -- the operation, account, payload and creation time it began with; its status has gone along
    -- permitted transitions, and once it was resolved it stays resolved.
    pub run-task :
        (ops : List (String × Op T O)) (log : List (LogEvent T O)) (w : W) (t : Task T O)
        → get_task supports k log ≡ some t
        → All (λ o. creates k o.1 ≡ false) ops
        → (t' : Task T O) × (get_task supports k (run ops (log, w)).0 ≡ some t')
          × Follows t t'
          × (t.status ≡ resolved → t'.status ≡ resolved)
    run-task ops log w t e h =
        let (t', e', d) = run-Kept ops (log, w) h t e in (t', e', d, stays_resolved d.path)
