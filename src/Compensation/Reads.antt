-- ===== src/Compensation/Reads.antt =====
-- What a read of the log finds after an event was appended.
use portfolio_management.Common.{
  ◌≡◌, refl, ap, ◌∙◌, inl, inr, String, Bool, true, false, not, Option, none, some, List, [], ◌∷◌,
  ◌++◌, or_else, if◌then◌else◌, str_eq, str_eq_refl, eq_iff, Bool-cases, ok,
}
use portfolio_management.Common.Dict.{text_eq, dict_get, dict_set, dict_get-set, or_read}
use portfolio_management.Compensation.Contract.{
  CompensationStatus, status_in, transitions, validate_compensation_transition,
}
use portfolio_management.Compensation.Log.{
  LogEvent, Task, Metadata, MirrorReceipt, get_task, fold_from, fold_task, merge_event,
}
use portfolio_management.Compensation.Service.{
  MirrorOutcome, mirror_current_state, mirror_task, mirror_found, mirror_if, append_found,
  append_status, eligible_after, mirror_event, receipt_of, status_event, no_metadata,
}

module _ {T O : Type 0} (supports : T → Bool) where
  fold_from-append :
      (log : List (LogEvent T O)) (folded : List (String × Task T O)) (e : LogEvent T O)
      → fold_from supports folded (log ++ e ∷ [])
        ≡ dict_set e.task_id
            (fold_task supports e (dict_get e.task_id (fold_from supports folded log)))
            (fold_from supports folded log)
  unfolding fold_from
  fold_from-append [] folded e = refl
  fold_from-append (x ∷ log) folded e = fold_from-append log _ e

  -- The appended event is folded into its task, and every other task is as before.
  pub get_task-append :
      (id : String) (log : List (LogEvent T O)) (e : LogEvent T O)
      → get_task supports id (log ++ e ∷ []) ≡ (
          if str_eq e.task_id id
          then some (fold_task supports e (get_task supports e.task_id log))
          else get_task supports id log)
  unfolding get_task
  get_task-append id log e =
      ap (dict_get id) (fold_from-append log [] e)
      ∙ dict_get-set e.task_id id _ (fold_from supports [] log)

-- What an event with this status and metadata makes of a task; its identity is frozen.
pub record Updated {T O : Type 0} (status : CompensationStatus) (meta : Metadata O)
    (t t' : Task T O) : Type 0 where
  pub same_payload : t'.payload ≡ t.payload
  pub same_operation : t'.operation_type ≡ t.operation_type
  pub same_account : t'.account ≡ t.account
  pub same_created : t'.created_at ≡ t.created_at
  pub new_status : t'.status ≡ status
  pub new_count : t'.retry_count ≡ or_else meta.retry_count t.retry_count
  pub new_outcomes : t'.target_outcomes ≡ or_else meta.target_outcomes t.target_outcomes
  pub new_error : t'.error ≡ or_read meta.error t.error
  pub new_error_type : t'.error_type ≡ or_read meta.error_type t.error_type
  pub new_resolution : t'.resolution ≡ or_read meta.resolution t.resolution

-- Nothing but the mirror's columns.
abbrev pub Mirrored : {T O : Type 0} → Task T O → Task T O → Type 0
Mirrored t t' = Updated t.status no_metadata t t'

pub Mirrored-refl : {T O : Type 0} (t : Task T O) → Mirrored t t
Mirrored-refl t = record {
  same_payload = refl;
  same_operation = refl;
  same_account = refl;
  same_created = refl;
  new_status = refl;
  new_count = refl;
  new_outcomes = refl;
  new_error = refl;
  new_error_type = refl;
  new_resolution = refl;
}

Updated-Mirrored :
    {T O : Type 0} (status : CompensationStatus) (meta : Metadata O) (t u v : Task T O)
    → Updated status meta t u
    → Mirrored u v
    → Updated status meta t v
Updated-Mirrored status meta t u v d e = record {
  same_payload = e.same_payload ∙ d.same_payload;
  same_operation = e.same_operation ∙ d.same_operation;
  same_account = e.same_account ∙ d.same_account;
  same_created = e.same_created ∙ d.same_created;
  new_status = e.new_status ∙ d.new_status;
  new_count = e.new_count ∙ d.new_count;
  new_outcomes = e.new_outcomes ∙ d.new_outcomes;
  new_error = e.new_error ∙ d.new_error;
  new_error_type = e.new_error_type ∙ d.new_error_type;
  new_resolution = e.new_resolution ∙ d.new_resolution;
}

module _ {T O : Type 0} (supports : T → Bool) (mirror : Task T O → Option MirrorOutcome) where
  abbrev pub Found : String → List (LogEvent T O) → Task T O → (Task T O → Type 0) → Type 0
  Found k log t P = (t' : Task T O) × (get_task supports k log ≡ some t') × P t'

  -- an event for one task, as another or the same task's reader sees it
  pub status_appended :
      (id : String) (status : CompensationStatus) (meta : Metadata O) (now : String) (b : Bool)
      (log : List (LogEvent T O)) (t : Task T O)
      → get_task supports id log ≡ some t
      → Found id (log ++ status_event id status meta now b ∷ []) t (Updated status meta t)
  unfolding merge_event
  status_appended id status meta now b log t e = (
    merge_event supports (status_event id status meta now b) t,
    rw (get_task-append supports id log (status_event id status meta now b), str_eq_refl id, e)
        refl,
    record {
      same_payload = refl;
      same_operation = refl;
      same_account = refl;
      same_created = refl;
      new_status = refl;
      new_count = refl;
      new_outcomes = refl;
      new_error = refl;
      new_error_type = refl;
      new_resolution = refl;
    },
  )

  receipt_appended :
      (id : String) (receipt : MirrorReceipt) (k : String) (log : List (LogEvent T O))
      (t : Task T O)
      → get_task supports k log ≡ some t
      → Found k (log ++ mirror_event id receipt ∷ []) t (Mirrored t)
  unfolding merge_event
  receipt_appended id receipt k log t e = elim (Bool-cases (str_eq id k)) [
    | inl q ↦
        let same : id ≡ k = (eq_iff id k).0 q in
        (
          merge_event supports (mirror_event id receipt) t,
          rw (get_task-append supports k log (mirror_event id receipt), q, same, e) refl,
          record {
            same_payload = refl;
            same_operation = refl;
            same_account = refl;
            same_created = refl;
            new_status = refl;
            new_count = refl;
            new_outcomes = refl;
            new_error = refl;
            new_error_type = refl;
            new_resolution = refl;
          },
        )
    | inr q ↦
        (t, rw (get_task-append supports k log (mirror_event id receipt), q) e, Mirrored-refl t)
  ]

  mirror_found-Mirrored :
      (id k : String) (log : List (LogEvent T O)) (t : Task T O) (o : Option MirrorOutcome)
      → get_task supports k log ≡ some t
      → Found k (mirror_found supports mirror id log o) t (Mirrored t)
  unfolding mirror_found
  mirror_found-Mirrored id k log t none e = (t, e, Mirrored-refl t)
  mirror_found-Mirrored id k log t (some outcome) e =
      receipt_appended id (receipt_of outcome) k log t e

  mirror_task-Mirrored :
      (id k : String) (log : List (LogEvent T O)) (t : Task T O) (o : Option (Task T O))
      → get_task supports k log ≡ some t
      → Found k (mirror_task supports mirror id log o) t (Mirrored t)
  unfolding mirror_task
  mirror_task-Mirrored id k log t none e = (t, e, Mirrored-refl t)
  mirror_task-Mirrored id k log t (some u) e = elim (Bool-cases (not u.mirror_eligible)) [
    | inl q ↦ rw q (t, e, Mirrored-refl t)
    | inr q ↦ rw q (mirror_found-Mirrored id k log t (mirror u) e)
  ]

  -- The mirror changes nothing but the mirror's columns of a task.
  pub mirror_if-Mirrored :
      (b : Bool) (id k : String) (log : List (LogEvent T O)) (t : Task T O)
      → get_task supports k log ≡ some t
      → Found k (mirror_if supports mirror b id log) t (Mirrored t)
  unfolding mirror_if mirror_current_state
  mirror_if-Mirrored true id k log t e =
      mirror_task-Mirrored id k log t (get_task supports id log) e
  mirror_if-Mirrored false id k log t e = (t, e, Mirrored-refl t)

  -- A permitted transition of a task that is there is appended, and a read finds it.
  pub append_status-Updated :
      (id : String) (status : CompensationStatus) (meta : Metadata O) (now : String)
      (log : List (LogEvent T O)) (t : Task T O)
      → get_task supports id log ≡ some t
      → status_in status (transitions t.status) ≡ true
      → (log' : List (LogEvent T O)) × (append_status supports mirror id status meta now log
          ≡ ok log')
        × Found id log' t (Updated status meta t)
  unfolding append_status append_found validate_compensation_transition
  append_status-Updated id status meta now log t e allowed =
      let b = eligible_after supports mirror t status in
      let (u, f, d) = status_appended id status meta now b log t e in
      let (v, g, m) =
        mirror_if-Mirrored b id id (log ++ status_event id status meta now b ∷ []) u f in
      (
        mirror_if supports mirror b id (log ++ status_event id status meta now b ∷ []),
        rw (e, allowed) refl,
        (v, g, Updated-Mirrored status meta t u v d m),
      )
