-- ===== src/Compensation/Lifecycle.antt =====
-- The life of a compensation task over every sequence of operations of the service.
use portfolio_management.Common.Steps.{Reaches, here, move, Reaches-trans}
use portfolio_management.Common.{
  ◌≡◌, refl, sym, subst, ◌∙◌, inl, inr, String, Bool, true, false, Option, none, some, List, [],
  ◌∷◌, ◌++◌, arith, Bool-cases, value_error, Result, ok, err, str_eq, eq_iff,
}
use portfolio_management.Compensation.Contract.{
  CompensationStatus, resolved, status_in, transitions, validate_compensation_transition,
}
use portfolio_management.Compensation.Log.{LogEvent, Task, Metadata, get_task}
use portfolio_management.Compensation.Service.{
  MirrorOutcome, append_status, append_found, mirror_if, status_event, eligible_after, no_metadata,
}
use portfolio_management.Compensation.Reads.{
  Updated, status_appended, mirror_if-Mirrored, get_task-append,
}

-- Reached by permitted transitions.
infix 40 ◌⟶◌ ◌⟶*◌
abbrev pub ◌⟶◌ : CompensationStatus → CompensationStatus → Type 0
s ⟶ t = status_in t (transitions s) ≡ true

abbrev pub ◌⟶*◌ : CompensationStatus → CompensationStatus → Type 0
s ⟶* t = Reaches ◌⟶◌ s t

only_resolved : (s : CompensationStatus) → status_in s (transitions resolved) ≡ true → s ≡ resolved
only_resolved s h = ground arith

pub stays_resolved : {s t : CompensationStatus} → s ⟶* t → s ≡ resolved → t ≡ resolved
stays_resolved here q = q
stays_resolved (move {t = u} e d) q =
    stays_resolved d (only_resolved u (subst (λ s. status_in u (transitions s) ≡ true) q e))

-- What the operations keep of a task: its identity and payload, and the order of its statuses.
pub record Follows {T O : Type 0} (t t' : Task T O) : Type 0 where
  pub same_payload : t'.payload ≡ t.payload
  pub same_operation : t'.operation_type ≡ t.operation_type
  pub same_account : t'.account ≡ t.account
  pub same_created : t'.created_at ≡ t.created_at
  pub path : t.status ⟶* t'.status

stay : {T O : Type 0} (t : Task T O) → Follows t t
stay t = record {
  same_payload = refl;
  same_operation = refl;
  same_account = refl;
  same_created = refl;
  path = here;
}

join : {T O : Type 0} (t u v : Task T O) → Follows t u → Follows u v → Follows t v
join t u v d e = record {
  same_payload = e.same_payload ∙ d.same_payload;
  same_operation = e.same_operation ∙ d.same_operation;
  same_account = e.same_account ∙ d.same_account;
  same_created = e.same_created ∙ d.same_created;
  path = Reaches-trans ◌⟶◌ d.path e.path;
}

Updated-Follows :
    {T O : Type 0} (status : CompensationStatus) (meta : Metadata O) (t t' : Task T O)
    → t.status ⟶* status
    → Updated status meta t t'
    → Follows t t'
Updated-Follows status meta t t' p d = record {
  same_payload = d.same_payload;
  same_operation = d.same_operation;
  same_account = d.same_account;
  same_created = d.same_created;
  path = subst (λ s. t.status ⟶* s) (sym d.new_status) p;
}

module _ {T O : Type 0} (supports : T → Bool) (k : String) where
  -- Task `k` is still there, and follows.
  abbrev pub Kept : List (LogEvent T O) → List (LogEvent T O) → Type 0
  Kept log log' =
      (t : Task T O)
      → get_task supports k log ≡ some t
      → (t' : Task T O) × (get_task supports k log' ≡ some t') × Follows t t'

  pub Kept-refl : (log : List (LogEvent T O)) → Kept log log
  Kept-refl log t e = (t, e, stay t)

  pub Kept-trans :
      (log log' log'' : List (LogEvent T O)) → Kept log log' → Kept log' log'' → Kept log log''
  Kept-trans log log' log'' f g t e =
      let (u, e', d) = f t e in let (v, e'', d') = g u e' in (v, e'', join t u v d d')

  pub Kept-other :
      (log : List (LogEvent T O)) (e : LogEvent T O)
      → str_eq e.task_id k ≡ false
      → Kept log (log ++ e ∷ [])
  Kept-other log e n t g = (t, rw (get_task-append supports k log e, n) g, stay t)

module _ {T O : Type 0} (supports : T → Bool) (mirror : Task T O → Option MirrorOutcome)
    (k : String) where
  pub mirror_if-Kept :
      (b : Bool) (id : String) (log : List (LogEvent T O))
      → Kept supports k log (mirror_if supports mirror b id log)
  mirror_if-Kept b id log t e =
      let (t', e', d) = mirror_if-Mirrored supports mirror b id k log t e in
      (t', e', Updated-Follows t.status no_metadata t t' here d)

  status-Kept :
      (id : String) (status : CompensationStatus) (meta : Metadata O) (now : String) (b : Bool)
      (log : List (LogEvent T O)) (t : Task T O)
      → get_task supports id log ≡ some t
      → status_in status (transitions t.status) ≡ true
      → Kept supports k log (log ++ status_event id status meta now b ∷ [])
  status-Kept id status meta now b log t e allowed u g = elim (Bool-cases (str_eq id k)) [
    | inl q ↦
        let same : id ≡ k = (eq_iff id k).0 q in
        let g' : get_task supports id log ≡ some u = rw same g in
        let task : some t ≡ some u = sym e ∙ g' in
        let row : t ≡ u = cc in
        let (u', f, d) = status_appended supports mirror id status meta now b log u g' in
        (
          u',
          subst (λ s. get_task supports s (log ++ status_event id status meta now b ∷ []) ≡ some u')
              same f,
          Updated-Follows status meta u u'
              (move
                (subst (λ (x : Task T O). status_in status (transitions x.status) ≡ true) row
                  allowed)
                here)
              d,
        )
    | inr q ↦ Kept-other supports k log (status_event id status meta now b) q u g
  ]

  append_found-Kept :
      (id : String) (status : CompensationStatus) (meta : Metadata O) (now : String)
      (log log' : List (LogEvent T O)) (o : Option (Task T O))
      → get_task supports id log ≡ o
      → append_found supports mirror id status meta now log o ≡ ok log'
      → Kept supports k log log'
  unfolding append_found validate_compensation_transition
  append_found-Kept id status meta now log log' none e h = cc
  append_found-Kept id status meta now log log' (some t) e h =
      elim (Bool-cases (status_in status (transitions t.status))) [
        | inl q ↦
            let b = eligible_after supports mirror t status in
            let w = log ++ status_event id status meta now b ∷ [] in
            let g : ◌≡◌ {A = Result (List (LogEvent T O))} (ok (mirror_if supports mirror b id w))
                (ok log') =
              rw q at h in
            let same : mirror_if supports mirror b id w ≡ log' = cc in
            subst (Kept supports k log) same (
              Kept-trans supports k log w (mirror_if supports mirror b id w)
                (status-Kept id status meta now b log t e q) (mirror_if-Kept b id w))
        | inr q ↦
            let g : ◌≡◌ {A = Result (List (LogEvent T O))}
                (err (value_error "invalid compensation transition")) (ok log') =
              rw q at h in
            cc
      ]

  pub append_status-Kept :
      (id : String) (status : CompensationStatus) (meta : Metadata O) (now : String)
      (log log' : List (LogEvent T O))
      → append_status supports mirror id status meta now log ≡ ok log'
      → Kept supports k log log'
  unfolding append_status
  append_status-Kept id status meta now log log' h =
      append_found-Kept id status meta now log log' (get_task supports id log) refl h
