-- ===== src/OperationState/HoldingCases/Audit/Reconciled.antt =====
-- Reconciling duplicate cases is audited, and so is observing cases and preparing some of them.
use portfolio_management.Common.{
  refl, inl, inr, String, not, ◌||◌, Option, none, some, List, [], ◌∷◌, str_eq, text_in, any_of,
  keep, Bool-cases, ok, ◌>>=◌, Returns, returned, raised, >>=-Returns, Members,
}
use portfolio_management.Common.Table.{fetch_one}
use portfolio_management.OperationState.HoldingCases.{
  Case, CaseStore, Candidate, has_case_key, open_states,
}
use portfolio_management.OperationState.HoldingCases.Supersede.{Pass, Progress}
use portfolio_management.OperationState.HoldingCases.Materialize.{materialize_holding_cases}
use portfolio_management.OperationState.HoldingCases.Resolve.{
  Closing, close_row, resolve_holding_cases_external,
}
use portfolio_management.OperationState.HoldingCases.Apply.{
  Application, Prepared, prepare_all, one_scope, scan_of, prepared_after, close_and_prepare,
  materialize_and_prepare_holding_apply,
}
use portfolio_management.OperationState.HoldingCases.Coverage.{
  Proof, Ending, deleted, identity_changed, repaired, ending_state, is_fully_observed, ending_of,
  is_open_duplicate, is_safe,
}
use portfolio_management.OperationState.HoldingCases.Duplicates.{
  Reconciliation, ending_resolution, ended, ending_receipt, note_ending, end_case, end_fresh,
  end_one, end_all, reconcile_from, reconcile_duplicate_cases, deletes_present, has_other_kind,
}
use portfolio_management.OperationState.HoldingCases.Audit.{
  Audited, Audited-refl, Audited-trans, Audited-update, closure-Audited,
}
use portfolio_management.OperationState.HoldingCases.Audit.Observed.{StepsFrom, materialize-Audited}
use portfolio_management.OperationState.HoldingCases.Audit.Applied.{
  after, resolve-Audited, prepare_all-Audited,
}

abbrev store_of : Reconciliation → CaseStore
store_of p = p.progress.store

abbrev pub Reconciles : CaseStore → Reconciliation → Type 0
Reconciles s p = Audited s (store_of p)

module _ (pass : Pass) (proof : Proof) where
  note_ending-Audited :
      (s : CaseStore) (e : Ending) (k : String) (closed : List String × CaseStore)
      (p : Reconciliation)
      → Audited s closed.1
      → Reconciles s (note_ending e k closed p)
  unfolding note_ending
  note_ending-Audited s deleted k (keys, t) p a = a
  note_ending-Audited s identity_changed k (keys, t) p a = a
  note_ending-Audited s repaired k (keys, t) p a = a

  ended-Audited : (r : Case) (e : Ending) (s : CaseStore) → Audited s (ended pass proof r e s)
  unfolding ended close_row
  ended-Audited r e s =
      Audited-update r.case_key _ _ _ s (has_case_key r.case_key)
        (close_row (ending_state e) (ending_resolution pass proof r e) pass.now) (λ x. refl)
        (λ x h. h)

  end_case-Audited :
      (r : Case) (e : Ending) (p : Reconciliation)
      → Returns (Reconciles (store_of p)) (end_case pass proof r e p)
  unfolding end_case ending_receipt
  end_case-Audited r e p =
      let s = ended pass proof r e (store_of p) in
      >>=-Returns (λ (closed : List String × CaseStore). Audited s closed.1)
        (Reconciles (store_of p)) (ending_receipt pass proof r e s)
        (λ closed. ok (note_ending e r.case_key closed p)) (closure-Audited _ _ _ _ s)
        (λ closed a. returned (
          note_ending-Audited (store_of p) e r.case_key closed p
            (Audited-trans (ended-Audited r e (store_of p)) a)))

  end_fresh-Audited :
      (r : Case) (p : Reconciliation) (fresh : Option Case) (e : Option Ending)
      → Returns (Reconciles (store_of p)) (end_fresh pass proof r p fresh e)
  unfolding end_fresh
  end_fresh-Audited r p none e = raised
  end_fresh-Audited r p (some fresh) none = returned (Audited-refl (store_of p))
  end_fresh-Audited r p (some fresh) (some e) =
      elim (Bool-cases (text_in fresh.state open_states)) [
        | inl h ↦ rw h (end_case-Audited r e p)
        | inr h ↦ rw h (returned (Audited-refl (store_of p)))
      ]

  end_one-Audited :
      (safe : List Candidate) (r : Case) (p : Reconciliation)
      → Returns (Reconciles (store_of p)) (end_one pass proof safe r p)
  unfolding end_one
  end_one-Audited safe r p =
      elim (Bool-cases (
        any_of (λ (c : Candidate). str_eq c.case_key r.case_key) safe
        || not (is_fully_observed proof r))) [
          | inl h ↦ rw h (returned (Audited-refl (store_of p)))
          | inr h ↦ rw h (
              end_fresh-Audited r p (fetch_one (has_case_key r.case_key) (store_of p).rows)
                (ending_of proof r))
        ]

  end_all-Audited :
      (safe : List Candidate) (rs : List Case) (p : Reconciliation)
      → Returns (Reconciles (store_of p)) (end_all pass proof safe rs p)
  unfolding end_all
  end_all-Audited safe [] p = returned (Audited-refl (store_of p))
  end_all-Audited safe (r ∷ rs) p =
      >>=-Returns (Reconciles (store_of p)) (Reconciles (store_of p)) (end_one pass proof safe r p)
        (end_all pass proof safe rs) (end_one-Audited safe r p)
        (λ q a. after store_of (store_of p) (store_of q) _ a (end_all-Audited safe rs q))

module _ (sha256 : String → String) (pass : Pass) where
  reconcile_from-Audited :
      (proof : Proof) (safe : List Candidate) (old_rows : List Case) (s : CaseStore)
      → Returns (Reconciles s) (reconcile_from sha256 pass proof safe old_rows s)
  unfolding reconcile_from
  reconcile_from-Audited proof safe old_rows s =
      >>=-Returns (StepsFrom s) (Reconciles s) (materialize_holding_cases sha256 pass safe s)
        (λ progress.
          end_all pass proof safe old_rows (record { progress = progress; closed_case_keys = [] }))
        (materialize-Audited sha256 pass safe s)
        (λ progress a.
          after store_of s progress.store _ a (end_all-Audited pass proof safe old_rows _))

  pub reconcile-Audited :
      (proof : Proof) (cases : List Candidate) (s : CaseStore)
      → Returns (Reconciles s) (reconcile_duplicate_cases sha256 pass proof cases s)
  unfolding reconcile_duplicate_cases
  reconcile-Audited proof cases s = elim (Bool-cases proof.complete) [
    | inr e ↦ rw e raised
    | inl e ↦ rw e (elim (Bool-cases (deletes_present proof)) [
      | inl d ↦ rw d raised
      | inr d ↦ rw d (elim (Bool-cases (has_other_kind cases)) [
        | inl k ↦ rw k raised
        | inr k ↦ rw k (
            reconcile_from-Audited proof
              (keep (is_safe proof (keep is_open_duplicate s.rows)) cases)
              (keep is_open_duplicate s.rows) s)
      ])
    ])
  ]

module _ (sha256 : String → String) (pass : Pass) (attempt : String) (context : Members) where
  abbrev Prepares : CaseStore → Prepared → Type 0
  Prepares s p = Audited s p.store

  close_and_prepare-Audited :
      (first : Candidate) (observed : List Candidate) (cases : List Application) (p : Progress)
      → Returns (Prepares p.store) (close_and_prepare pass first observed cases attempt context p)
  unfolding close_and_prepare prepared_after
  close_and_prepare-Audited first observed cases p = elim (Bool-cases (one_scope first observed)) [
    | inr e ↦ rw e raised
    | inl e ↦ rw e (
        >>=-Returns (λ (c : Closing). Audited p.store c.store) (Prepares p.store)
          (resolve_holding_cases_external (scan_of pass first observed) p.store)
          (λ absent. prepare_all attempt context pass.now cases absent.store >>= λ prepared.
            ok (prepared_after p absent prepared))
          (resolve-Audited (scan_of pass first observed) p.store)
          (λ absent a.
            >>=-Returns (Audited absent.store) (Prepares p.store)
              (prepare_all attempt context pass.now cases absent.store)
              (λ prepared. ok (prepared_after p absent prepared))
              (prepare_all-Audited attempt context pass.now cases absent.store)
              (λ prepared b. returned (Audited-trans a b))))
  ]

  pub materialize_and_prepare-Audited :
      (observed : List Candidate) (cases : List Application) (s : CaseStore)
      → Returns
          (Prepares s)
          (materialize_and_prepare_holding_apply sha256 pass observed cases attempt context s)
  unfolding materialize_and_prepare_holding_apply
  materialize_and_prepare-Audited observed [] s = raised
  materialize_and_prepare-Audited [] (a ∷ as_) s = raised
  materialize_and_prepare-Audited (first ∷ rest) (a ∷ as_) s =
      >>=-Returns (StepsFrom s) (Prepares s)
        (materialize_holding_cases sha256 pass (first ∷ rest) s)
        (close_and_prepare pass first (first ∷ rest) (a ∷ as_) attempt context)
        (materialize-Audited sha256 pass (first ∷ rest) s)
        (λ p h.
          after (λ (q : Prepared). q.store) s p.store _ h
            (close_and_prepare-Audited first (first ∷ rest) (a ∷ as_) p))
