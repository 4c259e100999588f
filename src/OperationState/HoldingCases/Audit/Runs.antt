-- ===== src/OperationState/HoldingCases/Audit/Runs.antt =====
-- The reconciliation cases over every sequence of calls.
use portfolio_management.Common.{
  ℕ, ◌≡◌, ◌⊎◌, String, true, some, List, [], ◌∷◌, ◌++◌, try_except, Result, ok, err, Returns,
  returned, raised, Members,
}
use portfolio_management.Common.Table.{fetch_one}
use portfolio_management.Common.Table.Evolution.{fetch_one-Evolves}
use portfolio_management.OperationState.HoldingCases.{
  Case, CaseEvent, CaseStore, Candidate, case_key_of, has_case_key,
}
use portfolio_management.OperationState.HoldingCases.Supersede.{Pass, Progress, DiscoveryReceipt}
use portfolio_management.OperationState.HoldingCases.Materialize.{materialize_holding_cases}
use portfolio_management.OperationState.HoldingCases.Resolve.{
  Scan, Closing, resolve_holding_cases_external,
}
use portfolio_management.OperationState.HoldingCases.Apply.{
  Application, Outcome, Prepared, prepare_holding_apply, mark_holding_remote_attempt,
  finalize_holding_cases, materialize_and_prepare_holding_apply,
}
use portfolio_management.OperationState.HoldingCases.Coverage.{Proof}
use portfolio_management.OperationState.HoldingCases.Duplicates.{
  Reconciliation, reconcile_duplicate_cases,
}
use portfolio_management.OperationState.HoldingCases.Audit.{
  subject, Audited, Audited-refl, Audited-trans, Tracks, has_event, IsLogged, same_key,
}
use portfolio_management.OperationState.HoldingCases.Audit.Observed.{materialize-Audited}
use portfolio_management.OperationState.HoldingCases.Audit.Applied.{
  resolve-Audited, prepare_all-Audited, mark-Audited, finalize-Audited,
}
use portfolio_management.OperationState.HoldingCases.Audit.Reconciled.{
  reconcile-Audited, materialize_and_prepare-Audited,
}

pub data Call : Type 0 where
  materialize : Pass → List Candidate → Call
  resolve : Scan → Call
  reconcile : Pass → Proof → List Candidate → Call
  prepare : String → Members → ℕ → List Application → Call
  observe_and_prepare : Pass → List Candidate → List Application → String → Members → Call
  mark : String → ℕ → List String → Call
  finalize : List DiscoveryReceipt → ℕ → List Outcome → Call

-- A call that raises is rolled back.
abbrev stored_or {ℓ} : {A : Type ℓ} → (A → CaseStore) → CaseStore → Result A → CaseStore
stored_or store_of s r = try_except r store_of (λ _. s)

unfoldable pub call : (String → String) → Call → CaseStore → CaseStore
call sha256 (materialize pass cases) s =
    stored_or (λ (p : Progress). p.store) s (materialize_holding_cases sha256 pass cases s)
call sha256 (resolve scan) s =
    stored_or (λ (p : Closing). p.store) s (resolve_holding_cases_external scan s)
call sha256 (reconcile pass proof cases) s =
    stored_or (λ (p : Reconciliation). p.progress.store) s
      (reconcile_duplicate_cases sha256 pass proof cases s)
call sha256 (prepare attempt context now cases) s =
    stored_or (λ t. t) s (prepare_holding_apply attempt context now cases s)
call sha256 (observe_and_prepare pass observed cases attempt context) s =
    stored_or (λ (p : Prepared). p.store) s
      (materialize_and_prepare_holding_apply sha256 pass observed cases attempt context s)
call sha256 (mark attempt now keys) s =
    stored_or (λ t. t) s (mark_holding_remote_attempt attempt now keys s)
call sha256 (finalize receipts now outcomes) s =
    stored_or (λ t. t) s (finalize_holding_cases receipts now outcomes s)

unfoldable pub calls : (String → String) → List Call → CaseStore → CaseStore
unfolding call
calls sha256 [] s = s
calls sha256 (c ∷ cs) s = calls sha256 cs (call sha256 c s)

stored_or-Audited {ℓ} :
    {A : Type ℓ} (store_of : A → CaseStore) (s : CaseStore) (r : Result A)
    → Returns (λ a. Audited s (store_of a)) r
    → Audited s (stored_or store_of s r)
stored_or-Audited store_of s (ok a) (returned h) = h
stored_or-Audited store_of s (err e) h = Audited-refl s

prepare-Audited :
    (attempt : String) (context : Members) (now : ℕ) (cases : List Application) (s : CaseStore)
    → Returns (Audited s) (prepare_holding_apply attempt context now cases s)
unfolding prepare_holding_apply
prepare-Audited attempt context now [] s = raised
prepare-Audited attempt context now (a ∷ as_) s =
    prepare_all-Audited attempt context now (a ∷ as_) s

module _ (sha256 : String → String) where
  call-Audited : (c : Call) (s : CaseStore) → Audited s (call sha256 c s)
  unfolding call
  call-Audited (materialize pass cases) s =
      stored_or-Audited (λ (p : Progress). p.store) s _ (materialize-Audited sha256 pass cases s)
  call-Audited (resolve scan) s =
      stored_or-Audited (λ (p : Closing). p.store) s _ (resolve-Audited scan s)
  call-Audited (reconcile pass proof cases) s =
      stored_or-Audited (λ (p : Reconciliation). p.progress.store) s _
        (reconcile-Audited sha256 pass proof cases s)
  call-Audited (prepare attempt context now cases) s =
      stored_or-Audited (λ t. t) s _ (prepare-Audited attempt context now cases s)
  call-Audited (observe_and_prepare pass observed cases attempt context) s =
      stored_or-Audited (λ (p : Prepared). p.store) s _
        (materialize_and_prepare-Audited sha256 pass attempt context observed cases s)
  call-Audited (mark attempt now keys) s =
      stored_or-Audited (λ t. t) s _ (mark-Audited attempt now keys s)
  call-Audited (finalize receipts now outcomes) s =
      stored_or-Audited (λ t. t) s _ (finalize-Audited receipts now outcomes s)

  calls-Audited : (cs : List Call) (s : CaseStore) → Audited s (calls sha256 cs s)
  unfolding calls
  calls-Audited [] s = Audited-refl s
  calls-Audited (c ∷ cs) s = Audited-trans (call-Audited c s) (calls-Audited cs (call sha256 c s))

-- Whatever the calls, those that raise included: the event log only grows at its end, and a case
-- that a read finds before is found after with the same subject (its record, field, kind, policy,
-- observed and proposed values), and in the same state unless an event of the case was added.
pub calls-logged :
    (sha256 : String → String) (cs : List Call) (s : CaseStore)
    → (events : List CaseEvent) × ((calls sha256 cs s).events ≡ s.events ++ events)
      × ((key : String) (r : Case)
          → fetch_one (has_case_key key) s.rows ≡ some r
          → (r' : Case) × (fetch_one (has_case_key key) (calls sha256 cs s).rows ≡ some r')
            × (subject r' ≡ subject r)
            × ((r'.state ≡ r.state) ⊎ (has_event r.case_key events ≡ true)))
calls-logged sha256 cs s =
    let a = calls-Audited sha256 cs s in
    (
      a.new_events,
      a.grown,
      (λ key r found.
          let (r', e, t) =
            fetch_one-Evolves (Tracks a.new_events) (IsLogged a.new_events) case_key_of
              (λ x y d. same_key x y d.same_subject) key a.evolved r found in
          (r', e, t.same_subject, t.logged)),
    )
