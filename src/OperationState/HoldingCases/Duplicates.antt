-- ===== src/OperationState/HoldingCases/Duplicates.antt =====
-- Cases of an identity that several records share: `_reconcile_duplicate_cases_tx` of
-- src/app/operation_state/_holding_case_mixin.py.
use portfolio_management.Common.{
  String, Bool, not, ◌||◌, Option, none, some, List, [], ◌∷◌, ◌++◌, if◌then◌else◌, str_eq, text_in,
  keep, any_of, Result, ok, err, ◌>>=◌, ◌>>◌, raise_if, value_error, runtime_error, text_json,
  raw_json, object_json, Members, member, end, merge, nullable_text, join_text,
}
use portfolio_management.Common.Table.{update, fetch_one}
use portfolio_management.OperationState.HoldingCases.{
  Case, CaseStore, Candidate, open_states, has_case_key, insert_case_event_tx, with_previous,
  enqueue_closure,
}
use portfolio_management.OperationState.HoldingCases.Supersede.{Pass, Progress}
use portfolio_management.OperationState.HoldingCases.Materialize.{materialize_holding_cases}
use portfolio_management.OperationState.HoldingCases.Resolve.{close_row, stored_identity}
use portfolio_management.OperationState.HoldingCases.Coverage.{
  Fact, Proof, fact_of, is_fully_observed, is_open_duplicate, is_safe, Ending, ending_decision,
  ending_state, ending_of, deleted, identity_changed, repaired,
}

-- The store and the six lists of keys that the call returns.
pub record Reconciliation : Type 0 where
  pub progress : Progress
  pub closed_case_keys : List String

unfoldable pub note_ending :
    Ending → String → List String × CaseStore → Reconciliation → Reconciliation
note_ending identity_changed k (keys, s) p = record p {
  progress = record p.progress {
    store = s;
    superseded_case_keys = p.progress.superseded_case_keys ++ k ∷ [];
    enqueued_receipt_keys = p.progress.enqueued_receipt_keys ++ keys;
  };
}
note_ending deleted k (keys, s) p = record p {
  progress = record p.progress {
    store = s;
    enqueued_receipt_keys = p.progress.enqueued_receipt_keys ++ keys;
  };
  closed_case_keys = p.closed_case_keys ++ k ∷ [];
}
note_ending repaired k (keys, s) p = record p {
  progress = record p.progress {
    store = s;
    enqueued_receipt_keys = p.progress.enqueued_receipt_keys ++ keys;
  };
  closed_case_keys = p.closed_case_keys ++ k ∷ [];
}

unfoldable pub digest_or_deleted : Option String → String
digest_or_deleted none = "record-deleted"
digest_or_deleted (some d) = if str_eq d "" then "record-deleted" else d

unfoldable pub ending_resolution : Pass → Proof → Case → Ending → Members
ending_resolution pass proof r ending =
    let fact = fact_of r.record_id proof.records in
    with_previous r.resolution (
      member "decision" (text_json (ending_decision ending)) (
        member "readback_digest" (nullable_text fact.record_digest) (
          member "expected_identity" (raw_json (stored_identity r)) (
            member "observed_identity" (object_json fact.identity) (
              member "duplicate_observation" (raw_json proof.raw)
                (member "trigger" (object_json pass.trigger) end))))))

-- the store with the row closed and its event
unfoldable pub ended : Pass → Proof → Case → Ending → CaseStore → CaseStore
unfolding ending_resolution close_row insert_case_event_tx
ended pass proof r ending s =
    let state = ending_state ending in
    let resolution = ending_resolution pass proof r ending in
    insert_case_event_tx r.case_key state resolution pass.now (record s {
      rows = update (has_case_key r.case_key) (close_row state resolution pass.now) s.rows;
    })

unfoldable pub ending_receipt :
    Pass → Proof → Case → Ending → CaseStore → Result (List String × CaseStore)
unfolding ending_resolution digest_or_deleted enqueue_closure
ending_receipt pass proof r ending s =
    let state = ending_state ending in
    let fact = fact_of r.record_id proof.records in
    enqueue_closure pass.enqueue_receipts
      (join_text (
        "holdings:case:closed:"
        ∷ r.case_key
        ∷ ":"
        ∷ state
        ∷ ":"
        ∷ digest_or_deleted fact.record_digest
        ∷ []))
      (merge
        (member "case_key" (text_json r.case_key) (
          member "record_id" (text_json r.record_id) (
            member "account" (nullable_text r.account) (
              member "field" (text_json r.field) (member "terminal_state" (text_json state) end)))))
        (ending_resolution pass proof r ending))
      pass.now s

unfoldable pub end_case : Pass → Proof → Case → Ending → Reconciliation → Result Reconciliation
unfolding ended ending_receipt note_ending
end_case pass proof r ending p =
    ending_receipt pass proof r ending (ended pass proof r ending p.progress.store) >>= λ closed.
    ok (note_ending ending r.case_key closed p)

-- the case as it is now
unfoldable pub end_fresh :
    Pass → Proof → Case → Reconciliation → Option Case → Option Ending → Result Reconciliation
unfolding end_case
end_fresh pass proof r p none _ = err (runtime_error "no row")
end_fresh pass proof r p (some fresh) none = ok p
end_fresh pass proof r p (some fresh) (some ending) =
    if text_in fresh.state open_states then end_case pass proof r ending p else ok p

unfoldable pub end_one :
    Pass → Proof → List Candidate → Case → Reconciliation → Result Reconciliation
unfolding is_fully_observed ending_of end_fresh
end_one pass proof safe r p =
    if any_of (λ (c : Candidate). str_eq c.case_key r.case_key) safe
      || not (is_fully_observed proof r)
    then ok p
    else end_fresh pass proof r p (fetch_one (has_case_key r.case_key) p.progress.store.rows)
        (ending_of proof r)

unfoldable pub end_all :
    Pass → Proof → List Candidate → List Case → Reconciliation → Result Reconciliation
unfolding end_one
end_all pass proof safe [] p = ok p
end_all pass proof safe (r ∷ rs) p = end_one pass proof safe r p >>= end_all pass proof safe rs

unfoldable pub reconcile_from :
    (String → String)
    → Pass
    → Proof
    → List Candidate
    → List Case
    → CaseStore
    → Result Reconciliation
unfolding materialize_holding_cases end_all
reconcile_from sha256 pass proof safe old_rows s = do
  progress ← materialize_holding_cases sha256 pass safe s
  end_all pass proof safe old_rows (record { progress = progress; closed_case_keys = [] })

unfoldable pub deletes_present : Proof → Bool
deletes_present proof =
    any_of (λ k. any_of (λ (f : String × Fact). str_eq f.0 k) proof.records)
      proof.proven_deleted_ids

unfoldable pub has_other_kind : List Candidate → Bool
has_other_kind cases = any_of (λ (c : Candidate). not (str_eq c.kind "duplicate_identity")) cases

unfoldable pub reconcile_duplicate_cases :
    (String → String) → Pass → Proof → List Candidate → CaseStore → Result Reconciliation
unfolding deletes_present has_other_kind is_open_duplicate is_safe reconcile_from
reconcile_duplicate_cases sha256 pass proof cases s = do
  raise_if (not proof.complete)
      (value_error "duplicate reconciliation requires complete observation proof")
  raise_if (deletes_present proof) (value_error "duplicate deletion proof includes present records")
  raise_if (has_other_kind cases)
      (value_error "duplicate reconciliation accepts duplicate cases only")
  reconcile_from sha256 pass proof (keep (is_safe proof (keep is_open_duplicate s.rows)) cases)
      (keep is_open_duplicate s.rows) s
