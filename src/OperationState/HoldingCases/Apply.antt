-- ===== src/OperationState/HoldingCases/Apply.antt =====
-- Cases are applied to the remote table: `_prepare_holding_apply_tx`, `mark_holding_remote_attempt`,
-- `finalize_holding_cases` and `materialize_and_prepare_holding_apply` of
-- src/app/operation_state/_holding_case_mixin.py.
use portfolio_management.Common.{
  ℕ, String, Bool, false, not, ◌&&◌, Option, none, some, List, [], ◌∷◌, ◌++◌, ◌==◌, str_eq, text_in,
  opt_is, is_some, or_else, is_empty, all_of, map, Result, ok, err, ◌>>=◌, ◌>>◌, raise_if,
  value_error, key_error, Json, text_json, raw_json, object_json, Members, member, end, merge,
}
use portfolio_management.Common.Table.{update, row_count, fetch_one}
use portfolio_management.OperationState.Receipts.{insert_operation_receipt_tx}
use portfolio_management.OperationState.HoldingCases.{
  Case, CaseStore, Candidate, has_case_key, insert_case_event_tx,
}
use portfolio_management.OperationState.HoldingCases.Supersede.{
  DiscoveryReceipt, Pass, Progress, receipt_for,
}
use portfolio_management.OperationState.HoldingCases.Materialize.{materialize_holding_cases}
use portfolio_management.OperationState.HoldingCases.Resolve.{
  Scan, Closing, resolve_holding_cases_external,
}

-- A case to apply. `target` and `before` are canonical texts, `decision`, `reason` and
-- `confirmation_scope` their values.
pub record Application : Type 0 where
  pub case_key : String
  pub allowed_states : List String
  pub case_precondition_digest : String
  pub target : String
  pub before : String
  pub decision : Json
  pub reason : Json
  pub confirmation_scope : Json

unfoldable pub apply_resolution : Members → Application → Members
apply_resolution context a = member "operator_context" (object_json context) (
    member "decision" a.decision
      (member "reason" a.reason (member "confirmation_scope" a.confirmation_scope end)))

unfoldable pub apply_row : String → Members → Application → ℕ → Case → Case
unfolding apply_resolution
apply_row attempt context a now r = record r {
  state = "applying";
  target_json = some a.target;
  before_json = some a.before;
  apply_attempt_id = some attempt;
  resolution = some (object_json (apply_resolution context a));
  remote_attempt_started_at = none;
  last_error = none;
  updated_at = now;
}

unfoldable pub prepare_found :
    String → Members → ℕ → Application → CaseStore → Option Case → Result CaseStore
unfolding apply_row apply_resolution insert_case_event_tx
prepare_found attempt context now a s none = err (value_error "holding case is not applicable")
prepare_found attempt context now a s (some r) = do
  raise_if (not (text_in r.state a.allowed_states)) (value_error "holding case is not applicable")
  raise_if (not (str_eq r.case_precondition_digest a.case_precondition_digest))
      (value_error "holding case precondition changed")
  ok (
      insert_case_event_tx a.case_key "apply_prepared"
        (merge
          (member "apply_attempt_id" (text_json attempt)
            (member "target" (raw_json a.target) (member "before" (raw_json a.before) end)))
          (apply_resolution context a))
        now
        (record s {
          rows = update (has_case_key a.case_key) (apply_row attempt context a now) s.rows;
        }))

unfoldable pub prepare_all : String → Members → ℕ → List Application → CaseStore → Result CaseStore
unfolding prepare_found
prepare_all attempt context now [] s = ok s
prepare_all attempt context now (a ∷ as_) s =
    prepare_found attempt context now a s (fetch_one (has_case_key a.case_key) s.rows)
    >>= prepare_all attempt context now as_

unfoldable pub prepare_holding_apply :
    String → Members → ℕ → List Application → CaseStore → Result CaseStore
unfolding prepare_all
prepare_holding_apply attempt context now cases s = do
  raise_if (is_empty cases) (value_error "holding apply requires at least one case")
  prepare_all attempt context now cases s

unfoldable pub can_start : String → String → Case → Bool
can_start key attempt r =
    has_case_key key r
    && (str_eq r.state "applying"
        && (opt_is r.apply_attempt_id attempt && not (is_some r.remote_attempt_started_at)))

unfoldable pub start_row : ℕ → Case → Case
start_row now r = record r { remote_attempt_started_at = some now; updated_at = now }

unfoldable pub mark_one : String → ℕ → String → CaseStore → Result CaseStore
unfolding can_start start_row insert_case_event_tx
mark_one attempt now key s = do
  raise_if (not (row_count (can_start key attempt) s.rows == 1))
      (value_error "holding case remote attempt cannot start")
  ok (
      insert_case_event_tx key "remote_attempt_started"
        (member "apply_attempt_id" (text_json attempt) end) now
        (record s { rows = update (can_start key attempt) (start_row now) s.rows }))

unfoldable pub mark_holding_remote_attempt : String → ℕ → List String → CaseStore → Result CaseStore
unfolding mark_one
mark_holding_remote_attempt attempt now [] s = ok s
mark_holding_remote_attempt attempt now (key ∷ keys) s =
    mark_one attempt now key s >>= mark_holding_remote_attempt attempt now keys

-- A missing or empty `event_type` is `none`, a missing resolution has no members.
pub record Outcome : Type 0 where
  pub case_key : String
  pub state : String
  pub apply_attempt_id : Option String
  pub resolution : Members
  pub last_error : Option String
  pub event_type : Option String

abbrev pub allowed_terminal : List String
allowed_terminal =
    "resolved_accept" ∷ "resolved_keep" ∷ "resolved_external" ∷ "superseded" ∷ "failed_retryable"
    ∷ "apply_outcome_unknown" ∷ []

unfoldable pub finalize_row : Outcome → ℕ → Case → Case
finalize_row o now r = record r {
  state = o.state;
  resolution = some (object_json o.resolution);
  last_error = o.last_error;
  updated_at = now;
}

-- `expected and row[…] != expected`, where an empty text expects nothing
unfoldable pub attempt_changed : Option String → Case → Bool
attempt_changed none r = false
attempt_changed (some attempt) r =
    not (str_eq attempt "") && not (opt_is r.apply_attempt_id attempt)

unfoldable pub add_receipt : Option DiscoveryReceipt → ℕ → CaseStore → Result CaseStore
add_receipt none now s = ok s
add_receipt (some d) now s = do
  added ← insert_operation_receipt_tx d.receipt_key d.receipt_type d.payload_json now s.outbox
  ok (record s { outbox = added.1 })

unfoldable pub finalize_found :
    List DiscoveryReceipt → ℕ → Outcome → CaseStore → Option Case → Result CaseStore
unfolding attempt_changed finalize_row add_receipt insert_case_event_tx
finalize_found receipts now o s none = err (key_error "holding case not found")
finalize_found receipts now o s (some r) = do
  raise_if (attempt_changed o.apply_attempt_id r) (value_error "holding apply attempt changed")
  add_receipt (receipt_for o.case_key receipts) now (
      insert_case_event_tx o.case_key (or_else o.event_type "resolved")
        (merge (member "state" (text_json o.state) end) o.resolution) now
        (record s { rows = update (has_case_key o.case_key) (finalize_row o now) s.rows }))

unfoldable pub finalize_one : List DiscoveryReceipt → ℕ → Outcome → CaseStore → Result CaseStore
unfolding finalize_found
finalize_one receipts now o s = do
  raise_if (not (text_in o.state allowed_terminal))
      (value_error "invalid holding case terminal state")
  finalize_found receipts now o s (fetch_one (has_case_key o.case_key) s.rows)

unfoldable pub finalize_holding_cases :
    List DiscoveryReceipt → ℕ → List Outcome → CaseStore → Result CaseStore
unfolding finalize_one
finalize_holding_cases receipts now [] s = ok s
finalize_holding_cases receipts now (o ∷ os) s =
    finalize_one receipts now o s >>= finalize_holding_cases receipts now os

-- the observed cases belong to one record, one identity and one digest
unfoldable pub one_scope : Candidate → List Candidate → Bool
one_scope first cases =
    all_of (λ c. str_eq c.record_id first.record_id) cases
    && (all_of (λ c. str_eq (or_else c.identity "{}") (or_else first.identity "{}")) cases
        && all_of (λ c. str_eq c.record_digest first.record_digest) cases)

pub record Prepared : Type 0 where
  pub store : CaseStore
  pub created_case_keys : List String
  pub refreshed_case_keys : List String
  pub reopened_case_keys : List String
  pub closed_case_keys : List String
  pub superseded_case_keys : List String
  pub enqueued_receipt_keys : List String

-- the scan that the first observed case stands for
unfoldable pub scan_of : Pass → Candidate → List Candidate → Scan
scan_of pass first observed = record {
  record_id = first.record_id;
  active_case_keys = map (λ (c : Candidate). c.case_key) observed;
  record_digest = first.record_digest;
  current_identity = or_else first.identity "{}";
  trigger = pass.trigger;
  now = pass.now;
  enqueue_receipts = pass.enqueue_receipts;
}

unfoldable pub prepared_after : Progress → Closing → CaseStore → Prepared
prepared_after stored absent s = record {
  store = s;
  created_case_keys = stored.created_case_keys;
  refreshed_case_keys = stored.refreshed_case_keys;
  reopened_case_keys = stored.reopened_case_keys;
  closed_case_keys = absent.closed_case_keys;
  superseded_case_keys = stored.superseded_case_keys ++ absent.superseded_case_keys;
  enqueued_receipt_keys = stored.enqueued_receipt_keys ++ absent.enqueued_receipt_keys;
}

unfoldable pub close_and_prepare :
    Pass
    → Candidate
    → List Candidate
    → List Application
    → String
    → Members
    → Progress
    → Result Prepared
unfolding one_scope scan_of resolve_holding_cases_external prepare_all prepared_after
close_and_prepare pass first observed cases attempt context stored = do
  raise_if (not (one_scope first observed))
      (value_error "holding apply observed cases span multiple record scopes")
  absent ← resolve_holding_cases_external (scan_of pass first observed) stored.store
  prepared ← prepare_all attempt context pass.now cases absent.store
  ok (prepared_after stored absent prepared)

unfoldable pub materialize_and_prepare_holding_apply :
    (String → String)
    → Pass
    → List Candidate
    → List Application
    → String
    → Members
    → CaseStore
    → Result Prepared
unfolding materialize_holding_cases close_and_prepare
materialize_and_prepare_holding_apply sha256 pass observed [] attempt context s =
    err (value_error "holding apply requires at least one case")
materialize_and_prepare_holding_apply sha256 pass [] (a ∷ as_) attempt context s =
    err (value_error "holding apply lacks a fresh observed case set")
materialize_and_prepare_holding_apply sha256 pass (first ∷ rest) (a ∷ as_) attempt context s =
    materialize_holding_cases sha256 pass (first ∷ rest) s
    >>= close_and_prepare pass first (first ∷ rest) (a ∷ as_) attempt context
