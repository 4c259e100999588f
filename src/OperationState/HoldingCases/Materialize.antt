-- ===== src/OperationState/HoldingCases/Materialize.antt =====
-- Observed cases are stored: the rest of `_materialize_holding_cases_tx` and what it calls, in
-- src/app/operation_state/_holding_case_mixin.py. An exception rolls the transaction back.
use portfolio_management.Common.{
  ℕ, String, Bool, true, false, not, ◌&&◌, ◌||◌, Option, none, some, List, [], ◌∷◌, ◌++◌,
  if◌then◌else◌, str_eq, text_in, opt_eq, or_else, keep, any_of, Result, ok, err, ◌>>=◌, ◌>>◌,
  raise_if, value_error, text_json, object_json, member, end, nullable_text, canonical_json,
}
use portfolio_management.Common.Table.{update, fetch_one}
use portfolio_management.OperationState.Receipts.{insert_operation_receipt_tx}
use portfolio_management.OperationState.HoldingCases.{
  Case, CaseStore, Candidate, reopenable_states, has_case_key, insert_case_event_tx,
}
use portfolio_management.OperationState.HoldingCases.Supersede.{
  DiscoveryReceipt, Pass, Progress, receipt_for, normalized, lacks_identity, is_replaced,
  holds_automatic_write, supersede_all,
}
use portfolio_management.OperationState.HoldingCases.Migrate.{
  row_of, migrate_case_precondition_tx, fill_identity,
}

-- the columns that an observation of the same case may not change
unfoldable pub same_stored : Candidate → Case → Bool
same_stored c r =
    str_eq r.record_id c.record_id
    && str_eq r.field c.field
    && str_eq r.kind c.kind
    && str_eq r.policy_version c.policy_version
    && opt_eq r.authority_id c.authority_id
    && str_eq (canonical_json r.current) (canonical_json c.current)
    && str_eq r.proposed_json c.proposed
    && str_eq r.case_precondition_digest c.case_precondition_digest

unfoldable pub reopen_row : Candidate → ℕ → Case → Case
reopen_row c now r = record r {
  state = c.state;
  identity_json = or_else c.identity "{}";
  latest_evidence_instance_id = c.latest_evidence_instance_id;
  evidence_json = or_else c.evidence "{}";
  record_digest = c.record_digest;
  resolution = none;
  target_json = none;
  before_json = none;
  apply_attempt_id = none;
  remote_attempt_started_at = none;
  last_error = none;
  updated_at = now;
}

unfoldable pub refresh_row : Candidate → ℕ → Case → Case
refresh_row c now r = record r {
  latest_evidence_instance_id = c.latest_evidence_instance_id;
  evidence_json = or_else c.evidence "{}";
  record_digest = c.record_digest;
  updated_at = now;
}

unfoldable pub same_evidence : Candidate → Case → Bool
same_evidence c r =
    opt_eq r.latest_evidence_instance_id c.latest_evidence_instance_id
    && str_eq r.evidence_json (or_else c.evidence "{}")

unfoldable pub reopen_case : Pass → Candidate → Case → Progress → Progress
unfolding reopen_row insert_case_event_tx
reopen_case pass c current p = record p {
  store =
      insert_case_event_tx c.case_key "reopened"
        (member "from_state" (text_json current.state) (
          member "to_state" (text_json c.state) (
            member "record_digest" (text_json c.record_digest)
              (member "trigger" (object_json pass.trigger) end))))
        pass.now
        (record p.store {
          rows = update (has_case_key c.case_key) (reopen_row c pass.now) p.store.rows;
        });
  reopened_case_keys = p.reopened_case_keys ++ c.case_key ∷ [];
}

unfoldable pub refresh_case : Pass → Candidate → Case → Progress → Progress
unfolding refresh_row insert_case_event_tx same_evidence
refresh_case pass c current p = record p {
  store =
      insert_case_event_tx c.case_key
        (if same_evidence c current then "record_refreshed" else "evidence_refreshed")
        (member "evidence_instance_id" (nullable_text c.latest_evidence_instance_id) (
          member "record_digest" (text_json c.record_digest)
            (member "trigger" (object_json pass.trigger) end)))
        pass.now
        (record p.store {
          rows = update (has_case_key c.case_key) (refresh_row c pass.now) p.store.rows;
        });
  refreshed_case_keys = p.refreshed_case_keys ++ c.case_key ∷ [];
}

unfoldable pub settle_existing : Pass → Candidate → Case → Progress → Progress
unfolding reopen_case refresh_case same_evidence
settle_existing pass c current p =
    if text_in current.state reopenable_states
    then reopen_case pass c current p
    else if not (same_evidence c current) || not (str_eq current.record_digest c.record_digest)
    then refresh_case pass c current p
    else p

unfoldable pub check_and_settle : Pass → Candidate → Progress → CaseStore → Case → Result Progress
unfolding same_stored settle_existing
check_and_settle pass c p migrated current = do
  raise_if (not (same_stored c current))
      (value_error "holding case key collision with different semantics")
  ok (settle_existing pass c current (record p { store = migrated }))

-- `raw` is the candidate as it came, `c` with its texts stripped
unfoldable pub migrate_filled :
    (String → String) → Pass → Candidate → Candidate → Progress → CaseStore → Case → Result Progress
unfolding migrate_case_precondition_tx check_and_settle
migrate_filled sha256 pass raw c p s filled = do
  migrated ← migrate_case_precondition_tx sha256 filled raw pass s
  current ← row_of (fetch_one (has_case_key c.case_key) migrated.rows)
  check_and_settle pass c p migrated current

unfoldable pub update_existing :
    (String → String) → Pass → Candidate → Candidate → Progress → Case → Result Progress
unfolding fill_identity migrate_filled
update_existing sha256 pass raw c p existing = do
  rows ← fill_identity c.case_key (or_else c.identity "{}") pass.now existing p.store.rows
  filled ← row_of (fetch_one (has_case_key c.case_key) rows)
  migrate_filled sha256 pass raw c p (record p.store { rows = rows }) filled

unfoldable pub new_case : Candidate → ℕ → Case
new_case c now = record {
  case_key = c.case_key;
  record_id = c.record_id;
  account = c.account;
  identity_json = or_else c.identity "{}";
  field = c.field;
  kind = c.kind;
  blocks_official_nav = c.blocks_official_nav;
  policy_version = c.policy_version;
  authority_id = c.authority_id;
  current = c.current;
  proposed_json = c.proposed;
  record_digest = c.record_digest;
  case_precondition_digest = c.case_precondition_digest;
  latest_evidence_instance_id = c.latest_evidence_instance_id;
  evidence_json = or_else c.evidence "{}";
  state = c.state;
  resolution = none;
  target_json = none;
  before_json = none;
  apply_attempt_id = none;
  remote_attempt_started_at = none;
  last_error = none;
  created_at = now;
  updated_at = now;
}

-- the receipt of a discovery, whose absence is an error even where none is enqueued
unfoldable pub enqueue_discovery :
    Bool → ℕ → Option DiscoveryReceipt → CaseStore → Result (List String × CaseStore)
enqueue_discovery enqueue now none s = err (value_error "new holding case lacks discovery receipt")
enqueue_discovery false now (some d) s = ok ([], s)
enqueue_discovery true now (some d) s = do
  added ← insert_operation_receipt_tx d.receipt_key d.receipt_type d.payload_json now s.outbox
  ok (if added.0 then d.receipt_key ∷ [] else [], record s { outbox = added.1 })

-- the store with the new row and its event
unfoldable pub discovered : Pass → Candidate → CaseStore → CaseStore
unfolding new_case insert_case_event_tx
discovered pass c s =
    insert_case_event_tx c.case_key "discovered"
      (member "state" (text_json c.state) (
        member "record_digest" (text_json c.record_digest)
          (member "trigger" (object_json pass.trigger) end)))
      pass.now (record s { rows = s.rows ++ new_case c pass.now ∷ [] })

unfoldable pub note_created : Candidate → Progress → List String × CaseStore → Progress
note_created c p (keys, s) = record p {
  store = s;
  created_case_keys = p.created_case_keys ++ c.case_key ∷ [];
  enqueued_receipt_keys = p.enqueued_receipt_keys ++ keys;
}

unfoldable pub insert_new : Pass → Candidate → Progress → Result Progress
unfolding discovered enqueue_discovery note_created
insert_new pass c p =
    enqueue_discovery pass.enqueue_receipts pass.now
      (receipt_for c.case_key pass.discovery_receipts) (discovered pass c p.store)
    >>= λ added. ok (note_created c p added)

unfoldable pub put_observed :
    (String → String) → Pass → Candidate → Candidate → Progress → Option Case → Result Progress
unfolding update_existing insert_new
put_observed sha256 pass raw c p none = insert_new pass c p
put_observed sha256 pass raw c p (some existing) = update_existing sha256 pass raw c p existing

unfoldable pub replace_and_put :
    (String → String) → Pass → Candidate → Candidate → Progress → List Case → Result Progress
unfolding supersede_all put_observed
replace_and_put sha256 pass raw c p old_rows = do
  replaced ← supersede_all pass c old_rows p
  put_observed sha256 pass raw c replaced (fetch_one (has_case_key c.case_key) replaced.store.rows)

unfoldable pub materialize_in :
    (String → String) → Pass → Candidate → Candidate → Progress → Result Progress
unfolding lacks_identity is_replaced holds_automatic_write replace_and_put
materialize_in sha256 pass raw c p = do
  raise_if (lacks_identity c) (value_error "holding case is missing a required identity field")
  if any_of holds_automatic_write (keep (is_replaced c) p.store.rows)
      then ok p
      else replace_and_put sha256 pass raw c p (keep (is_replaced c) p.store.rows)

unfoldable pub materialize_one : (String → String) → Pass → Candidate → Progress → Result Progress
unfolding normalized materialize_in
materialize_one sha256 pass raw p = materialize_in sha256 pass raw (normalized raw) p

unfoldable pub materialize_all :
    (String → String) → Pass → List Candidate → Progress → Result Progress
unfolding materialize_one
materialize_all sha256 pass [] p = ok p
materialize_all sha256 pass (c ∷ cs) p =
    materialize_one sha256 pass c p >>= materialize_all sha256 pass cs

unfoldable pub materialize_holding_cases :
    (String → String) → Pass → List Candidate → CaseStore → Result Progress
unfolding materialize_all
materialize_holding_cases sha256 pass cases s = materialize_all sha256 pass cases (record {
  store = s;
  created_case_keys = [];
  refreshed_case_keys = [];
  reopened_case_keys = [];
  superseded_case_keys = [];
  enqueued_receipt_keys = [];
})
