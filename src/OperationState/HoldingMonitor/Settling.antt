-- ===== src/OperationState/HoldingMonitor/Settling.antt =====
-- `settle_holding_monitor` of src/app/operation_state/_holding_monitor_mixin.py: the result of a run
-- is stored with the duplicate cases that it settles and with the receipts of its changes, in one
-- transaction. The receipts are those of `receipt_builder`, which is a parameter.
pub mod Settled
use portfolio_management.Common.{
  ℕ, ◌+◌, ◌*◌, String, Bool, true, false, not, ◌&&◌, ◌==◌, Option, none, some, List, [], ◌∷◌, ◌++◌,
  ltb, min, if◌then◌else◌, str_eq, is_some, any_of, value_error, runtime_error, Result, ok, err,
  ◌>>=◌, ◌>>◌, raise_if, Members,
}
use portfolio_management.Common.Table.{update, fetch_one}
use portfolio_management.Holdings.Changes.{Change}
use portfolio_management.Holdings.Changes.Observation.{Plan}
use portfolio_management.OperationState.Receipts.{Outbox}
use portfolio_management.OperationState.CashFlowInbox.{ReceiptRequest, insert_receipts}
use portfolio_management.OperationState.HoldingCases.{CaseStore, Candidate}
use portfolio_management.OperationState.HoldingCases.Supersede.{DiscoveryReceipt, Pass}
use portfolio_management.OperationState.HoldingCases.Coverage.{Proof}
use portfolio_management.OperationState.HoldingCases.Duplicates.{
  Reconciliation, reconcile_duplicate_cases,
}
use portfolio_management.OperationState.HoldingMonitor.PlanText.{changes_text, rows_text}
use portfolio_management.OperationState.HoldingMonitor.{
  Monitor, Mode, manual, background, mode_of, has_scope, second,
}

-- A row of `holding_change_observations`.
pub record Observed : Type 0 where
  pub scope_key : String
  pub epoch : String
  pub observation_seq : ℕ
  pub mode : String
  pub observed_at : ℕ
  pub changes_json : String

pub record MonitorStore : Type 0 where
  pub monitors : List Monitor
  pub observations : List Observed
  pub cases : CaseStore

-- `duplicate_plan`
pub record DuplicatePlan : Type 0 where
  pub discovery_receipts : List DiscoveryReceipt
  pub trigger : Members
  pub proof : Proof
  pub cases : List Candidate

-- The arguments of the call, with `interval` in microseconds; `isoformat` is how a time is written.
pub record Run : Type 0 where
  pub scope_key : String
  pub settings : String
  pub epoch : String
  pub mode : String
  pub generation : ℕ
  pub plan : Plan
  pub isoformat : ℕ → String
  pub duplicate_plan : DuplicatePlan
  pub interval : ℕ

-- What the call returns.
pub record SettleReport : Type 0 where
  pub observation_seq : ℕ
  pub receipt_keys : List String
  pub case_result : Reconciliation

abbrev pub is_current : Run → Monitor → Bool
is_current run m = str_eq m.epoch run.epoch && str_eq m.settings_json run.settings

unfoldable pub note_success : Mode → String → ℕ → ℕ → Monitor → Monitor
note_success manual rows seq now m = record m {
  rows_json = rows;
  observation_seq = seq;
  manual_attempt_at = some now;
  manual_success_at = some now;
  manual_error = none;
}
note_success background rows seq now m = record m {
  rows_json = rows;
  observation_seq = seq;
  background_attempt_at = some now;
  background_success_at = some now;
  background_error = none;
}

-- The next run: soon where a deletion is to be confirmed or a request came in during the run.
unfoldable pub next_due_of : Bool → ℕ → ℕ → ℕ → ℕ → ℕ
next_due_of has_missing interval requested generation now =
    let due = now + (if has_missing then 2 * second else interval) in
    if ltb generation requested then min due (now + 2 * second) else due

unfoldable pub schedule : Mode → ℕ → ℕ → Monitor → Monitor
schedule manual generation due m = m
schedule background generation due m = record m {
  completed = generation;
  next_due = some due;
  failure_count = 0;
}

abbrev pub same_observation : Run → ℕ → Observed → Bool
same_observation run seq o =
    str_eq o.scope_key run.scope_key && (str_eq o.epoch run.epoch && o.observation_seq == seq)

abbrev pub pass_of : DuplicatePlan → ℕ → Pass
pass_of p now = record {
  discovery_receipts = p.discovery_receipts;
  trigger = p.trigger;
  now = now;
  enqueue_receipts = true;
}

unfoldable pub observed_as : Run → ℕ → ℕ → Observed
unfolding changes_text
observed_as run seq now = record {
  scope_key = run.scope_key;
  epoch = run.epoch;
  observation_seq = seq;
  mode = run.mode;
  observed_at = now;
  changes_json = changes_text run.isoformat run.plan.changes;
}

-- The row of the monitor after the run; `m` is the row that was read.
unfoldable pub settled_row : Mode → Run → Monitor → ℕ → Monitor → Monitor
unfolding note_success next_due_of schedule rows_text
settled_row mode run m now x =
    schedule mode run.generation
      (next_due_of run.plan.has_missing_candidates run.interval m.requested run.generation now)
      (note_success mode (rows_text run.isoformat run.plan.rows) (m.observation_seq + 1) now x)

-- The INSERT of the observation and the UPDATEs of the monitor; two rows of one key are refused.
unfoldable pub store_run :
    Mode
    → Run
    → Monitor
    → ℕ
    → MonitorStore
    → Reconciliation
    → List String × Outbox
    → Result (SettleReport × MonitorStore)
unfolding settled_row observed_as
store_run mode run m now s done (keys, outbox) = do
  raise_if (any_of (same_observation run (m.observation_seq + 1)) s.observations)
      (runtime_error "UNIQUE constraint failed: holding_change_observations")
  ok (
    record {
      observation_seq = m.observation_seq + 1;
      receipt_keys = done.progress.enqueued_receipt_keys ++ keys;
      case_result = done;
    },
    record {
      monitors = update (has_scope run.scope_key) (settled_row mode run m now) s.monitors;
      observations = s.observations ++ observed_as run (m.observation_seq + 1) now ∷ [];
      cases = record done.progress.store { outbox = outbox };
    },
  )

-- The loop over the receipts of the changes, behind those of the cases.
unfoldable pub announce_run :
    Mode
    → List ReceiptRequest
    → Run
    → Monitor
    → ℕ
    → MonitorStore
    → Reconciliation
    → Result (SettleReport × MonitorStore)
unfolding store_run
announce_run mode receipts run m now s done =
    insert_receipts receipts now done.progress.store.outbox >>= store_run mode run m now s done

abbrev pub ReceiptBuilder : Type 0
ReceiptBuilder = String → ℕ → List Change → List ReceiptRequest

unfoldable pub settle_current :
    (String → String)
    → ReceiptBuilder
    → Mode
    → Run
    → Monitor
    → ℕ
    → MonitorStore
    → Result (SettleReport × MonitorStore)
unfolding announce_run
settle_current sha256 receipt_builder mode run m now s =
    reconcile_duplicate_cases sha256 (pass_of run.duplicate_plan now) run.duplicate_plan.proof
      run.duplicate_plan.cases s.cases
    >>= announce_run mode (receipt_builder run.epoch (m.observation_seq + 1) run.plan.changes) run m
        now s

unfoldable pub settle_found :
    (String → String)
    → ReceiptBuilder
    → Mode
    → Run
    → ℕ
    → MonitorStore
    → Option Monitor
    → Result (SettleReport × MonitorStore)
unfolding settle_current
settle_found sha256 receipt_builder mode run now s none =
    err (value_error "monitor scope changed; reinitialize explicitly")
settle_found sha256 receipt_builder mode run now s (some m) = do
  raise_if (not (is_current run m)) (value_error "monitor scope changed; reinitialize explicitly")
  settle_current sha256 receipt_builder mode run m now s

settle_as :
    (String → String)
    → ReceiptBuilder
    → Option Mode
    → Run
    → ℕ
    → MonitorStore
    → Result (SettleReport × MonitorStore)
unfolding settle_found
settle_as sha256 receipt_builder none run now s = err (value_error "invalid monitor mode")
settle_as sha256 receipt_builder (some mode) run now s =
    settle_found sha256 receipt_builder mode run now s
      (fetch_one (has_scope run.scope_key) s.monitors)

unfoldable pub settle_holding_monitor :
    (String → String)
    → ReceiptBuilder
    → Run
    → ℕ
    → MonitorStore
    → Result (SettleReport × MonitorStore)
unfolding settle_as
settle_holding_monitor sha256 receipt_builder run now s =
    settle_as sha256 receipt_builder (mode_of run.mode) run now s
