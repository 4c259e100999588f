-- ===== src/Tests/Settlements.antt =====
-- A run of the holdings monitor that confirms a deletion is settled.
use portfolio_management.Common.{
  if◌then◌else◌, ◌==◌, ℕ, ◌+◌, ◌*◌, ◌≤◌, ◌<◌, ◌≡◌, refl, String, true, false, some, List, [], ◌∷◌,
  ◌++◌, map, ok, end,
}
use portfolio_management.Holdings.Changes.{Change}
use portfolio_management.OperationState.CashFlowInbox.Atomicity.{AllStored}
use portfolio_management.OperationState.CashFlowInbox.{ReceiptRequest, insert_receipts}
use portfolio_management.OperationState.HoldingCases.{CaseStore}
use portfolio_management.OperationState.HoldingCases.Audit.{Audited}
use portfolio_management.OperationState.HoldingCases.Coverage.{Proof}
use portfolio_management.OperationState.HoldingCases.Duplicates.{reconcile_duplicate_cases}
use portfolio_management.OperationState.HoldingMonitor.{
  Monitor, background, second, new_monitor, read_monitor,
}
use portfolio_management.OperationState.HoldingMonitor.PlanText.{changes_text, rows_text}
use portfolio_management.OperationState.HoldingMonitor.Settling.{
  Run, Observed, MonitorStore, SettleReport, settle_holding_monitor, observed_as, settled_row,
}
use portfolio_management.OperationState.HoldingMonitor.Settling.Settled.{settle-commits, settle-due}
use portfolio_management.OperationState.Receipts.{new_receipt, insert_operation_receipt_tx}
use portfolio_management.Tests.Changes.{second_plan}

-- any function stands for the digest here
abbrev sha256 : String → String
sha256 s = s

abbrev builder : String → ℕ → List Change → List ReceiptRequest
builder epoch seq changes =
    map
      (λ (c : Change). record {
        receipt_key = c.record_id;
        receipt_type = "non_futu_holdings_changed";
        payload = c.kind;
      })
      changes

abbrev monitor : Monitor
monitor = record (new_monitor "scope" "file" "table" "{}" "{}" "epoch") {
  enabled = true;
  requested = 2;
  failure_count = 3;
}

abbrev no_cases : CaseStore
no_cases = record { rows = []; events = []; outbox = [] }

abbrev store : MonitorStore
store = record { monitors = monitor ∷ []; observations = []; cases = no_cases }

abbrev proof : Proof
proof = record {
  complete = true;
  records = [];
  covered_record_ids = [];
  proven_deleted_ids = "rec-1" ∷ [];
  raw = "{}";
}

abbrev isoformat : ℕ → String
isoformat t = if t == 10 then "T1" else "T2"

abbrev run : Run
run = record {
  scope_key = "scope";
  settings = "{}";
  epoch = "epoch";
  mode = "background";
  generation = 1;
  plan = second_plan;
  isoformat = isoformat;
  duplicate_plan = record { discovery_receipts = []; trigger = end; proof = proof; cases = [] };
  interval = 3600 * second;
}

abbrev settled : MonitorStore
settled = record {
  monitors = settled_row background run monitor 2_000_010 monitor ∷ [];
  observations = observed_as run 1 2_000_010 ∷ [];
  cases = record no_cases {
    outbox = new_receipt "rec-1" "non_futu_holdings_changed" "record_deleted" 2_000_010 ∷ [];
  };
}

abbrev report : SettleReport
report = record {
  observation_seq = 1;
  receipt_keys = "rec-1" ∷ [];
  case_result = record {
    progress = record {
      store = no_cases;
      created_case_keys = [];
      refreshed_case_keys = [];
      reopened_case_keys = [];
      superseded_case_keys = [];
      enqueued_receipt_keys = [];
    };
    closed_case_keys = [];
  };
}

settles : settle_holding_monitor sha256 builder run 2_000_010 store ≡ ok (report, settled)
unfolding settle_holding_monitor reconcile_duplicate_cases insert_receipts new_monitor
    insert_operation_receipt_tx
settles = refl

settle-commits_example :
    (monitor.epoch ≡ "epoch")
    × (monitor.settings_json ≡ "{}")
    × ((o : Observed) × (settled.observations ≡ [] ++ o ∷ [])
        × (o.scope_key ≡ "scope")
        × (o.epoch ≡ "epoch")
        × (o.observation_seq ≡ 1)
        × (o.mode ≡ "background")
        × (o.observed_at ≡ 2_000_010)
        × (o.changes_json ≡ changes_text isoformat second_plan.changes))
    × Audited no_cases settled.cases
    × AllStored (builder "epoch" 1 second_plan.changes) settled.cases.outbox
    × (m' : Monitor) × (read_monitor "scope" settled.monitors ≡ some m')
    × (m'.observation_seq ≡ 1)
    × (m'.rows_json ≡ rows_text isoformat second_plan.rows)
unfolding read_monitor new_monitor
settle-commits_example =
    settle-commits sha256 builder run 2_000_010 store settled report monitor background refl refl
      settles

settle-due_example :
    (m' : Monitor) × (read_monitor "scope" settled.monitors ≡ some m')
    × (m'.failure_count ≡ 0)
    × (m'.completed ≡ 1)
    × (due : ℕ) × (m'.next_due ≡ some due)
    × (false ≡ true → due ≤ 2_000_010 + 2 * second)
    × (1 < 2 → due ≤ 2_000_010 + 2 * second)
    × (false ≡ false → 2 ≤ 1 → due ≡ 2_000_010 + 3600 * second)
unfolding read_monitor new_monitor
settle-due_example =
    settle-due sha256 builder run 2_000_010 store settled report monitor refl refl settles
