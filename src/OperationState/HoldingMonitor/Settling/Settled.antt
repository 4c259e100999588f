-- ===== src/OperationState/HoldingMonitor/Settling/Settled.antt =====
-- What is stored when the run of a monitor is settled, and when the monitor runs next.
use portfolio_management.Common.{
  ℕ, ◌+◌, ◌*◌, ◌≤◌, ◌<◌, ◌≡◌, refl, ap, ◌∙◌, String, true, false, not, some, List, [], ◌∷◌, ◌++◌,
  arith, eq_iff, and_true, any_of, value_error, runtime_error, ok, >>=-eq-ok, raise_if-eq-ok,
  Returns-ok,
}
use portfolio_management.Common.Table.{update, fetch_one}
use portfolio_management.Common.Table.Keys.{fetch_one-update, fetch_one_holds, image}
use portfolio_management.OperationState.Receipts.{Outbox}
use portfolio_management.OperationState.CashFlowInbox.{insert_receipts}
use portfolio_management.OperationState.CashFlowInbox.Atomicity.{AllStored, insert_receipts-stored}
use portfolio_management.OperationState.HoldingCases.Audit.{Audited, Audited-outbox}
use portfolio_management.OperationState.HoldingCases.Audit.Reconciled.{
  Reconciles, reconcile-Audited,
}
use portfolio_management.OperationState.HoldingCases.Duplicates.{
  Reconciliation, reconcile_duplicate_cases,
}
use portfolio_management.OperationState.HoldingMonitor.PlanText.{changes_text, rows_text}
use portfolio_management.OperationState.HoldingMonitor.{
  Monitor, Mode, manual, background, mode_of, has_scope, second, read_monitor,
}
use portfolio_management.OperationState.HoldingMonitor.Settling.{
  Run, Observed, MonitorStore, SettleReport, ReceiptBuilder, is_current, pass_of, observed_as,
  settled_row, note_success, next_due_of, schedule, same_observation, store_run, announce_run,
  settle_current, settle_found, settle_as, settle_holding_monitor,
}

abbrev stored : Mode → Run → Monitor → ℕ → MonitorStore → Reconciliation → Outbox → MonitorStore
stored mode run m now s done outbox = record {
  monitors = update (has_scope run.scope_key) (settled_row mode run m now) s.monitors;
  observations = s.observations ++ observed_as run (m.observation_seq + 1) now ∷ [];
  cases = record done.progress.store { outbox = outbox };
}

store_inv :
    (mode : Mode) (run : Run) (m : Monitor) (now : ℕ) (s s' : MonitorStore) (done : Reconciliation)
    (keys : List String) (outbox : Outbox) (report : SettleReport)
    → store_run mode run m now s done (keys, outbox) ≡ ok (report, s')
    → stored mode run m now s done outbox ≡ s'
unfolding store_run
store_inv mode run m now s s' done keys outbox report h =
    let g =
      (raise_if-eq-ok (any_of (same_observation run (m.observation_seq + 1)) s.observations)
        (runtime_error "UNIQUE constraint failed: holding_change_observations") _ h).1 in
    cc

module _ (run : Run) (m : Monitor) (now : ℕ) where
  same_scope : (mode : Mode) (x : Monitor) → (settled_row mode run m now x).scope_key ≡ x.scope_key
  unfolding settled_row note_success schedule
  same_scope manual x = refl
  same_scope background x = refl

  numbered : (mode : Mode) → (settled_row mode run m now m).observation_seq ≡ m.observation_seq + 1
  unfolding settled_row note_success schedule
  numbered manual = refl
  numbered background = refl

  with_rows :
      (mode : Mode)
      → (settled_row mode run m now m).rows_json ≡ rows_text run.isoformat run.plan.rows
  unfolding settled_row note_success schedule
  with_rows manual = refl
  with_rows background = refl

module _ (sha256 : String → String) (receipt_builder : ReceiptBuilder) where
  -- What a settlement in a mode makes of the store, with the monitor's row that it read.
  record Settles (mode : Mode) (run : Run) (m : Monitor) (now : ℕ) (s s' : MonitorStore)
      : Type 0 where
    pub is_known : is_current run m ≡ true
    pub monitors :
        s'.monitors ≡ update (has_scope run.scope_key) (settled_row mode run m now) s.monitors
    pub observations :
        s'.observations ≡ s.observations ++ observed_as run (m.observation_seq + 1) now ∷ []
    pub audited : Audited s.cases s'.cases
    pub announced :
        AllStored
          (receipt_builder run.epoch (m.observation_seq + 1) run.plan.changes)
          s'.cases.outbox

  settle_current-Settles :
      (mode : Mode) (run : Run) (m : Monitor) (now : ℕ) (s s' : MonitorStore)
      (report : SettleReport)
      → is_current run m ≡ true
      → settle_current sha256 receipt_builder mode run m now s ≡ ok (report, s')
      → Settles mode run m now s s'
  unfolding settle_current announce_run
  settle_current-Settles mode run m now s s' report known h =
      let plan = run.duplicate_plan in
      let requests = receipt_builder run.epoch (m.observation_seq + 1) run.plan.changes in
      let reconciled =
        reconcile_duplicate_cases sha256 (pass_of plan now) plan.proof plan.cases s.cases in
      let (done, d, rest) = >>=-eq-ok reconciled (announce_run mode requests run m now s) h in
      let (kt, i, last) =
        >>=-eq-ok (insert_receipts requests now done.progress.store.outbox)
          (store_run mode run m now s done) rest in
      let same : stored mode run m now s done kt.1 ≡ s' =
        store_inv mode run m now s s' done kt.0 kt.1 report last in
      rw (← same) (record {
        is_known = known;
        monitors = refl;
        observations = refl;
        audited = Audited-outbox kt.1 (
            Returns-ok (Reconciles s.cases) reconciled
              (reconcile-Audited sha256 (pass_of plan now) plan.proof plan.cases s.cases) d);
        announced = insert_receipts-stored requests now done.progress.store.outbox kt.1 kt.0 i;
      })

  settle_found-Settles :
      (mode : Mode) (run : Run) (now : ℕ) (s s' : MonitorStore) (report : SettleReport)
      (m : Monitor)
      → settle_found sha256 receipt_builder mode run now s (some m) ≡ ok (report, s')
      → Settles mode run m now s s'
  unfolding settle_found
  settle_found-Settles mode run now s s' report m h =
      let g =
        raise_if-eq-ok (not (is_current run m))
          (value_error "monitor scope changed; reinitialize explicitly")
          (λ _. settle_current sha256 receipt_builder mode run m now s) h in
      let known : is_current run m ≡ true = ground (arith, g.0) in
      settle_current-Settles mode run m now s s' report known g.1

  settle-Settles :
      (run : Run) (now : ℕ) (s s' : MonitorStore) (report : SettleReport) (m : Monitor)
      (mode : Mode)
      → mode_of run.mode ≡ some mode
      → read_monitor run.scope_key s.monitors ≡ some m
      → settle_holding_monitor sha256 receipt_builder run now s ≡ ok (report, s')
      → Settles mode run m now s s'
  unfolding settle_holding_monitor settle_as read_monitor
  settle-Settles run now s s' report m mode is_mode found h =
      settle_found-Settles mode run now s s' report m (rw (is_mode, found) at h)

  row_after :
      (mode : Mode) (run : Run) (m : Monitor) (now : ℕ) (s s' : MonitorStore)
      → read_monitor run.scope_key s.monitors ≡ some m
      → Settles mode run m now s s'
      → read_monitor run.scope_key s'.monitors ≡ some (settled_row mode run m now m)
  unfolding read_monitor
  row_after mode run m now s s' found h =
      let p = has_scope run.scope_key in
      let f = settled_row mode run m now in
      ap (fetch_one p) h.monitors
      ∙ fetch_one-update (λ (x : Monitor). x.scope_key) p f (same_scope run m now mode)
          run.scope_key s.monitors
      ∙ ap (image p f) found
      ∙ rw (fetch_one_holds p s.monitors found) refl

  -- A settlement that succeeds found the monitor as the run had seen it, with its epoch and settings.
  -- It stores one observation more, of the run's scope, epoch and mode, under the number behind the
  -- monitor's, at the time of the call and with the text of the changes; it makes logged changes of
  -- the cases, puts
  -- every receipt of the plan's changes into the outbox, and the row of the monitor gets the number
  -- of the observation and the rows of the plan.
  pub settle-commits :
      (run : Run) (now : ℕ) (s s' : MonitorStore) (report : SettleReport) (m : Monitor)
      (mode : Mode)
      → mode_of run.mode ≡ some mode
      → read_monitor run.scope_key s.monitors ≡ some m
      → settle_holding_monitor sha256 receipt_builder run now s ≡ ok (report, s')
      → (m.epoch ≡ run.epoch)
        × (m.settings_json ≡ run.settings)
        × ((o : Observed) × (s'.observations ≡ s.observations ++ o ∷ [])
            × (o.scope_key ≡ run.scope_key)
            × (o.epoch ≡ run.epoch)
            × (o.observation_seq ≡ m.observation_seq + 1)
            × (o.mode ≡ run.mode)
            × (o.observed_at ≡ now)
            × (o.changes_json ≡ changes_text run.isoformat run.plan.changes))
        × Audited s.cases s'.cases
        × AllStored
            (receipt_builder run.epoch (m.observation_seq + 1) run.plan.changes)
            s'.cases.outbox
        × (m' : Monitor) × (read_monitor run.scope_key s'.monitors ≡ some m')
        × (m'.observation_seq ≡ m.observation_seq + 1)
        × (m'.rows_json ≡ rows_text run.isoformat run.plan.rows)
  unfolding observed_as
  settle-commits run now s s' report m mode is_mode found h =
      let settles = settle-Settles run now s s' report m mode is_mode found h in
      let seen = and_true settles.is_known in
      (
        (eq_iff m.epoch run.epoch).0 seen.0,
        (eq_iff m.settings_json run.settings).0 seen.1,
        (
          observed_as run (m.observation_seq + 1) now,
          settles.observations,
          refl,
          refl,
          refl,
          refl,
          refl,
          refl,
        ),
        settles.audited,
        settles.announced,
        settled_row mode run m now m,
        row_after mode run m now s s' found settles,
        numbered run m now mode,
        with_rows run m now mode,
      )

  -- A settled run of the background counts no failures and runs again: within two seconds if a
  -- deletion is to be confirmed or a request came in that the run did not see, and else when the
  -- interval has passed.
  pub settle-due :
      (run : Run) (now : ℕ) (s s' : MonitorStore) (report : SettleReport) (m : Monitor)
      → run.mode ≡ "background"
      → read_monitor run.scope_key s.monitors ≡ some m
      → settle_holding_monitor sha256 receipt_builder run now s ≡ ok (report, s')
      → (m' : Monitor) × (read_monitor run.scope_key s'.monitors ≡ some m')
        × (m'.failure_count ≡ 0)
        × (m'.completed ≡ run.generation)
        × (due : ℕ) × (m'.next_due ≡ some due)
        × (run.plan.has_missing_candidates ≡ true → due ≤ now + 2 * second)
        × (run.generation < m.requested → due ≤ now + 2 * second)
        × (run.plan.has_missing_candidates ≡ false
            → m.requested ≤ run.generation
            → due ≡ now + run.interval)
  unfolding settled_row note_success schedule next_due_of
  settle-due run now s s' report m is_background found h =
      let settles =
        settle-Settles run now s s' report m background (ap mode_of is_background) found h in
      (
        settled_row background run m now m,
        row_after background run m now s s' found settles,
        refl,
        refl,
        next_due_of run.plan.has_missing_candidates run.interval m.requested run.generation now,
        refl,
        (λ e. ground arith),
        (λ e. ground arith),
        (λ e f. ground arith),
      )
