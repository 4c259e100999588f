-- ===== src/OperationState/CashFlowInbox.antt =====
-- The cash-flow event inbox: src/app/operation_state/_cash_flow_event_mixin.py. An event's outcome
-- and its receipts are written in one transaction, so the store here is both tables.
pub mod Atomicity
pub mod Failures
pub mod Runs
pub mod Edges
use portfolio_management.Common.{
  ℕ, ◌+◌, String, Bool, not, ◌&&◌, Option, none, some, List, [], ◌∷◌, leb, ◌==◌, if◌then◌else◌,
  or_else, is_empty, Error, value_error, key_error, Result, ok, err, ◌>>=◌, ◌>>◌, raise_if, map,
}
use portfolio_management.Common.Table.{update, row_count, fetch_one}
use portfolio_management.OperationState.Retry.{retry_delay}
use portfolio_management.OperationState.Receipts.{Outbox, insert_operation_receipt_tx}
use portfolio_management.OperationState.EventInbox.{
  Event, Delivery, Inbox, Outcome, EventState, processed, failed_retryable, has_id, accept_event,
  claim_events, holds_claim, retry_later, finish,
}

pub record Store : Type 0 where
  pub events : Inbox
  pub outbox : Outbox

pub record ReceiptRequest : Type 0 where
  pub receipt_key : String
  pub receipt_type : String
  pub payload : String

-- the loop over `receipts`: the keys that were new, and the outbox
unfoldable pub insert_receipts : List ReceiptRequest → ℕ → Outbox → Result (List String × Outbox)
insert_receipts [] now t = ok ([], t)
insert_receipts (r ∷ rs) now t = do
  (inserted, t') ← insert_operation_receipt_tx r.receipt_key r.receipt_type r.payload now t
  (keys, t'') ← insert_receipts rs now t'
  ok (if inserted then r.receipt_key ∷ keys else keys, t'')

abbrev pub request_key : ReceiptRequest → String
request_key r = r.receipt_key

abbrev pub no_claim : Error
no_claim = key_error "cash flow event claim not found"

-- the part behind the receipts: the outcome that is stored, and the guarded update
commit_outcome :
    String
    → String
    → Outcome
    → List ReceiptRequest
    → ℕ
    → Store
    → List String × Outbox
    → Result (Outcome × Store)
unfolding holds_claim finish
commit_outcome event_id claim_id outcome receipts now s (enqueued, outbox) =
    let persisted = record outcome {
      receipt_keys = map request_key receipts;
      enqueued_receipt_keys = enqueued;
    } in
    if row_count (holds_claim event_id claim_id) s.events == 1
    then ok (
      persisted,
      record {
        events = update (holds_claim event_id claim_id) (finish persisted now) s.events;
        outbox = outbox;
      },
    )
    else err no_claim

unfoldable pub complete_cash_flow_event :
    String → String → Outcome → List ReceiptRequest → ℕ → Store → Result (Outcome × Store)
unfolding insert_receipts commit_outcome holds_claim
complete_cash_flow_event event_id claim_id outcome receipts now s = do
  raise_if (row_count (holds_claim event_id claim_id) s.events == 0) no_claim
  stored ← insert_receipts receipts now s.outbox
  commit_outcome event_id claim_id outcome receipts now s stored

unfoldable pub accept_cash_flow_event : Delivery → ℕ → Store → Result (Bool × Store)
unfolding accept_event
accept_cash_flow_event d now s = do
  (inserted, events) ← accept_event d now s.events
  ok (inserted, record s { events = events })

unfoldable pub claim_cash_flow_events : ℕ → Option String → String → ℕ → Store → List Event × Store
unfolding claim_events
claim_cash_flow_events limit claim_id fresh now s =
    let (rows, events) = claim_events limit claim_id fresh now s.events in
    (rows, record s { events = events })

-- What `mark_cash_flow_event_failed` returns.
pub record Marked : Type 0 where
  pub state : EventState
  pub attempt_count : ℕ
  pub next_attempt_at : Option ℕ
  pub outcome : Option Outcome

unfoldable pub finish_failed : Outcome → ℕ → String → ℕ → Event → Event
unfolding finish
finish_failed outcome attempt error now e = record (finish outcome now e) {
  attempt_count = attempt;
  last_error = some error;
}

commit_failure :
    String
    → String
    → String
    → Outcome
    → List ReceiptRequest
    → ℕ
    → ℕ
    → Store
    → List String × Outbox
    → Result (Marked × Store)
unfolding holds_claim finish_failed
commit_failure event_id claim_id error terminal receipts attempt now s (enqueued, outbox) =
    let persisted = record terminal {
      status = some (or_else terminal.status "attention_required");
      attempt_count = some attempt;
      receipt_keys = map request_key receipts;
      enqueued_receipt_keys = enqueued;
    } in
    if row_count (holds_claim event_id claim_id) s.events == 1
    then ok (
      record {
        state = processed;
        attempt_count = attempt;
        next_attempt_at = none;
        outcome = some persisted;
      },
      record {
        events =
            update (holds_claim event_id claim_id) (finish_failed persisted attempt error now)
              s.events;
        outbox = outbox;
      },
    )
    else err no_claim

-- the branch at the last attempt: the event is processed, with its attention receipts
pub give_up :
    String
    → String
    → String
    → Outcome
    → List ReceiptRequest
    → ℕ
    → ℕ
    → Store
    → Result (Marked × Store)
unfolding insert_receipts commit_failure
give_up event_id claim_id error terminal receipts attempt now s = do
  raise_if (is_empty receipts)
      (value_error "terminal cash flow event failure requires an attention receipt")
  stored ← insert_receipts receipts now s.outbox
  commit_failure event_id claim_id error terminal receipts attempt now s stored

-- the other branch: the event waits for its next attempt
back_off : String → String → String → ℕ → ℕ → Store → Result (Marked × Store)
unfolding holds_claim retry_later
back_off event_id claim_id error attempt now s = ok (
  record {
    state = failed_retryable;
    attempt_count = attempt;
    next_attempt_at = some (now + retry_delay attempt);
    outcome = none;
  },
  record s {
    events = update (holds_claim event_id claim_id) (retry_later attempt error now) s.events;
  },
)

fail_found :
    String
    → String
    → String
    → ℕ
    → Outcome
    → List ReceiptRequest
    → ℕ
    → Store
    → Option Event
    → Result (Marked × Store)
unfolding give_up back_off
fail_found event_id claim_id error max_attempts terminal receipts now s none = err no_claim
fail_found event_id claim_id error max_attempts terminal receipts now s (some e) =
    let attempt = e.attempt_count + 1 in
    if not (max_attempts == 0) && leb max_attempts attempt
    then give_up event_id claim_id error terminal receipts attempt now s
    else back_off event_id claim_id error attempt now s

unfoldable pub mark_cash_flow_event_failed :
    String
    → String
    → String
    → ℕ
    → Outcome
    → List ReceiptRequest
    → ℕ
    → Store
    → Result (Marked × Store)
unfolding fail_found
mark_cash_flow_event_failed event_id claim_id error max_attempts terminal receipts now s =
    fail_found event_id claim_id error max_attempts terminal receipts now s
      (fetch_one (holds_claim event_id claim_id) s.events)

unfoldable pub get_cash_flow_event : String → Store → Option Event
get_cash_flow_event event_id s = fetch_one (has_id event_id) s.events
