-- ===== src/OperationState/HoldingInbox.antt =====
-- The holding event inbox: src/app/operation_state/_holding_event_mixin.py. Accepting an event also
-- requests a run of the monitors of its table. `complete_holding_event`, which also writes the reconciliation cases, is
-- in Completion.
pub mod Completion
pub mod Completed
pub mod Runs
pub mod Accepts
use portfolio_management.Common.{
  ℕ, ◌+◌, ◌*◌, String, Bool, true, false, ◌&&◌, Option, none, some, List, ◌==◌, leb, if◌then◌else◌,
  str_eq, key_error, Error, Result, ok, err, ◌>>=◌,
}
use portfolio_management.Common.Table.{update, row_count, fetch_one}
use portfolio_management.OperationState.EventInbox.{
  Event, Delivery, Inbox, Outcome, has_id, accept_event, claim_events, holds_claim, retry_later,
  finish,
}
use portfolio_management.OperationState.HoldingMonitor.{Monitor, request, second}

pub record Store : Type 0 where
  pub events : Inbox
  pub monitors : List Monitor

-- What the code reads of the setting `holdings.change_monitor`: whether `enabled` is True, and
-- `coalesce_seconds` in microseconds, which is `none` where it is not a number.
pub record Settings : Type 0 where
  pub enabled : Bool
  pub coalesce : Option ℕ

-- a coalescing time that is not a positive number is two seconds
abbrev pub coalesce_time : Option ℕ → ℕ
coalesce_time none = 2 * second
coalesce_time (some c) = if c == 0 then 2 * second else c

unfoldable pub watches : String → String → Monitor → Bool
watches file table m =
    str_eq m.file_token file && (str_eq m.table_id table && (m.ready && m.enabled))

unfoldable pub wake : Settings → Delivery → ℕ → List Monitor → List Monitor
unfolding watches request
wake settings d now t =
    if settings.enabled
    then update (watches d.file_token d.table_id) (request (now + coalesce_time settings.coalesce))
        t
    else t

-- the monitors are woken for an event that is new
after_insert : Settings → Delivery → ℕ → Store → Bool × Inbox → Bool × Store
unfolding wake
after_insert settings d now s (inserted, events) = (
  inserted,
  record {
    events = events;
    monitors = if inserted then wake settings d now s.monitors else s.monitors;
  },
)

unfoldable pub accept_holding_event : Settings → Delivery → ℕ → Store → Result (Bool × Store)
unfolding accept_event after_insert
accept_holding_event settings d now s = do
  accepted ← accept_event d now s.events
  ok (after_insert settings d now s accepted)

unfoldable pub claim_holding_events : ℕ → Option String → String → ℕ → Store → List Event × Store
unfolding claim_events
claim_holding_events limit claim_id fresh now s =
    let (rows, events) = claim_events limit claim_id fresh now s.events in
    (rows, record s { events = events })

abbrev pub no_claim : Error
no_claim = key_error "holding event claim not found"

unfoldable pub mark_holding_event_processed : String → String → Outcome → ℕ → Store → Result Store
unfolding holds_claim finish
mark_holding_event_processed event_id claim_id outcome now s =
    if row_count (holds_claim event_id claim_id) s.events == 1
    then ok
        (record s { events = update (holds_claim event_id claim_id) (finish outcome now) s.events })
    else err no_claim

fail_found : String → String → String → ℕ → Store → Option Event → Result Store
unfolding holds_claim retry_later
fail_found event_id claim_id error now s none = err no_claim
fail_found event_id claim_id error now s (some e) = ok (record s {
  events =
      update (holds_claim event_id claim_id) (retry_later (e.attempt_count + 1) error now) s.events;
})

unfoldable pub mark_holding_event_failed : String → String → String → ℕ → Store → Result Store
unfolding fail_found
mark_holding_event_failed event_id claim_id error now s =
    fail_found event_id claim_id error now s (fetch_one (holds_claim event_id claim_id) s.events)

unfoldable pub get_holding_event : String → Store → Option Event
get_holding_event event_id s = fetch_one (has_id event_id) s.events
