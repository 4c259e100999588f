-- ===== src/OperationState/HoldingInbox/Completion.antt =====
-- An event is completed along with the cases it led to: `complete_holding_event` of
-- src/app/operation_state/_holding_event_mixin.py. An exception rolls both back.
use portfolio_management.Common.{
  ℕ, String, Bool, true, false, not, Option, none, some, List, [], ◌∷◌, ◌++◌, ◌==◌, Result, ok, err,
  ◌>>=◌, ◌>>◌, raise_if, texts_json, object_json, Members, member, end, canonical_json,
}
use portfolio_management.Common.Table.{update, row_count, fetch_one}
use portfolio_management.OperationState.EventInbox.{Event, Inbox, Outcome, holds_claim, finish}
use portfolio_management.OperationState.HoldingCases.{CaseStore, Candidate}
use portfolio_management.OperationState.HoldingCases.Supersede.{DiscoveryReceipt, Pass, Progress}
use portfolio_management.OperationState.HoldingCases.Materialize.{materialize_holding_cases}
use portfolio_management.OperationState.HoldingCases.Resolve.{
  Scan, Closing, resolve_holding_cases_external,
}
use portfolio_management.OperationState.HoldingInbox.{no_claim}

-- One entry of `materializations`; `current_identity` is the canonical text of the dict.
pub record Materialization : Type 0 where
  pub cases : List Candidate
  pub discovery_receipts : List DiscoveryReceipt
  pub trigger : Members
  pub prove_external : Bool
  pub record_id : String
  pub active_case_keys : List String
  pub record_digest : String
  pub current_identity : String

-- The dict `combined`, with the store.
pub record Combined : Type 0 where
  pub store : CaseStore
  pub created_case_keys : List String
  pub refreshed_case_keys : List String
  pub reopened_case_keys : List String
  pub superseded_case_keys : List String
  pub closed_case_keys : List String
  pub enqueued_receipt_keys : List String

unfoldable pub add_stored : Combined → Progress → Combined
add_stored c p = record {
  store = p.store;
  created_case_keys = c.created_case_keys ++ p.created_case_keys;
  refreshed_case_keys = c.refreshed_case_keys ++ p.refreshed_case_keys;
  reopened_case_keys = c.reopened_case_keys ++ p.reopened_case_keys;
  superseded_case_keys = c.superseded_case_keys ++ p.superseded_case_keys;
  closed_case_keys = c.closed_case_keys;
  enqueued_receipt_keys = c.enqueued_receipt_keys ++ p.enqueued_receipt_keys;
}

unfoldable pub add_closed : Combined → Closing → Combined
add_closed c p = record c {
  store = p.store;
  superseded_case_keys = c.superseded_case_keys ++ p.superseded_case_keys;
  closed_case_keys = c.closed_case_keys ++ p.closed_case_keys;
  enqueued_receipt_keys = c.enqueued_receipt_keys ++ p.enqueued_receipt_keys;
}

abbrev pub pass_of : Materialization → ℕ → Pass
pass_of m now = record {
  discovery_receipts = m.discovery_receipts;
  trigger = m.trigger;
  now = now;
  enqueue_receipts = true;
}

abbrev pub scan_of : Materialization → ℕ → Scan
scan_of m now = record {
  record_id = m.record_id;
  active_case_keys = m.active_case_keys;
  record_digest = m.record_digest;
  current_identity = m.current_identity;
  trigger = m.trigger;
  now = now;
  enqueue_receipts = true;
}

unfoldable pub close_if : Bool → Scan → Combined → Result Combined
unfolding add_closed resolve_holding_cases_external
close_if false scan c = ok c
close_if true scan c =
    resolve_holding_cases_external scan c.store >>= λ closed. ok (add_closed c closed)

unfoldable pub combine_one : (String → String) → ℕ → Materialization → Combined → Result Combined
unfolding add_stored materialize_holding_cases close_if
combine_one sha256 now m c =
    materialize_holding_cases sha256 (pass_of m now) m.cases c.store >>= λ stored.
    close_if m.prove_external (scan_of m now) (add_stored c stored)

unfoldable pub combine_all :
    (String → String) → ℕ → List Materialization → Combined → Result Combined
unfolding combine_one
combine_all sha256 now [] c = ok c
combine_all sha256 now (m ∷ ms) c = combine_one sha256 now m c >>= combine_all sha256 now ms

-- the outcome with the entry `workflow`, which replaces one that the caller gave
unfoldable pub with_workflow : Outcome → Combined → Outcome
unfolding canonical_json
with_workflow outcome c = record outcome {
  workflow = some (
      canonical_json (
        object_json (
          member "created_case_keys" (texts_json c.created_case_keys) (
            member "refreshed_case_keys" (texts_json c.refreshed_case_keys) (
              member "reopened_case_keys" (texts_json c.reopened_case_keys) (
                member "superseded_case_keys" (texts_json c.superseded_case_keys) (
                  member "closed_case_keys" (texts_json c.closed_case_keys) (
                    member "enqueued_receipt_keys" (texts_json c.enqueued_receipt_keys) end))))))));
}

-- The two tables that the call writes.
pub record EventsAndCases : Type 0 where
  pub events : Inbox
  pub cases : CaseStore

abbrev pub nothing_combined : CaseStore → Combined
nothing_combined s = record {
  store = s;
  created_case_keys = [];
  refreshed_case_keys = [];
  reopened_case_keys = [];
  superseded_case_keys = [];
  closed_case_keys = [];
  enqueued_receipt_keys = [];
}

unfoldable pub mark_processed :
    String → String → Outcome → ℕ → Inbox → Combined → Result (Outcome × EventsAndCases)
unfolding with_workflow holds_claim finish
mark_processed event_id claim_id outcome now t c = do
  raise_if (not (row_count (holds_claim event_id claim_id) t == 1)) no_claim
  ok (
    with_workflow outcome c,
    record {
      events = update (holds_claim event_id claim_id) (finish (with_workflow outcome c) now) t;
      cases = c.store;
    },
  )

unfoldable pub complete_claimed :
    (String → String)
    → String
    → String
    → List Materialization
    → Outcome
    → ℕ
    → EventsAndCases
    → Option Event
    → Result (Outcome × EventsAndCases)
unfolding combine_all mark_processed
complete_claimed sha256 event_id claim_id ms outcome now s none = err no_claim
complete_claimed sha256 event_id claim_id ms outcome now s (some _) =
    combine_all sha256 now ms (nothing_combined s.cases)
    >>= mark_processed event_id claim_id outcome now s.events

unfoldable pub complete_holding_event :
    (String → String)
    → String
    → String
    → List Materialization
    → Outcome
    → ℕ
    → EventsAndCases
    → Result (Outcome × EventsAndCases)
unfolding complete_claimed holds_claim
complete_holding_event sha256 event_id claim_id ms outcome now s =
    complete_claimed sha256 event_id claim_id ms outcome now s
      (fetch_one (holds_claim event_id claim_id) s.events)
