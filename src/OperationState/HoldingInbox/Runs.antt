-- ===== src/OperationState/HoldingInbox/Runs.antt =====
-- The holding event inbox over every sequence of calls.
use portfolio_management.Common.{
  ℕ, ◌+◌, ◌≡◌, refl, inl, inr, String, Bool, Option, none, some, List, [], ◌∷◌, ◌==◌, Bool-cases,
  Result-cases, Result, ok, err,
}
use portfolio_management.Common.Table.{row_count, fetch_one}
use portfolio_management.Common.Table.Evolution.{fetch_one-Evolves}
use portfolio_management.OperationState.EventInbox.{
  Event, Delivery, Outcome, processed, accept_event, finish, holds_claim,
}
use portfolio_management.OperationState.EventInbox.Lifecycle.{
  Moves, Moves-refl, Moves-trans, Follows, IsNew, accept-Moves, claim-Moves, Moves-finish,
  Moves-retry,
}
use portfolio_management.OperationState.HoldingInbox.{
  Store, Settings, after_insert, accept_holding_event, claim_holding_events,
  mark_holding_event_processed, mark_holding_event_failed, fail_found, get_holding_event,
}
use portfolio_management.OperationState.HoldingInbox.Completion.{
  Materialization, Combined, EventsAndCases, combine_all, with_workflow, nothing_combined,
  mark_processed, complete_claimed, complete_holding_event,
}
use portfolio_management.OperationState.HoldingCases.{CaseStore}

pub data Call : Type 0 where
  accept : Settings → Delivery → Call
  claim : ℕ → Option String → String → Call
  process : String → String → Outcome → Call
  fail : String → String → String → Call
  complete : String → String → List Materialization → Outcome → Call

-- The tables that the calls write.
pub record Tables : Type 0 where
  pub store : Store
  pub cases : CaseStore

-- a call that raises leaves the store alone
after_accept : Store → Result (Bool × Store) → Store
after_accept s (ok (_, s')) = s'
after_accept s (err _) = s

after_mark : Store → Result Store → Store
after_mark s (ok s') = s'
after_mark s (err _) = s

after_complete : Tables → Result (Outcome × EventsAndCases) → Tables
after_complete t (ok (_, done)) = record {
  store = record t.store { events = done.events };
  cases = done.cases;
}
after_complete t (err _) = t

unfoldable pub call : (String → String) → ℕ → Call → Tables → Tables
unfolding after_accept after_mark after_complete
call sha256 now (accept settings d) t = record t {
  store = after_accept t.store (accept_holding_event settings d now t.store);
}
call sha256 now (claim limit c fresh) t = record t {
  store = (claim_holding_events limit c fresh now t.store).1;
}
call sha256 now (process id c outcome) t = record t {
  store = after_mark t.store (mark_holding_event_processed id c outcome now t.store);
}
call sha256 now (fail id c error) t = record t {
  store = after_mark t.store (mark_holding_event_failed id c error now t.store);
}
call sha256 now (complete id c ms outcome) t = after_complete t (
    complete_holding_event sha256 id c ms outcome now
      (record { events = t.store.events; cases = t.cases }))

unfoldable pub calls : (String → String) → List (ℕ × Call) → Tables → Tables
unfolding call
calls sha256 [] t = t
calls sha256 ((now, c) ∷ cs) t = calls sha256 cs (call sha256 now c t)

accept-call :
    (settings : Settings) (d : Delivery) (now : ℕ) (s : Store)
    → Moves s.events (after_accept s (accept_holding_event settings d now s)).events
unfolding accept_holding_event after_accept after_insert
accept-call settings d now s = elim (Result-cases (accept_event d now s.events)) [
  | inl (r, e) ↦ rw e (accept-Moves d now s.events r.1 r.0 e)
  | inr (x, e) ↦ rw e (Moves-refl s.events)
]

process-call :
    (id c : String) (outcome : Outcome) (now : ℕ) (s : Store)
    → Moves s.events (after_mark s (mark_holding_event_processed id c outcome now s)).events
unfolding mark_holding_event_processed after_mark finish
process-call id c outcome now s = elim (Bool-cases (row_count (holds_claim id c) s.events == 1)) [
  | inl q ↦ rw q (
      Moves-finish id c (finish outcome now)
        (λ x. record {
          same_id = refl;
          same_type = refl;
          same_file = refl;
          same_table = refl;
          same_revision = refl;
          same_actions = refl;
          same_digest = refl;
          same_received = refl;
        })
        (λ x. refl) s.events)
  | inr q ↦ rw q (Moves-refl s.events)
]

fail-call :
    (id c error : String) (now : ℕ) (s : Store) (o : Option Event)
    → Moves s.events (after_mark s (fail_found id c error now s o)).events
unfolding fail_found after_mark
fail-call id c error now s none = Moves-refl s.events
fail-call id c error now s (some e) = Moves-retry id c error (e.attempt_count + 1) now s.events

marked-call :
    (id c : String) (outcome : Outcome) (now : ℕ) (t : Tables) (b : Combined)
    → Moves t.store.events
        (after_complete t (mark_processed id c outcome now t.store.events b)).store.events
unfolding mark_processed after_complete finish
marked-call id c outcome now t b =
    elim (Bool-cases (row_count (holds_claim id c) t.store.events == 1)) [
      | inl q ↦ rw q (
          Moves-finish id c (finish (with_workflow outcome b) now)
            (λ x. record {
              same_id = refl;
              same_type = refl;
              same_file = refl;
              same_table = refl;
              same_revision = refl;
              same_actions = refl;
              same_digest = refl;
              same_received = refl;
            })
            (λ x. refl) t.store.events)
      | inr q ↦ rw q (Moves-refl t.store.events)
    ]

complete-call :
    (sha256 : String → String) (id c : String) (ms : List Materialization) (outcome : Outcome)
    (now : ℕ) (t : Tables) (o : Option Event)
    → Moves t.store.events
        (after_complete t (
          complete_claimed sha256 id c ms outcome now
            (record { events = t.store.events; cases = t.cases })
            o)).store.events
unfolding complete_claimed after_complete
complete-call sha256 id c ms outcome now t none = Moves-refl t.store.events
complete-call sha256 id c ms outcome now t (some _) =
    elim (Result-cases (combine_all sha256 now ms (nothing_combined t.cases))) [
      | inl (b, e) ↦ rw e (marked-call id c outcome now t b)
      | inr (x, e) ↦ rw e (Moves-refl t.store.events)
    ]

module _ (sha256 : String → String) where
  call-Moves :
      (now : ℕ) (c : Call) (t : Tables) → Moves t.store.events (call sha256 now c t).store.events
  unfolding call claim_holding_events mark_holding_event_failed complete_holding_event
  call-Moves now (accept settings d) t = accept-call settings d now t.store
  call-Moves now (claim limit c fresh) t = claim-Moves limit c fresh now t.store.events
  call-Moves now (process id c outcome) t = process-call id c outcome now t.store
  call-Moves now (fail id c error) t =
      fail-call id c error now t.store (fetch_one (holds_claim id c) t.store.events)
  call-Moves now (complete id c ms outcome) t =
      complete-call sha256 id c ms outcome now t (fetch_one (holds_claim id c) t.store.events)

  holdings-Moves :
      (cs : List (ℕ × Call)) (t : Tables) → Moves t.store.events (calls sha256 cs t).store.events
  unfolding calls
  holdings-Moves [] t = Moves-refl t.store.events
  holdings-Moves ((now, c) ∷ cs) t =
      Moves-trans (call-Moves now c t) (holdings-Moves cs (call sha256 now c t))

-- Whatever the calls, an event that the holding inbox has is still there, with all that was delivered
-- and the time of its receipt; and one that was processed is never written again.
pub calls-kept :
    (sha256 : String → String) (id : String) (cs : List (ℕ × Call)) (t : Tables) (e : Event)
    → get_holding_event id t.store ≡ some e
    → (e' : Event) × (get_holding_event id (calls sha256 cs t).store ≡ some e')
      × (e'.event_type ≡ e.event_type)
      × (e'.file_token ≡ e.file_token)
      × (e'.table_id ≡ e.table_id)
      × (e'.revision ≡ e.revision)
      × (e'.action_list_json ≡ e.action_list_json)
      × (e'.payload_digest ≡ e.payload_digest)
      × (e'.received_at ≡ e.received_at)
      × (e.state ≡ processed → e' ≡ e)
unfolding get_holding_event
calls-kept sha256 id cs t e g =
    let (e', g', d) =
      fetch_one-Evolves Follows IsNew (λ x. x.event_id) (λ x y d. d.frozen.same_id) id
        (holdings-Moves sha256 cs t) e g in
    (
      e', g', d.frozen.same_type, d.frozen.same_file, d.frozen.same_table, d.frozen.same_revision,
      d.frozen.same_actions, d.frozen.same_digest, d.frozen.same_received, d.final,
    )
