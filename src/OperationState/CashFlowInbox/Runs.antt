-- ===== src/OperationState/CashFlowInbox/Runs.antt =====
-- The inbox over every sequence of calls; a call that raises leaves the store alone.
use portfolio_management.Common.{
  ℕ, ◌≡◌, refl, ap, ◌∙◌, inl, inr, String, Option, some, none, List, [], ◌∷◌, Result, ok, err,
  Result-cases, Bool-cases, ◌==◌, leb, not, ◌&&◌, ◌+◌,
}
use portfolio_management.Common.Table.{fetch_one}
use portfolio_management.Common.Table.Evolution.{fetch_one-Evolves}
use portfolio_management.OperationState.EventInbox.{
  Event, Delivery, Outcome, processed, accept_event, finish, holds_claim,
}
use portfolio_management.OperationState.EventInbox.Lifecycle.{
  Moves, Moves-refl, Moves-trans, Follows, IsNew, accept-Moves, claim-Moves, Moves-finish,
  Moves-retry,
}
use portfolio_management.OperationState.CashFlowInbox.{
  Store, ReceiptRequest, accept_cash_flow_event, claim_cash_flow_events, complete_cash_flow_event,
  mark_cash_flow_event_failed, get_cash_flow_event, finish_failed, give_up, fail_found, back_off,
}
use portfolio_management.OperationState.CashFlowInbox.Atomicity.{complete_inv}
use portfolio_management.OperationState.CashFlowInbox.Failures.{give_up_inv}

pub data Call : Type 0 where
  accept : Delivery → Call
  claim : ℕ → Option String → String → Call
  complete : String → String → Outcome → List ReceiptRequest → Call
  fail : String → String → String → ℕ → Outcome → List ReceiptRequest → Call

abbrev pub after : {A : Type 0} → Store → Result (A × Store) → Store
after s (ok (_, s')) = s'
after s (err _) = s

unfoldable pub call : ℕ → Call → Store → Store
call now (accept d) s = after s (accept_cash_flow_event d now s)
call now (claim limit c fresh) s = (claim_cash_flow_events limit c fresh now s).1
call now (complete id c outcome rs) s = after s (complete_cash_flow_event id c outcome rs now s)
call now (fail id c error max terminal rs) s =
    after s (mark_cash_flow_event_failed id c error max terminal rs now s)

unfoldable pub calls : List (ℕ × Call) → Store → Store
unfolding call
calls [] s = s
calls ((now, c) ∷ cs) s = calls cs (call now c s)

accept-call :
    (d : Delivery) (now : ℕ) (s : Store)
    → Moves s.events (after s (accept_cash_flow_event d now s)).events
unfolding accept_cash_flow_event
accept-call d now s = elim (Result-cases (accept_event d now s.events)) [
  | inl (r, e) ↦ rw e (accept-Moves d now s.events r.1 r.0 e)
  | inr (x, e) ↦ rw e (Moves-refl s.events)
]

complete-call :
    (id c : String) (outcome : Outcome) (rs : List ReceiptRequest) (now : ℕ) (s : Store)
    → Moves s.events (after s (complete_cash_flow_event id c outcome rs now s)).events
unfolding finish
complete-call id c outcome rs now s =
    elim (Result-cases (complete_cash_flow_event id c outcome rs now s)) [
      | inl (r, e) ↦
          let (keys, i, ev, k) = complete_inv id c outcome r.0 rs now s r.1 e in
          rw (e, ev)
            (Moves-finish id c (finish r.0 now)
              (λ x. record {
                same_id = refl;
                same_type = refl;
                same_file = refl;
                same_table = refl;
                same_revision = refl;
                same_actions = refl;
                same_digest = refl;
                same_received = refl;
              })
              (λ x. refl) s.events)
      | inr (x, e) ↦ rw e (Moves-refl s.events)
    ]

give_up-call :
    (id c error : String) (terminal : Outcome) (rs : List ReceiptRequest) (n now : ℕ) (s : Store)
    → Moves s.events (after s (give_up id c error terminal rs n now s)).events
unfolding finish_failed finish
give_up-call id c error terminal rs n now s =
    elim (Result-cases (give_up id c error terminal rs n now s)) [
      | inl (r, e) ↦
          let (ne, stored, v, (out, o, ev)) =
            give_up_inv id c error terminal rs n now s r.1 r.0 e in
          rw (e, ev)
            (Moves-finish id c (finish_failed out n error now)
              (λ x. record {
                same_id = refl;
                same_type = refl;
                same_file = refl;
                same_table = refl;
                same_revision = refl;
                same_actions = refl;
                same_digest = refl;
                same_received = refl;
              })
              (λ x. refl) s.events)
      | inr (x, e) ↦ rw e (Moves-refl s.events)
    ]

fail-call :
    (id c error : String) (max : ℕ) (terminal : Outcome) (rs : List ReceiptRequest) (now : ℕ)
    (s : Store) (o : Option Event)
    → Moves s.events (after s (fail_found id c error max terminal rs now s o)).events
unfolding fail_found back_off
fail-call id c error max terminal rs now s none = Moves-refl s.events
fail-call id c error max terminal rs now s (some e) =
    elim (Bool-cases (not (max == 0) && leb max (e.attempt_count + 1))) [
      | inl q ↦ rw q (give_up-call id c error terminal rs (e.attempt_count + 1) now s)
      | inr q ↦ rw q (Moves-retry id c error (e.attempt_count + 1) now s.events)
    ]

call-Moves : (now : ℕ) (c : Call) (s : Store) → Moves s.events (call now c s).events
unfolding call claim_cash_flow_events mark_cash_flow_event_failed
call-Moves now (accept d) s = accept-call d now s
call-Moves now (claim limit c fresh) s = claim-Moves limit c fresh now s.events
call-Moves now (complete id c outcome rs) s = complete-call id c outcome rs now s
call-Moves now (fail id c error max terminal rs) s =
    fail-call id c error max terminal rs now s (fetch_one (holds_claim id c) s.events)

-- Whatever the calls, every event goes along the lifecycle diagram with its delivery frozen, and
-- every event that was added began as pending.
pub calls-Moves : (cs : List (ℕ × Call)) (s : Store) → Moves s.events (calls cs s).events
unfolding calls
calls-Moves [] s = Moves-refl s.events
calls-Moves ((now, c) ∷ cs) s = Moves-trans (call-Moves now c s) (calls-Moves cs (call now c s))

-- An event that was processed is never claimed or written again, whatever the calls.
pub calls-processed :
    (id : String) (cs : List (ℕ × Call)) (s : Store) (e : Event)
    → get_cash_flow_event id s ≡ some e
    → e.state ≡ processed
    → get_cash_flow_event id (calls cs s) ≡ some e
unfolding get_cash_flow_event
calls-processed id cs s e g p =
    let (e', g', d) =
      fetch_one-Evolves Follows IsNew (λ x. x.event_id) (λ x y d. d.frozen.same_id) id
        (calls-Moves cs s) e g in
    g' ∙ ap some (d.final p)
