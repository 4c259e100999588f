-- ===== src/OperationState/CashFlowInbox/Edges.antt =====
-- The edge of an event's lifecycle that each call on the inbox may take a row along.
use portfolio_management.Common.{
  ℕ, ◌+◌, ◌≡◌, refl, sym, subst, inl, inr, String, Option, some, none, List, arith, Result-cases,
  Bool-cases, ◌==◌, leb, not, ◌&&◌,
}
use portfolio_management.Common.Table.{update, fetch_one}
use portfolio_management.Common.Table.Evolution.{Evolves, Evolves-refl, Evolves-update}
use portfolio_management.OperationState.EventInbox.{
  Event, Delivery, Inbox, Outcome, EventState, pending, claimed, failed_retryable, processed,
  accept_event, finish, holds_claim, retry_later,
}
use portfolio_management.OperationState.EventInbox.Lifecycle.{Frozen, accept-Evolves}
use portfolio_management.OperationState.EventInbox.Edges.{
  Along, Accepted, Expires, runs_out, Takes, of_pending, of_failed, claim-Along, new_event-Accepted,
}
use portfolio_management.OperationState.CashFlowInbox.{
  Store, ReceiptRequest, accept_cash_flow_event, claim_cash_flow_events, complete_cash_flow_event,
  mark_cash_flow_event_failed, finish_failed, give_up, fail_found, back_off,
}
use portfolio_management.OperationState.CashFlowInbox.Atomicity.{complete_inv}
use portfolio_management.OperationState.CashFlowInbox.Failures.{give_up_inv}
use portfolio_management.OperationState.CashFlowInbox.Runs.{
  Call, accept, claim, complete, fail, after, call,
}

-- The edges of each call: a claim also releases what has expired.
pub data Edge : Call → EventState → EventState → Type 0 where
  take_pending :
      {limit : ℕ} {c : Option String} {fresh : String} → Edge (claim limit c fresh) pending claimed
  take_failed :
      {limit : ℕ} {c : Option String} {fresh : String}
      → Edge (claim limit c fresh) failed_retryable claimed
  expire :
      {limit : ℕ} {c : Option String} {fresh : String}
      → Edge (claim limit c fresh) claimed failed_retryable
  take_expired :
      {limit : ℕ} {c : Option String} {fresh : String} → Edge (claim limit c fresh) claimed claimed
  process :
      {id c : String} {outcome : Outcome} {rs : List ReceiptRequest}
      → Edge (complete id c outcome rs) claimed processed
  wait :
      {id c error : String} {max : ℕ} {terminal : Outcome} {rs : List ReceiptRequest}
      → Edge (fail id c error max terminal rs) claimed failed_retryable
  end_failed :
      {id c error : String} {max : ℕ} {terminal : Outcome} {rs : List ReceiptRequest}
      → Edge (fail id c error max terminal rs) claimed processed

-- A row that a call added, as it was written.
pub data IsNew (now : ℕ) : Call → Event → Type 0 where
  added : {d : Delivery} {e : Event} → Accepted d now e → IsNew now (accept d) e

module _ (limit : ℕ) (c : Option String) (fresh : String) (now : ℕ) where
  abbrev of_claim : Call
  of_claim = claim limit c fresh

  expires_edge : (a b : EventState) → Expires a b → Edge of_claim a b
  expires_edge a b runs_out = expire

  takes_edge : (a b : EventState) → Takes a b → Edge of_claim a b
  takes_edge a b of_pending = take_pending
  takes_edge a b of_failed = take_failed

  both_edge : (a b d : EventState) → Expires a b → Takes b d → Edge of_claim a d
  both_edge a b d runs_out of_failed = take_expired

  none_grows :
      (E : EventState → EventState → Type 0) (x y : Event)
      → Along E x y
      → IsNew now of_claim x
      → IsNew now of_claim y
  none_grows E x y s n = elim n [ ]

module _ (now : ℕ) (op : Call) where
  abbrev Steps : Inbox → Inbox → Type 0
  Steps = Evolves (Along (Edge op)) (IsNew now op)

  unchanged : (t : Inbox) → Steps t t
  unchanged t = Evolves-refl (Along (Edge op)) (IsNew now op) (λ e. inl refl) t

  -- a write of the owner, which takes the event along an edge out of `claimed`
  owner-Steps :
      (k c : String) (f : Event → Event)
      → ((e : Event) → Frozen e (f e))
      → ((e : Event) → Edge op claimed (f e).state)
      → (t : Inbox) → Steps t (update (holds_claim k c) f t)
  unfolding holds_claim
  owner-Steps k c f kept edge t =
      Evolves-update (Along (Edge op)) (IsNew now op) (λ e. inl refl) (holds_claim k c) f
        (λ e h.
          let is_claimed_row : e.state ≡ claimed = ground arith in
          inr (kept e, subst (λ s. Edge op s (f e).state) (sym is_claimed_row) (edge e)))
        t

accepted-Steps :
    (d : Delivery) (now : ℕ) (s : Store)
    → Steps now (accept d) s.events (after s (accept_cash_flow_event d now s)).events
unfolding accept_cash_flow_event
accepted-Steps d now s = elim (Result-cases (accept_event d now s.events)) [
  | inl (r, e) ↦ rw e (
      accept-Evolves (Along (Edge (accept d))) (IsNew now (accept d)) (λ x. inl refl) d now s.events
        r.1 r.0 (added (new_event-Accepted d now)) e)
  | inr (x, e) ↦ rw e (unchanged now (accept d) s.events)
]

completed-Steps :
    (id c : String) (outcome : Outcome) (rs : List ReceiptRequest) (now : ℕ) (s : Store)
    → Steps now
        (complete id c outcome rs)
        s.events
        (after s (complete_cash_flow_event id c outcome rs now s)).events
unfolding finish
completed-Steps id c outcome rs now s =
    elim (Result-cases (complete_cash_flow_event id c outcome rs now s)) [
      | inl (r, e) ↦
          let (keys, i, ev, k) = complete_inv id c outcome r.0 rs now s r.1 e in
          rw (e, ev)
            (owner-Steps now (complete id c outcome rs) id c (finish r.0 now)
              (λ x. record {
                same_id = refl;
                same_type = refl;
                same_file = refl;
                same_table = refl;
                same_revision = refl;
                same_actions = refl;
                same_digest = refl;
                same_received = refl;
              })
              (λ x. process) s.events)
      | inr (x, e) ↦ rw e (unchanged now (complete id c outcome rs) s.events)
    ]

module _ (id c error : String) (max : ℕ) (terminal : Outcome) (rs : List ReceiptRequest)
    (now : ℕ) where
  abbrev of_fail : Call
  of_fail = fail id c error max terminal rs

  given_up-Steps :
      (n : ℕ) (s : Store)
      → Steps now of_fail s.events (after s (give_up id c error terminal rs n now s)).events
  unfolding finish_failed finish
  given_up-Steps n s = elim (Result-cases (give_up id c error terminal rs n now s)) [
    | inl (r, e) ↦
        let (ne, stored, v, (out, o, ev)) = give_up_inv id c error terminal rs n now s r.1 r.0 e in
        rw (e, ev)
          (owner-Steps now of_fail id c (finish_failed out n error now)
            (λ x. record {
              same_id = refl;
              same_type = refl;
              same_file = refl;
              same_table = refl;
              same_revision = refl;
              same_actions = refl;
              same_digest = refl;
              same_received = refl;
            })
            (λ x. end_failed) s.events)
    | inr (x, e) ↦ rw e (unchanged now of_fail s.events)
  ]

  failed-Steps :
      (s : Store) (o : Option Event)
      → Steps now of_fail s.events (after s (fail_found id c error max terminal rs now s o)).events
  unfolding fail_found back_off retry_later
  failed-Steps s none = unchanged now of_fail s.events
  failed-Steps s (some e) = elim (Bool-cases (not (max == 0) && leb max (e.attempt_count + 1))) [
    | inl q ↦ rw q (given_up-Steps (e.attempt_count + 1) s)
    | inr q ↦ rw q (
        owner-Steps now of_fail id c (retry_later (e.attempt_count + 1) error now)
          (λ x. record {
            same_id = refl;
            same_type = refl;
            same_file = refl;
            same_table = refl;
            same_revision = refl;
            same_actions = refl;
            same_digest = refl;
            same_received = refl;
          })
          (λ x. wait) s.events)
  ]

-- Each call, at any time and on any store, leaves an event as it was or takes it along an edge that
-- `Edge` lists for this call, with all that was delivered and the time of its receipt frozen; only
-- `accept` adds events, and what it adds is pending with no attempt and no claim, due at once, and is
-- the delivery of the call.
pub call-Along :
    (now : ℕ) (op : Call) (s : Store)
    → Evolves (Along (Edge op)) (IsNew now op) s.events (call now op s).events
unfolding call claim_cash_flow_events mark_cash_flow_event_failed
call-Along now (accept d) s = accepted-Steps d now s
call-Along now (claim limit c fresh) s =
    claim-Along (Edge (claim limit c fresh)) (IsNew now (claim limit c fresh))
      (none_grows limit c fresh now) (expires_edge limit c fresh now) (takes_edge limit c fresh now)
      (both_edge limit c fresh now) limit c fresh now s.events
call-Along now (complete id c outcome rs) s = completed-Steps id c outcome rs now s
call-Along now (fail id c error max terminal rs) s =
    failed-Steps id c error max terminal rs now s (fetch_one (holds_claim id c) s.events)
