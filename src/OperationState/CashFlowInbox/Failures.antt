-- ===== src/OperationState/CashFlowInbox/Failures.antt =====
-- What a failed attempt at an event leaves behind: a later attempt, or a processed event together
-- with its attention receipts.
use portfolio_management.Common.{
  ℕ, ◌+◌, ◌≤◌, ◌<◌, ◌≡◌, ◌≢◌, refl, ap, ◌∙◌, ◌⊎◌, inl, inr, String, false, not, ◌&&◌, none, some,
  List, [], arith, Bool-cases, Result, ok, err, value_error, >>=-eq-ok, raise_if-eq-ok, ◌>>=◌,
  is_empty, map, ◌==◌, leb, or_else, str_eq_refl, opt_is,
}
use portfolio_management.Common.Table.{update, row_count, fetch_one}
use portfolio_management.Common.Table.Keys.{fetch_one-and}
use portfolio_management.OperationState.Retry.{retry_delay}
use portfolio_management.OperationState.Receipts.{Outbox}
use portfolio_management.OperationState.EventInbox.{
  Event, Outcome, claimed, processed, failed_retryable, holds_claim, is_claimed, retry_later,
  finish,
}
use portfolio_management.OperationState.CashFlowInbox.{
  Store, ReceiptRequest, request_key, insert_receipts, no_claim, commit_failure, give_up, back_off,
  fail_found, Marked, mark_cash_flow_event_failed, finish_failed, get_cash_flow_event,
}
use portfolio_management.OperationState.CashFlowInbox.Atomicity.{
  AllStored, insert_receipts-stored, owner_update,
}

commit_failure_inv :
    (id c error : String) (terminal : Outcome) (rs : List ReceiptRequest) (n now : ℕ) (s s' : Store)
    (kt : List String × Outbox) (m : Marked)
    → commit_failure id c error terminal rs n now s kt ≡ ok (m, s')
    → (kt.1 ≡ s'.outbox)
      × (m.state ≡ processed)
      × ((out : Outcome) × (m.outcome ≡ some out)
          × (s'.events ≡ update (holds_claim id c) (finish_failed out n error now) s.events))
unfolding commit_failure
commit_failure_inv id c error terminal rs n now s s' (keys, t) m h =
    elim (Bool-cases (row_count (holds_claim id c) s.events == 1)) [
      | inl q ↦
          let o : Outcome = record terminal {
            status = some (or_else terminal.status "attention_required");
            attempt_count = some n;
            receipt_keys = map request_key rs;
            enqueued_receipt_keys = keys;
          } in
          let w : Store = record {
            events = update (holds_claim id c) (finish_failed o n error now) s.events;
            outbox = t;
          } in
          let v : Marked = record {
            state = processed;
            attempt_count = n;
            next_attempt_at = none;
            outcome = some o;
          } in
          let g : ◌≡◌ {A = Result (Marked × Store)} (ok (v, w)) (ok (m, s')) = rw q at h in
          let p : v ≡ m = cc in let r : w ≡ s' = cc in rw (← p, ← r) (refl, refl, (o, refl, refl))
      | inr q ↦
          let g : ◌≡◌ {A = Result (Marked × Store)} (err no_claim) (ok (m, s')) = rw q at h in cc
    ]

nonempty : {A : Type 0} (xs : List A) → is_empty xs ≡ false → xs ≢ []
nonempty xs h = ground arith

pub give_up_inv :
    (id c error : String) (terminal : Outcome) (rs : List ReceiptRequest) (n now : ℕ) (s s' : Store)
    (m : Marked)
    → give_up id c error terminal rs n now s ≡ ok (m, s')
    → (rs ≢ [])
      × AllStored rs s'.outbox
      × (m.state ≡ processed)
      × ((out : Outcome) × (m.outcome ≡ some out)
          × (s'.events ≡ update (holds_claim id c) (finish_failed out n error now) s.events))
unfolding give_up
give_up_inv id c error terminal rs n now s s' m h =
    let commit = commit_failure id c error terminal rs n now s in
    let (some_receipt, inner) =
      raise_if-eq-ok (is_empty rs)
        (value_error "terminal cash flow event failure requires an attention receipt")
        (λ _. insert_receipts rs now s.outbox >>= commit) h in
    let (kt, i, last) = >>=-eq-ok (insert_receipts rs now s.outbox) commit inner in
    let (b, st, ev) = commit_failure_inv id c error terminal rs n now s s' kt m last in
    (
      nonempty rs some_receipt,
      insert_receipts-stored rs now s.outbox s'.outbox kt.0 (i ∙ ap (λ u. ok (kt.0, u)) b),
      st,
      ev,
    )

-- The event waits: one more attempt is counted, it is not claimed, and no receipt was written.
abbrev pub Waits : String → Event → ℕ → Store → Store → Type 0
Waits id e now s s' =
    (s'.outbox ≡ s.outbox)
    × ((e' : Event) × (get_cash_flow_event id s' ≡ some e')
        × (e'.state ≡ failed_retryable)
        × (e'.attempt_count ≡ e.attempt_count + 1)
        × (e'.next_attempt_at ≡ now + retry_delay (e.attempt_count + 1))
        × (e'.claim_id ≡ none))

-- The event is given up: it is processed, and there are receipts, all of them in the outbox.
abbrev pub GivenUp : String → Event → List ReceiptRequest → Store → Type 0
GivenUp id e rs s' =
    (rs ≢ [])
    × AllStored rs s'.outbox
    × ((e' : Event) × (get_cash_flow_event id s' ≡ some e')
        × (e'.state ≡ processed)
        × (e'.attempt_count ≡ e.attempt_count + 1)
        × (e'.claim_id ≡ none))

module _ (id c error : String) (terminal : Outcome) (rs : List ReceiptRequest) (now : ℕ)
    (s s' : Store) (m : Marked) (e : Event) (g : get_cash_flow_event id s ≡ some e)
    (st : e.state ≡ claimed) (cl : e.claim_id ≡ some c) where
  back_off-Waits :
      back_off id c error (e.attempt_count + 1) now s ≡ ok (m, s')
      → (m.state ≡ failed_retryable) × Waits id e now s s'
  unfolding back_off get_cash_flow_event retry_later
  back_off-Waits h =
      let n = e.attempt_count + 1 in
      let w : Store = record s {
        events = update (holds_claim id c) (retry_later n error now) s.events;
      } in
      let r : w ≡ s' = cc in
      let v : m.state ≡ failed_retryable = ground arith in
      rw (← r) (
        v,
        (
          refl,
          (
            retry_later n error now e,
            owner_update id c (retry_later n error now) (λ x. refl) s.events e g st cl,
            refl,
            refl,
            refl,
            refl,
          ),
        ),
      )

  give_up-GivenUp :
      give_up id c error terminal rs (e.attempt_count + 1) now s ≡ ok (m, s')
      → (m.state ≡ processed) × GivenUp id e rs s'
  unfolding get_cash_flow_event finish_failed finish
  give_up-GivenUp h =
      let n = e.attempt_count + 1 in
      let (ne, stored, v, (out, o, ev)) = give_up_inv id c error terminal rs n now s s' m h in
      (
        v,
        (
          ne,
          stored,
          (
            finish_failed out n error now e,
            rw ev
                (owner_update id c (finish_failed out n error now) (λ x. refl) s.events e g st cl),
            refl,
            refl,
            refl,
          ),
        ),
      )

  -- A failed attempt at a claimed event never loses it: below the limit of attempts, or without
  -- a limit, the event waits for its next attempt; at the limit it is given up, which takes at
  -- least one attention receipt and stores all of them.
  pub mark_failed-accounted :
      (max_attempts : ℕ)
      → mark_cash_flow_event_failed id c error max_attempts terminal rs now s ≡ ok (m, s')
      → ((max_attempts ≡ 0) ⊎ (e.attempt_count + 1 < max_attempts))
          × (m.state ≡ failed_retryable)
          × Waits id e now s s'
        ⊎ (max_attempts ≢ 0)
          × (max_attempts ≤ e.attempt_count + 1)
          × (m.state ≡ processed)
          × GivenUp id e rs s'
  unfolding mark_cash_flow_event_failed fail_found holds_claim get_cash_flow_event
  mark_failed-accounted max h =
      let found : fetch_one (holds_claim id c) s.events ≡ some e =
        fetch_one-and (λ (x : Event). x.event_id) id
          (λ x. is_claimed x.state && opt_is x.claim_id c) s.events e g
          (rw (st, cl, str_eq_refl c) refl) in
      elim (Bool-cases (not (max == 0) && leb max (e.attempt_count + 1))) [
        | inl q ↦
            let (v, up) = give_up-GivenUp (rw (found, fail_found, q) at h) in
            inr (ground arith, ground arith, v, up)
        | inr q ↦
            let (v, w) = back_off-Waits (rw (found, fail_found, q) at h) in inl (ground arith, v, w)
      ]
