-- ===== src/OperationState/HoldingInbox/Completed.antt =====
-- What a completion that returns has done, to the event and to the cases.
use portfolio_management.Common.{
  ℕ, ◌≡◌, refl, ◌∙◌, subst, inl, inr, String, Bool, true, false, ◌&&◌, Option, none, some, List, [],
  ◌∷◌, ◌==◌, opt_is, Bool-cases, Error, ok, err, Returns, returned, raised, >>=-Returns, Returns-ok,
}
use portfolio_management.Common.Table.{update, row_count, fetch_one}
use portfolio_management.Common.Table.Keys.{
  HasUniqueKeys, found, row_count-key, fetch_one_holds, fetch_one-update, fetch_one-and_fails,
}
use portfolio_management.OperationState.EventInbox.{
  Event, Inbox, Outcome, processed, has_id, is_claimed, holds_claim, finish,
}
use portfolio_management.OperationState.HoldingCases.{CaseStore}
use portfolio_management.OperationState.HoldingCases.Materialize.{materialize_holding_cases}
use portfolio_management.OperationState.HoldingCases.Resolve.{
  Scan, Closing, resolve_holding_cases_external,
}
use portfolio_management.OperationState.HoldingCases.Audit.{Audited, Audited-refl}
use portfolio_management.OperationState.HoldingCases.Audit.Observed.{StepsFrom, materialize-Audited}
use portfolio_management.OperationState.HoldingCases.Audit.Applied.{after, resolve-Audited}
use portfolio_management.OperationState.HoldingInbox.{no_claim}
use portfolio_management.OperationState.HoldingInbox.Completion.{
  Materialization, Combined, EventsAndCases, pass_of, scan_of, add_stored, add_closed, close_if,
  combine_one, combine_all, with_workflow, nothing_combined, mark_processed, complete_claimed,
  complete_holding_event,
}

abbrev pub event_key : Event → String
event_key e = e.event_id

abbrev Combines : CaseStore → Combined → Type 0
Combines s c = Audited s c.store

close_if-Audited :
    (prove : Bool) (scan : Scan) (c : Combined) → Returns (Combines c.store) (close_if prove scan c)
unfolding close_if add_closed
close_if-Audited false scan c = returned (Audited-refl c.store)
close_if-Audited true scan c =
    >>=-Returns (λ (p : Closing). Audited c.store p.store) (Combines c.store)
      (resolve_holding_cases_external scan c.store) (λ closed. ok (add_closed c closed))
      (resolve-Audited scan c.store) (λ closed a. returned a)

module _ (sha256 : String → String) (now : ℕ) where
  combine_one-Audited :
      (m : Materialization) (c : Combined) → Returns (Combines c.store) (combine_one sha256 now m c)
  unfolding combine_one add_stored
  combine_one-Audited m c =
      >>=-Returns (StepsFrom c.store) (Combines c.store)
        (materialize_holding_cases sha256 (pass_of m now) m.cases c.store)
        (λ stored. close_if m.prove_external (scan_of m now) (add_stored c stored))
        (materialize-Audited sha256 (pass_of m now) m.cases c.store)
        (λ p a.
          after (λ (d : Combined). d.store) c.store p.store _ a
            (close_if-Audited m.prove_external (scan_of m now) (add_stored c p)))

  combine_all-Audited :
      (ms : List Materialization) (c : Combined)
      → Returns (Combines c.store) (combine_all sha256 now ms c)
  unfolding combine_all
  combine_all-Audited [] c = returned (Audited-refl c.store)
  combine_all-Audited (m ∷ ms) c =
      >>=-Returns (Combines c.store) (Combines c.store) (combine_one sha256 now m c)
        (combine_all sha256 now ms) (combine_one-Audited m c)
        (λ d a. after (λ (e : Combined). e.store) c.store d.store _ a (combine_all-Audited ms d))

-- What a completion makes of the event and of the store of cases.
pub record Completes (event_id claim_id : String) (s : EventsAndCases)
    (done : Outcome × EventsAndCases) : Type 0 where
  pub event : Event
  pub was_claimed : fetch_one (has_id event_id) s.events ≡ some event
  pub by_the_claim : (is_claimed event.state && opt_is event.claim_id claim_id) ≡ true
  pub event' : Event
  pub is_there : fetch_one (has_id event_id) done.1.events ≡ some event'
  pub is_processed : event'.state ≡ processed
  pub has_outcome : event'.outcome ≡ some done.0
  pub audited : Audited s.cases done.1.cases

count_one :
    (q : Event → Bool) (o : Option Event)
    → (found q o == 1) ≡ true
    → (e : Event) × (o ≡ some e) × (q e ≡ true)
count_one q none h = cc
count_one q (some e) h = elim (Bool-cases (q e)) [
  | inl t ↦ (e, refl, t)
  | inr t ↦ let g : false ≡ true = rw t at h in cc
]

module _ (event_id claim_id : String) (outcome : Outcome) (now : ℕ) where
  count_claims :
      (t : Inbox)
      → HasUniqueKeys event_key t
      → row_count (holds_claim event_id claim_id) t
        ≡ found
            (λ (e : Event). is_claimed e.state && opt_is e.claim_id claim_id)
            (fetch_one (has_id event_id) t)
  unfolding holds_claim
  count_claims t u =
      row_count-key event_key event_id
        (λ (e : Event). is_claimed e.state && opt_is e.claim_id claim_id) t u

  finished :
      (o : Outcome) (t : Inbox) (e : Event)
      → fetch_one (has_id event_id) t ≡ some e
      → (is_claimed e.state && opt_is e.claim_id claim_id) ≡ true
      → fetch_one (has_id event_id) (update (holds_claim event_id claim_id) (finish o now) t)
        ≡ some (finish o now e)
  unfolding finish holds_claim
  finished o t e there mine =
      fetch_one-update event_key (holds_claim event_id claim_id) (finish o now) (λ x. refl) event_id
        t
      ∙ rw (there, fetch_one_holds (has_id event_id) t there, mine) refl

  finish-state : (o : Outcome) (e : Event) → (finish o now e).state ≡ processed
  unfolding finish
  finish-state o e = refl

  finish-outcome : (o : Outcome) (e : Event) → (finish o now e).outcome ≡ some o
  unfolding finish
  finish-outcome o e = refl

  mark_processed-Completes :
      (s : EventsAndCases) (c : Combined)
      → HasUniqueKeys event_key s.events
      → Audited s.cases c.store
      → Returns
          (Completes event_id claim_id s)
          (mark_processed event_id claim_id outcome now s.events c)
  unfolding mark_processed
  mark_processed-Completes s c u a =
      elim (Bool-cases (row_count (holds_claim event_id claim_id) s.events == 1)) [
        | inr n ↦ rw n raised
        | inl n ↦
            let (e, there, mine) =
              count_one (λ (e : Event). is_claimed e.state && opt_is e.claim_id claim_id)
                (fetch_one (has_id event_id) s.events)
                (subst (λ k. (k == 1) ≡ true) (count_claims s.events u) n) in
            let o = with_workflow outcome c in
            rw n (
              returned (record {
                event = e;
                was_claimed = there;
                by_the_claim = mine;
                event' = finish o now e;
                is_there = finished o s.events e there mine;
                is_processed = finish-state o e;
                has_outcome = finish-outcome o e;
                audited = a;
              }))
      ]

complete-Completes :
    (sha256 : String → String) (event_id claim_id : String) (ms : List Materialization)
    (outcome : Outcome) (now : ℕ) (s : EventsAndCases) (o : Option Event)
    → HasUniqueKeys event_key s.events
    → Returns
        (Completes event_id claim_id s)
        (complete_claimed sha256 event_id claim_id ms outcome now s o)
unfolding complete_claimed
complete-Completes sha256 event_id claim_id ms outcome now s none u = raised
complete-Completes sha256 event_id claim_id ms outcome now s (some _) u =
    >>=-Returns (Combines s.cases) (Completes event_id claim_id s)
      (combine_all sha256 now ms (nothing_combined s.cases))
      (mark_processed event_id claim_id outcome now s.events)
      (combine_all-Audited sha256 now ms (nothing_combined s.cases))
      (λ c a. mark_processed-Completes event_id claim_id outcome now s c u a)

not_claimed_again :
    (other : String) (e : Event)
    → e.state ≡ processed
    → (is_claimed e.state && opt_is e.claim_id other) ≡ false
not_claimed_again other e h = rw h refl

-- Where event ids are unique, a completion that returns found the event claimed under the claim it
-- was given, and has stored it as processed with the outcome it returns, along with audited changes of
-- the cases; and any later completion of the event raises, whatever its claim and its cases.
pub complete-processes :
    (sha256 : String → String) (event_id claim_id : String) (ms : List Materialization)
    (outcome : Outcome) (now : ℕ) (s : EventsAndCases) (done : Outcome × EventsAndCases)
    → HasUniqueKeys event_key s.events
    → complete_holding_event sha256 event_id claim_id ms outcome now s ≡ ok done
    → Completes event_id claim_id s done
      × ((other : String) (more : List Materialization) (late : Outcome) (later : ℕ)
          → HasUniqueKeys event_key done.1.events
          → (x : Error) × (complete_holding_event sha256 event_id other more late later done.1
              ≡ err x))
unfolding complete_holding_event complete_claimed holds_claim
complete-processes sha256 event_id claim_id ms outcome now s done u returns =
    let c : Completes event_id claim_id s done =
      Returns-ok (Completes event_id claim_id s)
        (complete_holding_event sha256 event_id claim_id ms outcome now s)
        (complete-Completes sha256 event_id claim_id ms outcome now s
          (fetch_one (holds_claim event_id claim_id) s.events) u)
        returns in
    (
      c,
      (λ other more late later v.
          let gone : fetch_one (holds_claim event_id other) done.1.events ≡ none =
            fetch_one-and_fails event_key event_id
              (λ (e : Event). is_claimed e.state && opt_is e.claim_id other) done.1.events c.event'
              v c.is_there (not_claimed_again other c.event' c.is_processed) in
          (no_claim, rw gone refl)),
    )
