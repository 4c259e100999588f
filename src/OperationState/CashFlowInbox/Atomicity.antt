-- ===== src/OperationState/CashFlowInbox/Atomicity.antt =====
-- An event's outcome and its receipts are committed together.
use portfolio_management.Common.{
  ℕ, ◌≡◌, refl, ap, ◌∙◌, inl, inr, String, Bool, none, some, List, [], ◌∷◌, All, Bool-cases, Result,
  ok, err, >>=-eq-ok, raise_if-eq-ok, ◌>>=◌, map, ◌==◌, str_eq_refl,
}
use portfolio_management.Common.Table.{update, row_count, fetch_one}
use portfolio_management.Common.Table.Keys.{fetch_one-update, fetch_one_holds, image}
use portfolio_management.OperationState.Receipts.{Outbox, Receipt, insert_operation_receipt_tx}
use portfolio_management.OperationState.ReceiptOutbox.{get_operation_receipt}
use portfolio_management.OperationState.ReceiptOutbox.Retries.{Stored, insert-Stored, insert-keeps}
use portfolio_management.OperationState.EventInbox.{
  Event, Inbox, Outcome, has_id, claimed, processed, holds_claim, finish,
}
use portfolio_management.OperationState.CashFlowInbox.{
  Store, ReceiptRequest, request_key, insert_receipts, no_claim, commit_outcome,
  get_cash_flow_event, complete_cash_flow_event,
}

abbrev pub AllStored : List ReceiptRequest → Outbox → Type 0
AllStored rs t = All (λ q. Stored q.receipt_key q.receipt_type q.payload t) rs

-- the owner's update reaches the event that a read finds
pub owner_update :
    (id c : String) (f : Event → Event)
    → ((e : Event) → (f e).event_id ≡ e.event_id)
    → (t : Inbox) (e : Event) → fetch_one (has_id id) t ≡ some e
    → e.state ≡ claimed
    → e.claim_id ≡ some c
    → fetch_one (has_id id) (update (holds_claim id c) f t) ≡ some (f e)
unfolding holds_claim
owner_update id c f same t e g st cl =
    fetch_one-update (λ (x : Event). x.event_id) (holds_claim id c) f same id t
    ∙ ap (image (holds_claim id c) f) g
    ∙ rw (fetch_one_holds (has_id id) t g, st, cl, str_eq_refl c) refl

insert_receipts_cons :
    (q : ReceiptRequest) (rs : List ReceiptRequest) (now : ℕ) (t t' : Outbox) (keys : List String)
    → insert_receipts (q ∷ rs) now t ≡ ok (keys, t')
    → (b : Bool) × (t₁ : Outbox) × (ks : List String) × (insert_operation_receipt_tx q.receipt_key
          q.receipt_type q.payload now t
        ≡ ok (b, t₁))
      × (insert_receipts rs now t₁ ≡ ok (ks, t'))
unfolding insert_receipts
insert_receipts_cons q rs now t t' keys h =
    let (bt, h₁, rest) =
      >>=-eq-ok (insert_operation_receipt_tx q.receipt_key q.receipt_type q.payload now t) _ h in
    let (kt, h₂, last) = >>=-eq-ok (insert_receipts rs now bt.1) _ rest in
    let same : kt.1 ≡ t' = cc in (bt.0, bt.1, kt.0, h₁, h₂ ∙ ap (λ u. ok (kt.0, u)) same)

insert_receipts-keeps :
    (rs : List ReceiptRequest) (now : ℕ) (t t' : Outbox) (keys : List String)
    → insert_receipts rs now t ≡ ok (keys, t')
    → (k : String) (r : Receipt) → get_operation_receipt k t ≡ some r
    → get_operation_receipt k t' ≡ some r
unfolding insert_receipts
insert_receipts-keeps [] now t t' keys h k r e = let same : t ≡ t' = cc in rw (← same) e
insert_receipts-keeps (q ∷ rs) now t t' keys h k r e =
    let (b, t₁, ks, first, rest) = insert_receipts_cons q rs now t t' keys h in
    insert_receipts-keeps rs now t₁ t' ks rest k r
      (insert-keeps q.receipt_key q.receipt_type q.payload now t t₁ b first k r e)

pub insert_receipts-stored :
    (rs : List ReceiptRequest) (now : ℕ) (t t' : Outbox) (keys : List String)
    → insert_receipts rs now t ≡ ok (keys, t')
    → AllStored rs t'
insert_receipts-stored [] now t t' keys h = tt
insert_receipts-stored (q ∷ rs) now t t' keys h =
    let (b, t₁, ks, first, rest) = insert_receipts_cons q rs now t t' keys h in
    let (r, e, ty, pl) = insert-Stored q.receipt_key q.receipt_type q.payload now t t₁ b first in
    (
      (r, insert_receipts-keeps rs now t₁ t' ks rest q.receipt_key r e, ty, pl),
      insert_receipts-stored rs now t₁ t' ks rest,
    )

commit_inv :
    (id c : String) (outcome out : Outcome) (rs : List ReceiptRequest) (now : ℕ) (s s' : Store)
    (kt : List String × Outbox)
    → commit_outcome id c outcome rs now s kt ≡ ok (out, s')
    → (kt.1 ≡ s'.outbox)
      × (s'.events ≡ update (holds_claim id c) (finish out now) s.events)
      × (out.receipt_keys ≡ map request_key rs)
unfolding commit_outcome
commit_inv id c outcome out rs now s s' (keys, t) h =
    elim (Bool-cases (row_count (holds_claim id c) s.events == 1)) [
      | inl q ↦
          let o' = record outcome {
            receipt_keys = map request_key rs;
            enqueued_receipt_keys = keys;
          } in
          let w : Store = record {
            events = update (holds_claim id c) (finish o' now) s.events;
            outbox = t;
          } in
          let g : ◌≡◌ {A = Result (Outcome × Store)} (ok (o', w)) (ok (out, s')) = rw q at h in
          let p : o' ≡ out = cc in let r : w ≡ s' = cc in rw (← p, ← r) (refl, refl, refl)
      | inr q ↦
          let g : ◌≡◌ {A = Result (Outcome × Store)} (err no_claim) (ok (out, s')) = rw q at h in cc
    ]

pub complete_inv :
    (id c : String) (outcome out : Outcome) (rs : List ReceiptRequest) (now : ℕ) (s s' : Store)
    → complete_cash_flow_event id c outcome rs now s ≡ ok (out, s')
    → (keys : List String) × (insert_receipts rs now s.outbox ≡ ok (keys, s'.outbox))
      × (s'.events ≡ update (holds_claim id c) (finish out now) s.events)
      × (out.receipt_keys ≡ map request_key rs)
unfolding complete_cash_flow_event
complete_inv id c outcome out rs now s s' h =
    let inner =
      (raise_if-eq-ok _ no_claim
        (λ _. insert_receipts rs now s.outbox >>= commit_outcome id c outcome rs now s) h).1 in
    let (kt, i, last) =
      >>=-eq-ok (insert_receipts rs now s.outbox) (commit_outcome id c outcome rs now s) inner in
    let (b, e, k) = commit_inv id c outcome out rs now s s' kt last in
    (kt.0, i ∙ ap (λ u. ok (kt.0, u)) b, e, k)

-- When the completion of an event succeeds, the event that its caller had claimed is processed with
-- the returned outcome and without a claim, the outcome names the receipts, and every one of them
-- stands in the outbox: all of it or, when the call raises, none.
pub complete-atomic :
    (id c : String) (outcome out : Outcome) (rs : List ReceiptRequest) (now : ℕ) (s s' : Store)
    (e : Event)
    → get_cash_flow_event id s ≡ some e
    → e.state ≡ claimed
    → e.claim_id ≡ some c
    → complete_cash_flow_event id c outcome rs now s ≡ ok (out, s')
    → AllStored rs s'.outbox
      × (out.receipt_keys ≡ map request_key rs)
      × ((e' : Event) × (get_cash_flow_event id s' ≡ some e')
          × (e'.state ≡ processed)
          × (e'.outcome ≡ some out)
          × (e'.claim_id ≡ none))
unfolding get_cash_flow_event finish
complete-atomic id c outcome out rs now s s' e g st cl h =
    let (keys, i, ev, k) = complete_inv id c outcome out rs now s s' h in
    (
      insert_receipts-stored rs now s.outbox s'.outbox keys i,
      k,
      (
        finish out now e,
        rw ev (owner_update id c (finish out now) (λ x. refl) s.events e g st cl),
        refl,
        refl,
        refl,
      ),
    )
