-- ===== src/OperationState/ReceiptOutbox/Keys.antt =====
-- `receipt_key` stays a primary key: no operation stores two receipts under one key.
use portfolio_management.Common.{
  ℕ, ◌+◌, ◌≡◌, refl, inl, inr, String, ◌&&◌, Option, none, some, List, [], ◌∷◌, str_eq, Bool-cases,
  ◌==◌, text_in,
}
use portfolio_management.Common.Table.{row_count, fetch_one}
use portfolio_management.Common.Table.Keys.{
  HasUniqueKeys, update-HasUniqueKeys, append-HasUniqueKeys,
}
use portfolio_management.OperationState.Receipts.{
  Outbox, Receipt, Status, has_key, new_receipt, insert_operation_receipt_tx, insert_or_compare,
  closure_over, supported_types, is_unknown, insert_repeatable_closure_receipt_tx,
}
use portfolio_management.OperationState.ReceiptOutbox.{
  take_claim, claim_rows, select_due, expire_leases, resolve_claim, claim_due_operation_receipts,
  holds_claim, start_send, start_operation_receipt_send, release_claim, release_send, finish_send,
  settle_unknown, finish_found, mark_as, resolve_found, resolve_as, outcome_status, decision_status,
  enqueue_operation_receipt, mark_operation_receipt, resolve_operation_receipt,
}
use portfolio_management.OperationState.ReceiptOutbox.Operations.{
  Op, enqueue, close_case, claim, start, mark, resolve, after, after_write, apply, run,
}

abbrev pub key_of : Receipt → String
key_of r = r.receipt_key

abbrev pub Keyed : Outbox → Type 0
Keyed t = HasUniqueKeys key_of t

pub claim_rows-Keyed :
    (c : String) (now : ℕ) (rs : List Receipt) (t : Outbox)
    → Keyed t
    → Keyed (claim_rows c now rs t).1
unfolding claim_rows take_claim
claim_rows-Keyed c now [] t u = u
claim_rows-Keyed c now (r ∷ rs) t u =
    claim_rows-Keyed c now rs _ (update-HasUniqueKeys key_of _ (take_claim c now) (λ x. refl) t u)

insert_found-Keyed :
    (key type payload : String) (now : ℕ) (t : Outbox) (o : Option Receipt)
    → fetch_one (has_key key) t ≡ o
    → Keyed t
    → Keyed (after t (insert_or_compare key type payload now t o))
unfolding insert_or_compare new_receipt
insert_found-Keyed key type payload now t none e u =
    append-HasUniqueKeys key_of t (new_receipt key type payload now) e u
insert_found-Keyed key type payload now t (some r) e u =
    elim (Bool-cases (str_eq r.receipt_type type && str_eq r.payload_json payload)) [
      | inl p ↦ rw p u
      | inr p ↦ rw p u
    ]

insert-Keyed :
    (key type payload : String) (now : ℕ) (t : Outbox)
    → Keyed t
    → Keyed (after t (insert_operation_receipt_tx key type payload now t))
unfolding insert_operation_receipt_tx
insert-Keyed key type payload now t u = elim (Bool-cases (text_in type supported_types)) [
  | inl e ↦ rw e (insert_found-Keyed key type payload now t _ refl u)
  | inr e ↦ rw e u
]

closure-Keyed :
    (key payload : String) (now : ℕ) (t : Outbox) (o : Option Receipt)
    → Keyed t
    → Keyed (after t (closure_over key payload now t o))
unfolding closure_over
closure-Keyed key payload now t none u = insert-Keyed key "holding_case_closed" payload now t u
closure-Keyed key payload now t (some r) u =
    elim (Bool-cases (str_eq r.receipt_type "holding_case_closed")) [
      | inl e ↦ rw e u
      | inr e ↦ rw e u
    ]

finish-Keyed :
    (key c : String) (status : Status) (message error : Option String) (now : ℕ) (t : Outbox)
    (o : Option Receipt)
    → Keyed t
    → Keyed (after_write t (finish_found key c status message error now t o))
unfolding finish_found finish_send
finish-Keyed key c status message error now t none u = u
finish-Keyed key c status message error now t (some r) u =
    update-HasUniqueKeys key_of _ (finish_send status (r.attempt_count + 1) message error now)
      (λ x. refl) t u

mark-Keyed :
    (key c : String) (o : Option Status) (message error : Option String) (now : ℕ) (t : Outbox)
    → Keyed t
    → Keyed (after_write t (mark_as key c o message error now t))
unfolding mark_as
mark-Keyed key c none message error now t u = u
mark-Keyed key c (some status) message error now t u =
    finish-Keyed key c status message error now t _ u

settle-Keyed :
    (key : String) (status : Status) (note : String) (now : ℕ) (t : Outbox) (o : Option Receipt)
    → Keyed t
    → Keyed (after_write t (resolve_found key status note now t o))
unfolding resolve_found settle_unknown
settle-Keyed key status note now t none u = u
settle-Keyed key status note now t (some r) u = elim (Bool-cases (is_unknown r.status)) [
  | inl e ↦ rw e (update-HasUniqueKeys key_of _ (settle_unknown status note now) (λ x. refl) t u)
  | inr e ↦ rw e u
]

resolve-Keyed :
    (key : String) (o : Option Status) (note : String) (now : ℕ) (t : Outbox)
    → Keyed t
    → Keyed (after_write t (resolve_as key o note now t))
unfolding resolve_as
resolve-Keyed key none note now t u = u
resolve-Keyed key (some status) note now t u = settle-Keyed key status note now t _ u

pub expire-Keyed : (now : ℕ) (t : Outbox) → Keyed t → Keyed (expire_leases now t)
unfolding expire_leases release_claim release_send
expire-Keyed now t u =
    update-HasUniqueKeys key_of _ (release_send now) (λ x. refl) _
      (update-HasUniqueKeys key_of _ (release_claim now) (λ x. refl) t u)

pub claim-Keyed :
    (limit : ℕ) (key c : Option String) (fresh : String) (now : ℕ) (t : Outbox)
    → Keyed t
    → Keyed (claim_due_operation_receipts limit key c fresh now t).1
unfolding claim_due_operation_receipts
claim-Keyed limit key c fresh now t u =
    claim_rows-Keyed (resolve_claim c fresh) now (select_due limit key now (expire_leases now t)) _
      (expire-Keyed now t u)

start-Keyed :
    (key c : String) (now : ℕ) (t : Outbox)
    → Keyed t
    → Keyed (after_write t (start_operation_receipt_send key c now t))
unfolding start_operation_receipt_send start_send
start-Keyed key c now t u = elim (Bool-cases (row_count (holds_claim key c) t == 1)) [
  | inl e ↦ rw e (update-HasUniqueKeys key_of (holds_claim key c) (start_send now) (λ x. refl) t u)
  | inr e ↦ rw e u
]

apply-Keyed : (now : ℕ) (op : Op) (t : Outbox) → Keyed t → Keyed (apply now op t)
unfolding apply enqueue_operation_receipt insert_repeatable_closure_receipt_tx
    mark_operation_receipt resolve_operation_receipt
apply-Keyed now (enqueue key type payload) t u = insert-Keyed key type payload now t u
apply-Keyed now (close_case key payload) t u =
    closure-Keyed key payload now t (fetch_one (has_key key) t) u
apply-Keyed now (claim limit key c fresh) t u = claim-Keyed limit key c fresh now t u
apply-Keyed now (start key c) t u = start-Keyed key c now t u
apply-Keyed now (mark key c outcome message error) t u =
    mark-Keyed key c (outcome_status outcome) message error now t u
apply-Keyed now (resolve key decision note) t u =
    resolve-Keyed key (decision_status decision) note now t u

-- No sequence of operations stores two receipts under one key.
pub run-Keyed : (ops : List (ℕ × Op)) (t : Outbox) → Keyed t → Keyed (run ops t)
unfolding run
run-Keyed [] t u = u
run-Keyed ((now, op) ∷ ops) t u = run-Keyed ops (apply now op t) (apply-Keyed now op t u)
