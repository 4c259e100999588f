-- ===== src/Tests/Receipts.antt =====
-- Tests of the operation receipt outbox (src/app/operation_state/_operation_receipt_mixin.py).
use portfolio_management.Common.{
  ℕ, ◌*◌, ◌≤◌, ◌≡◌, ◌≢◌, refl, String, true, Option, none, some, List, [], ◌∷◌, All, ok, err,
  key_error, length,
}
use portfolio_management.Common.Table.Evolution.{Evolves}
use portfolio_management.Common.Table.Order.{IsSorted}
use portfolio_management.OperationState.Retry.{minute, retry_delay}
use portfolio_management.OperationState.Receipts.{
  Outbox, Receipt, Status, pending, claimed, sending, sent, failed,
  insert_repeatable_closure_receipt_tx,
}
use portfolio_management.OperationState.ReceiptOutbox.{
  get_operation_receipt, claim_due_operation_receipts, start_operation_receipt_send,
  mark_operation_receipt, enqueue_operation_receipt, resolve_operation_receipt,
}
use portfolio_management.OperationState.ReceiptOutbox.Operations.{
  apply, Op, enqueue, claim, start, mark, resolve, close_case, run,
}
use portfolio_management.OperationState.ReceiptOutbox.Edges.{Along, Edge, IsNew, apply-Along}
use portfolio_management.OperationState.ReceiptOutbox.Delivery.{in_flight, run-in_flight, run-sent}
use portfolio_management.OperationState.ReceiptOutbox.Keys.{Keyed, run-Keyed}
use portfolio_management.OperationState.ReceiptOutbox.Claims.{
  created, Owned, claim_due-Owned, start-exclusive,
}

abbrev pub receipt : String → Status → ℕ → Option String → Receipt
receipt key status at owner = record {
  receipt_key = key;
  receipt_type = "holding_case_closed";
  payload_json = "{}";
  status = status;
  attempt_count = 0;
  next_attempt_at = at;
  claim_id = owner;
  claimed_at = some at;
  send_started_at = some at;
  message_id = none;
  last_error = none;
  created_at = at;
  updated_at = at;
}

abbrev table : Outbox
table =
    receipt "late" pending 9 none
    ∷ receipt "early" failed 5 none
    ∷ receipt "flying" sending 7 (some "w1")
    ∷ receipt "done" sent 3 none
    ∷ receipt "held" claimed 8 (some "w2")
    ∷ []

abbrev status_of : Option Receipt → Option Status
status_of none = none
status_of (some r) = some r.status

-- two hours of work: the leases run out, and everything that may be claimed is claimed
abbrev work : List (ℕ × Op)
work =
    (10, enqueue "new" "holding_case_discovered" "{}")
    ∷ (11, claim 1 none (some "w3") "uuid")
    ∷ (12, start "early" "w3")
    ∷ (13, mark "early" "w3" "failed" none (some "timeout"))
    ∷ (14, close_case "case" "{}")
    ∷ (120 * minute, claim 10 none none "w4")
    ∷ (121 * minute, start "late" "w4")
    ∷ (122 * minute, mark "late" "w4" "sent" (some "m1") none)
    ∷ (123 * minute, resolve "flying" "mark-sent" "{}")
    ∷ []

table-Keyed : Keyed table
table-Keyed = (refl, (refl, (refl, (refl, (refl, tt)))))

late_sent : status_of (get_operation_receipt "late" (run work table)) ≡ some sent
unfolding run get_operation_receipt claim_due_operation_receipts start_operation_receipt_send
    mark_operation_receipt enqueue_operation_receipt resolve_operation_receipt
    insert_repeatable_closure_receipt_tx retry_delay
late_sent = refl

abbrev claiming : Op
claiming = claim 5 none (some "w2") "uuid"

apply-Along_example :
    Evolves (Along (Edge claiming)) (IsNew 90 claiming) table (apply 90 claiming table)
apply-Along_example = apply-Along 90 claiming table

run-in_flight_example :
    (r : Receipt) × (get_operation_receipt "flying" (run work table) ≡ some r)
    × (in_flight r.status ≡ true)
unfolding get_operation_receipt
run-in_flight_example =
    run-in_flight "flying" work table (receipt "flying" sending 7 (some "w1")) refl refl
      (refl, (refl, (refl, (refl, (refl, (refl, (refl, (refl, (refl, tt)))))))))

run-sent_example : get_operation_receipt "done" (run work table) ≡ some (receipt "done" sent 3 none)
unfolding get_operation_receipt
run-sent_example = run-sent "done" work table (receipt "done" sent 3 none) refl refl

run-Keyed_example : Keyed (run work table)
run-Keyed_example = run-Keyed work table table-Keyed

claim_due-Owned_example :
    let (rows, t') = claim_due_operation_receipts 1 none (some "w3") "uuid" 20 table in
    (length rows ≤ 1) × IsSorted created rows × All (Owned "w3" t') rows
claim_due-Owned_example = claim_due-Owned 1 none (some "w3") "uuid" 20 table table-Keyed

start-exclusive_example :
    ((t' : Outbox) × (start_operation_receipt_send "held" "w2" 20 table ≡ ok t')
      × (r' : Receipt) × (get_operation_receipt "held" t' ≡ some r')
      × (r'.status ≡ sending)
      × (r'.claim_id ≡ some "w2"))
    × ((d : String)
        → d ≢ "w2"
        → start_operation_receipt_send "held" d 20 table
          ≡ err (key_error "operation receipt claim not found"))
unfolding get_operation_receipt
start-exclusive_example =
    start-exclusive "held" "w2" 20 table (receipt "held" claimed 8 (some "w2")) table-Keyed refl
      refl refl
