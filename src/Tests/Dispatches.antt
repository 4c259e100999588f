-- ===== src/Tests/Dispatches.antt =====
-- Dispatches of operation receipts, with another worker beside them and without.
use portfolio_management.Common.{
  ok, map, length, All, false, ℕ, zero, suc, ◌≡◌, refl, String, true, Option, none, some, List, [],
  ◌∷◌, str_eq, if◌then◌else◌,
}
use portfolio_management.OperationState.Receipts.{Outbox, pending, failed, sent}
use portfolio_management.OperationState.ReceiptOutbox.{
  get_operation_receipt, claim_due_operation_receipts,
}
use portfolio_management.OperationState.ReceiptOutbox.Operations.{Op, enqueue}
use portfolio_management.OperationState.Dispatch.{
  Delivery, Rendered, returns, raises, World, DispatchReport, dispatch_pending, deliver, outcome_of,
}
use portfolio_management.OperationState.Dispatch.Settles.{Reported, attempted_key, dispatch-settles}
use portfolio_management.OperationState.ReceiptOutbox.Keys.{key_of}
use portfolio_management.Tests.Receipts.{receipt}

abbrev table : Outbox
table =
    receipt "late" pending 9 none ∷ receipt "early" failed 5 none ∷ receipt "done" sent 3 none ∷ []

abbrev accepted : Delivery
accepted = record {
  success = true;
  delivery_state = "Accepted";
  message_id = some "m1";
  error = none;
}

abbrev renderer : String → Option (String → Rendered)
renderer type =
    if str_eq type "holding_case_closed" then some (λ payload. returns accepted) else none

abbrev others : ℕ → List (ℕ × Op)
others (suc zero) = (20, enqueue "new" "holding_case_discovered" "{}") ∷ []
others _ = []

abbrev world : World
world = record { renderers = renderer; clock = λ i. 20; others = others }

-- A renderer that raises leaves the outcome unknown, and a type without one fails.
outcomes :
    (outcome_of accepted ≡ "sent")
    × (outcome_of
          (deliver (receipt "late" pending 9 none) (some (λ payload. raises "timeout" "OSError")))
        ≡ "unknown")
    × (outcome_of (deliver (receipt "late" pending 9 none) none) ≡ "failed")
unfolding outcome_of deliver
outcomes = (refl, refl, refl)

-- The same without the other worker.
abbrev alone : World
alone = record { renderers = renderer; clock = λ i. 20; others = λ i. [] }

dispatch-settles_example :
    let (rows, t') = claim_due_operation_receipts 10 none (some "w") "w" 10 table in
    let (t'', returned) = dispatch_pending alone 10 none "w" 10 table in
    (report : DispatchReport) × (returned ≡ ok report)
    × (map attempted_key report.results ≡ map key_of rows)
    × (report.attempted ≡ length rows)
    × All (Reported t'') report.results
    × ((j : String)
        → All (λ r. str_eq j r.receipt_key ≡ false) rows
        → get_operation_receipt j t'' ≡ get_operation_receipt j t')
dispatch-settles_example =
    dispatch-settles alone 10 none "w" 10 table (λ i. refl) (refl, (refl, (refl, tt)))

-- Both due receipts are claimed.
claimed_keys :
    map key_of (claim_due_operation_receipts 10 none (some "w") "w" 10 table).0
    ≡ "early" ∷ "late" ∷ []
unfolding claim_due_operation_receipts
claimed_keys = refl
