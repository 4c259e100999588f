-- ===== src/Tests/NavDispatches.antt =====
-- The dispatch of NAV receipts: a job that was announced, and one that a sender announces now.
use portfolio_management.Common.{◌≡◌, refl, true, false, none, some, [], ◌∷◌, ok, Result, strip}
use portfolio_management.OperationState.NavReceipts.{
  NavOutbox, sent, pending, get_nav_receipt, enqueue_nav_receipt, claim_due_nav_receipts,
  mark_nav_receipt,
}
use portfolio_management.OperationState.NavDispatch.{
  Sender, answers, NavResult, NavOutcome, Job, enqueue_and_dispatch,
}
use portfolio_management.OperationState.NavDispatch.Repeats.{enqueue-deduplicates}
use portfolio_management.Tests.NavReceipts.{receipt}

abbrev job : Job
job = record { dry_run = false; run_id = " 7 "; payload = "{}" }

abbrev sender : Sender
sender payload =
    answers
      (record { success = true; status = some "accepted"; message_id = some "m7"; error = none })

abbrev table : NavOutbox
table = receipt "nav:7" sent none ∷ receipt "nav:8" pending none ∷ []

enqueue-deduplicates_example :
    (t' : NavOutbox) × (a : NavResult) × (enqueue_and_dispatch sender (λ i. 20) job "w" 10 table
      ≡ (t', ok a))
    × (a.success ≡ true)
    × (a.status ≡ some "sent")
    × (a.message_id ≡ (receipt "nav:7" sent none).message_id)
    × (a.error ≡ none)
    × (a.receipt_key ≡ some "nav:7")
    × (a.deduplicated ≡ true)
    × (get_nav_receipt "nav:7" t' ≡ some (receipt "nav:7" sent none))
unfolding get_nav_receipt strip
enqueue-deduplicates_example =
    enqueue-deduplicates sender (λ i. 20) job "w" 10 table (receipt "nav:7" sent none) refl refl
      (refl, (refl, tt)) refl refl refl

-- A job that was not announced is sent at once, and the receipt keeps the message.
abbrev result_of : NavOutcome NavResult → Result NavResult
result_of (t, r) = r

sends :
    result_of (enqueue_and_dispatch sender (λ i. 20) job "w" 10 [])
    ≡ ok (record {
      success = true;
      status = some "accepted";
      message_id = some "m7";
      error = none;
      receipt_key = some "nav:7";
      deduplicated = false;
    })
unfolding enqueue_and_dispatch strip enqueue_nav_receipt claim_due_nav_receipts mark_nav_receipt
sends = refl
