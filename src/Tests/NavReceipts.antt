-- ===== src/Tests/NavReceipts.antt =====
-- Tests of the NAV receipt outbox (src/app/operation_state/_nav_receipt_mixin.py).
use portfolio_management.Common.{
  ℕ, ◌+◌, ◌*◌, ◌≤◌, ◌≡◌, ◌≢◌, refl, String, true, false, Option, none, some, List, [], ◌∷◌, ok, err,
  key_error, if◌then◌else◌, length,
}
use portfolio_management.OperationState.Retry.{minute}
use portfolio_management.OperationState.NavReceipts.{
  NavReceipt, NavOutbox, SendStatus, pending, sending, sent, failed, mark_nav_receipt,
  get_nav_receipt, claim_due_nav_receipts,
}
use portfolio_management.OperationState.NavReceipts.Lifecycle.{Op, enqueue, claim, mark}
use portfolio_management.OperationState.NavReceipts.Sends.{mark-settles}

abbrev pub receipt : String → SendStatus → Option String → NavReceipt
receipt key status owner = record {
  receipt_key = key;
  payload_json = "{}";
  status = status;
  attempt_count = 1;
  next_attempt_at = 5;
  claim_id = owner;
  claimed_at = some 5;
  message_id = none;
  last_error = none;
  created_at = 5;
  updated_at = 5;
}

abbrev table : NavOutbox
table =
    receipt "done" sent none
    ∷ receipt "flying" sending (some "w1")
    ∷ receipt "new" pending none
    ∷ []

abbrev work : List (ℕ × Op)
work =
    (10, enqueue "k" "{}")
    ∷ (20 * minute, claim 10 none none "w2")
    ∷ (21 * minute, mark "flying" "w2" true (some "m") none)
    ∷ (22 * minute, mark "done" "w1" false none none)
    ∷ []

-- a claim after the lease takes the send that was lost as well
retakes : length (claim_due_nav_receipts 10 none none "w2" (20 * minute) table).0 ≡ 2
unfolding claim_due_nav_receipts
retakes = refl

mark-settles_example :
    ((t' : NavOutbox) × (mark_nav_receipt "flying" "w1" true none none 10 table ≡ ok t')
      × (r' : NavReceipt) × (get_nav_receipt "flying" t' ≡ some r')
      × (r'.status ≡ (if true then sent else failed))
      × (r'.attempt_count ≡ 1 + 1)
      × (r'.claim_id ≡ none)
      × (10 + minute ≤ r'.next_attempt_at)
      × (r'.next_attempt_at ≤ 10 + 60 * minute))
    × ((d : String)
        → d ≢ "w1"
        → mark_nav_receipt "flying" d true none none 10 table
          ≡ err (key_error "nav receipt claim not found"))
unfolding get_nav_receipt
mark-settles_example =
    mark-settles "flying" "w1" true none none 10 table (receipt "flying" sending (some "w1"))
      (refl, (refl, (refl, tt))) refl refl refl
