-- ===== src/OperationState/ReceiptOutbox.antt =====
-- The operations of the receipt outbox: src/app/operation_state/_operation_receipt_mixin.py. The
-- clock's reading and a fresh uuid are arguments.
pub mod Operations
pub mod Keys
pub mod Claims
pub mod Retries
pub mod Edges
pub mod Lifecycle
pub mod Delivery
pub mod Sends
pub mod Distinct
use portfolio_management.Common.{
  ℕ, suc, ◌+◌, ◌≤◌, ◌≡◌, String, Bool, true, false, not, ◌&&◌, ◌||◌, Option, none, some, List, [],
  ◌∷◌, ◌++◌, leb, ◌==◌, if◌then◌else◌, str_eq, opt_is, opt_leb, or_else, Error, value_error,
  key_error, Result, ok, err, ◌>>=◌, ◌>>◌, raise_if, keep, take, map, text_in,
}
use portfolio_management.OperationState.Receipts.{
  Outbox, Receipt, Status, claimed, closure_over, failed, has_key, insert_operation_receipt_tx,
  insert_or_compare, insert_repeatable_closure_receipt_tx, is_claimed, is_open, is_sending,
  is_unknown, new_receipt, pending, sending, sent, supported_types, unknown,
}
use portfolio_management.Common.Table.{update, row_count, fetch_one, order_by}
use portfolio_management.OperationState.Retry.{lease_expired, retry_delay}

unfoldable pub enqueue_operation_receipt :
    String → String → String → ℕ → Outbox → Result (Bool × Outbox)
unfolding insert_operation_receipt_tx
enqueue_operation_receipt key type payload now t =
    insert_operation_receipt_tx key type payload now t

-- UPDATE … SET status = 'failed' … WHERE status = 'claimed' AND claimed_at <= ?
unfoldable pub claim_expired : ℕ → Receipt → Bool
claim_expired now r = is_claimed r.status && lease_expired now r.claimed_at

unfoldable pub release_claim : ℕ → Receipt → Receipt
release_claim now r = record r {
  status = failed;
  claim_id = none;
  claimed_at = none;
  last_error = some (or_else r.last_error "dispatcher claim expired");
  next_attempt_at = now;
  updated_at = now;
}

-- UPDATE … SET status = 'unknown' … WHERE status = 'sending' AND send_started_at <= ?
unfoldable pub send_expired : ℕ → Receipt → Bool
send_expired now r = is_sending r.status && lease_expired now r.send_started_at

unfoldable pub release_send : ℕ → Receipt → Receipt
release_send now r = record r {
  status = unknown;
  claim_id = none;
  last_error = some (or_else r.last_error "sending lease expired");
  updated_at = now;
}

pub expire_leases : ℕ → Outbox → Outbox
unfolding claim_expired release_claim send_expired release_send
expire_leases now t =
    update (send_expired now) (release_send now) (update (claim_expired now) (release_claim now) t)

-- `status IN ('pending', 'failed') AND next_attempt_at <= ?`
unfoldable pub is_due : ℕ → Receipt → Bool
is_due now r = is_open r.status && leb r.next_attempt_at now

-- `if receipt_key: query += " AND receipt_key = ?"`; an absent or empty key filters nothing
key_filter : Option String → Receipt → Bool
key_filter none r = true
key_filter (some k) r = str_eq k "" || has_key k r

unfoldable pub take_claim : String → ℕ → Receipt → Receipt
take_claim claim now r = record r {
  status = claimed;
  claim_id = some claim;
  claimed_at = some now;
  updated_at = now;
}

-- the selected rows are claimed one by one; a row that a statement did not hit is not returned
pub claim_rows : String → ℕ → List Receipt → Outbox → List Receipt × Outbox
unfolding is_due take_claim
claim_rows claim now [] t = ([], t)
claim_rows claim now (r ∷ rs) t =
    let hit = λ (x : Receipt). has_key r.receipt_key x && is_due now x in
    let (rest, t') = claim_rows claim now rs (update hit (take_claim claim now) t) in
    (if row_count hit t == 1 then r ∷ rest else rest, t')

select_due : ℕ → Option String → ℕ → Outbox → List Receipt
unfolding is_due key_filter order_by
select_due limit key now t =
    take limit (order_by (λ r. r.created_at) (keep (λ r. is_due now r && key_filter key r) t))

-- `claim_id or uuid4().hex`
abbrev pub resolve_claim : Option String → String → String
resolve_claim none fresh = fresh
resolve_claim (some c) fresh = if str_eq c "" then fresh else c

-- `item.update({...})` on the row as it was selected
as_returned : String → ℕ → Receipt → Receipt
as_returned claim now r = record r {
  status = claimed;
  claim_id = some claim;
  claimed_at = some now;
}

-- `limit` is a natural number: a negative one, which SQLite reads as no limit, is not modelled.
unfoldable pub claim_due_operation_receipts :
    ℕ → Option String → Option String → String → ℕ → Outbox → List Receipt × Outbox
unfolding expire_leases claim_rows select_due as_returned
claim_due_operation_receipts limit key claim_id fresh now t =
    let claim = resolve_claim claim_id fresh in
    let t' = expire_leases now t in
    let (rows, t'') = claim_rows claim now (select_due limit key now t') t' in
    (map (as_returned claim now) rows, t'')

unfoldable pub holds_claim : String → String → Receipt → Bool
holds_claim key claim r = has_key key r && (is_claimed r.status && opt_is r.claim_id claim)

unfoldable pub start_send : ℕ → Receipt → Receipt
start_send now r = record r { status = sending; send_started_at = some now; updated_at = now }

unfoldable pub start_operation_receipt_send : String → String → ℕ → Outbox → Result Outbox
unfolding holds_claim start_send
start_operation_receipt_send key claim now t =
    if row_count (holds_claim key claim) t == 1
    then ok (update (holds_claim key claim) (start_send now) t)
    else err (key_error "operation receipt claim not found")

-- the texts that `outcome` may be
abbrev pub outcome_status : String → Option Status
outcome_status s =
    if str_eq s "sent"
    then some sent
    else if str_eq s "failed"
    then some failed
    else if str_eq s "unknown"
    then some unknown
    else none

unfoldable pub holds_send : String → String → Receipt → Bool
holds_send key claim r = has_key key r && (is_sending r.status && opt_is r.claim_id claim)

unfoldable pub finish_send : Status → ℕ → Option String → Option String → ℕ → Receipt → Receipt
finish_send outcome attempt message error now r = record r {
  status = outcome;
  attempt_count = attempt;
  next_attempt_at = now + retry_delay attempt;
  claim_id = none;
  claimed_at = none;
  message_id = message;
  last_error = error;
  updated_at = now;
}

finish_found :
    String
    → String
    → Status
    → Option String
    → Option String
    → ℕ
    → Outbox
    → Option Receipt
    → Result Outbox
unfolding holds_send finish_send
finish_found key claim outcome message error now t none =
    err (key_error "operation receipt send not found")
finish_found key claim outcome message error now t (some r) =
    ok (
      update (holds_send key claim) (finish_send outcome (r.attempt_count + 1) message error now) t)

mark_as :
    String → String → Option Status → Option String → Option String → ℕ → Outbox → Result Outbox
unfolding finish_found
mark_as key claim none message error now t = err (value_error "unsupported receipt outcome")
mark_as key claim (some outcome) message error now t =
    finish_found key claim outcome message error now t (fetch_one (holds_send key claim) t)

unfoldable pub mark_operation_receipt :
    String → String → String → Option String → Option String → ℕ → Outbox → Result Outbox
unfolding mark_as
mark_operation_receipt key claim outcome message error now t =
    mark_as key claim (outcome_status outcome) message error now t

-- `"failed" if decision == "retry" else "sent"`, behind the check of the decision
abbrev pub decision_status : String → Option Status
decision_status s =
    if str_eq s "retry" then some failed else if str_eq s "mark-sent" then some sent else none

unfoldable pub holds_unknown : String → Receipt → Bool
holds_unknown key r = has_key key r && is_unknown r.status

unfoldable pub settle_unknown : Status → String → ℕ → Receipt → Receipt
settle_unknown status note now r = record r {
  status = status;
  next_attempt_at = now;
  last_error = some note;
  updated_at = now;
}

resolve_found : String → Status → String → ℕ → Outbox → Option Receipt → Result Outbox
unfolding holds_unknown settle_unknown
resolve_found key status note now t none = err (key_error "operation receipt not found")
resolve_found key status note now t (some r) =
    if not (is_unknown r.status)
    then err (value_error "operation receipt is not unknown")
    else ok (update (holds_unknown key) (settle_unknown status note now) t)

resolve_as : String → Option Status → String → ℕ → Outbox → Result Outbox
unfolding resolve_found
resolve_as key none note now t = err (value_error "unsupported receipt resolution")
resolve_as key (some status) note now t =
    resolve_found key status note now t (fetch_one (has_key key) t)

-- `note` is the canonical JSON text of the decision and the operator's context
unfoldable pub resolve_operation_receipt : String → String → String → ℕ → Outbox → Result Outbox
unfolding resolve_as
resolve_operation_receipt key decision note now t =
    resolve_as key (decision_status decision) note now t

unfoldable pub get_operation_receipt : String → Outbox → Option Receipt
get_operation_receipt key t = fetch_one (has_key key) t
