-- ===== src/OperationState/NavReceipts.antt =====
-- The outbox of NAV receipts: src/app/operation_state/_nav_receipt_mixin.py. A claim is the send
-- itself here, and an expired lease makes the receipt eligible again.
pub mod Lifecycle
pub mod Sends
use portfolio_management.Common.{
  ℕ, ◌+◌, ◌-◌, ◌*◌, String, Bool, true, false, ◌&&◌, ◌||◌, Option, none, some, List, [], ◌∷◌, ◌++◌,
  leb, ◌==◌, min, max, get_or, length, if◌then◌else◌, str_eq, opt_is, or_else, value_error,
  key_error, Result, ok, err, keep, take, map,
}
use portfolio_management.Common.Table.{update, row_count, fetch_one, order_by}
use portfolio_management.OperationState.Retry.{lease_expired, minute, retry_minutes}

pub data SendStatus : Type 0 where
  pending sending sent failed : SendStatus

pub record NavReceipt : Type 0 where
  pub receipt_key : String
  pub payload_json : String
  pub status : SendStatus
  pub attempt_count : ℕ
  pub next_attempt_at : ℕ
  pub claim_id : Option String
  pub claimed_at : Option ℕ
  pub message_id : Option String
  pub last_error : Option String
  pub created_at : ℕ
  pub updated_at : ℕ

abbrev pub NavOutbox : Type 0
NavOutbox = List NavReceipt

abbrev pub has_receipt : String → NavReceipt → Bool
has_receipt k r = str_eq r.receipt_key k

abbrev pub is_sending : SendStatus → Bool
is_sending sending = true
is_sending _ = false

-- `status IN ('pending', 'failed')`
abbrev pub is_open : SendStatus → Bool
is_open pending = true
is_open failed = true
is_open _ = false

unfoldable pub new_nav_receipt : String → String → ℕ → NavReceipt
new_nav_receipt key payload now = record {
  receipt_key = key;
  payload_json = payload;
  status = pending;
  attempt_count = 0;
  next_attempt_at = now;
  claim_id = none;
  claimed_at = none;
  message_id = none;
  last_error = none;
  created_at = now;
  updated_at = now;
}

unfoldable pub insert_or_compare :
    String → String → ℕ → NavOutbox → Option NavReceipt → Result (Bool × NavOutbox)
unfolding new_nav_receipt
insert_or_compare key payload now t none = ok (true, t ++ new_nav_receipt key payload now ∷ [])
insert_or_compare key payload now t (some r) =
    if str_eq r.payload_json payload
    then ok (false, t)
    else err (value_error "NAV receipt key collision with different payload")

unfoldable pub enqueue_nav_receipt : String → String → ℕ → NavOutbox → Result (Bool × NavOutbox)
unfolding insert_or_compare
enqueue_nav_receipt key payload now t =
    insert_or_compare key payload now t (fetch_one (has_receipt key) t)

unfoldable pub send_expired : ℕ → NavReceipt → Bool
send_expired now r = is_sending r.status && lease_expired now r.claimed_at

-- the time of the next attempt is left as it was
unfoldable pub release_send : ℕ → NavReceipt → NavReceipt
release_send now r = record r {
  status = failed;
  claim_id = none;
  claimed_at = none;
  last_error = some (or_else r.last_error "dispatcher claim expired");
  updated_at = now;
}

unfoldable pub is_due : ℕ → NavReceipt → Bool
is_due now r = is_open r.status && leb r.next_attempt_at now

unfoldable pub key_filter : Option String → NavReceipt → Bool
key_filter none r = true
key_filter (some k) r = str_eq k "" || has_receipt k r

-- The query of both `list_due_nav_receipts` and the claim.
unfoldable pub list_due_nav_receipts : ℕ → Option String → ℕ → NavOutbox → List NavReceipt
unfolding is_due key_filter order_by
list_due_nav_receipts limit key now t =
    take limit (order_by (λ r. r.created_at) (keep (λ r. is_due now r && key_filter key r) t))

unfoldable pub begin_send : String → ℕ → NavReceipt → NavReceipt
begin_send claim now r = record r {
  status = sending;
  claim_id = some claim;
  claimed_at = some now;
  updated_at = now;
}

-- the WHERE clause of the claim
unfoldable pub due_row : String → ℕ → NavReceipt → Bool
unfolding is_due
due_row key now r = has_receipt key r && is_due now r

unfoldable pub claim_rows : String → ℕ → List NavReceipt → NavOutbox → List NavReceipt × NavOutbox
unfolding due_row begin_send
claim_rows claim now [] t = ([], t)
claim_rows claim now (r ∷ rs) t =
    let (rest, t') =
      claim_rows claim now rs (update (due_row r.receipt_key now) (begin_send claim now) t) in
    (if row_count (due_row r.receipt_key now) t == 1 then r ∷ rest else rest, t')

abbrev pub resolve_claim : Option String → String → String
resolve_claim none fresh = fresh
resolve_claim (some c) fresh = if str_eq c "" then fresh else c

as_returned : String → ℕ → NavReceipt → NavReceipt
as_returned claim now r = record r {
  status = sending;
  claim_id = some claim;
  claimed_at = some now;
}

unfoldable pub claim_due_nav_receipts :
    ℕ → Option String → Option String → String → ℕ → NavOutbox → List NavReceipt × NavOutbox
unfolding send_expired release_send list_due_nav_receipts claim_rows as_returned
claim_due_nav_receipts limit key claim_id fresh now t =
    let claim = resolve_claim claim_id fresh in
    let t' = update (send_expired now) (release_send now) t in
    let (rows, t'') = claim_rows claim now (list_due_nav_receipts limit key now t') t' in
    (map (as_returned claim now) rows, t'')

-- `_RETRY_MINUTES[min(max(attempt_count - 1, 0), len(_RETRY_MINUTES) - 1)]` minutes
unfoldable pub send_delay : ℕ → ℕ
send_delay attempt =
    get_or retry_minutes (min (max (attempt - 1) 0) (length retry_minutes - 1)) 0 * minute

unfoldable pub holds_send : String → String → NavReceipt → Bool
holds_send key claim r = has_receipt key r && (is_sending r.status && opt_is r.claim_id claim)

unfoldable pub finish_send : Bool → ℕ → Option String → Option String → ℕ → NavReceipt → NavReceipt
unfolding send_delay
finish_send success attempt message error now r = record r {
  status = if success then sent else failed;
  attempt_count = attempt;
  next_attempt_at = now + send_delay attempt;
  claim_id = none;
  claimed_at = none;
  message_id = message;
  last_error = error;
  updated_at = now;
}

mark_found :
    String
    → String
    → Bool
    → Option String
    → Option String
    → ℕ
    → NavOutbox
    → Option NavReceipt
    → Result NavOutbox
unfolding holds_send finish_send
mark_found key claim success message error now t none =
    err (key_error "nav receipt claim not found")
mark_found key claim success message error now t (some r) =
    ok (
      update (holds_send key claim) (finish_send success (r.attempt_count + 1) message error now) t)

unfoldable pub mark_nav_receipt :
    String → String → Bool → Option String → Option String → ℕ → NavOutbox → Result NavOutbox
unfolding mark_found
mark_nav_receipt key claim success message error now t =
    mark_found key claim success message error now t (fetch_one (holds_send key claim) t)

unfoldable pub get_nav_receipt : String → NavOutbox → Option NavReceipt
get_nav_receipt key t = fetch_one (has_receipt key) t
