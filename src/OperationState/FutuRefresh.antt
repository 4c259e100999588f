-- ===== src/OperationState/FutuRefresh.antt =====
-- The inbox of Futu refresh requests: src/app/operation_state/_futu_refresh_mixin.py. A request's
-- key is its account and id, and a settlement also writes the receipt outbox.
pub mod Lifecycle
pub mod Settlement
pub mod Claims
use portfolio_management.Common.{
  ℕ, ◌+◌, ◌*◌, String, Bool, true, false, not, ◌&&◌, ◌||◌, Option, none, some, List, [], ◌∷◌, ◌++◌,
  leb, ltb, ◌==◌, if◌then◌else◌, str_eq, str_lt, join_text, or_else, is_some, value_error,
  key_error, Error, Result, ok, err, ◌>>=◌, ◌>>◌, raise_if, keep, opt_is,
}
use portfolio_management.Common.Table.{update, fetch_one}
use portfolio_management.OperationState.Retry.{minute, retry_delay}
use portfolio_management.OperationState.Receipts.{Outbox, insert_operation_receipt_tx}

pub data RefreshState : Type 0 where
  pending running completed : RefreshState

pub record Refresh : Type 0 where
  pub account : String
  pub request_id : String
  pub state : RefreshState
  pub attempt_count : ℕ
  pub next_attempt_at : ℕ
  pub result_json : Option String
  pub last_error : Option String
  pub created_at : ℕ
  pub updated_at : ℕ

pub record Store : Type 0 where
  pub refreshes : List Refresh
  pub outbox : Outbox

abbrev pub is_pending : RefreshState → Bool
is_pending pending = true
is_pending _ = false

abbrev pub is_running : RefreshState → Bool
is_running running = true
is_running _ = false

abbrev pub is_completed : RefreshState → Bool
is_completed completed = true
is_completed _ = false

-- `account = ? AND request_id = ?`
abbrev pub has_request : String → String → Refresh → Bool
has_request account id r = str_eq r.account account && str_eq r.request_id id

unfoldable pub new_refresh : String → String → ℕ → Refresh
new_refresh account id now = record {
  account = account;
  request_id = id;
  state = pending;
  attempt_count = 0;
  next_attempt_at = now;
  result_json = none;
  last_error = none;
  created_at = now;
  updated_at = now;
}

-- INSERT … ON CONFLICT DO NOTHING
unfoldable pub accept_futu_refresh : String → String → ℕ → Store → Store
unfolding new_refresh
accept_futu_refresh account id now s =
    if is_some (fetch_one (has_request account id) s.refreshes)
    then s
    else record s { refreshes = s.refreshes ++ new_refresh account id now ∷ [] }

unfoldable pub requeue : ℕ → Refresh → Refresh
requeue now r = record r { state = pending; next_attempt_at = now; updated_at = now }

unfoldable pub recover_futu_refreshes : ℕ → Store → Store
unfolding requeue
recover_futu_refreshes now s = record s {
  refreshes = update (λ (r : Refresh). is_running r.state) (requeue now) s.refreshes;
}

-- `state = 'pending' AND next_attempt_at <= ?`
unfoldable pub is_due : ℕ → Refresh → Bool
is_due now r = is_pending r.state && leb r.next_attempt_at now

-- ORDER BY next_attempt_at, account, request_id
unfoldable pub row_before : Refresh → Refresh → Bool
row_before a b =
    ltb a.next_attempt_at b.next_attempt_at
    || (a.next_attempt_at == b.next_attempt_at
        && (str_lt a.account b.account
            || (str_eq a.account b.account && str_lt a.request_id b.request_id)))

unfoldable pub first_from : Refresh → List Refresh → Refresh
unfolding row_before
first_from best [] = best
first_from best (r ∷ rs) = first_from (if row_before r best then r else best) rs

-- LIMIT 1
unfoldable pub first_row : List Refresh → Option Refresh
unfolding first_from
first_row [] = none
first_row (r ∷ rs) = some (first_from r rs)

unfoldable pub begin_attempt : ℕ → Refresh → Refresh
begin_attempt now r = record r {
  state = running;
  attempt_count = r.attempt_count + 1;
  updated_at = now;
}

unfoldable pub is_waiting : String → String → Refresh → Bool
is_waiting account id r = has_request account id r && is_pending r.state

claim_row : ℕ → Store → Option Refresh → Option Refresh × Store
unfolding begin_attempt is_waiting
claim_row now s none = (none, s)
claim_row now s (some r) = (
  some r,
  record s {
    refreshes = update (is_waiting r.account r.request_id) (begin_attempt now) s.refreshes;
  },
)

-- the row is returned as it was selected
unfoldable pub claim_futu_refresh : ℕ → Store → Option Refresh × Store
unfolding claim_row first_row is_due
claim_futu_refresh now s = claim_row now s (first_row (keep (is_due now) s.refreshes))

-- What the settlement reads of a result: its canonical JSON text, whether `success` is True, and
-- the text of its error, if it has one.
pub record SyncResult : Type 0 where
  pub json : String
  pub success : Bool
  pub error : Option String

pub record ReceiptPayload : Type 0 where
  pub account : String
  pub json : String

-- `(1, 5, 15, 60)[min(attempts - 1, 3)]` minutes, where index -1 is the last rung
unfoldable pub settle_delay : ℕ → ℕ
unfolding retry_delay
settle_delay attempts = if attempts == 0 then 60 * minute else retry_delay attempts

abbrev pub refresh_receipt_key : String → String → String
refresh_receipt_key account id = join_text ("futu-refresh-quantity:" ∷ account ∷ ":" ∷ id ∷ [])

unfoldable pub settled : SyncResult → ℕ → ℕ → Refresh → Refresh
unfolding settle_delay
settled result attempts now r = record r {
  state = if result.success then completed else pending;
  result_json = some result.json;
  last_error = if result.success then none else some (or_else result.error "sync unsuccessful");
  next_attempt_at = now + settle_delay attempts;
  updated_at = now;
}

unfoldable pub is_being_run : String → String → Refresh → Bool
is_being_run account id r = has_request account id r && is_running r.state

pub insert_refresh_receipt :
    String → String → Bool → Option ReceiptPayload → ℕ → Outbox → Result Outbox
insert_refresh_receipt account id success none now t = ok t
insert_refresh_receipt account id false (some p) now t = ok t
insert_refresh_receipt account id true (some p) now t = do
  raise_if (not (str_eq p.account account))
      (value_error "Futu receipt account does not match refresh")
  (_, t') ←
      insert_operation_receipt_tx (refresh_receipt_key account id) "futu_refresh_quantity_changed"
        p.json now t
  ok t'

abbrev pub not_running : Error
not_running = key_error "running Futu refresh not found"

pub settle_running :
    String → String → SyncResult → Option ReceiptPayload → ℕ → Store → Refresh → Result Store
unfolding insert_refresh_receipt settled is_being_run
settle_running account id result payload now s r = do
  outbox ← insert_refresh_receipt account id result.success payload now s.outbox
  ok (record {
    refreshes = update (is_being_run account id) (settled result r.attempt_count now) s.refreshes;
    outbox = outbox;
  })

-- the checks of the stored state
settle_in :
    RefreshState
    → String
    → String
    → SyncResult
    → Option ReceiptPayload
    → ℕ
    → Store
    → Refresh
    → Result Store
unfolding settle_running
settle_in completed account id result payload now s r =
    if opt_is r.result_json result.json
    then ok s
    else err (value_error "completed Futu refresh has a different result")
settle_in running account id result payload now s r =
    settle_running account id result payload now s r
settle_in pending account id result payload now s r = err not_running

settle_row :
    String → String → SyncResult → Option ReceiptPayload → ℕ → Store → Option Refresh → Result Store
unfolding settle_in
settle_row account id result payload now s none = err not_running
settle_row account id result payload now s (some r) =
    settle_in r.state account id result payload now s r

unfoldable pub settle_futu_refresh :
    String → String → SyncResult → Option ReceiptPayload → ℕ → Store → Result Store
unfolding settle_row
settle_futu_refresh account id result payload now s =
    settle_row account id result payload now s (fetch_one (has_request account id) s.refreshes)

unfoldable pub get_futu_refresh : String → String → Store → Option Refresh
get_futu_refresh account id s = fetch_one (has_request account id) s.refreshes
