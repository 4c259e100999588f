-- ===== src/Tests/Refreshes.antt =====
-- Tests of the Futu refresh inbox (src/app/operation_state/_futu_refresh_mixin.py).
use portfolio_management.Common.{
  ℕ, ◌≤◌, ◌≡◌, ◌≢◌, refl, String, true, false, Option, none, some, List, [], ◌∷◌, ok, err,
  value_error,
}
use portfolio_management.OperationState.Receipts.{new_receipt, insert_operation_receipt_tx}
use portfolio_management.OperationState.FutuRefresh.{
  Refresh, RefreshState, Store, SyncResult, ReceiptPayload, pending, running, completed, settled,
  settle_futu_refresh, get_futu_refresh, claim_futu_refresh,
}
use portfolio_management.OperationState.FutuRefresh.Lifecycle.{
  Op, accept, recover, claim, settle, run, run-kept,
}
use portfolio_management.OperationState.FutuRefresh.Settlement.{Announced, settle-completes}

abbrev refresh : String → RefreshState → ℕ → Refresh
refresh id state attempts = record {
  account = "acc";
  request_id = id;
  state = state;
  attempt_count = attempts;
  next_attempt_at = 5;
  result_json = none;
  last_error = none;
  created_at = 5;
  updated_at = 5;
}

abbrev store : Store
store = record {
  refreshes =
      refresh "b" pending 0
      ∷ refresh "a" pending 0
      ∷ refresh "r" running 2
      ∷ refresh "d" completed 1
      ∷ [];
  outbox = [];
}

abbrev success : SyncResult
success = record { json = "{\"success\":true}"; success = true; error = none }

abbrev failure : SyncResult
failure = record { json = "{}"; success = false; error = none }

abbrev receipt : Option ReceiptPayload
receipt = some (record { account = "acc"; json = "{}" })

abbrev store_after : Store
store_after = record {
  refreshes =
      refresh "b" pending 0
      ∷ refresh "a" pending 0
      ∷ settled success 2 10 (refresh "r" running 2)
      ∷ refresh "d" completed 1
      ∷ [];
  outbox = new_receipt "futu-refresh-quantity:acc:r" "futu_refresh_quantity_changed" "{}" 10 ∷ [];
}

settle_run : settle_futu_refresh "acc" "r" success receipt 10 store ≡ ok store_after
unfolding settle_futu_refresh insert_operation_receipt_tx settled new_receipt
settle_run = refl

-- of two requests that are due at one time, the one with the lesser id is claimed first
abbrev request_of : Option Refresh → Option String
request_of none = none
request_of (some r) = some r.request_id

claims_lesser : request_of (claim_futu_refresh 10 store).0 ≡ some "a"
unfolding claim_futu_refresh
claims_lesser = refl

abbrev work : List (ℕ × Op)
work =
    (10, accept "acc" "n")
    ∷ (11, claim)
    ∷ (12, settle "acc" "a" failure none)
    ∷ (13, recover)
    ∷ (14, settle "acc" "d" success none)
    ∷ []

run-kept_example :
    (r' : Refresh) × (get_futu_refresh "acc" "d" (run work store) ≡ some r')
    × (1 ≤ r'.attempt_count)
    × (r'.created_at ≡ 5)
    × (completed ≡ completed → r' ≡ refresh "d" completed 1)
unfolding get_futu_refresh
run-kept_example = run-kept "acc" "d" work store (refresh "d" completed 1) refl

settle-completes_example :
    Announced "acc" "r" receipt store.outbox store_after.outbox
    × ((r' : Refresh) × (get_futu_refresh "acc" "r" store_after ≡ some r')
        × (r'.state ≡ completed)
        × (r'.result_json ≡ some success.json)
        × (r'.last_error ≡ none))
    × ((later : ℕ) (p : Option ReceiptPayload)
        → settle_futu_refresh "acc" "r" success p later store_after ≡ ok store_after)
    × ((other : SyncResult) (later : ℕ) (p : Option ReceiptPayload)
        → other.json ≢ success.json
        → settle_futu_refresh "acc" "r" other p later store_after
          ≡ err (value_error "completed Futu refresh has a different result"))
unfolding get_futu_refresh
settle-completes_example =
    settle-completes "acc" "r" success receipt 10 store store_after (refresh "r" running 2) refl
      refl refl settle_run
