-- ===== src/OperationState/Receipts.antt =====
-- The rows of the operation receipt outbox, and the inserts that other stores run in their own
-- transaction: src/app/operation_state/_receipt_tx.py. A block that raises is rolled back, so it
-- returns no table. Payloads are their canonical JSON texts.
use portfolio_management.Common.{
  ℕ, String, Bool, true, false, not, ◌&&◌, Option, none, some, List, [], ◌∷◌, ◌++◌, if◌then◌else◌,
  str_eq, value_error, Result, ok, err, ◌>>◌, raise_if, text_in,
}
use portfolio_management.Common.Table.{fetch_one}

-- the texts that the code writes to the `status` column
pub data Status : Type 0 where
  pending claimed sending sent failed unknown : Status

pub record Receipt : Type 0 where
  pub receipt_key : String
  pub receipt_type : String
  pub payload_json : String
  pub status : Status
  pub attempt_count : ℕ
  pub next_attempt_at : ℕ
  pub claim_id : Option String
  pub claimed_at : Option ℕ
  pub send_started_at : Option ℕ
  pub message_id : Option String
  pub last_error : Option String
  pub created_at : ℕ
  pub updated_at : ℕ

abbrev pub Outbox : Type 0
Outbox = List Receipt

abbrev pub has_key : String → Receipt → Bool
has_key k r = str_eq r.receipt_key k

abbrev pub is_claimed : Status → Bool
is_claimed claimed = true
is_claimed _ = false

abbrev pub is_sending : Status → Bool
is_sending sending = true
is_sending _ = false

-- `status IN ('pending', 'failed')`
abbrev pub is_open : Status → Bool
is_open pending = true
is_open failed = true
is_open _ = false

abbrev pub is_unknown : Status → Bool
is_unknown unknown = true
is_unknown _ = false

abbrev pub supported_types : List String
supported_types =
    "futu_refresh_quantity_changed" ∷ "non_futu_holdings_changed"
    ∷ "cash_flow_reconcile_attention_required" ∷ "holding_case_discovered" ∷ "holding_case_closed"
    ∷ "holding_case_attention_required" ∷ []

unfoldable pub new_receipt : String → String → String → ℕ → Receipt
new_receipt key type payload now = record {
  receipt_key = key;
  receipt_type = type;
  payload_json = payload;
  status = pending;
  attempt_count = 0;
  next_attempt_at = now;
  claim_id = none;
  claimed_at = none;
  send_started_at = none;
  message_id = none;
  last_error = none;
  created_at = now;
  updated_at = now;
}

-- INSERT OR IGNORE, then the comparison with the row that was there
unfoldable pub insert_or_compare :
    String → String → String → ℕ → Outbox → Option Receipt → Result (Bool × Outbox)
unfolding new_receipt
insert_or_compare key type payload now t none =
    ok (true, t ++ new_receipt key type payload now ∷ [])
insert_or_compare key type payload now t (some r) =
    if str_eq r.receipt_type type && str_eq r.payload_json payload
    then ok (false, t)
    else err (value_error "operation receipt key collision with different payload")

unfoldable pub insert_operation_receipt_tx :
    String → String → String → ℕ → Outbox → Result (Bool × Outbox)
unfolding insert_or_compare
insert_operation_receipt_tx key type payload now t = do
  raise_if (not (text_in type supported_types)) (value_error "unsupported operation receipt type")
  insert_or_compare key type payload now t (fetch_one (has_key key) t)

unfoldable pub closure_over : String → String → ℕ → Outbox → Option Receipt → Result (Bool × Outbox)
unfolding insert_operation_receipt_tx
closure_over key payload now t none =
    insert_operation_receipt_tx key "holding_case_closed" payload now t
closure_over key payload now t (some r) =
    if not (str_eq r.receipt_type "holding_case_closed")
    then err (value_error "operation receipt key collision with different type")
    else ok (false, t)

unfoldable pub insert_repeatable_closure_receipt_tx :
    String → String → ℕ → Outbox → Result (Bool × Outbox)
unfolding closure_over
insert_repeatable_closure_receipt_tx key payload now t =
    closure_over key payload now t (fetch_one (has_key key) t)
