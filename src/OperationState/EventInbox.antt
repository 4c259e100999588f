-- ===== src/OperationState/EventInbox.antt =====
-- What the two event inboxes share: the tables `cash_flow_event_inbox` and `holding_event_inbox`
-- have the same columns, and src/app/operation_state/_cash_flow_event_mixin.py and
-- _holding_event_mixin.py run the same statements on them to accept, claim and retry events.
pub mod Lifecycle
pub mod Edges
use portfolio_management.Common.{
  ℕ, suc, ◌+◌, String, Bool, true, false, ◌&&◌, Option, none, some, List, [], ◌∷◌, ◌++◌, leb, ◌==◌,
  if◌then◌else◌, str_eq, opt_is, opt_eq, or_else, value_error, Result, ok, err, keep, take, map,
}
use portfolio_management.Common.Table.{update, row_count, fetch_one, order_by}
use portfolio_management.OperationState.Retry.{lease_expired, retry_delay}

pub data EventState : Type 0 where
  pending claimed failed_retryable processed : EventState

-- The JSON object that is stored as an event's outcome: the entries that the stores write, and
-- the text of the caller's other entries; `workflow` is the text of the entry of that name.
pub record Outcome : Type 0 where
  pub other_entries : String
  pub workflow : Option String
  pub status : Option String
  pub attempt_count : Option ℕ
  pub receipt_keys : List String
  pub enqueued_receipt_keys : List String

pub record Event : Type 0 where
  pub event_id : String
  pub event_type : String
  pub file_token : String
  pub table_id : String
  pub revision : Option String
  pub action_list_json : String
  pub payload_digest : String
  pub state : EventState
  pub attempt_count : ℕ
  pub next_attempt_at : ℕ
  pub claim_id : Option String
  pub claimed_at : Option ℕ
  pub outcome : Option Outcome
  pub last_error : Option String
  pub received_at : ℕ
  pub updated_at : ℕ

-- The arguments of `accept_…_event`.
pub record Delivery : Type 0 where
  pub event_id : String
  pub event_type : String
  pub file_token : String
  pub table_id : String
  pub revision : Option String
  pub action_json : String
  pub payload_digest : String

abbrev pub Inbox : Type 0
Inbox = List Event

abbrev pub is_claimed : EventState → Bool
is_claimed claimed = true
is_claimed _ = false

-- `state IN ('pending', 'failed_retryable')`
abbrev pub is_open : EventState → Bool
is_open pending = true
is_open failed_retryable = true
is_open _ = false

abbrev pub has_id : String → Event → Bool
has_id k e = str_eq e.event_id k

unfoldable pub new_event : Delivery → ℕ → Event
new_event d now = record {
  event_id = d.event_id;
  event_type = d.event_type;
  file_token = d.file_token;
  table_id = d.table_id;
  revision = d.revision;
  action_list_json = d.action_json;
  payload_digest = d.payload_digest;
  state = pending;
  attempt_count = 0;
  next_attempt_at = now;
  claim_id = none;
  claimed_at = none;
  outcome = none;
  last_error = none;
  received_at = now;
  updated_at = now;
}

-- `actual == expected`
unfoldable pub same_delivery : Delivery → Event → Bool
same_delivery d e =
    str_eq e.event_type d.event_type
    && str_eq e.file_token d.file_token
    && str_eq e.table_id d.table_id
    && opt_eq e.revision d.revision
    && str_eq e.action_list_json d.action_json
    && str_eq e.payload_digest d.payload_digest

-- INSERT OR IGNORE, then the comparison of the stored row with the delivery
unfoldable pub accept_or_compare : Delivery → ℕ → Inbox → Option Event → Result (Bool × Inbox)
unfolding new_event same_delivery
accept_or_compare d now t none = ok (true, t ++ new_event d now ∷ [])
accept_or_compare d now t (some e) =
    if same_delivery d e
    then ok (false, t)
    else err (value_error "event id collision with different payload")

unfoldable pub accept_event : Delivery → ℕ → Inbox → Result (Bool × Inbox)
unfolding accept_or_compare
accept_event d now t = accept_or_compare d now t (fetch_one (has_id d.event_id) t)

unfoldable pub claim_expired : ℕ → Event → Bool
claim_expired now e = is_claimed e.state && lease_expired now e.claimed_at

unfoldable pub release_claim : ℕ → Event → Event
release_claim now e = record e {
  state = failed_retryable;
  claim_id = none;
  claimed_at = none;
  last_error = some (or_else e.last_error "worker claim expired");
  next_attempt_at = now;
  updated_at = now;
}

-- the WHERE clause of the claim: the row's key, and its state once more
unfoldable pub claimable : String → Event → Bool
claimable k e = has_id k e && is_open e.state

unfoldable pub take_claim : String → ℕ → Event → Event
take_claim claim now e = record e {
  state = claimed;
  claim_id = some claim;
  claimed_at = some now;
  updated_at = now;
}

unfoldable pub claim_rows : String → ℕ → List Event → Inbox → List Event × Inbox
unfolding claimable take_claim
claim_rows claim now [] t = ([], t)
claim_rows claim now (e ∷ es) t =
    let (rest, t') =
      claim_rows claim now es (update (claimable e.event_id) (take_claim claim now) t) in
    (if row_count (claimable e.event_id) t == 1 then e ∷ rest else rest, t')

-- `claim_id or uuid4().hex`
abbrev pub resolve_claim : Option String → String → String
resolve_claim none fresh = fresh
resolve_claim (some c) fresh = if str_eq c "" then fresh else c

as_returned : String → ℕ → Event → Event
as_returned claim now e = record e { state = claimed; claim_id = some claim; claimed_at = some now }

unfoldable pub claim_events : ℕ → Option String → String → ℕ → Inbox → List Event × Inbox
unfolding claim_expired release_claim claim_rows order_by as_returned
claim_events limit claim_id fresh now t =
    let claim = resolve_claim claim_id fresh in
    let t' = update (claim_expired now) (release_claim now) t in
    let due = keep (λ (e : Event). is_open e.state && leb e.next_attempt_at now) t' in
    let (rows, t'') = claim_rows claim now (take limit (order_by (λ e. e.received_at) due)) t' in
    (map (as_returned claim now) rows, t'')

-- `event_id = ? AND state = 'claimed' AND claim_id = ?`
unfoldable pub holds_claim : String → String → Event → Bool
holds_claim k claim e = has_id k e && (is_claimed e.state && opt_is e.claim_id claim)

unfoldable pub retry_later : ℕ → String → ℕ → Event → Event
retry_later attempt error now e = record e {
  state = failed_retryable;
  attempt_count = attempt;
  next_attempt_at = now + retry_delay attempt;
  claim_id = none;
  claimed_at = none;
  last_error = some error;
  updated_at = now;
}

unfoldable pub finish : Outcome → ℕ → Event → Event
finish outcome now e = record e {
  state = processed;
  outcome = some outcome;
  claim_id = none;
  claimed_at = none;
  last_error = none;
  updated_at = now;
}
