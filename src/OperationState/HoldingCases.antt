-- ===== src/OperationState/HoldingCases.antt =====
-- The reconciliation cases of holdings: the rows and events of
-- src/app/operation_state/_holding_case_mixin.py. JSON columns are their canonical texts, except
-- `current_json` and `resolution_json`, which the code also reads and which are their values here.
pub mod Contract
pub mod Supersede
pub mod Migrate
pub mod Materialize
pub mod Resolve
pub mod Apply
pub mod Coverage
pub mod Duplicates
pub mod Audit
pub mod Held
pub mod Attempts
pub mod Preparations
pub mod Closings
pub mod Closed
use portfolio_management.Common.{
  ℕ, ◌≡◌, refl, Returns, returned, >>=-Returns_any, String, Bool, true, false, Option, none, some,
  List, [], ◌∷◌, ◌++◌, if◌then◌else◌, str_eq, text_in, opt_eq, Result, ok, ◌>>=◌, Json, text_json,
  Members, member, end, object_json, canonical_json, get_member, members, members_of, merge,
  raw_json,
}
use portfolio_management.OperationState.Receipts.{Outbox, insert_repeatable_closure_receipt_tx}

pub record Case : Type 0 where
  pub case_key : String
  pub record_id : String
  pub account : Option String
  pub identity_json : String
  pub field : String
  pub kind : String
  pub blocks_official_nav : Bool
  pub policy_version : String
  pub authority_id : Option String
  pub current : Json
  pub proposed_json : String
  pub record_digest : String
  pub case_precondition_digest : String
  pub latest_evidence_instance_id : Option String
  pub evidence_json : String
  pub state : String
  pub resolution : Option Json
  pub target_json : Option String
  pub before_json : Option String
  pub apply_attempt_id : Option String
  pub remote_attempt_started_at : Option ℕ
  pub last_error : Option String
  pub created_at : ℕ
  pub updated_at : ℕ

pub record CaseEvent : Type 0 where
  pub case_key : String
  pub event_type : String
  pub payload : Json
  pub created_at : ℕ

pub record CaseStore : Type 0 where
  pub rows : List Case
  pub events : List CaseEvent
  pub outbox : Outbox

-- An observed case. A text that is missing is "", a value that is missing or null is `none`; the
-- values of `identity`, `proposed` and `evidence` are their canonical texts.
pub record Candidate : Type 0 where
  pub case_key : String
  pub record_id : String
  pub account : Option String
  pub identity : Option String
  pub field : String
  pub kind : String
  pub blocks_official_nav : Bool
  pub policy_version : String
  pub authority_id : Option String
  pub current : Json
  pub proposed : String
  pub record_digest : String
  pub case_precondition_digest : String
  pub legacy_case_precondition_digest : String
  pub latest_evidence_instance_id : Option String
  pub evidence : Option String
  pub state : String

abbrev pub open_states : List String
open_states =
    "pending_apply" ∷ "pending_confirmation" ∷ "pending_manual_edit" ∷ "applying"
    ∷ "failed_retryable" ∷ "apply_outcome_unknown" ∷ []

abbrev pub superseedable_states : List String
superseedable_states = open_states ++ "resolved_keep" ∷ []

abbrev pub reopenable_states : List String
reopenable_states = "resolved_accept" ∷ "resolved_external" ∷ "superseded" ∷ []

abbrev pub case_key_of : Case → String
case_key_of r = r.case_key

abbrev pub has_case_key : String → Case → Bool
has_case_key k r = str_eq r.case_key k

unfoldable pub insert_case_event_tx : String → String → Members → ℕ → CaseStore → CaseStore
insert_case_event_tx key type payload now s =
    let event : CaseEvent = record {
      case_key = key;
      event_type = type;
      payload = object_json payload;
      created_at = now;
    } in
    record s { events = s.events ++ event ∷ [] }

-- the members of an earlier resolution, if there is one
abbrev pub with_previous : Option Json → Members → Members
with_previous none d = d
with_previous (some j) d = merge d (member "previous_resolution" j end)

-- What a closing call returns: the keys of the receipts it added, and those it left alone.
unfoldable pub enqueue_closure :
    Bool → String → Members → ℕ → CaseStore → Result (List String × CaseStore)
enqueue_closure false key payload now s = ok ([], s)
enqueue_closure true key payload now s = do
  added ←
      insert_repeatable_closure_receipt_tx key (canonical_json (object_json payload)) now s.outbox
  ok (if added.0 then key ∷ [] else [], record s { outbox = added.1 })

-- A closing call writes no case.
pub closure-rows :
    (enqueue : Bool) (key : String) (payload : Members) (now : ℕ) (s : CaseStore)
    → Returns
        (λ (added : List String × CaseStore). added.1.rows ≡ s.rows)
        (enqueue_closure enqueue key payload now s)
unfolding enqueue_closure
closure-rows false key payload now s = returned refl
closure-rows true key payload now s =
    >>=-Returns_any (λ (added : List String × CaseStore). added.1.rows ≡ s.rows) _ _
      (λ (o : Bool × Outbox). returned refl)
