-- ===== src/OperationState/HoldingCases/Contract.antt =====
-- When a stored case may take a new precondition digest: src/app/holding_case_contract.py.
-- `sha256` is the hexadecimal SHA-256 digest of a text.
use portfolio_management.Common.{
  String, Bool, false, not, ◌&&◌, ◌||◌, Option, none, some, List, [], ◌∷◌, if◌then◌else◌, str_eq,
  text_in, opt_eq, opt_is, or_else, Json, text_json, member, end, object_json, canonical_json,
  get_member, members_of, nullable_text, join_text, strip, is_hex_digest, after_prefix,
}
use portfolio_management.OperationState.HoldingCases.{Case, Candidate}

abbrev pub precondition_contract_version : String
precondition_contract_version = "holdings-precondition.v2"

abbrev pub legacy_precondition_contract_version : String
legacy_precondition_contract_version = "holdings-precondition.v1"

pub data Transition : Type 0 where
  exact legacy_migratable reject : Transition

abbrev pub asset_type_dependent_fields : List String
asset_type_dependent_fields = "currency" ∷ "asset_class" ∷ []

abbrev pub legacy_migratable_states : List String
legacy_migratable_states =
    "pending_apply" ∷ "pending_confirmation" ∷ "pending_manual_edit" ∷ "resolved_keep"
    ∷ "resolved_accept" ∷ "resolved_external" ∷ "superseded" ∷ []

is_hex_after : Option String → Bool
is_hex_after none = false
is_hex_after (some s) = is_hex_digest s

unfoldable pub precondition_contract : String → Option String
unfolding is_hex_after
precondition_contract digest =
    let normalized = strip digest in
    if is_hex_after (after_prefix (join_text (precondition_contract_version ∷ ":" ∷ [])) normalized)
    then some precondition_contract_version
    else if is_hex_digest normalized
    then some legacy_precondition_contract_version
    else none

-- the fields of a case that its confirmation covers
unfoldable pub confirmation_scope :
    (String → String) → String → String → Option String → String → String
confirmation_scope sha256 key digest authority policy = sha256 (
    canonical_json (
      object_json (
        member "case_key" (text_json key) (
          member "case_precondition_digest" (text_json digest) (
            member "authority_id" (nullable_text authority)
              (member "policy_version" (text_json policy) end))))))

abbrev pub is_text : Option Json → String → Bool
is_text (some (text_json t)) s = str_eq t s
is_text _ s = false

unfoldable pub same_semantics : Case → Candidate → Bool
same_semantics stored c =
    str_eq stored.case_key c.case_key
    && str_eq stored.record_id c.record_id
    && str_eq stored.identity_json (or_else c.identity "null")
    && str_eq stored.field c.field
    && str_eq stored.kind c.kind
    && str_eq (canonical_json stored.current) (canonical_json c.current)
    && str_eq stored.proposed_json c.proposed
    && opt_eq stored.authority_id c.authority_id
    && str_eq stored.policy_version c.policy_version

-- the confirmation of a case that was kept is that of the stored digest
unfoldable pub keeps_scope : (String → String) → Case → Bool
unfolding confirmation_scope
keeps_scope sha256 stored =
    not (str_eq stored.state "resolved_keep")
    || is_text (get_member "confirmation_scope" (members_of stored.resolution)) (
        confirmation_scope sha256 stored.case_key stored.case_precondition_digest
          stored.authority_id stored.policy_version)

unfoldable pub classify_precondition_transition : (String → String) → Case → Candidate → Transition
unfolding precondition_contract same_semantics keeps_scope
classify_precondition_transition sha256 stored c =
    let stored_digest = strip stored.case_precondition_digest in
    let candidate_digest = strip c.case_precondition_digest in
    if str_eq stored_digest candidate_digest
    then exact
    else if not (opt_is (precondition_contract stored_digest) legacy_precondition_contract_version)
        || not (opt_is (precondition_contract candidate_digest) precondition_contract_version)
        || not (text_in stored.state legacy_migratable_states)
    then reject
    else if not (same_semantics stored c)
    then reject
    else if text_in c.field asset_type_dependent_fields
        && not (str_eq stored_digest c.legacy_case_precondition_digest)
    then reject
    else if not (keeps_scope sha256 stored)
    then reject
    else legacy_migratable
