-- ===== src/OperationState/HoldingCases/Coverage.antt =====
-- Which duplicate cases an observation of the holdings covers, and how an old one ends:
-- `_reconcile_duplicate_cases_tx` of src/app/operation_state/_holding_case_mixin.py. A former group is
-- settled only where every member was observed with a complete identity or proven deleted.
use portfolio_management.Common.{
  String, Bool, true, false, not, ◌&&◌, ◌||◌, Option, none, some, List, [], ◌∷◌, if◌then◌else◌,
  str_eq, text_in, any_of, all_of, is_empty, Json, null_json, text_json, texts_json, raw_json,
  object_json, Members, member, end, get_member, members, canonical_json,
}
use portfolio_management.OperationState.HoldingCases.{Case, Candidate, open_states, has_case_key}
use portfolio_management.OperationState.HoldingCases.Resolve.{stored_identity}

-- What was observed of a record; the flags are whether the values are True.
pub record Fact : Type 0 where
  pub identity : Members
  pub identity_complete : Bool
  pub comparable : Bool
  pub record_digest : Option String

-- `duplicate_proof`; `raw` is its canonical text. `records` is in the order of the dict.
pub record Proof : Type 0 where
  pub complete : Bool
  pub records : List (String × Fact)
  pub covered_record_ids : List String
  pub proven_deleted_ids : List String
  pub raw : String

-- The dict `facts.get(record_id) or {}`
abbrev pub missing_fact : Fact
missing_fact = record {
  identity = end;
  identity_complete = false;
  comparable = false;
  record_digest = none;
}

abbrev pub fact_of : String → List (String × Fact) → Fact
fact_of k [] = missing_fact
fact_of k ((j, f) ∷ fs) = let rest = fact_of k fs in if str_eq j k then f else rest

abbrev pub is_truthy : Option Json → Bool
is_truthy none = false
is_truthy (some null_json) = false
is_truthy (some (text_json s)) = not (str_eq s "")
is_truthy (some (texts_json ss)) = not (is_empty ss)
is_truthy (some (raw_json s)) = true
is_truthy (some (object_json end)) = false
is_truthy (some (object_json (member _ _ _))) = true

unfoldable pub has_identity : Fact → Bool
has_identity f =
    f.identity_complete
    && all_of (λ k. is_truthy (get_member k f.identity)) ("asset_id" ∷ "account" ∷ "broker" ∷ [])

-- `set(current.get("record_ids") or [record_id])`
abbrev pub listed_ids : Option Json → String → List String
listed_ids (some (texts_json (s ∷ ss))) id = s ∷ ss
listed_ids _ id = id ∷ []

abbrev pub group_members : Case → List String
group_members r = listed_ids (get_member "record_ids" (members r.current)) r.record_id

unfoldable pub is_fully_observed : Proof → Case → Bool
unfolding has_identity
is_fully_observed proof r =
    text_in r.record_id proof.proven_deleted_ids
    || (text_in r.record_id proof.covered_record_ids
        && all_of
            (λ k. text_in k proof.proven_deleted_ids || has_identity (fact_of k proof.records))
            (group_members r))

unfoldable pub is_open_duplicate : Case → Bool
is_open_duplicate r = str_eq r.kind "duplicate_identity" && text_in r.state open_states

-- a candidate whose record has an old case that was not fully observed must be that case
unfoldable pub is_safe : Proof → List Case → Candidate → Bool
unfolding is_fully_observed
is_safe proof old_rows c =
    text_in c.record_id proof.covered_record_ids
    && (not
          (any_of (λ r. str_eq r.record_id c.record_id && not (is_fully_observed proof r)) old_rows)
        || any_of (has_case_key c.case_key) old_rows)

-- another record that was observed with the same identity
unfoldable pub has_twin : Proof → String → String → Bool
has_twin proof id identity =
    any_of (λ f. not (str_eq f.0 id) && str_eq (canonical_json (object_json f.1.identity)) identity)
      proof.records

-- How an old case ends, if it ends.
pub data Ending : Type 0 where
  deleted identity_changed repaired : Ending

abbrev pub ending_decision : Ending → String
ending_decision deleted = "record_deleted"
ending_decision identity_changed = "record_identity_changed"
ending_decision repaired = "fresh_scan_proved_repair"

abbrev pub ending_state : Ending → String
ending_state identity_changed = "superseded"
ending_state _ = "resolved_external"

-- `none` where the case stays open
unfoldable pub ending_of : Proof → Case → Option Ending
unfolding has_twin
ending_of proof r =
    let fact = fact_of r.record_id proof.records in
    let observed = canonical_json (object_json fact.identity) in
    if text_in r.record_id proof.proven_deleted_ids
    then some deleted
    else if not (str_eq (stored_identity r) observed)
    then some identity_changed
    else if not fact.comparable
    then none
    else if has_twin proof r.record_id observed
    then none
    else some repaired
