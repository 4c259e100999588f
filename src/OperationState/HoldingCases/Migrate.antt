-- ===== src/OperationState/HoldingCases/Migrate.antt =====
-- A stored case takes the identity and the precondition digest of an observed one:
-- `_migrate_case_precondition_tx` of src/app/operation_state/_holding_case_mixin.py.
use portfolio_management.Common.{
  ℕ, String, Bool, not, ◌&&◌, Option, none, some, List, if◌then◌else◌, ◌==◌, str_eq, Result, ok,
  err, ◌>>◌, raise_if, value_error, runtime_error, Json, text_json, object_json, member, end,
  set_member, members_of,
}
use portfolio_management.Common.Table.{update, row_count}
use portfolio_management.OperationState.HoldingCases.{
  Case, CaseStore, Candidate, has_case_key, insert_case_event_tx,
}
use portfolio_management.OperationState.HoldingCases.Contract.{
  Transition, exact, legacy_migratable, reject, classify_precondition_transition,
  confirmation_scope, legacy_precondition_contract_version, precondition_contract_version,
}
use portfolio_management.OperationState.HoldingCases.Supersede.{Pass}

-- A read of a row that is there; on a row that is gone the code would fail too.
abbrev pub row_of : Option Case → Result Case
row_of none = err (runtime_error "no row")
row_of (some r) = ok r

abbrev pub collides {ℓ} : {A : Type ℓ} → Result A
collides = err (value_error "holding case key collision with different semantics")

-- what a confirmed case keeps of its resolution
abbrev pub migrated_resolution : (String → String) → Case → Candidate → Option Json
migrated_resolution sha256 stored c =
    if str_eq stored.state "resolved_keep"
    then some (
        object_json (
          set_member "confirmation_scope"
            (text_json (
              confirmation_scope sha256 c.case_key c.case_precondition_digest c.authority_id
                c.policy_version))
            (members_of stored.resolution)))
    else stored.resolution

unfoldable pub migrate_row : (String → String) → Case → Candidate → ℕ → Case → Case
migrate_row sha256 stored c now r = record r {
  case_precondition_digest = c.case_precondition_digest;
  resolution = migrated_resolution sha256 stored c;
  updated_at = now;
}

unfoldable pub holds_digest : Candidate → Case → Case → Bool
holds_digest c stored r =
    has_case_key c.case_key r && str_eq r.case_precondition_digest stored.case_precondition_digest

unfoldable pub migrate_as :
    Transition → (String → String) → Case → Candidate → Pass → CaseStore → Result CaseStore
unfolding migrate_row holds_digest insert_case_event_tx
migrate_as exact sha256 stored c pass s = ok s
migrate_as reject sha256 stored c pass s = collides
migrate_as legacy_migratable sha256 stored c pass s = do
  raise_if (not (row_count (holds_digest c stored) s.rows == 1))
      (value_error "holding case precondition changed during migration")
  ok (
      insert_case_event_tx c.case_key "precondition_contract_migrated"
        (member "from_contract" (text_json legacy_precondition_contract_version) (
          member "to_contract" (text_json precondition_contract_version) (
            member "from_digest" (text_json stored.case_precondition_digest) (
              member "to_digest" (text_json c.case_precondition_digest) (
                member "state" (text_json stored.state)
                  (member "trigger" (object_json pass.trigger) end))))))
        pass.now
        (record s {
          rows = update (holds_digest c stored) (migrate_row sha256 stored c pass.now) s.rows;
        }))

unfoldable pub migrate_case_precondition_tx :
    (String → String) → Case → Candidate → Pass → CaseStore → Result CaseStore
unfolding migrate_as
migrate_case_precondition_tx sha256 stored c pass s =
    migrate_as (classify_precondition_transition sha256 stored c) sha256 stored c pass s

-- a row without an identity takes the observed one; another identity collides
unfoldable pub fill_identity : String → String → ℕ → Case → List Case → Result (List Case)
fill_identity key identity now existing rows =
    if str_eq existing.identity_json "{}"
    then ok (
        update (has_case_key key) (λ r. record r { identity_json = identity; updated_at = now })
          rows)
    else if str_eq existing.identity_json identity
    then ok rows
    else err (value_error "holding case key collision with different identity")
