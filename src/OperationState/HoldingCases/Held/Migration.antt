-- ===== src/OperationState/HoldingCases/Held/Migration.antt =====
-- A precondition digest is migrated only on a case without a write in flight
-- (src/app/holding_case_contract.py, and its use in _holding_case_mixin.py).
use portfolio_management.Common.{
  ◌≡◌, refl, sym, subst, inl, inr, String, Bool, true, false, not, ◌||◌, some, arith, ◌==◌, str_eq,
  eq_iff, text_in, Bool-cases, and_true, Returns, returned, raised, strip, opt_is,
}
use portfolio_management.Common.Table.{row_count, fetch_one}
use portfolio_management.Common.Table.Keys.{fetch_one_holds}
use portfolio_management.OperationState.HoldingCases.{
  Case, CaseStore, Candidate, has_case_key, insert_case_event_tx,
}
use portfolio_management.OperationState.HoldingCases.Contract.{
  Transition, exact, legacy_migratable, reject, classify_precondition_transition, same_semantics,
  legacy_migratable_states, precondition_contract, precondition_contract_version,
  legacy_precondition_contract_version,
}
use portfolio_management.OperationState.HoldingCases.Supersede.{Pass}
use portfolio_management.OperationState.HoldingCases.Migrate.{
  migrate_as, migrate_case_precondition_tx, migrate_row, holds_digest,
}
use portfolio_management.OperationState.HoldingCases.Held.{
  Write, Holds, in_flight, in_flight_not_legacy, Holds-update, same_row, row_in_flight,
}

last_holds : (a b c : Bool) → (a || b || not c) ≡ false → c ≡ true
last_holds a b c h = ground arith

classify-migratable :
    (sha256 : String → String) (stored : Case) (c : Candidate)
    → classify_precondition_transition sha256 stored c ≡ legacy_migratable
    → (text_in stored.state legacy_migratable_states ≡ true) × (same_semantics stored c ≡ true)
unfolding classify_precondition_transition
classify-migratable sha256 stored c h =
    let old = strip stored.case_precondition_digest in
    let new = strip c.case_precondition_digest in
    elim (Bool-cases (str_eq old new)) [
      | inl a ↦ let g : exact ≡ legacy_migratable = rw a at h in cc
      | inr a ↦
          let new_form =
            not (opt_is (precondition_contract old) legacy_precondition_contract_version) in
          let old_form = not (opt_is (precondition_contract new) precondition_contract_version) in
          let movable = text_in stored.state legacy_migratable_states in
          elim (Bool-cases (new_form || old_form || not movable)) [
            | inl b ↦ let g : reject ≡ legacy_migratable = rw (a, b) at h in cc
            | inr b ↦ elim (Bool-cases (same_semantics stored c)) [
              | inr d ↦ let g : reject ≡ legacy_migratable = rw (a, b, d) at h in cc
              | inl d ↦ (last_holds new_form old_form movable b, d)
            ]
          ]
    ]

semantic_key :
    (stored : Case) (c : Candidate)
    → same_semantics stored c ≡ true
    → has_case_key c.case_key stored ≡ true
unfolding same_semantics
semantic_key stored c h = ground arith

legacy_not_in_flight :
    (state : String) → text_in state legacy_migratable_states ≡ true → in_flight state ≡ false
legacy_not_in_flight state h = elim (Bool-cases (in_flight state)) [
  | inl e ↦
      let shut : text_in state legacy_migratable_states ≡ false = in_flight_not_legacy state e in cc
  | inr e ↦ e
]

module _ (k : String) (w : Write) (flying : in_flight w.state ≡ true) (sha256 : String → String)
    (pass : Pass) where
  migrate_as-Holds :
      (t : Transition) (stored : Case) (raw : Candidate) (s : CaseStore)
      → Holds k w s.rows
      → (t ≡ legacy_migratable → has_case_key raw.case_key stored ≡ true)
      → (t ≡ legacy_migratable → in_flight stored.state ≡ false)
      → fetch_one (has_case_key stored.case_key) s.rows ≡ some stored
      → Returns (λ (m : CaseStore). Holds k w m.rows) (migrate_as t sha256 stored raw pass s)
  unfolding migrate_as migrate_row holds_digest insert_case_event_tx
  migrate_as-Holds exact stored raw s h same settled e = returned h
  migrate_as-Holds reject stored raw s h same settled e = raised
  migrate_as-Holds legacy_migratable stored raw s h same settled e =
      elim (Bool-cases (row_count (holds_digest raw stored) s.rows == 1)) [
        | inr n ↦ rw n raised
        | inl n ↦ rw n (
            returned (
              Holds-update k w (holds_digest raw stored) (migrate_row sha256 stored raw pass.now)
                s.rows (λ r. refl) h
                (λ hit.
                  let key : stored.case_key ≡ raw.case_key =
                    (eq_iff stored.case_key raw.case_key).0 (same refl) in
                  let one : stored ≡ h.row =
                    same_row k w s.rows h stored.case_key stored (rw key (and_true hit).0) e in
                  let flies : in_flight stored.state ≡ true =
                    rw one (row_in_flight k w flying s.rows h) in
                  let lands : in_flight stored.state ≡ false = settled refl in cc)))
      ]

  pub migrate-Holds :
      (raw c : Candidate) (s : CaseStore) (filled : Case)
      → Holds k w s.rows
      → fetch_one (has_case_key c.case_key) s.rows ≡ some filled
      → Returns
          (λ (m : CaseStore). Holds k w m.rows)
          (migrate_case_precondition_tx sha256 filled raw pass s)
  unfolding migrate_case_precondition_tx
  migrate-Holds raw c s filled h e =
      migrate_as-Holds (classify_precondition_transition sha256 filled raw) filled raw s h
        (λ t. semantic_key filled raw (classify-migratable sha256 filled raw t).1)
        (λ t. legacy_not_in_flight filled.state (classify-migratable sha256 filled raw t).0)
        (subst (λ j. fetch_one (has_case_key j) s.rows ≡ some filled) own_key e)
    where
      own_key : c.case_key ≡ filled.case_key
      own_key = sym (
          (eq_iff filled.case_key c.case_key).0
            (fetch_one_holds (has_case_key c.case_key) s.rows e))
