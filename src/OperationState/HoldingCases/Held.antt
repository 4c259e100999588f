-- ===== src/OperationState/HoldingCases/Held.antt =====
-- What a reconciliation case records of a remote write, and the statements of an observation that
-- keep it (src/app/operation_state/_holding_case_mixin.py).
pub mod Migration
pub mod Observation
use portfolio_management.Common.{
  ℕ, ◌≡◌, refl, sym, ap, ◌∙◌, subst, ◌⊎◌, inl, inr, String, Bool, true, false, not, ◌&&◌, ◌||◌,
  Option, none, some, List, [], ◌∷◌, ◌++◌, arith, ◌==◌, if◌then◌else◌, str_eq, eq_iff, text_in,
  or_else, any_of, keep, Bool-cases, Option-cases, and_true, Result, ok, err, ◌>>=◌, Returns,
  returned, raised, >>=-Returns, >>=-Returns_any, Returns-map, Returns-ok, Json, Members, All,
  strip, opt_is,
}
use portfolio_management.Common.Table.{update, row_count, fetch_one}
use portfolio_management.Common.Table.Keys.{
  HasUniqueKeys, fetch_one_holds, fetch_one-update, update-HasUniqueKeys, fetch_one-append_keeps,
  append-HasUniqueKeys,
}
use portfolio_management.Common.Table.Selection.{Others-selected}
use portfolio_management.OperationState.Receipts.{Outbox, insert_operation_receipt_tx}
use portfolio_management.OperationState.HoldingCases.{
  Case, CaseStore, Candidate, case_key_of, has_case_key, reopenable_states, superseedable_states,
  insert_case_event_tx, enqueue_closure,
}
use portfolio_management.OperationState.HoldingCases.Contract.{
  Transition, exact, legacy_migratable, reject, classify_precondition_transition, same_semantics,
  legacy_migratable_states, precondition_contract, precondition_contract_version,
  legacy_precondition_contract_version,
}
use portfolio_management.OperationState.HoldingCases.Supersede.{
  Pass, Progress, DiscoveryReceipt, receipt_for, is_superseedable, supersede_row, supersede_one,
  supersede_all, holds_automatic_write, is_replaced, normalized, superseded, supersede_resolution,
  supersede_receipt, note_superseded, lacks_identity, is_automatic,
}
use portfolio_management.OperationState.HoldingCases.Migrate.{
  row_of, migrate_as, migrate_case_precondition_tx, migrate_row, holds_digest, fill_identity,
}
use portfolio_management.OperationState.HoldingCases.Materialize.{
  reopen_row, refresh_row, same_evidence, reopen_case, refresh_case, settle_existing,
  update_existing, new_case, discovered, note_created, check_and_settle, migrate_filled,
  same_stored, enqueue_discovery, insert_new, put_observed, replace_and_put, materialize_in,
  materialize_one, materialize_all, materialize_holding_cases,
}

-- What a case records of a remote write.
pub record Write : Type 0 where
  pub state : String
  pub resolution : Option Json
  pub target_json : Option String
  pub before_json : Option String
  pub apply_attempt_id : Option String
  pub remote_attempt_started_at : Option ℕ

abbrev pub write : Case → Write
write r = record {
  state = r.state;
  resolution = r.resolution;
  target_json = r.target_json;
  before_json = r.before_json;
  apply_attempt_id = r.apply_attempt_id;
  remote_attempt_started_at = r.remote_attempt_started_at;
}

-- The rows have unique keys, and the row of a key records the same write.
pub record Holds (k : String) (w : Write) (rows : List Case) : Type 0 where
  pub unique : HasUniqueKeys case_key_of rows
  pub row : Case
  pub found : fetch_one (has_case_key k) rows ≡ some row
  pub same_write : write row ≡ w

abbrev pub in_flight : String → Bool
in_flight state = text_in state ("applying" ∷ "apply_outcome_unknown" ∷ [])

in_flight_cases :
    (state : String)
    → in_flight state ≡ true
    → (state ≡ "applying") ⊎ (state ≡ "apply_outcome_unknown")
in_flight_cases state h =
    ground (arith, eq_iff state "applying", eq_iff state "apply_outcome_unknown")

pub in_flight_not_legacy :
    (state : String) → in_flight state ≡ true → text_in state legacy_migratable_states ≡ false
in_flight_not_legacy state h = elim (in_flight_cases state h) [
  | inl e ↦ rw e refl
  | inr e ↦ rw e refl
]

in_flight_not_reopenable :
    (state : String) → in_flight state ≡ true → text_in state reopenable_states ≡ false
in_flight_not_reopenable state h = elim (in_flight_cases state h) [
  | inl e ↦ rw e refl
  | inr e ↦ rw e refl
]

module _ (k : String) (w : Write) where
  -- An update keeps the write where it spares the row of the key, or keeps the write of that row.
  pub Holds-update :
      (p : Case → Bool) (f : Case → Case) (rows : List Case)
      → ((r : Case) → (f r).case_key ≡ r.case_key)
      → (h : Holds k w rows) → (p h.row ≡ true → write (f h.row) ≡ write h.row)
      → Holds k w (update p f rows)
  Holds-update p f rows same h kept =
      let e = fetch_one-update case_key_of p f same k rows in
      elim (Bool-cases (p h.row)) [
        | inl t ↦ record {
          unique = update-HasUniqueKeys case_key_of p f same rows h.unique;
          row = f h.row;
          found = rw (e, h.found, t) refl;
          same_write = kept t ∙ h.same_write;
        }
        | inr t ↦ record {
          unique = update-HasUniqueKeys case_key_of p f same rows h.unique;
          row = h.row;
          found = rw (e, h.found, t) refl;
          same_write = h.same_write;
        }
      ]

  pub row_key : (rows : List Case) (h : Holds k w rows) → h.row.case_key ≡ k
  row_key rows h = (eq_iff h.row.case_key k).0 (fetch_one_holds (has_case_key k) rows h.found)

  -- The row that a read of the row's own key finds is that row.
  pub same_row :
      (rows : List Case) (h : Holds k w rows) (key : String) (r : Case)
      → has_case_key key h.row ≡ true
      → fetch_one (has_case_key key) rows ≡ some r
      → r ≡ h.row
  same_row rows h key r t e =
      let same : k ≡ key = sym (row_key rows h) ∙ (eq_iff h.row.case_key key).0 t in
      let f : fetch_one (has_case_key key) rows ≡ some h.row =
        subst (λ j. fetch_one (has_case_key j) rows ≡ some h.row) same h.found in
      cc

  module _ (flying : in_flight w.state ≡ true) where
    pub row_in_flight : (rows : List Case) (h : Holds k w rows) → in_flight h.row.state ≡ true
    row_in_flight rows h = rw (ap (λ (x : Write). x.state) h.same_write) flying

    pub fill_identity-Holds :
        (key identity : String) (now : ℕ) (existing : Case) (rows : List Case)
        → Holds k w rows
        → Returns (Holds k w) (fill_identity key identity now existing rows)
    unfolding fill_identity
    fill_identity-Holds key identity now existing rows h =
        elim (Bool-cases (str_eq existing.identity_json "{}")) [
          | inl e ↦ rw e (
              returned (
                Holds-update (has_case_key key)
                  (λ r. record r { identity_json = identity; updated_at = now }) rows (λ r. refl) h
                  (λ t. refl)))
          | inr e ↦ rw e (elim (Bool-cases (str_eq existing.identity_json identity)) [
            | inl d ↦ rw d (returned h)
            | inr d ↦ rw d raised
          ])
        ]

    pub settle-Holds :
        (pass : Pass) (c : Candidate) (current : Case) (p : Progress)
        → Holds k w p.store.rows
        → fetch_one (has_case_key c.case_key) p.store.rows ≡ some current
        → Holds k w (settle_existing pass c current p).store.rows
    unfolding settle_existing reopen_case refresh_case reopen_row refresh_row insert_case_event_tx
    settle-Holds pass c current p h e =
        elim (Bool-cases (text_in current.state reopenable_states)) [
          | inl t ↦ rw t (
              Holds-update (has_case_key c.case_key) (reopen_row c pass.now) p.store.rows
                (λ r. refl) h
                (λ hit.
                  let same : current ≡ h.row = same_row p.store.rows h c.case_key current hit e in
                  let flies : in_flight current.state ≡ true =
                    rw same (row_in_flight p.store.rows h) in
                  let shut : text_in current.state reopenable_states ≡ false =
                    in_flight_not_reopenable current.state flies in
                  cc))
          | inr t ↦
              rw t
                (elim (Bool-cases (
                  not (same_evidence c current)
                  || not (str_eq current.record_digest c.record_digest))) [
                    | inl d ↦ rw d (
                        Holds-update (has_case_key c.case_key) (refresh_row c pass.now) p.store.rows
                          (λ r. refl) h (λ hit. refl))
                    | inr d ↦ rw d h
                  ])
        ]
