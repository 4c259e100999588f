-- ===== src/OperationState/HoldingCases/Closed.antt =====
-- Which cases a fresh scan of a record closes, and what it stores of them
-- (`_resolve_absent_holding_cases_tx` of src/app/operation_state/_holding_case_mixin.py).
use portfolio_management.Common.{
  ◌≡◌, ◌≢◌, refl, sym, subst, inl, inr, String, Bool, true, false, none, some, [], ◌∷◌, arith,
  str_eq, eq_iff, text_in, Bool-cases, ok, Json, object_json, text_json, raw_json, member, end,
}
use portfolio_management.Common.Table.{fetch_one}
use portfolio_management.Common.Table.Keys.{HasUniqueKeys}
use portfolio_management.OperationState.HoldingCases.{Case, CaseStore, case_key_of, has_case_key}
use portfolio_management.OperationState.HoldingCases.Resolve.{
  Scan, Closing, decision, is_absent, close_row, resolution_of, terminal_state, stored_identity,
  resolve_holding_cases_external,
}
use portfolio_management.OperationState.HoldingCases.Closings.{
  same_identity, closed_row, settled_row, settled_row-spares, resolve-settled_row,
}

abbrev pub open_case : Case → Bool
open_case r =
    text_in r.state
      ("pending_apply" ∷ "pending_confirmation" ∷ "pending_manual_edit" ∷ "failed_retryable" ∷ [])

-- What is stored as the resolution of a closed case.
abbrev pub proof_of : Scan → Case → String → Json
proof_of scan r decided = object_json (
    member "decision" (text_json decided) (
      member "readback_digest" (text_json scan.record_digest) (
        member "expected_identity" (raw_json (stored_identity r)) (
          member "observed_identity" (raw_json scan.current_identity)
            (member "trigger" (object_json scan.trigger) end)))))

-- The case `r'` is `r`, closed in the state at the scan's time with the decision.
pub record IsClosed (scan : Scan) (r : Case) (state decided : String) (r' : Case) : Type 0 where
  pub same_key : r'.case_key ≡ r.case_key
  pub same_record : r'.record_id ≡ r.record_id
  pub has_state : r'.state ≡ state
  pub no_error : r'.last_error ≡ none
  pub at_time : r'.updated_at ≡ scan.now
  pub has_proof : r'.resolution ≡ some (proof_of scan r decided)

-- A case of the record that is open, not shown by the scan and not about duplicates is closed; each
-- other case stays as it was.
pub record Settles (scan : Scan) (r r' : Case) : Type 0 where
  pub repaired :
      r.record_id ≡ scan.record_id
      → open_case r ≡ true
      → text_in r.case_key scan.active_case_keys ≡ false
      → r.kind ≢ "duplicate_identity"
      → stored_identity r ≡ scan.current_identity
      → IsClosed scan r "resolved_external" "fresh_scan_proved_repair" r'
  pub replaced :
      r.record_id ≡ scan.record_id
      → open_case r ≡ true
      → text_in r.case_key scan.active_case_keys ≡ false
      → r.kind ≢ "duplicate_identity"
      → stored_identity r ≢ scan.current_identity
      → IsClosed scan r "superseded" "record_identity_changed" r'
  pub other_record : r.record_id ≢ scan.record_id → r' ≡ r
  pub not_open : open_case r ≡ false → r' ≡ r
  pub shown : text_in r.case_key scan.active_case_keys ≡ true → r' ≡ r
  pub about_duplicates : r.kind ≡ "duplicate_identity" → r' ≡ r

differs : (a b : String) → a ≢ b → str_eq a b ≡ false
differs a b ne = ground (arith, eq_iff a b)

module _ (scan : Scan) (r : Case) where
  closes :
      r.record_id ≡ scan.record_id
      → open_case r ≡ true
      → text_in r.case_key scan.active_case_keys ≡ false
      → r.kind ≢ "duplicate_identity"
      → settled_row scan r ≡ closed_row scan r
  unfolding settled_row is_absent
  closes this is_open hidden single =
      rw
        (
          (eq_iff r.record_id scan.record_id).1 this,
          is_open,
          hidden,
          differs r.kind "duplicate_identity" single,
        )
        refl

  IsClosed-as :
      (matches : Bool)
      → same_identity scan r ≡ matches
      → IsClosed scan r (terminal_state matches) (decision matches) (closed_row scan r)
  unfolding close_row resolution_of
  IsClosed-as matches e = rw e (record {
    same_key = refl;
    same_record = refl;
    has_state = refl;
    no_error = refl;
    at_time = refl;
    has_proof = refl;
  })

  spares_duplicates : r.kind ≡ "duplicate_identity" → settled_row scan r ≡ r
  unfolding settled_row
  spares_duplicates h =
      let about : str_eq r.kind "duplicate_identity" ≡ true =
        (eq_iff r.kind "duplicate_identity").1 h in
      elim (Bool-cases (is_absent scan r)) [ inl e ↦ rw (e, about) refl | inr e ↦ rw e refl ]

  settled_row-Settles : Settles scan r (settled_row scan r)
  unfolding settled_row is_absent
  settled_row-Settles = record {
    repaired = λ a b c d e.
        subst (IsClosed scan r "resolved_external" "fresh_scan_proved_repair")
          (sym (closes a b c d))
          (IsClosed-as true ((eq_iff (stored_identity r) scan.current_identity).1 e));
    replaced = λ a b c d e.
        subst (IsClosed scan r "superseded" "record_identity_changed") (sym (closes a b c d))
          (IsClosed-as false (differs (stored_identity r) scan.current_identity e));
    other_record = λ h. rw (differs r.record_id scan.record_id h) refl;
    not_open =
        λ h. settled_row-spares scan r (let gone : is_absent scan r ≡ false = ground arith in gone);
    shown =
        λ h. settled_row-spares scan r (let gone : is_absent scan r ≡ false = ground arith in gone);
    about_duplicates = spares_duplicates;
  }

-- In a table with unique keys, a scan that returns has closed every case of its record that is open,
-- not among the cases it shows and not about duplicates: as repaired outside if the case's identity is
-- the observed one, as superseded if not, each with the decision, the digest and both identities as
-- its resolution. Every other case, those of other records among them, is as it was, whatever cases
-- were closed on the way.
pub resolve-Settles :
    (scan : Scan) (s : CaseStore) (p : Closing) (key : String) (r : Case)
    → HasUniqueKeys case_key_of s.rows
    → resolve_holding_cases_external scan s ≡ ok p
    → fetch_one (has_case_key key) s.rows ≡ some r
    → (r' : Case) × (fetch_one (has_case_key key) p.store.rows ≡ some r') × Settles scan r r'
resolve-Settles scan s p key r u returns found = (
  settled_row scan r,
  resolve-settled_row scan s p key r u returns found,
  settled_row-Settles scan r,
)
