-- ===== src/OperationState/HoldingCases/Audit/Applied.antt =====
-- Closing, applying and settling cases is audited.
use portfolio_management.Common.{
  ℕ, refl, inl, inr, String, Bool, true, false, Option, none, some, List, [], ◌∷◌, ◌==◌, str_eq,
  text_in, keep, Bool-cases, and_true, Result, ok, Returns, returned, raised, >>=-Returns,
  >>=-Returns_any, Returns-map, Members,
}
use portfolio_management.Common.Table.{row_count, fetch_one}
use portfolio_management.OperationState.Receipts.{Outbox, insert_operation_receipt_tx}
use portfolio_management.OperationState.HoldingCases.{Case, CaseStore, has_case_key}
use portfolio_management.OperationState.HoldingCases.Supersede.{DiscoveryReceipt, receipt_for}
use portfolio_management.OperationState.HoldingCases.Resolve.{
  Scan, Closing, is_absent, is_eligible, close_row, resolution_of, terminal_state, stored_identity,
  closed_store, close_receipt, note_closed, close_as, close_absent, close_all,
  resolve_holding_cases_external,
}
use portfolio_management.OperationState.HoldingCases.Apply.{
  Application, Outcome, apply_row, prepare_found, prepare_all, can_start, start_row, mark_one,
  mark_holding_remote_attempt, allowed_terminal, finalize_row, attempt_changed, add_receipt,
  finalize_found, finalize_one, finalize_holding_cases,
}
use portfolio_management.OperationState.HoldingCases.Audit.{
  Audited, Audited-refl, Audited-trans, Audited-update, Audited-outbox, closure-Audited,
}

-- A call that goes on after audited steps.
pub after {ℓ} :
    {A : Type ℓ} (store_of : A → CaseStore) (s t : CaseStore) (r : Result A)
    → Audited s t
    → Returns (λ a. Audited t (store_of a)) r
    → Returns (λ a. Audited s (store_of a)) r
after store_of s t r a h = Returns-map _ _ r (λ x b. Audited-trans a b) h

module _ (scan : Scan) where
  abbrev Closes : CaseStore → Closing → Type 0
  Closes s p = Audited s p.store

  note_closed-Audited :
      (s : CaseStore) (matches : Bool) (k : String) (closed : List String × CaseStore) (p : Closing)
      → Audited s closed.1
      → Audited s (note_closed matches k closed p).store
  unfolding note_closed
  note_closed-Audited s true k (keys, t) p a = a
  note_closed-Audited s false k (keys, t) p a = a

  closed_store-Audited :
      (r : Case) (matches : Bool) (s : CaseStore) → Audited s (closed_store scan r matches s)
  unfolding closed_store is_eligible close_row
  closed_store-Audited r matches s =
      Audited-update r.case_key _ _ _ s (is_eligible r.case_key)
        (close_row (terminal_state matches) (resolution_of scan r matches) scan.now) (λ x. refl)
        (λ x h. (and_true h).0)

  close_as-Audited :
      (r : Case) (matches : Bool) (p : Closing)
      → Returns (Closes p.store) (close_as scan r matches p)
  unfolding close_as close_receipt
  close_as-Audited r matches p =
      let s = closed_store scan r matches p.store in
      >>=-Returns (λ (closed : List String × CaseStore). Audited s closed.1) (Closes p.store)
        (close_receipt scan r matches s) (λ closed. ok (note_closed matches r.case_key closed p))
        (closure-Audited _ _ _ _ s)
        (λ closed a. returned (
          note_closed-Audited p.store matches r.case_key closed p
            (Audited-trans (closed_store-Audited r matches p.store) a)))

  close_absent-Audited : (r : Case) (p : Closing) → Returns (Closes p.store) (close_absent scan r p)
  unfolding close_absent
  close_absent-Audited r p = elim (Bool-cases (str_eq r.kind "duplicate_identity")) [
    | inl e ↦ rw e (returned (Audited-refl p.store))
    | inr e ↦ rw e (close_as-Audited r (str_eq (stored_identity r) scan.current_identity) p)
  ]

  close_all-Audited :
      (rs : List Case) (p : Closing) → Returns (Closes p.store) (close_all scan rs p)
  unfolding close_all
  close_all-Audited [] p = returned (Audited-refl p.store)
  close_all-Audited (r ∷ rs) p =
      >>=-Returns (Closes p.store) (Closes p.store) (close_absent scan r p) (close_all scan rs)
        (close_absent-Audited r p)
        (λ q a. after (λ (c : Closing). c.store) p.store q.store _ a (close_all-Audited rs q))

  pub resolve-Audited : (s : CaseStore) → Returns (Closes s) (resolve_holding_cases_external scan s)
  unfolding resolve_holding_cases_external
  resolve-Audited s = close_all-Audited (keep (is_absent scan) s.rows) _

abbrev same_store : CaseStore → CaseStore
same_store s = s

module _ (attempt : String) (context : Members) (now : ℕ) where
  prepare_found-Audited :
      (a : Application) (s : CaseStore) (o : Option Case)
      → Returns (Audited s) (prepare_found attempt context now a s o)
  unfolding prepare_found apply_row
  prepare_found-Audited a s none = raised
  prepare_found-Audited a s (some r) = elim (Bool-cases (text_in r.state a.allowed_states)) [
    | inr e ↦ rw e raised
    | inl e ↦
        rw e (elim (Bool-cases (str_eq r.case_precondition_digest a.case_precondition_digest)) [
          | inr d ↦ rw d raised
          | inl d ↦ rw d (
              returned (
                Audited-update a.case_key _ _ _ s (has_case_key a.case_key)
                  (apply_row attempt context a now) (λ x. refl) (λ x h. h)))
        ])
  ]

  pub prepare_all-Audited :
      (cases : List Application) (s : CaseStore)
      → Returns (Audited s) (prepare_all attempt context now cases s)
  unfolding prepare_all
  prepare_all-Audited [] s = returned (Audited-refl s)
  prepare_all-Audited (a ∷ as_) s =
      let o = fetch_one (has_case_key a.case_key) s.rows in
      >>=-Returns (Audited s) (Audited s) (prepare_found attempt context now a s o)
        (prepare_all attempt context now as_) (prepare_found-Audited a s o)
        (λ t h. after same_store s t _ h (prepare_all-Audited as_ t))

module _ (attempt : String) (now : ℕ) where
  mark_one-Audited :
      (key : String) (s : CaseStore) → Returns (Audited s) (mark_one attempt now key s)
  unfolding mark_one can_start start_row
  mark_one-Audited key s = elim (Bool-cases (row_count (can_start key attempt) s.rows == 1)) [
    | inl e ↦ rw e (
        returned (
          Audited-update key _ _ _ s (can_start key attempt) (start_row now) (λ x. refl)
            (λ x h. (and_true h).0)))
    | inr e ↦ rw e raised
  ]

  pub mark-Audited :
      (keys : List String) (s : CaseStore)
      → Returns (Audited s) (mark_holding_remote_attempt attempt now keys s)
  unfolding mark_holding_remote_attempt
  mark-Audited [] s = returned (Audited-refl s)
  mark-Audited (key ∷ keys) s =
      >>=-Returns (Audited s) (Audited s) (mark_one attempt now key s)
        (mark_holding_remote_attempt attempt now keys) (mark_one-Audited key s)
        (λ t h. after same_store s t _ h (mark-Audited keys t))

module _ (receipts : List DiscoveryReceipt) (now : ℕ) where
  add_receipt-Audited :
      (d : Option DiscoveryReceipt) (s t : CaseStore)
      → Audited s t
      → Returns (Audited s) (add_receipt d now t)
  unfolding add_receipt
  add_receipt-Audited none s t a = returned a
  add_receipt-Audited (some d) s t a =
      >>=-Returns_any (Audited s)
        (insert_operation_receipt_tx d.receipt_key d.receipt_type d.payload_json now t.outbox) _
        (λ (o : Bool × Outbox). returned (Audited-outbox o.1 a))

  finalize_found-Audited :
      (o : Outcome) (s : CaseStore) (row : Option Case)
      → Returns (Audited s) (finalize_found receipts now o s row)
  unfolding finalize_found finalize_row
  finalize_found-Audited o s none = raised
  finalize_found-Audited o s (some r) = elim (Bool-cases (attempt_changed o.apply_attempt_id r)) [
    | inl e ↦ rw e raised
    | inr e ↦ rw e (
        add_receipt-Audited (receipt_for o.case_key receipts) s _ (
          Audited-update o.case_key _ _ _ s (has_case_key o.case_key) (finalize_row o now)
            (λ x. refl) (λ x h. h)))
  ]

  finalize_one-Audited :
      (o : Outcome) (s : CaseStore) → Returns (Audited s) (finalize_one receipts now o s)
  unfolding finalize_one
  finalize_one-Audited o s = elim (Bool-cases (text_in o.state allowed_terminal)) [
    | inl e ↦ rw e (finalize_found-Audited o s (fetch_one (has_case_key o.case_key) s.rows))
    | inr e ↦ rw e raised
  ]

  pub finalize-Audited :
      (os : List Outcome) (s : CaseStore)
      → Returns (Audited s) (finalize_holding_cases receipts now os s)
  unfolding finalize_holding_cases
  finalize-Audited [] s = returned (Audited-refl s)
  finalize-Audited (o ∷ os) s =
      >>=-Returns (Audited s) (Audited s) (finalize_one receipts now o s)
        (finalize_holding_cases receipts now os) (finalize_one-Audited o s)
        (λ t h. after same_store s t _ h (finalize-Audited os t))
