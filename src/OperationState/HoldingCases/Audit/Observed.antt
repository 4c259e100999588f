-- ===== src/OperationState/HoldingCases/Audit/Observed.antt =====
-- Storing observed cases is audited, case by case.
use portfolio_management.Common.{
  ℕ, refl, inl, inr, String, Bool, true, false, ◌||◌, Option, none, some, List, [], ◌∷◌, str_eq,
  text_in, or_else, any_of, keep, Bool-cases, and_true, Result, ok, ◌>>=◌, Returns, returned,
  raised, >>=-Returns, >>=-Returns_any, Returns-map, not, ◌==◌,
}
use portfolio_management.Common.Table.{fetch_one, row_count}
use portfolio_management.OperationState.Receipts.{Outbox, insert_operation_receipt_tx}
use portfolio_management.OperationState.HoldingCases.{
  Case, CaseStore, Candidate, has_case_key, reopenable_states,
}
use portfolio_management.OperationState.HoldingCases.Contract.{
  Transition, exact, legacy_migratable, reject, classify_precondition_transition,
}
use portfolio_management.OperationState.HoldingCases.Supersede.{
  Pass, Progress, DiscoveryReceipt, receipt_for, is_superseedable, supersede_row, supersede_one,
  supersede_all, holds_automatic_write, superseded, supersede_resolution, supersede_receipt,
  note_superseded, lacks_identity, is_replaced, normalized,
}
use portfolio_management.OperationState.HoldingCases.Migrate.{
  row_of, migrate_as, migrate_case_precondition_tx, migrate_row, holds_digest, fill_identity,
}
use portfolio_management.OperationState.HoldingCases.Materialize.{
  reopen_row, refresh_row, same_evidence, reopen_case, refresh_case, settle_existing,
  update_existing, new_case, discovered, note_created, check_and_settle, migrate_filled,
  same_stored, enqueue_discovery, insert_new, put_observed, replace_and_put, materialize_in,
  materialize_one, materialize_all, materialize_holding_cases,
}
use portfolio_management.OperationState.HoldingCases.Audit.{
  Audited, Audited-refl, Audited-trans, Audited-update, Audited-append, Audited-quiet,
  Audited-outbox, closure-Audited,
}

-- A call that returns has taken audited steps.
abbrev pub StepsFrom : CaseStore → Progress → Type 0
StepsFrom s p = Audited s p.store

pub StepsFrom-trans :
    (s t : CaseStore) (r : Result Progress)
    → Audited s t
    → Returns (StepsFrom t) r
    → Returns (StepsFrom s) r
StepsFrom-trans s t r a h =
    Returns-map (StepsFrom t) (StepsFrom s) r (λ (p : Progress) b. Audited-trans a b) h

module _ (pass : Pass) (c : Candidate) where
  superseded-Audited : (old : Case) (s : CaseStore) → Audited s (superseded pass c old s)
  unfolding superseded supersede_row is_superseedable
  superseded-Audited old s =
      Audited-update old.case_key _ _ _ s (is_superseedable old.case_key)
        (supersede_row (supersede_resolution pass c old) pass.now) (λ r. refl)
        (λ r h. (and_true h).0)

  note_superseded-Audited :
      (old : Case) (p : Progress) (closed : List String × CaseStore)
      → Audited p.store closed.1
      → Audited p.store (note_superseded old p closed).store
  unfolding note_superseded
  note_superseded-Audited old p (keys, s) a = a

  supersede_one-Audited :
      (old : Case) (p : Progress) → Returns (StepsFrom p.store) (supersede_one pass c old p)
  unfolding supersede_one supersede_receipt
  supersede_one-Audited old p =
      let s = superseded pass c old p.store in
      >>=-Returns (λ (closed : List String × CaseStore). Audited s closed.1) (StepsFrom p.store)
        (supersede_receipt pass c old s) (λ closed. ok (note_superseded old p closed))
        (closure-Audited _ _ _ _ s)
        (λ closed a.
          returned (
            note_superseded-Audited old p closed
              (Audited-trans (superseded-Audited old p.store) a)))

  pub supersede_all-Audited :
      (olds : List Case) (p : Progress) → Returns (StepsFrom p.store) (supersede_all pass c olds p)
  unfolding supersede_all
  supersede_all-Audited [] p = returned (Audited-refl p.store)
  supersede_all-Audited (old ∷ olds) p =
      >>=-Returns (StepsFrom p.store) (StepsFrom p.store) (supersede_one pass c old p)
        (supersede_all pass c olds) (supersede_one-Audited old p)
        (λ q a. StepsFrom-trans p.store q.store _ a (supersede_all-Audited olds q))

  migrate_as-Audited :
      (sha256 : String → String) (t : Transition) (stored : Case) (s : CaseStore)
      → Returns (Audited s) (migrate_as t sha256 stored c pass s)
  unfolding migrate_as holds_digest migrate_row
  migrate_as-Audited sha256 exact stored s = returned (Audited-refl s)
  migrate_as-Audited sha256 reject stored s = raised
  migrate_as-Audited sha256 legacy_migratable stored s =
      elim (Bool-cases (row_count (holds_digest c stored) s.rows == 1)) [
        | inl e ↦ rw e (
            returned (
              Audited-update c.case_key _ _ _ s (holds_digest c stored)
                (migrate_row sha256 stored c pass.now) (λ r. refl) (λ r h. (and_true h).0)))
        | inr e ↦ rw e raised
      ]

  settle_existing-Audited :
      (current : Case) (p : Progress) → Audited p.store (settle_existing pass c current p).store
  unfolding settle_existing reopen_case refresh_case reopen_row refresh_row
  settle_existing-Audited current p = elim (Bool-cases (text_in current.state reopenable_states)) [
    | inl e ↦ rw e (
        Audited-update c.case_key _ _ _ p.store (has_case_key c.case_key) (reopen_row c pass.now)
          (λ r. refl) (λ r h. h))
    | inr e ↦
        rw e
          (elim (Bool-cases
            (not (same_evidence c current) || not (str_eq current.record_digest c.record_digest))) [
              | inl d ↦ rw d (
                  Audited-update c.case_key _ _ _ p.store (has_case_key c.case_key)
                    (refresh_row c pass.now) (λ r. refl) (λ r h. h))
              | inr d ↦ rw d (Audited-refl p.store)
            ])
  ]

fill_identity-Audited :
    (key identity : String) (now : ℕ) (existing : Case) (s : CaseStore)
    → Returns
        (λ rows. Audited s (record s { rows = rows }))
        (fill_identity key identity now existing s.rows)
unfolding fill_identity
fill_identity-Audited key identity now existing s =
    elim (Bool-cases (str_eq existing.identity_json "{}")) [
      | inl e ↦ rw e (
          returned (
            Audited-quiet (has_case_key key)
              (λ r. record r { identity_json = identity; updated_at = now }) (λ r. refl) (λ r. refl)
              s))
      | inr e ↦ rw e (elim (Bool-cases (str_eq existing.identity_json identity)) [
        | inl d ↦ rw d (returned (Audited-refl s))
        | inr d ↦ rw d raised
      ])
    ]

discovery-Audited :
    (enqueue : Bool) (now : ℕ) (d : Option DiscoveryReceipt) (s : CaseStore)
    → Returns
        (λ (added : List String × CaseStore). Audited s added.1)
        (enqueue_discovery enqueue now d s)
unfolding enqueue_discovery
discovery-Audited enqueue now none s = raised
discovery-Audited false now (some d) s = returned (Audited-refl s)
discovery-Audited true now (some d) s =
    >>=-Returns_any (λ (added : List String × CaseStore). Audited s added.1)
      (insert_operation_receipt_tx d.receipt_key d.receipt_type d.payload_json now s.outbox) _
      (λ (o : Bool × Outbox). returned (Audited-outbox o.1 (Audited-refl s)))

module _ (sha256 : String → String) (pass : Pass) where
  note_created-Audited :
      (c : Candidate) (p : Progress) (added : List String × CaseStore)
      → Audited p.store added.1
      → Audited p.store (note_created c p added).store
  unfolding note_created
  note_created-Audited c p (keys, s) a = a

  insert_new-Audited :
      (c : Candidate) (p : Progress) → Returns (StepsFrom p.store) (insert_new pass c p)
  unfolding insert_new discovered new_case
  insert_new-Audited c p =
      let s = discovered pass c p.store in
      let d = receipt_for c.case_key pass.discovery_receipts in
      >>=-Returns (λ (added : List String × CaseStore). Audited s added.1) (StepsFrom p.store)
        (enqueue_discovery pass.enqueue_receipts pass.now d s)
        (λ added. ok (note_created c p added))
        (discovery-Audited pass.enqueue_receipts pass.now d s)
        (λ added a. returned (
          note_created-Audited c p added
            (Audited-trans (Audited-append c.case_key _ _ _ p.store (new_case c pass.now) refl) a)))

  check-Audited :
      (c : Candidate) (p : Progress) (s migrated : CaseStore) (current : Case)
      → Audited s migrated
      → Returns (StepsFrom s) (check_and_settle pass c p migrated current)
  unfolding check_and_settle
  check-Audited c p s migrated current a = elim (Bool-cases (same_stored c current)) [
    | inl e ↦ rw e (
        returned (
          Audited-trans a (settle_existing-Audited pass c current (record p { store = migrated }))))
    | inr e ↦ rw e raised
  ]

  migrate-Audited :
      (raw c : Candidate) (p : Progress) (s : CaseStore) (filled : Case)
      → Returns (StepsFrom s) (migrate_filled sha256 pass raw c p s filled)
  unfolding migrate_filled migrate_case_precondition_tx
  migrate-Audited raw c p s filled =
      let t = classify_precondition_transition sha256 filled raw in
      >>=-Returns (Audited s) (StepsFrom s) (migrate_as t sha256 filled raw pass s)
        (λ migrated.
          row_of (fetch_one (has_case_key c.case_key) migrated.rows)
          >>= check_and_settle pass c p migrated)
        (migrate_as-Audited pass raw sha256 t filled s)
        (λ migrated a.
          >>=-Returns_any (StepsFrom s) (row_of (fetch_one (has_case_key c.case_key) migrated.rows))
            (check_and_settle pass c p migrated)
            (λ current. check-Audited c p s migrated current a))

  put-Audited :
      (raw c : Candidate) (p : Progress) (o : Option Case)
      → Returns (StepsFrom p.store) (put_observed sha256 pass raw c p o)
  unfolding put_observed update_existing
  put-Audited raw c p none = insert_new-Audited c p
  put-Audited raw c p (some existing) =
      let identity = or_else c.identity "{}" in
      >>=-Returns (λ rows. Audited p.store (record p.store { rows = rows })) (StepsFrom p.store)
        (fill_identity c.case_key identity pass.now existing p.store.rows)
        (λ rows.
          row_of (fetch_one (has_case_key c.case_key) rows)
          >>= migrate_filled sha256 pass raw c p (record p.store { rows = rows }))
        (fill_identity-Audited c.case_key identity pass.now existing p.store)
        (λ rows a.
          >>=-Returns_any (StepsFrom p.store) (row_of (fetch_one (has_case_key c.case_key) rows))
            (migrate_filled sha256 pass raw c p (record p.store { rows = rows }))
            (λ filled.
              StepsFrom-trans p.store (record p.store { rows = rows }) _ a
                (migrate-Audited raw c p (record p.store { rows = rows }) filled)))

  materialize_one-Audited :
      (raw : Candidate) (p : Progress)
      → Returns (StepsFrom p.store) (materialize_one sha256 pass raw p)
  unfolding materialize_one materialize_in replace_and_put
  materialize_one-Audited raw p =
      let c = normalized raw in
      let olds = keep (is_replaced c) p.store.rows in
      elim (Bool-cases (lacks_identity c)) [
        | inl l ↦ rw l raised
        | inr l ↦ rw l (elim (Bool-cases (any_of holds_automatic_write olds)) [
          | inl e ↦ rw e (returned (Audited-refl p.store))
          | inr e ↦ rw e (
              >>=-Returns (StepsFrom p.store) (StepsFrom p.store) (supersede_all pass c olds p)
                (λ q.
                  put_observed sha256 pass raw c q
                    (fetch_one (has_case_key c.case_key) q.store.rows))
                (supersede_all-Audited pass c olds p)
                (λ q a.
                  StepsFrom-trans p.store q.store _ a
                    (put-Audited raw c q (fetch_one (has_case_key c.case_key) q.store.rows))))
        ])
      ]

  materialize_all-Audited :
      (cs : List Candidate) (p : Progress)
      → Returns (StepsFrom p.store) (materialize_all sha256 pass cs p)
  unfolding materialize_all
  materialize_all-Audited [] p = returned (Audited-refl p.store)
  materialize_all-Audited (c ∷ cs) p =
      >>=-Returns (StepsFrom p.store) (StepsFrom p.store) (materialize_one sha256 pass c p)
        (materialize_all sha256 pass cs) (materialize_one-Audited c p)
        (λ q a. StepsFrom-trans p.store q.store _ a (materialize_all-Audited cs q))

  pub materialize-Audited :
      (cs : List Candidate) (s : CaseStore)
      → Returns (StepsFrom s) (materialize_holding_cases sha256 pass cs s)
  unfolding materialize_holding_cases
  materialize-Audited cs s = materialize_all-Audited cs _
