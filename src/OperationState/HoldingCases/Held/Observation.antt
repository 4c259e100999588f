-- ===== src/OperationState/HoldingCases/Held/Observation.antt =====
-- An observation releases no automatic write whose outcome is still unknown: the guard of
-- `_materialize_holding_cases_tx` in src/app/operation_state/_holding_case_mixin.py.
use portfolio_management.Common.{
  ℕ, ◌≡◌, refl, sym, ap, ◌∙◌, inl, inr, String, Bool, true, false, Option, none, some, List, [],
  ◌∷◌, str_eq, eq_iff, or_else, any_of, keep, Bool-cases, and_true, ok, ◌>>=◌, Returns, returned,
  raised, >>=-Returns, >>=-Returns_any, Returns-ok, All,
}
use portfolio_management.Common.Table.{fetch_one}
use portfolio_management.Common.Table.Keys.{
  HasUniqueKeys, fetch_one-append_keeps, append-HasUniqueKeys,
}
use portfolio_management.Common.Table.Selection.{Others-selected}
use portfolio_management.OperationState.Receipts.{Outbox, insert_operation_receipt_tx}
use portfolio_management.OperationState.HoldingCases.{
  Case, CaseStore, Candidate, case_key_of, has_case_key, insert_case_event_tx, closure-rows,
}
use portfolio_management.OperationState.HoldingCases.Supersede.{
  Pass, Progress, DiscoveryReceipt, receipt_for, is_superseedable, supersede_row, supersede_one,
  supersede_all, holds_automatic_write, is_replaced, normalized, superseded, supersede_resolution,
  supersede_receipt, note_superseded, lacks_identity, is_automatic,
}
use portfolio_management.OperationState.HoldingCases.Migrate.{
  row_of, migrate_case_precondition_tx, fill_identity,
}
use portfolio_management.OperationState.HoldingCases.Materialize.{
  update_existing, new_case, discovered, note_created, check_and_settle, migrate_filled,
  same_stored, enqueue_discovery, insert_new, put_observed, replace_and_put, materialize_in,
  materialize_one, materialize_all, materialize_holding_cases,
}
use portfolio_management.OperationState.HoldingCases.Held.{
  Write, write, Holds, in_flight, Holds-update, row_key, row_in_flight, fill_identity-Holds,
  settle-Holds,
}
use portfolio_management.OperationState.HoldingCases.Held.Migration.{migrate-Holds}

discovery-rows :
    (enqueue : Bool) (now : ℕ) (d : Option DiscoveryReceipt) (s : CaseStore)
    → Returns
        (λ (added : List String × CaseStore). added.1.rows ≡ s.rows)
        (enqueue_discovery enqueue now d s)
unfolding enqueue_discovery
discovery-rows enqueue now none s = raised
discovery-rows false now (some d) s = returned refl
discovery-rows true now (some d) s =
    >>=-Returns_any (λ (added : List String × CaseStore). added.1.rows ≡ s.rows)
      (insert_operation_receipt_tx d.receipt_key d.receipt_type d.payload_json now s.outbox) _
      (λ (o : Bool × Outbox). returned refl)

module _ (k : String) (w : Write) where
  Kept : Progress → Type 0
  Kept p = Holds k w p.store.rows

  module _ (pass : Pass) (c : Candidate) where
    note_superseded-Holds :
        (old : Case) (p : Progress) (closed : List String × CaseStore)
        → Holds k w closed.1.rows
        → Holds k w (note_superseded old p closed).store.rows
    unfolding note_superseded
    note_superseded-Holds old p (keys, s) h = h

    superseded-Holds :
        (old : Case) (s : CaseStore)
        → str_eq old.case_key k ≡ false
        → Holds k w s.rows
        → Holds k w (superseded pass c old s).rows
    unfolding superseded supersede_row is_superseedable insert_case_event_tx
    superseded-Holds old s other h =
        Holds-update k w (is_superseedable old.case_key)
          (supersede_row (supersede_resolution pass c old) pass.now) s.rows (λ r. refl) h
          (λ hit.
            let at_old : h.row.case_key ≡ old.case_key =
              (eq_iff h.row.case_key old.case_key).0 (and_true hit).0 in
            let same : old.case_key ≡ k = sym at_old ∙ row_key k w s.rows h in
            let this : str_eq old.case_key k ≡ true = (eq_iff old.case_key k).1 same in cc)

    supersede_one-Holds :
        (old : Case) (p : Progress)
        → str_eq old.case_key k ≡ false
        → Holds k w p.store.rows
        → Returns (λ (q : Progress). Holds k w q.store.rows) (supersede_one pass c old p)
    unfolding supersede_one supersede_receipt
    supersede_one-Holds old p other h =
        let s = superseded pass c old p.store in
        >>=-Returns (λ (closed : List String × CaseStore). closed.1.rows ≡ s.rows)
          (λ (q : Progress). Holds k w q.store.rows) (supersede_receipt pass c old s)
          (λ closed. ok (note_superseded old p closed)) (closure-rows _ _ _ _ s)
          (λ closed e.
            returned
              (note_superseded-Holds old p closed (rw e (superseded-Holds old p.store other h))))

    supersede_all-Holds :
        (olds : List Case) (p : Progress)
        → All (λ (r : Case). str_eq r.case_key k ≡ false) olds
        → Holds k w p.store.rows
        → Returns (λ (q : Progress). Holds k w q.store.rows) (supersede_all pass c olds p)
    unfolding supersede_all
    supersede_all-Holds [] p others h = returned h
    supersede_all-Holds (old ∷ olds) p others h =
        >>=-Returns (λ (q : Progress). Holds k w q.store.rows)
          (λ (q : Progress). Holds k w q.store.rows) (supersede_one pass c old p)
          (supersede_all pass c olds) (supersede_one-Holds old p others.0 h)
          (λ q g. supersede_all-Holds olds q others.1 g)

    note_created-Holds :
        (p : Progress) (added : List String × CaseStore)
        → Holds k w added.1.rows
        → Holds k w (note_created c p added).store.rows
    unfolding note_created
    note_created-Holds p (keys, s) h = h

    discovered-Holds :
        (s : CaseStore)
        → fetch_one (has_case_key c.case_key) s.rows ≡ none
        → Holds k w s.rows
        → Holds k w (discovered pass c s).rows
    unfolding discovered new_case insert_case_event_tx
    discovered-Holds s fresh h = record {
      unique = append-HasUniqueKeys case_key_of s.rows (new_case c pass.now) fresh h.unique;
      row = h.row;
      found = fetch_one-append_keeps case_key_of k s.rows (new_case c pass.now) h.row h.found;
      same_write = h.same_write;
    }

    insert_new-Holds :
        (p : Progress)
        → fetch_one (has_case_key c.case_key) p.store.rows ≡ none
        → Holds k w p.store.rows
        → Returns (λ (q : Progress). Holds k w q.store.rows) (insert_new pass c p)
    unfolding insert_new
    insert_new-Holds p fresh h =
        let s = discovered pass c p.store in
        let d = receipt_for c.case_key pass.discovery_receipts in
        >>=-Returns (λ (added : List String × CaseStore). added.1.rows ≡ s.rows)
          (λ (q : Progress). Holds k w q.store.rows)
          (enqueue_discovery pass.enqueue_receipts pass.now d s)
          (λ added. ok (note_created c p added)) (discovery-rows pass.enqueue_receipts pass.now d s)
          (λ added e.
            returned (note_created-Holds p added (rw e (discovered-Holds p.store fresh h))))

-- A read of a row that is there, with what it reads.
row_of-found : (o : Option Case) → Returns (λ r. o ≡ some r) (row_of o)
row_of-found none = raised
row_of-found (some r) = returned refl

module _ (k : String) (w : Write) (flying : in_flight w.state ≡ true) (sha256 : String → String)
    (pass : Pass) where
  abbrev KeepsWrite : Progress → Type 0
  KeepsWrite p = Holds k w p.store.rows

  check-Holds :
      (c : Candidate) (p : Progress) (m : CaseStore) (current : Case)
      → Holds k w m.rows
      → fetch_one (has_case_key c.case_key) m.rows ≡ some current
      → Returns KeepsWrite (check_and_settle pass c p m current)
  unfolding check_and_settle
  check-Holds c p m current h e = elim (Bool-cases (same_stored c current)) [
    | inl s ↦ rw s (returned (settle-Holds k w flying pass c current (record p { store = m }) h e))
    | inr s ↦ rw s raised
  ]

  migrate_filled-Holds :
      (raw c : Candidate) (p : Progress) (s : CaseStore) (filled : Case)
      → Holds k w s.rows
      → fetch_one (has_case_key c.case_key) s.rows ≡ some filled
      → Returns KeepsWrite (migrate_filled sha256 pass raw c p s filled)
  unfolding migrate_filled
  migrate_filled-Holds raw c p s filled h e =
      >>=-Returns (λ (m : CaseStore). Holds k w m.rows) KeepsWrite
        (migrate_case_precondition_tx sha256 filled raw pass s)
        (λ m. row_of (fetch_one (has_case_key c.case_key) m.rows) >>= check_and_settle pass c p m)
        (migrate-Holds k w flying sha256 pass raw c s filled h e)
        (λ m g.
          >>=-Returns (λ r. fetch_one (has_case_key c.case_key) m.rows ≡ some r) KeepsWrite
            (row_of (fetch_one (has_case_key c.case_key) m.rows)) (check_and_settle pass c p m)
            (row_of-found (fetch_one (has_case_key c.case_key) m.rows))
            (λ current d. check-Holds c p m current g d))

  put-Holds :
      (raw c : Candidate) (p : Progress) (o : Option Case)
      → fetch_one (has_case_key c.case_key) p.store.rows ≡ o
      → Holds k w p.store.rows
      → Returns KeepsWrite (put_observed sha256 pass raw c p o)
  unfolding put_observed update_existing
  put-Holds raw c p none e h = insert_new-Holds k w pass c p e h
  put-Holds raw c p (some existing) e h =
      let identity = or_else c.identity "{}" in
      >>=-Returns (Holds k w) KeepsWrite
        (fill_identity c.case_key identity pass.now existing p.store.rows)
        (λ rows.
          row_of (fetch_one (has_case_key c.case_key) rows)
          >>= migrate_filled sha256 pass raw c p (record p.store { rows = rows }))
        (fill_identity-Holds k w flying c.case_key identity pass.now existing p.store.rows h)
        (λ rows g.
          >>=-Returns (λ r. fetch_one (has_case_key c.case_key) rows ≡ some r) KeepsWrite
            (row_of (fetch_one (has_case_key c.case_key) rows))
            (migrate_filled sha256 pass raw c p (record p.store { rows = rows }))
            (row_of-found (fetch_one (has_case_key c.case_key) rows))
            (λ filled d. migrate_filled-Holds raw c p (record p.store { rows = rows }) filled g d))

  module _ (automatic : is_automatic w.resolution ≡ true) where
    row_is_held : (rows : List Case) (h : Holds k w rows) → holds_automatic_write h.row ≡ true
    unfolding holds_automatic_write
    row_is_held rows h =
        rw
          (
            row_in_flight k w flying rows h,
            ap (λ (x : Write). x.resolution) h.same_write,
            automatic,
          )
          refl

    materialize_one-Holds :
        (raw : Candidate) (p : Progress)
        → Holds k w p.store.rows
        → Returns KeepsWrite (materialize_one sha256 pass raw p)
    unfolding materialize_one materialize_in replace_and_put
    materialize_one-Holds raw p h =
        let c = normalized raw in
        let olds = keep (is_replaced c) p.store.rows in
        elim (Bool-cases (lacks_identity c)) [
          | inl l ↦ rw l raised
          | inr l ↦ rw l (elim (Bool-cases (any_of holds_automatic_write olds)) [
            | inl e ↦ rw e (returned h)
            | inr e ↦ rw e (
                >>=-Returns KeepsWrite KeepsWrite (supersede_all pass c olds p)
                  (λ q.
                    put_observed sha256 pass raw c q
                      (fetch_one (has_case_key c.case_key) q.store.rows))
                  (supersede_all-Holds k w pass c olds p
                    (Others-selected case_key_of k (is_replaced c) holds_automatic_write
                      p.store.rows h.row h.unique h.found (row_is_held p.store.rows h) e)
                    h)
                  (λ q g.
                    put-Holds raw c q (fetch_one (has_case_key c.case_key) q.store.rows) refl g))
          ])
        ]

    materialize_all-Holds :
        (cs : List Candidate) (p : Progress)
        → Holds k w p.store.rows
        → Returns KeepsWrite (materialize_all sha256 pass cs p)
    unfolding materialize_all
    materialize_all-Holds [] p h = returned h
    materialize_all-Holds (c ∷ cs) p h =
        >>=-Returns KeepsWrite KeepsWrite (materialize_one sha256 pass c p)
          (materialize_all sha256 pass cs) (materialize_one-Holds c p h)
          (λ q g. materialize_all-Holds cs q g)

-- In a table with unique keys, a case whose automatic write is in flight (state `applying` or
-- `apply_outcome_unknown`, operator method `automatic_policy`) keeps its state, resolution, target,
-- attempt and start time through any observation that does not raise.
pub materialize-holds_automatic :
    (sha256 : String → String) (pass : Pass) (cases : List Candidate) (s : CaseStore) (key : String)
    (r : Case) (p : Progress)
    → HasUniqueKeys case_key_of s.rows
    → fetch_one (has_case_key key) s.rows ≡ some r
    → holds_automatic_write r ≡ true
    → materialize_holding_cases sha256 pass cases s ≡ ok p
    → (r' : Case) × (fetch_one (has_case_key key) p.store.rows ≡ some r') × (write r' ≡ write r)
unfolding materialize_holding_cases holds_automatic_write
materialize-holds_automatic sha256 pass cases s key r p unique found held returns =
    let start : Holds key (write r) s.rows = record {
      unique = unique;
      row = r;
      found = found;
      same_write = refl;
    } in
    let h : Holds key (write r) p.store.rows =
      Returns-ok (λ (q : Progress). Holds key (write r) q.store.rows)
        (materialize_holding_cases sha256 pass cases s)
        (materialize_all-Holds key (write r) (and_true held).0 sha256 pass (and_true held).1 cases _
          start)
        returns in
    (h.row, h.found, h.same_write)
