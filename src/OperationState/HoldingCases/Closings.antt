-- ===== src/OperationState/HoldingCases/Closings.antt =====
-- What a fresh scan of a record makes of every case (`_resolve_absent_holding_cases_tx` of
-- src/app/operation_state/_holding_case_mixin.py).
use portfolio_management.Common.{
  ◌≡◌, refl, sym, ap, ◌∙◌, subst, inl, inr, String, Bool, true, false, not, ◌&&◌, Option, some,
  List, [], ◌∷◌, ◌++◌, if◌then◌else◌, str_eq, str_eq_refl, eq_iff, text_in, Bool-cases, and_true,
  ok, Returns, returned, raised, >>=-Returns, Returns-ok, Returns-map, Result-cases, All,
}
use portfolio_management.Common.Table.{fetch_one}
use portfolio_management.Common.Table.Keys.{HasUniqueKeys, fetch_one_holds, fetch_one-update}
use portfolio_management.Common.Table.Selection.{keep-split}
use portfolio_management.OperationState.HoldingCases.{
  Case, CaseStore, case_key_of, has_case_key, insert_case_event_tx, closure-rows,
}
use portfolio_management.OperationState.HoldingCases.Resolve.{
  Scan, Closing, is_absent, is_eligible, eligible_states, close_row, resolution_of, terminal_state,
  stored_identity, closed_store, close_receipt, note_closed, close_as, close_absent, close_all,
  resolve_holding_cases_external,
}

abbrev pub same_identity : Scan → Case → Bool
same_identity scan r = str_eq (stored_identity r) scan.current_identity

abbrev pub closed_row : Scan → Case → Case
closed_row scan r =
    let matches = same_identity scan r in
    close_row (terminal_state matches) (resolution_of scan r matches) scan.now r

-- A case of the record that is open, not being applied, not shown by the scan and not about
-- duplicates is closed: repaired if its identity is the one observed, superseded if not. Every other
-- case stays as it is.
unfoldable pub settled_row : Scan → Case → Case
unfolding is_absent
settled_row scan r =
    if is_absent scan r && not (str_eq r.kind "duplicate_identity") then closed_row scan r else r

pub settled_row-spares :
    (scan : Scan) (r : Case) → is_absent scan r ≡ false → settled_row scan r ≡ r
unfolding settled_row
settled_row-spares scan r h = rw h refl

module _ (scan : Scan) (k : String) where
  abbrev read : CaseStore → Option Case
  read s = fetch_one (has_case_key k) s.rows

  Reads : Option Case → Closing → Type 0
  Reads o p = read p.store ≡ o

  closed_read :
      (x : Case) (matches : Bool) (s : CaseStore) (r : Case)
      → read s ≡ some r
      → read (closed_store scan x matches s)
        ≡ some (
            if is_eligible x.case_key r
            then close_row (terminal_state matches) (resolution_of scan x matches) scan.now r
            else r)
  unfolding closed_store close_row insert_case_event_tx
  closed_read x matches s r e =
      fetch_one-update case_key_of (is_eligible x.case_key)
        (close_row (terminal_state matches) (resolution_of scan x matches) scan.now) (λ y. refl) k
        s.rows
      ∙ rw e refl

  note_closed-read :
      (matches : Bool) (key : String) (closed : List String × CaseStore) (p : Closing)
      → read (note_closed matches key closed p).store ≡ read closed.1
  unfolding note_closed
  note_closed-read true key (keys, s) p = refl
  note_closed-read false key (keys, s) p = refl

  close_as-read :
      (x : Case) (matches : Bool) (p : Closing) (o : Option Case)
      → read (closed_store scan x matches p.store) ≡ o
      → Returns (λ (q : Closing). read q.store ≡ o) (close_as scan x matches p)
  unfolding close_as close_receipt
  close_as-read x matches p o e =
      let s = closed_store scan x matches p.store in
      >>=-Returns (λ (closed : List String × CaseStore). closed.1.rows ≡ s.rows)
        (λ (q : Closing). read q.store ≡ o) (close_receipt scan x matches s)
        (λ closed. ok (note_closed matches x.case_key closed p)) (closure-rows _ _ _ _ s)
        (λ closed same.
          returned (
            note_closed-read matches x.case_key closed p
            ∙ ap (fetch_one (has_case_key k)) same
            ∙ e))

  spared :
      (x : Case) (s : CaseStore) (r : Case)
      → str_eq x.case_key k ≡ false
      → read s ≡ some r
      → is_eligible x.case_key r ≡ false
  unfolding is_eligible
  spared x s r other e = elim (Bool-cases (str_eq r.case_key x.case_key)) [
    | inr t ↦ rw t refl
    | inl t ↦
        let at_x : r.case_key ≡ x.case_key = (eq_iff r.case_key x.case_key).0 t in
        let at_k : r.case_key ≡ k =
          (eq_iff r.case_key k).0 (fetch_one_holds (has_case_key k) s.rows e) in
        let this : str_eq x.case_key k ≡ true = (eq_iff x.case_key k).1 (sym at_x ∙ at_k) in cc
  ]

  -- Closing a case of another key leaves the row alone.
  close_absent-spares :
      (x : Case) (p : Closing) (r : Case)
      → str_eq x.case_key k ≡ false
      → read p.store ≡ some r
      → Returns (λ (q : Closing). read q.store ≡ some r) (close_absent scan x p)
  unfolding close_absent
  close_absent-spares x p r other e = elim (Bool-cases (str_eq x.kind "duplicate_identity")) [
    | inl d ↦ rw d (returned e)
    | inr d ↦ rw d (
        close_as-read x (same_identity scan x) p (some r)
          (closed_read x (same_identity scan x) p.store r e ∙ rw (spared x p.store r other e) refl))
  ]

  close_all-spares :
      (xs : List Case) (p : Closing) (r : Case)
      → All (λ (x : Case). str_eq x.case_key k ≡ false) xs
      → read p.store ≡ some r
      → Returns (λ (q : Closing). read q.store ≡ some r) (close_all scan xs p)
  unfolding close_all
  close_all-spares [] p r others e = returned e
  close_all-spares (x ∷ xs) p r others e =
      >>=-Returns (λ (q : Closing). read q.store ≡ some r) (λ (q : Closing). read q.store ≡ some r)
        (close_absent scan x p) (close_all scan xs) (close_absent-spares x p r others.0 e)
        (λ q f. close_all-spares xs q r others.1 f)

  close_all-then :
      (Q : Closing → Type 0) (xs ys : List Case) (p : Closing)
      → Returns (λ q. Returns Q (close_all scan ys q)) (close_all scan xs p)
      → Returns Q (close_all scan (xs ++ ys) p)
  unfolding close_all
  close_all-then Q [] ys p (returned h) = h
  close_all-then Q (x ∷ xs) ys p h = elim (Result-cases (close_absent scan x p)) [
    | inl (q, e) ↦ rw e (close_all-then Q xs ys q (rw e at h))
    | inr (d, e) ↦ rw e raised
  ]

  eligible_self : (r : Case) → is_absent scan r ≡ true → is_eligible r.case_key r ≡ true
  unfolding is_absent is_eligible
  eligible_self r h =
      let open_row : (text_in r.state eligible_states
            && not (text_in r.case_key scan.active_case_keys))
          ≡ true =
        (and_true h).1 in
      let eligible : text_in r.state eligible_states ≡ true = (and_true open_row).0 in
      rw (str_eq_refl r.case_key, eligible) refl

  close_own :
      (r : Case) (p : Closing)
      → is_absent scan r ≡ true
      → read p.store ≡ some r
      → Returns (λ (q : Closing). read q.store ≡ some (settled_row scan r)) (close_absent scan r p)
  unfolding close_absent settled_row
  close_own r p h e = elim (Bool-cases (str_eq r.kind "duplicate_identity")) [
    | inl d ↦ rw (d, h) (returned e)
    | inr d ↦
        rw (d, h)
          (close_as-read r (same_identity scan r) p (some (closed_row scan r))
            (closed_read r (same_identity scan r) p.store r e ∙ rw (eligible_self r h) refl))
  ]

  close_selected :
      (r : Case) (after : List Case) (p : Closing)
      → All (λ (x : Case). str_eq x.case_key k ≡ false) after
      → read p.store ≡ some r
      → Returns
          (λ (q : Closing). read q.store ≡ some (settled_row scan r))
          (close_all scan (if is_absent scan r then r ∷ after else after) p)
  unfolding close_all
  close_selected r after p others e = elim (Bool-cases (is_absent scan r)) [
    | inl h ↦ rw h (
        >>=-Returns (λ (q : Closing). read q.store ≡ some (settled_row scan r))
          (λ (q : Closing). read q.store ≡ some (settled_row scan r)) (close_absent scan r p)
          (close_all scan after) (close_own r p h e)
          (λ q f. close_all-spares after q (settled_row scan r) others f))
    | inr h ↦ rw h (rw (settled_row-spares scan r h) (close_all-spares after p r others e))
  ]

pub resolve-settled_row :
    (scan : Scan) (s : CaseStore) (p : Closing) (key : String) (r : Case)
    → HasUniqueKeys case_key_of s.rows
    → resolve_holding_cases_external scan s ≡ ok p
    → fetch_one (has_case_key key) s.rows ≡ some r
    → fetch_one (has_case_key key) p.store.rows ≡ some (settled_row scan r)
unfolding resolve_holding_cases_external
resolve-settled_row scan s p key r u returns found =
    let (before, after, b, a, split) =
      keep-split case_key_of key (is_absent scan) s.rows r u found in
    let start : Closing = record {
      store = s;
      closed_case_keys = [];
      superseded_case_keys = [];
      enqueued_receipt_keys = [];
    } in
    let selected = if is_absent scan r then r ∷ after else after in
    let same : close_all scan (before ++ selected) start ≡ ok p =
      subst (λ xs. close_all scan xs start ≡ ok p) split returns in
    Returns-ok
      (λ (q : Closing). fetch_one (has_case_key key) q.store.rows ≡ some (settled_row scan r))
      (close_all scan (before ++ selected) start)
      (close_all-then scan key
        (λ (q : Closing). fetch_one (has_case_key key) q.store.rows ≡ some (settled_row scan r))
        before selected start
        (Returns-map (λ (q : Closing). fetch_one (has_case_key key) q.store.rows ≡ some r)
          (λ (q : Closing).
            Returns
              (λ (z : Closing).
                fetch_one (has_case_key key) z.store.rows ≡ some (settled_row scan r))
              (close_all scan selected q))
          (close_all scan before start) (λ q e. close_selected scan key r after q a e)
          (close_all-spares scan key before start r b found)))
      same
