-- ===== src/OperationState/Dispatch/Scripts.antt =====
-- A dispatch as a sequence of the outbox's operations, and what follows for the receipts.
use portfolio_management.Common.{
  ℕ, zero, suc, ◌≡◌, refl, sym, ap, ◌∙◌, String, Bool, true, false, Option, some, List, [], ◌∷◌,
  ◌++◌, length, Result, ok, err, none, ◌&&◌, inl, inr, Bool-cases, and_true, str_eq, if◌then◌else◌,
  join_text,
}
use portfolio_management.OperationState.Receipts.{Outbox, Receipt, sent}
use portfolio_management.OperationState.ReceiptOutbox.{
  claim_due_operation_receipts, start_operation_receipt_send, mark_operation_receipt,
  get_operation_receipt,
}
use portfolio_management.OperationState.ReceiptOutbox.Operations.{
  Op, claim, start, mark, after_write, apply, run,
}
use portfolio_management.OperationState.ReceiptOutbox.Delivery.{run-sent}
use portfolio_management.OperationState.Dispatch.{
  Delivery, World, Rendered, returns, raises, lower_is, Attempt, Outcome, deliver, outcome_of,
  marked, mark_row, started, dispatch_row, dispatch_rows, add_attempt, go_on, reported,
  dispatch_pending,
}

-- The status that is reported of a delivery: `sent` if it succeeded and was accepted, `failed` if it
-- says so, and else `unknown`, which no retry follows.
pub data HasStatus (d : Delivery) : String → Type 0 where
  accepted : d.success ≡ true → lower_is "accepted" d.delivery_state ≡ true → HasStatus d "sent"
  rejected : lower_is "failed" d.delivery_state ≡ true → HasStatus d "failed"
  unclear :
      (d.success && lower_is "accepted" d.delivery_state) ≡ false
      → lower_is "failed" d.delivery_state ≡ false
      → HasStatus d "unknown"

-- The report of a receipt, by the renderer of its type: one that there is gets the payload, and what it
-- returns is reported; if it raises the status is unknown, and the error is the exception's text, or
-- its class if the text is empty. Without a renderer the receipt failed.
pub data Told (r : Receipt) : Option (String → Rendered) → Delivery → String → Type 0 where
  no_renderer :
      {d : Delivery}
      → d.message_id ≡ none
      → d.error ≡ some (join_text ("no renderer for " ∷ r.receipt_type ∷ []))
      → Told r none d "failed"
  returned :
      {render : String → Rendered} {d : Delivery} {status : String}
      → render r.payload_json ≡ returns d
      → HasStatus d status
      → Told r (some render) d status
  raised :
      {render : String → Rendered} {d : Delivery} {text class_name : String}
      → render r.payload_json ≡ raises text class_name
      → d.message_id ≡ none
      → d.error ≡ some (if str_eq text "" then class_name else text)
      → Told r (some render) d "unknown"

outcome_of-HasStatus : (d : Delivery) → HasStatus d (outcome_of d)
unfolding outcome_of
outcome_of-HasStatus d = elim (Bool-cases (d.success && lower_is "accepted" d.delivery_state)) [
  | inl e ↦ rw e (accepted (and_true e).0 (and_true e).1)
  | inr e ↦ elim (Bool-cases (lower_is "failed" d.delivery_state)) [
    | inl f ↦ rw (e, f) (rejected f)
    | inr f ↦ rw (e, f) (unclear e f)
  ]
]

told :
    (r : Receipt) (o : Option (String → Rendered))
    → Told r o (deliver r o) (outcome_of (deliver r o))
unfolding deliver outcome_of lower_is
told r none = no_renderer refl refl
told r (some render) = by_result (render r.payload_json) refl
  where
    by_result :
        (x : Rendered)
        → render r.payload_json ≡ x
        → Told r (some render) (deliver r (some render)) (outcome_of (deliver r (some render)))
    by_result (returns d) e = rw e (returned e (outcome_of-HasStatus d))
    by_result (raises text class_name) e = rw e (raised e refl refl)

module _ (w : World) (c : String) where
  abbrev start_op : ℕ → Receipt → ℕ × Op
  start_op i r = (w.clock i, start r.receipt_key c)

  abbrev report_op : ℕ → Receipt → Delivery → String → ℕ × Op
  report_op i r d status = (w.clock i, mark r.receipt_key c status d.message_id d.error)

  -- the report of the delivery that the renderer of the row's type made of its payload
  abbrev mark_op : ℕ → Receipt → ℕ × Op
  mark_op i r = let d = deliver r (w.renderers r.receipt_type) in report_op i r d (outcome_of d)

  -- The operations of one row, with the other workers' before each: a start and, unless it raised, a
  -- mark; and whether both returned.
  pub data RowScript (i : ℕ) (r : Receipt) : Bool → List (ℕ × Op) → Type 0 where
    unstarted : RowScript i r false (w.others i ++ start_op i r ∷ [])
    attempted :
        {b : Bool} {d : Delivery} {status : String}
        → Told r (w.renderers r.receipt_type) d status
        → RowScript i r b
            (w.others i ++ start_op i r ∷ (w.others (suc i) ++ report_op (suc i) r d status ∷ []))

  -- Those of rows in their order; the loop ends after a row that raised.
  pub data Script : ℕ → List Receipt → List (ℕ × Op) → Type 0 where
    finished : {i : ℕ} → Script i [] []
    stopped :
        {i : ℕ} {r : Receipt} {rs : List Receipt} {ops : List (ℕ × Op)}
        → RowScript i r false ops
        → Script i (r ∷ rs) ops
    going :
        {i : ℕ} {r : Receipt} {rs : List Receipt} {ops rest : List (ℕ × Op)}
        → RowScript i r true ops
        → Script (suc (suc i)) rs rest
        → Script i (r ∷ rs) (ops ++ rest)

abbrev is_ok : {A : Type 0} → Result A → Bool
is_ok (ok a) = true
is_ok (err e) = false

run-append : (xs ys : List (ℕ × Op)) (t : Outbox) → run (xs ++ ys) t ≡ run ys (run xs t)
unfolding run
run-append [] ys t = refl
run-append ((now, op) ∷ xs) ys t = run-append xs ys (apply now op t)

module _ (w : World) (c : String) where
  abbrev marked_after : ℕ → Receipt → Outbox → Outbox
  marked_after i r t = run (mark_op w c i r ∷ []) t

  mark_row-run :
      (i : ℕ) (r : Receipt) (t : Outbox)
      → (mark_row w c i r (deliver r (w.renderers r.receipt_type)) t).0 ≡ marked_after i r t
  unfolding mark_row marked run apply
  mark_row-run i r t =
      by_result
        (mark_operation_receipt r.receipt_key c (outcome_of d) d.message_id d.error (w.clock i) t)
    where
      d : Delivery
      d = deliver r (w.renderers r.receipt_type)

      by_result : (x : Result Outbox) → (marked r d t x).0 ≡ after_write t x
      by_result (ok t') = refl
      by_result (err e) = refl

  abbrev RowRuns : ℕ → Receipt → Outbox → Outcome Attempt → Type 0
  RowRuns i r t x = (ops : List (ℕ × Op)) × RowScript w c i r (is_ok x.1) ops × (x.0 ≡ run ops t)

  dispatch_row-run : (i : ℕ) (r : Receipt) (t : Outbox) → RowRuns i r t (dispatch_row w c i r t)
  unfolding dispatch_row started run apply
  dispatch_row-run i r t =
      by_result (start_operation_receipt_send r.receipt_key c (w.clock i) t') refl
    where
      t' : Outbox
      t' = run (w.others i) t

      by_result :
          (x : Result Outbox)
          → start_operation_receipt_send r.receipt_key c (w.clock i) t' ≡ x
          → RowRuns i r t (started w c i r t' x)
      by_result (err e) h = (
        w.others i ++ start_op w c i r ∷ [],
        unstarted,
        sym (run-append (w.others i) (start_op w c i r ∷ []) t ∙ ap (after_write t') h),
      )
      by_result (ok t'') h = (
        w.others i ++ start_op w c i r ∷ (w.others (suc i) ++ mark_op w c (suc i) r ∷ []),
        attempted (told r (w.renderers r.receipt_type)),
        sym (
            run-append (w.others i)
              (start_op w c i r ∷ (w.others (suc i) ++ mark_op w c (suc i) r ∷ [])) t
            ∙ ap (λ x. run (w.others (suc i) ++ mark_op w c (suc i) r ∷ []) (after_write t' x)) h
            ∙ run-append (w.others (suc i)) (mark_op w c (suc i) r ∷ []) t''
            ∙ sym (mark_row-run (suc i) r (run (w.others (suc i)) t''))),
      )

  abbrev Runs : ℕ → List Receipt → Outbox → Outbox → Type 0
  Runs i rs t t' = (ops : List (ℕ × Op)) × Script w c i rs ops × (t' ≡ run ops t)

  add_attempt-outbox : (a : Attempt) (x : Outcome (List Attempt)) → (add_attempt a x).0 ≡ x.0
  add_attempt-outbox a (t, ok as_) = refl
  add_attempt-outbox a (t, err e) = refl

  dispatch_rows-run :
      (i : ℕ) (rs : List Receipt) (t : Outbox) → Runs i rs t (dispatch_rows w c i rs t).0
  unfolding dispatch_rows run
  dispatch_rows-run i [] t = ([], finished, refl)
  dispatch_rows-run i (r ∷ rs) t =
      by_row (dispatch_row w c i r t) (dispatch_row-run i r t) (dispatch_rows-run (suc (suc i)) rs)
    where
      by_row :
          (x : Outcome Attempt)
          → RowRuns i r t x
          → ((u : Outbox) → Runs (suc (suc i)) rs u (dispatch_rows w c (suc (suc i)) rs u).0)
          → Runs i (r ∷ rs) t (go_on x (dispatch_rows w c (suc (suc i)) rs)).0
      by_row (t', err e) (ops, s, same) others = (ops, stopped s, same)
      by_row (t', ok a) (ops, s, same) others =
          let (rest, s', same') = others t' in
          (
            ops ++ rest,
            going s s',
            add_attempt-outbox a (dispatch_rows w c (suc (suc i)) rs t')
                ∙ same'
                ∙ ap (run rest) same
                ∙ sym (run-append ops rest t),
          )

reported-outbox : (n : ℕ) (x : Outcome (List Attempt)) → (reported n x).0 ≡ x.0
reported-outbox n (t, ok attempts) = refl
reported-outbox n (t, err e) = refl

pub dispatch-Script :
    (w : World) (limit : ℕ) (key : Option String) (c : String) (now : ℕ) (t : Outbox)
    → (ops : List (ℕ × Op)) × Script w c zero
        (claim_due_operation_receipts limit key (some c) c now t).0
        ops
      × ((dispatch_pending w limit key c now t).0 ≡ run ((now, claim limit key (some c) c) ∷ ops) t)
unfolding dispatch_pending run apply
dispatch-Script w limit key c now t =
    let rows = (claim_due_operation_receipts limit key (some c) c now t).0 in
    let t' = (claim_due_operation_receipts limit key (some c) c now t).1 in
    let (ops, s, same) = dispatch_rows-run w c zero rows t' in
    (ops, s, reported-outbox (length rows) (dispatch_rows w c zero rows t') ∙ same)

-- A receipt that was sent is not written by a dispatch, whatever the renderers return and whatever
-- other workers do in between.
pub dispatch-keeps_sent :
    (w : World) (limit : ℕ) (key : Option String) (c : String) (now : ℕ) (t : Outbox) (k : String)
    (r : Receipt)
    → get_operation_receipt k t ≡ some r
    → r.status ≡ sent
    → get_operation_receipt k (dispatch_pending w limit key c now t).0 ≡ some r
dispatch-keeps_sent w limit key c now t k r there was_sent =
    let (ops, s, same) = dispatch-Script w limit key c now t in
    ap (get_operation_receipt k) same
    ∙ run-sent k ((now, claim limit key (some c) c) ∷ ops) t r there was_sent
