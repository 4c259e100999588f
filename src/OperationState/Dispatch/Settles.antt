-- ===== src/OperationState/Dispatch/Settles.antt =====
-- A dispatch beside which no other worker writes: it returns, and what it reports is what stands in
-- the outbox.
use portfolio_management.Common.{
  ℕ, zero, suc, ◌≡◌, refl, ap, subst, ◌∙◌, inl, inr, String, false, ◌&&◌, Option, none, some, List,
  [], ◌∷◌, length, map, All, All-map, Bool-cases, str_eq, ok,
}
use portfolio_management.Common.Table.Keys.{str_ne_sym}
use portfolio_management.OperationState.Receipts.{
  Outbox, Receipt, Status, claimed, sending, sent, failed, unknown,
}
use portfolio_management.OperationState.ReceiptOutbox.{
  claim_due_operation_receipts, get_operation_receipt, outcome_status, resolve_claim,
}
use portfolio_management.OperationState.ReceiptOutbox.Operations.{run}
use portfolio_management.OperationState.ReceiptOutbox.Keys.{key_of, Keyed, claim-Keyed}
use portfolio_management.OperationState.ReceiptOutbox.Claims.{Owned, claim_due-Owned}
use portfolio_management.OperationState.ReceiptOutbox.Distinct.{Apart, Distinct, claim_due-Distinct}
use portfolio_management.OperationState.ReceiptOutbox.Sends.{
  AgreeOff, Held, start-Brings, mark-Brings,
}
use portfolio_management.OperationState.Dispatch.{
  Delivery, World, Attempt, Outcome, DispatchReport, deliver, lower_is, outcome_of, marked,
  mark_row, started, dispatch_row, dispatch_rows, add_attempt, go_on, reported, report_of,
  dispatch_pending,
}

-- An outcome is one of the three that the store takes.
outcome_known : (d : Delivery) → (s : Status) × (outcome_status (outcome_of d) ≡ some s)
unfolding outcome_of
outcome_known d = elim (Bool-cases (d.success && lower_is "accepted" d.delivery_state)) [
  | inl e ↦ (sent, rw e refl)
  | inr e ↦ elim (Bool-cases (lower_is "failed" d.delivery_state)) [
    | inl f ↦ (failed, rw (e, f) refl)
    | inr f ↦ (unknown, rw (e, f) refl)
  ]
]

-- What an attempt reports stands in the outbox.
abbrev pub Reported : Outbox → Attempt → Type 0
Reported t a = (s : Status) × (outcome_status a.status ≡ some s) × Held a.receipt_key s none t

abbrev pub attempted_key : Attempt → String
attempted_key a = a.receipt_key

AgreeOff-Held :
    (k j : String) {s : Status} {c : Option String} {t t' : Outbox}
    → AgreeOff k t t'
    → str_eq j k ≡ false
    → Held j s c t
    → Held j s c t'
AgreeOff-Held k j agree d h = record {
  row = h.row;
  there = agree j d ∙ h.there;
  in_status = h.in_status;
  under = h.under;
}

go_on-ok :
    (x : Outcome Attempt) (a : Attempt) (rest : Outbox → Outcome (List Attempt))
    → x.1 ≡ ok a
    → go_on x rest ≡ add_attempt a (rest x.0)
go_on-ok (t, y) a rest h = rw h refl

add_attempt-ok :
    (a : Attempt) (y : Outcome (List Attempt)) (attempts : List Attempt)
    → y.1 ≡ ok attempts
    → add_attempt a y ≡ (y.0, ok (a ∷ attempts))
add_attempt-ok a (t, y) attempts h = rw h refl

module _ (w : World) (c : String) (quiet : (i : ℕ) → w.others i ≡ []) where
  -- The row of a receipt that is held under the claim is sent and settled.
  record Settles (r : Receipt) (t : Outbox) (x : Outcome Attempt) : Type 0 where
    attempt : Attempt
    returned : x.1 ≡ ok attempt
    same_key : attempt.receipt_key ≡ r.receipt_key
    reports : Reported x.0 attempt
    keyed : Keyed x.0
    elsewhere : AgreeOff r.receipt_key t x.0

  quiet_run : (i : ℕ) (t : Outbox) → run (w.others i) t ≡ t
  unfolding run
  quiet_run i t = rw (quiet i) refl

  mark_row-Settles :
      (i : ℕ) (r : Receipt) (d : Delivery) (t t' : Outbox)
      → AgreeOff r.receipt_key t t'
      → Keyed t'
      → Held r.receipt_key sending (some c) t'
      → Settles r t (mark_row w c i r d t')
  unfolding mark_row marked
  mark_row-Settles i r d t t' agree u h =
      let (s, o) = outcome_known d in
      let (t'', marks, b) =
        mark-Brings r.receipt_key c (w.clock i) t' u (outcome_of d) s d.message_id d.error o h in
      rw marks (record {
        attempt = _;
        returned = refl;
        same_key = refl;
        reports = (s, o, b.held);
        keyed = b.keyed;
        elsewhere = λ j e. b.elsewhere j e ∙ agree j e;
      })

  dispatch_row-Settles :
      (i : ℕ) (r : Receipt) (t : Outbox)
      → Keyed t
      → Held r.receipt_key claimed (some c) t
      → Settles r t (dispatch_row w c i r t)
  unfolding dispatch_row started
  dispatch_row-Settles i r t u h =
      let (t', starts, b) = start-Brings r.receipt_key c (w.clock i) t u h in
      let d = deliver r (w.renderers r.receipt_type) in
      rw (quiet_run i t, starts, quiet_run (suc i) t')
        (mark_row-Settles (suc i) r d t t' b.elsewhere b.keyed b.held)

  -- The loop returns one report for each row.
  record AllSettle (rs : List Receipt) (t : Outbox) (x : Outcome (List Attempt)) : Type 0 where
    attempts : List Attempt
    returned : x.1 ≡ ok attempts
    same_keys : map attempted_key attempts ≡ map key_of rs
    reports : All (Reported x.0) attempts
    elsewhere :
        (j : String)
        → All (λ r. str_eq j r.receipt_key ≡ false) rs
        → get_operation_receipt j x.0 ≡ get_operation_receipt j t

  abbrev HeldAll : List Receipt → Outbox → Type 0
  HeldAll rs t = All (λ (r : Receipt). Held r.receipt_key claimed (some c) t) rs

  HeldAll-rest :
      (r : Receipt) (rs : List Receipt) (t t' : Outbox)
      → AgreeOff r.receipt_key t t'
      → All (Apart r) rs
      → HeldAll rs t
      → HeldAll rs t'
  HeldAll-rest r [] t t' agree d h = tt
  HeldAll-rest r (x ∷ xs) t t' agree d h = (
    AgreeOff-Held r.receipt_key x.receipt_key agree d.0 h.0,
    HeldAll-rest r xs t t' agree d.1 h.1,
  )

  kept :
      (r : Receipt) (rs : List Receipt) (a : Attempt) (t : Outbox) (y : Outcome (List Attempt))
      → a.receipt_key ≡ r.receipt_key
      → All (Apart r) rs
      → AllSettle rs t y
      → Reported t a
      → Reported y.0 a
  kept r rs a t y same apart rest (s, o, h) = (
    s,
    o,
    record {
      row = h.row;
      there =
          rest.elsewhere a.receipt_key (
            All-map (Apart r) (λ (x : Receipt). str_eq a.receipt_key x.receipt_key ≡ false)
              (λ x d. rw same (str_ne_sym x.receipt_key r.receipt_key d)) rs apart)
          ∙ h.there;
      in_status = h.in_status;
      under = h.under;
    },
  )

  dispatch_rows-AllSettle :
      (i : ℕ) (rs : List Receipt) (t : Outbox)
      → Keyed t
      → HeldAll rs t
      → Distinct rs
      → AllSettle rs t (dispatch_rows w c i rs t)
  unfolding dispatch_rows
  dispatch_rows-AllSettle i [] t u h d = record {
    attempts = [];
    returned = refl;
    same_keys = refl;
    reports = tt;
    elsewhere = λ j e. refl;
  }
  dispatch_rows-AllSettle i (r ∷ rs) t u h d =
      let x = dispatch_row w c i r t in
      let s = dispatch_row-Settles i r t u h.0 in
      let y = dispatch_rows w c (suc (suc i)) rs x.0 in
      let rest : AllSettle rs x.0 y =
        dispatch_rows-AllSettle (suc (suc i)) rs x.0 s.keyed
          (HeldAll-rest r rs t x.0 s.elsewhere d.0 h.1) d.1 in
      rw
        (
          go_on-ok x s.attempt (dispatch_rows w c (suc (suc i)) rs) s.returned,
          add_attempt-ok s.attempt y rest.attempts rest.returned,
        )
        (record {
          attempts = s.attempt ∷ rest.attempts;
          returned = refl;
          same_keys =
              ap (λ k. k ∷ map attempted_key rest.attempts) s.same_key
              ∙ ap (λ ks. r.receipt_key ∷ ks) rest.same_keys;
          reports = (kept r rs s.attempt x.0 y s.same_key d.0 rest s.reports, rest.reports);
          elsewhere = λ j e. rest.elsewhere j e.1 ∙ s.elsewhere j e.0;
        })

reported-ok :
    (n : ℕ) (y : Outcome (List Attempt)) (attempts : List Attempt)
    → y.1 ≡ ok attempts
    → reported n y ≡ (y.0, ok (report_of n attempts))
reported-ok n (t, y) attempts h = rw h refl

resolve_claim_self : (c : String) → resolve_claim (some c) c ≡ c
resolve_claim_self c = elim (Bool-cases (str_eq c "")) [ inl e ↦ rw e refl | inr e ↦ rw e refl ]

-- Where no other worker writes in between, a dispatch raises nothing: it reports one attempt for
-- each receipt that it claimed, in their order, and each of these receipts stands in the outbox
-- with the status of its report and without a claim. All receipts that it did not claim are as the
-- claim left them.
pub dispatch-settles :
    (w : World) (limit : ℕ) (key : Option String) (c : String) (now : ℕ) (t : Outbox)
    → ((i : ℕ) → w.others i ≡ [])
    → Keyed t
    → let (rows, t') = claim_due_operation_receipts limit key (some c) c now t in
      let (t'', returned) = dispatch_pending w limit key c now t in
      (report : DispatchReport) × (returned ≡ ok report)
      × (map attempted_key report.results ≡ map key_of rows)
      × (report.attempted ≡ length rows)
      × All (Reported t'') report.results
      × ((j : String)
          → All (λ r. str_eq j r.receipt_key ≡ false) rows
          → get_operation_receipt j t'' ≡ get_operation_receipt j t')
unfolding dispatch_pending report_of get_operation_receipt
dispatch-settles w limit key c now t quiet u =
    let rows = (claim_due_operation_receipts limit key (some c) c now t).0 in
    let t' = (claim_due_operation_receipts limit key (some c) c now t).1 in
    let owned : All (Owned c t') rows =
      subst (λ d. All (Owned d t') rows) (resolve_claim_self c)
        (claim_due-Owned limit key (some c) c now t u).2 in
    let held : All (λ (r : Receipt). Held r.receipt_key claimed (some c) t') rows =
      All-map (Owned c t') (λ (r : Receipt). Held r.receipt_key claimed (some c) t')
        (λ r (r', e, s, i). record { row = r'; there = e; in_status = s; under = i }) rows owned in
    let all =
      dispatch_rows-AllSettle w c quiet zero rows t' (claim-Keyed limit key (some c) c now t u) held
        (claim_due-Distinct limit key (some c) c now t u) in
    rw (reported-ok (length rows) (dispatch_rows w c zero rows t') all.attempts all.returned)
      (report_of (length rows) all.attempts, refl, all.same_keys, refl, all.reports, all.elsewhere)
