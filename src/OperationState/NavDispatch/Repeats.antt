-- ===== src/OperationState/NavDispatch/Repeats.antt =====
-- A NAV receipt that was sent is not sent again.
use Prim.Native.String.{◌++◌}
use Prim.Native.String.append.{cons}
use portfolio_management.Common.{
  ℕ, ◌≡◌, refl, sym, ap, ◌∙◌, inl, inr, String, Bool, true, false, ◌&&◌, Option, none, some, List,
  [], ◌∷◌, arith, str_eq, eq_iff, Bool-cases, keep, strip, ok,
}
use portfolio_management.Common.Table.{update, fetch_one, order_by}
use portfolio_management.Common.Table.Keys.{
  HasUniqueKeys, fetch_one-update, fetch_one-and_fails, update-HasUniqueKeys, image,
}
use portfolio_management.OperationState.NavReceipts.{
  NavReceipt, NavOutbox, sent, has_receipt, insert_or_compare, enqueue_nav_receipt, send_expired,
  release_send, is_due, key_filter, list_due_nav_receipts, claim_rows, claim_due_nav_receipts,
  get_nav_receipt,
}
use portfolio_management.OperationState.NavDispatch.{
  Sender, Job, NavResult, nav_report, already_sent, found_as, first_result, enqueued, nav_key,
  send_rows, dispatch_pending, enqueue_and_dispatch,
}

abbrev pub key_of : NavReceipt → String
key_of r = r.receipt_key

keep-none :
    (p q : NavReceipt → Bool)
    → ((x : NavReceipt) → p x ≡ q x)
    → (rs : List NavReceipt) → fetch_one q rs ≡ none
    → keep p rs ≡ []
keep-none p q same [] h = refl
keep-none p q same (x ∷ xs) h = elim (Bool-cases (q x)) [
  | inl e ↦ let g : ◌≡◌ {A = Option NavReceipt} (some x) none = rw e at h in cc
  | inr e ↦ rw (same x, e) (keep-none p q same xs (rw e at h))
]

module _ (now : ℕ) (k : String) (t : NavOutbox) (r : NavReceipt) (unique : HasUniqueKeys key_of t)
    (there : get_nav_receipt k t ≡ some r) (was_sent : r.status ≡ sent) where
  abbrev released : NavOutbox
  released = update (send_expired now) (release_send now) t

  released-there : get_nav_receipt k released ≡ some r
  unfolding get_nav_receipt send_expired release_send
  released-there =
      fetch_one-update key_of (send_expired now) (release_send now) (λ x. refl) k t
      ∙ ap (image (send_expired now) (release_send now)) there
      ∙ rw was_sent refl

  is_filtered :
      str_eq k "" ≡ false
      → (x : NavReceipt)
      → (is_due now x && key_filter (some k) x) ≡ (has_receipt k x && is_due now x)
  unfolding key_filter
  is_filtered full x = rw full (ground arith)

  -- Nothing is due under its key.
  none_due : str_eq k "" ≡ false → list_due_nav_receipts 1 (some k) now released ≡ []
  unfolding list_due_nav_receipts get_nav_receipt is_due order_by send_expired release_send
  none_due full =
      let closed : is_due now r ≡ false = rw was_sent refl in
      let unique' : HasUniqueKeys key_of released =
        update-HasUniqueKeys key_of (send_expired now) (release_send now) (λ x. refl) t unique in
      let empty : keep (λ x. is_due now x && key_filter (some k) x) released ≡ [] =
        keep-none (λ x. is_due now x && key_filter (some k) x)
          (λ x. has_receipt k x && is_due now x) (is_filtered full) released
          (fetch_one-and_fails key_of k (is_due now) released r unique' released-there closed) in
      rw empty refl

  claims_none :
      (c : String)
      → str_eq k "" ≡ false
      → claim_due_nav_receipts 1 (some k) (some c) c now t ≡ ([], released)
  unfolding claim_due_nav_receipts claim_rows
  claims_none c full = rw (none_due full) refl

  -- The dispatch of a receipt that was sent sends nothing, whoever sends.
  dispatches_none :
      (sender : Sender) (clock : ℕ → ℕ) (c : String)
      → clock 0 ≡ now
      → str_eq k "" ≡ false
      → dispatch_pending sender clock 1 (some k) c t ≡ (released, ok (nav_report 0 []))
  unfolding dispatch_pending send_rows
  dispatches_none sender clock c at_now full = rw (at_now, claims_none c full) refl

  finds_sent : found_as k (get_nav_receipt k released) ≡ already_sent k r
  unfolding found_as
  finds_sent = rw (released-there, was_sent) refl

named_key : (run_id : String) → str_eq (nav_key run_id) "" ≡ false
named_key run_id = elim (Bool-cases (str_eq (nav_key run_id) "")) [
  | inr e ↦ e
  | inl e ↦
      let same : nav_key run_id ≡ "" = (eq_iff (nav_key run_id) "").0 e in
      let begins : String.◌∷◌ "n" ("av:" ++ (run_id ++ "")) ≡ "" =
        sym (λ i. cons "n" "av:" (run_id ++ "") i) ∙ same in
      cc
]

-- A real job with a run id whose receipt was sent with the job's payload, in a table with unique keys,
-- is not announced again: whatever the sender would do, the call returns success with the status
-- `sent`, the message id of the receipt that is there, its key and no error, marked as deduplicated;
-- and the receipt stays as it was.
pub enqueue-deduplicates :
    (sender : Sender) (clock : ℕ → ℕ) (job : Job) (c : String) (now : ℕ) (t : NavOutbox)
    (r : NavReceipt)
    → job.dry_run ≡ false
    → str_eq (strip job.run_id) "" ≡ false
    → HasUniqueKeys key_of t
    → get_nav_receipt (nav_key (strip job.run_id)) t ≡ some r
    → r.status ≡ sent
    → r.payload_json ≡ job.payload
    → (t' : NavOutbox) × (a : NavResult) × (enqueue_and_dispatch sender clock job c now t
        ≡ (t', ok a))
      × (a.success ≡ true)
      × (a.status ≡ some "sent")
      × (a.message_id ≡ r.message_id)
      × (a.error ≡ none)
      × (a.receipt_key ≡ some (nav_key (strip job.run_id)))
      × (a.deduplicated ≡ true)
      × (get_nav_receipt (nav_key (strip job.run_id)) t' ≡ some r)
unfolding already_sent enqueue_and_dispatch enqueued first_result enqueue_nav_receipt
    insert_or_compare get_nav_receipt nav_report
enqueue-deduplicates sender clock job c now t r real named unique there was_sent same =
    let k = nav_key (strip job.run_id) in
    let full : str_eq k "" ≡ false = named_key (strip job.run_id) in
    let payload : str_eq r.payload_json job.payload ≡ true =
      (eq_iff r.payload_json job.payload).1 same in
    let none_sent =
      dispatches_none (clock 0) k t r unique there was_sent sender clock c refl full in
    (
      released (clock 0) k t r unique there was_sent,
      already_sent k r,
      rw (real, named, there, payload, none_sent)
          (ap (λ a. (released (clock 0) k t r unique there was_sent, ok a))
            (finds_sent (clock 0) k t r unique there was_sent)),
      refl,
      refl,
      refl,
      refl,
      refl,
      refl,
      released-there (clock 0) k t r unique there was_sent,
    )
