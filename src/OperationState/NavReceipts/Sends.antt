-- ===== src/OperationState/NavReceipts/Sends.antt =====
-- The end of a send: who may report it, and what the report leaves.
use portfolio_management.Common.{
  ℕ, ◌+◌, ◌-◌, ◌*◌, ◌≤◌, ◌≡◌, ◌≢◌, refl, ap, ◌∙◌, inl, inr, String, Bool, true, false, ◌&&◌, Option,
  none, some, arith, str_eq, str_eq_refl, eq_iff, opt_is, key_error, ok, err, max, if◌then◌else◌,
  Bool-cases,
}
use portfolio_management.Common.Table.{update, fetch_one}
use portfolio_management.Common.Table.Keys.{
  HasUniqueKeys, fetch_one-update, fetch_one_holds, fetch_one-and, fetch_one-and_fails, image,
}
use portfolio_management.OperationState.Retry.{minute, retry_delay, retry_delay_bounds}
use portfolio_management.OperationState.NavReceipts.{
  NavReceipt, NavOutbox, sending, sent, failed, is_sending, has_receipt, holds_send, finish_send,
  send_delay, mark_found, mark_nav_receipt, get_nav_receipt,
}

max_zero : (n : ℕ) → max n 0 ≡ n
max_zero n = omega arith

-- the guard against a negative index changes nothing on an attempt number
send_delay-retry_delay : (n : ℕ) → send_delay n ≡ retry_delay n
unfolding send_delay retry_delay
send_delay-retry_delay n = rw (max_zero (n - 1)) refl

abbrev pub key_of : NavReceipt → String
key_of r = r.receipt_key

foreign_claim :
    (key c d : String) (t : NavOutbox) (r : NavReceipt)
    → HasUniqueKeys key_of t
    → fetch_one (has_receipt key) t ≡ some r
    → r.claim_id ≡ some c
    → d ≢ c
    → fetch_one (holds_send key d) t ≡ none
unfolding holds_send
foreign_claim key c d t r u e i n =
    let other : str_eq c d ≡ false = ground (arith, eq_iff c d) in
    let fails : (is_sending r.status && opt_is r.claim_id d) ≡ false =
      rw i (elim (Bool-cases (is_sending r.status)) [
        | inl q ↦ rw (q, other) refl
        | inr q ↦ rw q refl
      ]) in
    fetch_one-and_fails key_of key (λ x. is_sending x.status && opt_is x.claim_id d) t r u e fails

-- The report of the dispatcher that holds a send settles the receipt: sent or failed, one attempt
-- more, without a claim, and due again no sooner than after a minute and no later than after an
-- hour; the report of any other claim is refused.
pub mark-settles :
    (key c : String) (success : Bool) (message error : Option String) (now : ℕ) (t : NavOutbox)
    (r : NavReceipt)
    → HasUniqueKeys key_of t
    → get_nav_receipt key t ≡ some r
    → r.status ≡ sending
    → r.claim_id ≡ some c
    → ((t' : NavOutbox) × (mark_nav_receipt key c success message error now t ≡ ok t')
        × (r' : NavReceipt) × (get_nav_receipt key t' ≡ some r')
        × (r'.status ≡ (if success then sent else failed))
        × (r'.attempt_count ≡ r.attempt_count + 1)
        × (r'.claim_id ≡ none)
        × (now + minute ≤ r'.next_attempt_at)
        × (r'.next_attempt_at ≤ now + 60 * minute))
      × ((d : String)
          → d ≢ c
          → mark_nav_receipt key d success message error now t
            ≡ err (key_error "nav receipt claim not found"))
unfolding mark_nav_receipt get_nav_receipt mark_found holds_send finish_send
mark-settles key c success message error now t r u e s i =
    let n = r.attempt_count + 1 in
    let f = finish_send success n message error now in
    let holder : (is_sending r.status && opt_is r.claim_id c) ≡ true =
      rw (s, i, str_eq_refl c) refl in
    let row : fetch_one (holds_send key c) t ≡ some r =
      fetch_one-and key_of key (λ x. is_sending x.status && opt_is x.claim_id c) t r e holder in
    let bounds = retry_delay_bounds n in
    let delay = send_delay-retry_delay n in
    (
      (
        update (holds_send key c) f t,
        rw row refl,
        f r,
        fetch_one-update key_of (holds_send key c) f (λ x. refl) key t
            ∙ ap (image (holds_send key c) f) e
            ∙ rw (fetch_one_holds (has_receipt key) t e, holder) refl,
        refl,
        refl,
        refl,
        omega (arith, bounds, delay),
        omega (arith, bounds, delay),
      ),
      (λ d n. rw (foreign_claim key c d t r u e i n) refl),
    )
