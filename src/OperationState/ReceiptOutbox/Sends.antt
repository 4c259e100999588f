-- ===== src/OperationState/ReceiptOutbox/Sends.antt =====
-- The two calls by which a dispatcher sends a receipt that it has claimed: each finds it, and no other
-- receipt is touched.
use portfolio_management.Common.{
  ℕ, ◌+◌, ◌≡◌, refl, ap, ◌∙◌, String, true, false, ◌&&◌, Option, none, some, str_eq, str_eq_refl,
  opt_is, ok,
}
use portfolio_management.Common.Table.{update, fetch_one}
use portfolio_management.Common.Table.Keys.{
  fetch_one_holds, fetch_one-update, fetch_one-update_other, fetch_one-and, image,
  update-HasUniqueKeys,
}
use portfolio_management.OperationState.Receipts.{
  Outbox, Receipt, Status, claimed, sending, is_claimed, is_sending,
}
use portfolio_management.OperationState.ReceiptOutbox.{
  holds_claim, start_send, start_operation_receipt_send, outcome_status, holds_send, finish_send,
  finish_found, mark_as, mark_operation_receipt, get_operation_receipt,
}
use portfolio_management.OperationState.ReceiptOutbox.Keys.{key_of, Keyed}
use portfolio_management.OperationState.ReceiptOutbox.Claims.{start_count, holder_hit}

-- No receipt but that under `k` differs.
abbrev pub AgreeOff : String → Outbox → Outbox → Type 0
AgreeOff k t t' =
    (j : String) → str_eq j k ≡ false → get_operation_receipt j t' ≡ get_operation_receipt j t

-- The receipt under `k` is in a status under a claim.
pub record Held (k : String) (status : Status) (claim : Option String) (t : Outbox) : Type 0 where
  pub row : Receipt
  pub there : get_operation_receipt k t ≡ some row
  pub in_status : row.status ≡ status
  pub under : row.claim_id ≡ claim

-- What a call of the dispatcher makes of the receipt under `k`.
pub record Brings (k : String) (status : Status) (claim : Option String) (t t' : Outbox)
    : Type 0 where
  pub keyed : Keyed t'
  pub held : Held k status claim t'
  pub elsewhere : AgreeOff k t t'

module _ (k c : String) (now : ℕ) (t : Outbox) (u : Keyed t) where
  pub start-Brings :
      Held k claimed (some c) t
      → (t' : Outbox) × (start_operation_receipt_send k c now t ≡ ok t')
        × Brings k sending (some c) t t'
  unfolding start_operation_receipt_send get_operation_receipt start_send holds_claim
  start-Brings h =
      let p = holds_claim k c in
      let f = start_send now in
      let count = start_count k c now t h.row u h.there h.in_status h.under c in
      (
        update p f t,
        rw (count, str_eq_refl c) refl,
        record {
          keyed = update-HasUniqueKeys key_of p f (λ x. refl) t u;
          held = record {
            row = f h.row;
            there =
                fetch_one-update key_of p f (λ x. refl) k t
                ∙ ap (image p f) h.there
                ∙ rw (holder_hit k c now t h.row u h.there h.in_status h.under) refl;
            in_status = refl;
            under = h.under;
          };
          elsewhere = λ j d.
              fetch_one-update_other key_of j k (λ x. is_claimed x.status && opt_is x.claim_id c) f
                (λ x. refl) d t;
        },
      )

  pub mark-Brings :
      (outcome : String) (status : Status) (message error : Option String)
      → outcome_status outcome ≡ some status
      → Held k sending (some c) t
      → (t' : Outbox) × (mark_operation_receipt k c outcome message error now t ≡ ok t')
        × Brings k status none t t'
  unfolding mark_operation_receipt mark_as finish_found get_operation_receipt finish_send holds_send
  mark-Brings outcome status message error o h =
      let q = λ (x : Receipt). is_sending x.status && opt_is x.claim_id c in
      let p = holds_send k c in
      let f = finish_send status (h.row.attempt_count + 1) message error now in
      let sends : q h.row ≡ true = rw (h.in_status, h.under, str_eq_refl c) refl in
      let finds : fetch_one p t ≡ some h.row = fetch_one-and key_of k q t h.row h.there sends in
      (
        update p f t,
        rw (o, finds) refl,
        record {
          keyed = update-HasUniqueKeys key_of p f (λ x. refl) t u;
          held = record {
            row = f h.row;
            there =
                fetch_one-update key_of p f (λ x. refl) k t
                ∙ ap (image p f) h.there
                ∙ rw (fetch_one_holds p t finds) refl;
            in_status = refl;
            under = refl;
          };
          elsewhere = λ j d. fetch_one-update_other key_of j k q f (λ x. refl) d t;
        },
      )
