-- ===== src/OperationState/EventInbox/Edges.antt =====
-- The edges of an event's lifecycle that accepting and claiming take the rows of an inbox along.
use portfolio_management.Common.{
  ℕ, ◌&&◌, ◌≡◌, refl, ◌⊎◌, inl, inr, String, true, Option, none, List, [], ◌∷◌, arith, keep, take,
  leb,
}
use portfolio_management.Common.Table.{update, order_by}
use portfolio_management.Common.Table.Edges.{Via-then, Via-join}
use portfolio_management.Common.Table.Evolution.{
  Evolves, Evolves-refl, Evolves-update, Evolves-trans, Evolves-compose,
}
use portfolio_management.OperationState.EventInbox.{
  Event, Delivery, Inbox, EventState, pending, claimed, failed_retryable, new_event, claim_expired,
  release_claim, claimable, take_claim, claim_rows, resolve_claim, claim_events, is_open,
}
use portfolio_management.OperationState.EventInbox.Lifecycle.{Frozen, Frozen-trans}

-- The row is as it was, or went along an edge with its delivery frozen.
abbrev pub Along : (EventState → EventState → Type 0) → Event → Event → Type 0
Along E e e' = (e' ≡ e) ⊎ (Frozen e e' × E e.state e'.state)

abbrev pub state_of : Event → EventState
state_of e = e.state

-- The row of a delivery as it is first written.
pub record Accepted (d : Delivery) (now : ℕ) (e : Event) : Type 0 where
  pub has_event_id : e.event_id ≡ d.event_id
  pub has_type : e.event_type ≡ d.event_type
  pub has_file : e.file_token ≡ d.file_token
  pub has_table : e.table_id ≡ d.table_id
  pub has_revision : e.revision ≡ d.revision
  pub has_actions : e.action_list_json ≡ d.action_json
  pub has_digest : e.payload_digest ≡ d.payload_digest
  pub is_pending : e.state ≡ pending
  pub no_attempts : e.attempt_count ≡ 0
  pub due_now : e.next_attempt_at ≡ now
  pub unclaimed : e.claim_id ≡ none
  pub received_now : e.received_at ≡ now

pub new_event-Accepted : (d : Delivery) (now : ℕ) → Accepted d now (new_event d now)
unfolding new_event
new_event-Accepted d now = record {
  has_event_id = refl;
  has_type = refl;
  has_file = refl;
  has_table = refl;
  has_revision = refl;
  has_actions = refl;
  has_digest = refl;
  is_pending = refl;
  no_attempts = refl;
  due_now = refl;
  unclaimed = refl;
  received_now = refl;
}

-- the two halves of a claim
pub data Expires : EventState → EventState → Type 0 where
  runs_out : Expires claimed failed_retryable

pub data Takes : EventState → EventState → Type 0 where
  of_pending : Takes pending claimed
  of_failed : Takes failed_retryable claimed

Expires-once : (a b c : EventState) → Expires a b → Expires b c → ⊥
Expires-once a b c runs_out e = elim e [ ]

Takes-once : (a b c : EventState) → Takes a b → Takes b c → ⊥
Takes-once a b c of_pending e = elim e [ ]
Takes-once a b c of_failed e = elim e [ ]

expire_step :
    (now : ℕ) (e : Event) → claim_expired now e ≡ true → Along Expires e (release_claim now e)
unfolding claim_expired release_claim
expire_step now e h = inr (
  record {
    same_id = refl;
    same_type = refl;
    same_file = refl;
    same_table = refl;
    same_revision = refl;
    same_actions = refl;
    same_digest = refl;
    same_received = refl;
  },
  grind (arith, runs_out),
)

take_step :
    (k c : String) (now : ℕ) (e : Event) → claimable k e ≡ true → Along Takes e (take_claim c now e)
unfolding claimable take_claim
take_step k c now e h = inr (
  record {
    same_id = refl;
    same_type = refl;
    same_file = refl;
    same_table = refl;
    same_revision = refl;
    same_actions = refl;
    same_digest = refl;
    same_received = refl;
  },
  grind (arith, of_pending, of_failed),
)

-- A claim takes a row along the edges of `G`, if these are those of the two halves and of both.
module _ (G : EventState → EventState → Type 0) (N : Event → Type 0)
    (grow : (E : EventState → EventState → Type 0) (x y : Event) → Along E x y → N x → N y)
    (expires : (a b : EventState) → Expires a b → G a b)
    (takes : (a b : EventState) → Takes a b → G a b)
    (both : (a b c : EventState) → Expires a b → Takes b c → G a c) where
  taken :
      (c : String) (now : ℕ) (es : List Event) (t : Inbox)
      → Evolves (Along Takes) N t (claim_rows c now es t).1
  unfolding claim_rows
  taken c now [] t = Evolves-refl (Along Takes) N (λ e. inl refl) t
  taken c now (e ∷ es) t =
      Evolves-trans (Along Takes) N (Via-join state_of Frozen Frozen-trans Takes Takes-once)
        (grow Takes)
        (Evolves-update (Along Takes) N (λ x. inl refl) _ _ (take_step e.event_id c now) t)
        (taken c now es _)

  pub claim-Along :
      (limit : ℕ) (c : Option String) (fresh : String) (now : ℕ) (t : Inbox)
      → Evolves (Along G) N t (claim_events limit c fresh now t).1
  unfolding claim_events
  claim-Along limit c fresh now t =
      let t' = update (claim_expired now) (release_claim now) t in
      let due = keep (λ (e : Event). is_open e.state && leb e.next_attempt_at now) t' in
      Evolves-compose (Along Expires) (Along Takes) (Along G) N
        (Via-then state_of Frozen Frozen-trans Expires Takes G expires takes both) (grow Takes)
        (Evolves-update (Along Expires) N (λ e. inl refl) _ _ (expire_step now) t)
        (taken (resolve_claim c fresh) now (take limit (order_by (λ e. e.received_at) due)) t')
