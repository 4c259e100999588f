-- ===== src/OperationState/EventInbox/Lifecycle.antt =====
-- The lifecycle of an event, and what each statement on the inbox does to a row.
use portfolio_management.Common.Steps.{Reaches, here, move, Reaches-trans}
use portfolio_management.Common.{
  ℕ, ◌≡◌, refl, sym, subst, ◌∙◌, inl, inr, String, Bool, true, false, ◌&&◌, Option, none, some,
  List, [], ◌∷◌, ◌++◌, arith, Bool-cases, Error, value_error, Result, ok, err, keep, take, leb,
}
use portfolio_management.Common.Table.{update, order_by}
use portfolio_management.Common.Table.Evolution.{
  Evolves, Evolves-refl, Evolves-update, Evolves-append, Evolves-trans,
}
use portfolio_management.OperationState.EventInbox.{
  Event, Delivery, Inbox, EventState, pending, claimed, failed_retryable, processed, new_event,
  same_delivery, accept_or_compare, accept_event, claim_expired, release_claim, claimable,
  take_claim, claim_rows, resolve_claim, claim_events, holds_claim, retry_later, is_open,
}

infix 40 ◌⟶◌ ◌⟶*◌
pub data ◌⟶◌ : EventState → EventState → Type 0 where
  take_pending : pending ⟶ claimed
  take_failed : failed_retryable ⟶ claimed
  expire : claimed ⟶ failed_retryable
  fail : claimed ⟶ failed_retryable
  complete : claimed ⟶ processed

abbrev pub ◌⟶*◌ : EventState → EventState → Type 0
s ⟶* t = Reaches ◌⟶◌ s t

-- What was delivered, and when, is the same.
pub record Frozen (e e' : Event) : Type 0 where
  pub same_id : e'.event_id ≡ e.event_id
  pub same_type : e'.event_type ≡ e.event_type
  pub same_file : e'.file_token ≡ e.file_token
  pub same_table : e'.table_id ≡ e.table_id
  pub same_revision : e'.revision ≡ e.revision
  pub same_actions : e'.action_list_json ≡ e.action_list_json
  pub same_digest : e'.payload_digest ≡ e.payload_digest
  pub same_received : e'.received_at ≡ e.received_at

pub Frozen-trans : (x y z : Event) → Frozen x y → Frozen y z → Frozen x z
Frozen-trans x y z d e = record {
  same_id = e.same_id ∙ d.same_id;
  same_type = e.same_type ∙ d.same_type;
  same_file = e.same_file ∙ d.same_file;
  same_table = e.same_table ∙ d.same_table;
  same_revision = e.same_revision ∙ d.same_revision;
  same_actions = e.same_actions ∙ d.same_actions;
  same_digest = e.same_digest ∙ d.same_digest;
  same_received = e.same_received ∙ d.same_received;
}

Frozen-refl : (e : Event) → Frozen e e
Frozen-refl e = record {
  same_id = refl;
  same_type = refl;
  same_file = refl;
  same_table = refl;
  same_revision = refl;
  same_actions = refl;
  same_digest = refl;
  same_received = refl;
}

-- What a statement does to a row: the delivery is frozen, the state goes along the diagram, and a
-- processed event is not touched.
pub record Follows (e e' : Event) : Type 0 where
  pub frozen : Frozen e e'
  pub path : e.state ⟶* e'.state
  pub final : e.state ≡ processed → e' ≡ e

-- An event that was delivered since.
pub record IsNew (e : Event) : Type 0 where
  pub from_pending : pending ⟶* e.state

abbrev pub Moves : Inbox → Inbox → Type 0
Moves = Evolves Follows IsNew

stay : (e : Event) → Follows e e
stay e = record { frozen = Frozen-refl e; path = here; final = λ _. refl }

join : (x y z : Event) → Follows x y → Follows y z → Follows x z
join x y z d e = record {
  frozen = Frozen-trans x y z d.frozen e.frozen;
  path = Reaches-trans ◌⟶◌ d.path e.path;
  final = λ q. e.final (subst (λ (w : Event). w.state ≡ processed) (sym (d.final q)) q) ∙ d.final q;
}

grow : (x y : Event) → Follows x y → IsNew x → IsNew y
grow x y d n = record { from_pending = Reaches-trans ◌⟶◌ n.from_pending d.path }

follow :
    (e e' : Event) → Frozen e e' → e.state ⟶ e'.state → (e.state ≡ processed → ⊥) → Follows e e'
follow e e' f s n = record { frozen = f; path = move s here; final = λ q. absurd (n q) }

pub Moves-refl : (t : Inbox) → Moves t t
Moves-refl t = Evolves-refl Follows IsNew stay t

pub Moves-trans : {t u v : Inbox} → Moves t u → Moves u v → Moves t v
Moves-trans d e = Evolves-trans Follows IsNew join grow d e

follow_expired :
    (now : ℕ) (e : Event) → claim_expired now e ≡ true → Follows e (release_claim now e)
unfolding claim_expired release_claim
follow_expired now e h =
    follow e _
      (record {
        same_id = refl;
        same_type = refl;
        same_file = refl;
        same_table = refl;
        same_revision = refl;
        same_actions = refl;
        same_digest = refl;
        same_received = refl;
      })
      (grind (arith, expire)) (λ q. ground arith)

follow_take :
    (k c : String) (now : ℕ) (e : Event) → claimable k e ≡ true → Follows e (take_claim c now e)
unfolding claimable take_claim
follow_take k c now e h =
    follow e _
      (record {
        same_id = refl;
        same_type = refl;
        same_file = refl;
        same_table = refl;
        same_revision = refl;
        same_actions = refl;
        same_digest = refl;
        same_received = refl;
      })
      (grind (arith, take_pending, take_failed)) (λ q. ground arith)

pub Moves-retry :
    (k c error : String) (attempt now : ℕ) (t : Inbox)
    → Moves t (update (holds_claim k c) (retry_later attempt error now) t)
unfolding holds_claim retry_later
Moves-retry k c error attempt now t =
    Evolves-update Follows IsNew stay (holds_claim k c) (retry_later attempt error now)
      (λ e h.
        follow e _
          (record {
            same_id = refl;
            same_type = refl;
            same_file = refl;
            same_table = refl;
            same_revision = refl;
            same_actions = refl;
            same_digest = refl;
            same_received = refl;
          })
          (grind (arith, fail)) (λ q. ground arith))
      t

-- any write of the owner that processes the event and keeps the delivery
pub Moves-finish :
    (k c : String) (f : Event → Event)
    → ((e : Event) → Frozen e (f e))
    → ((e : Event) → (f e).state ≡ processed)
    → (t : Inbox) → Moves t (update (holds_claim k c) f t)
unfolding holds_claim
Moves-finish k c f kept s t =
    Evolves-update Follows IsNew stay (holds_claim k c) f
      (λ e h. follow e (f e) (kept e) (grind (arith, complete, s e)) (λ q. ground arith)) t

abbrev collision : Error
collision = value_error "event id collision with different payload"

module _ (S : Event → Event → Type 0) (N : Event → Type 0) (same_row : (e : Event) → S e e) where
  accept_found-Evolves :
      (d : Delivery) (now : ℕ) (t t' : Inbox) (b : Bool)
      → N (new_event d now)
      → (o : Option Event) → accept_or_compare d now t o ≡ ok (b, t')
      → Evolves S N t t'
  unfolding accept_or_compare
  accept_found-Evolves d now t t' b born none h =
      let same : t ++ new_event d now ∷ [] ≡ t' = cc in
      subst (λ u. Evolves S N t u) same
        (Evolves-append S N same_row t (new_event d now ∷ []) (born, tt))
  accept_found-Evolves d now t t' b born (some e) h = elim (Bool-cases (same_delivery d e)) [
    | inl q ↦
        let g : ◌≡◌ {A = Result (Bool × Inbox)} (ok (false, t)) (ok (b, t')) = rw q at h in
        let same : t ≡ t' = cc in subst (λ u. Evolves S N t u) same (Evolves-refl S N same_row t)
    | inr q ↦ let g : ◌≡◌ {A = Result (Bool × Inbox)} (err collision) (ok (b, t')) = rw q at h in cc
  ]

  pub accept-Evolves :
      (d : Delivery) (now : ℕ) (t t' : Inbox) (b : Bool)
      → N (new_event d now)
      → accept_event d now t ≡ ok (b, t')
      → Evolves S N t t'
  unfolding accept_event
  accept-Evolves d now t t' b born h = accept_found-Evolves d now t t' b born _ h

pub accept-Moves :
    (d : Delivery) (now : ℕ) (t t' : Inbox) (b : Bool)
    → accept_event d now t ≡ ok (b, t')
    → Moves t t'
unfolding new_event
accept-Moves d now t t' b h =
    accept-Evolves Follows IsNew stay d now t t' b (record { from_pending = here }) h

claim_rows-Moves :
    (c : String) (now : ℕ) (es : List Event) (t : Inbox) → Moves t (claim_rows c now es t).1
unfolding claim_rows
claim_rows-Moves c now [] t = Moves-refl t
claim_rows-Moves c now (e ∷ es) t =
    Moves-trans (Evolves-update Follows IsNew stay _ _ (λ x h. follow_take e.event_id c now x h) t)
      (claim_rows-Moves c now es _)

pub claim-Moves :
    (limit : ℕ) (c : Option String) (fresh : String) (now : ℕ) (t : Inbox)
    → Moves t (claim_events limit c fresh now t).1
unfolding claim_events
claim-Moves limit c fresh now t =
    let t' = update (claim_expired now) (release_claim now) t in
    let due = keep (λ (e : Event). is_open e.state && leb e.next_attempt_at now) t' in
    Moves-trans (Evolves-update Follows IsNew stay _ _ (follow_expired now) t) (
      claim_rows-Moves (resolve_claim c fresh) now (take limit (order_by (λ e. e.received_at) due))
        t')
