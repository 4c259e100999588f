-- ===== src/OperationState/HoldingInbox/Accepts.antt =====
-- What a delivery does to the inbox and to the monitors of its table, and what its repetition does.
use portfolio_management.Common.{
  ℕ, ◌+◌, ◌≤◌, ◌<◌, ◌≡◌, ◌≢◌, refl, inl, inr, String, true, false, Option, none, some, List, [],
  ◌∷◌, ◌++◌, if◌then◌else◌, arith, ltb, str_eq, eq_iff, str_eq_refl, opt_eq, Bool-cases, ok,
}
use portfolio_management.Common.Table.{update, fetch_one}
use portfolio_management.Common.Table.Evolution.{Evolves, fresh, step}
use portfolio_management.Common.Table.Keys.{fetch_one-append}
use portfolio_management.OperationState.EventInbox.{
  Event, Delivery, has_id, new_event, same_delivery, accept_or_compare, accept_event,
}
use portfolio_management.OperationState.EventInbox.Edges.{Accepted, new_event-Accepted}
use portfolio_management.OperationState.HoldingMonitor.{Monitor, request, sooner}
use portfolio_management.OperationState.HoldingInbox.{
  Store, Settings, coalesce_time, watches, after_insert, accept_holding_event, get_holding_event,
  wake,
}

opt_eq_refl : (o : Option String) → opt_eq o o ≡ true
opt_eq_refl none = refl
opt_eq_refl (some s) = str_eq_refl s

same_new : (d : Delivery) (now : ℕ) → same_delivery d (new_event d now) ≡ true
unfolding same_delivery new_event
same_new d now =
    rw
      (
        str_eq_refl d.event_type,
        str_eq_refl d.file_token,
        str_eq_refl d.table_id,
        opt_eq_refl d.revision,
        str_eq_refl d.action_json,
        str_eq_refl d.payload_digest,
      )
      refl

-- What a delivery does to a monitor: one of its table that is ready and enabled has one request more,
-- and, unless it backs off from a failure, is due no later than the coalescing time from now; any
-- other stays as it was.
pub record Woken (d : Delivery) (coalesce now : ℕ) (m m' : Monitor) : Type 0 where
  pub requests :
      m.file_token ≡ d.file_token
      → m.table_id ≡ d.table_id
      → m.ready ≡ true
      → m.enabled ≡ true
      → m'.requested ≡ m.requested + 1
  pub comes_due :
      m.file_token ≡ d.file_token
      → m.table_id ≡ d.table_id
      → m.ready ≡ true
      → m.enabled ≡ true
      → m.failure_count ≡ 0
      → (due : ℕ) × (m'.next_due ≡ some due) × (due ≤ now + coalesce)
  pub backs_off : 0 < m.failure_count → m'.next_due ≡ m.next_due
  pub other_file : m.file_token ≢ d.file_token → m' ≡ m
  pub other_table : m.table_id ≢ d.table_id → m' ≡ m
  pub not_ready : m.ready ≡ false → m' ≡ m
  pub not_enabled : m.enabled ≡ false → m' ≡ m

module _ (d : Delivery) (coalesce now : ℕ) where
  abbrev woken : Monitor → Monitor
  woken m = if watches d.file_token d.table_id m then request (now + coalesce) m else m

  watched :
      (m : Monitor)
      → m.file_token ≡ d.file_token
      → m.table_id ≡ d.table_id
      → m.ready ≡ true
      → m.enabled ≡ true
      → watches d.file_token d.table_id m ≡ true
  unfolding watches
  watched m f t r e =
      rw ((eq_iff m.file_token d.file_token).1 f, (eq_iff m.table_id d.table_id).1 t, r, e) refl

  unwatched : (m : Monitor) → watches d.file_token d.table_id m ≡ false → woken m ≡ m
  unfolding watches
  unwatched m h = rw h refl

  sooner-bound : (o : Option ℕ) → sooner o (now + coalesce) ≤ now + coalesce
  unfolding sooner
  sooner-bound none = omega (arith)
  sooner-bound (some t) = ground arith

  keeps_due : (m : Monitor) → 0 < m.failure_count → (woken m).next_due ≡ m.next_due
  unfolding request
  keeps_due m fails =
      let failing : ltb 0 m.failure_count ≡ true = ground arith in
      elim (Bool-cases (watches d.file_token d.table_id m)) [
        | inl e ↦ rw (e, failing) refl
        | inr e ↦ rw e refl
      ]

  woken-Woken : (m : Monitor) → Woken d coalesce now m (woken m)
  unfolding request sooner watches
  woken-Woken m = record {
    requests = λ f t r e. rw (watched m f t r e) refl;
    comes_due = λ f t r e sound.
        rw (watched m f t r e, sound)
          (sooner m.next_due (now + coalesce), refl, sooner-bound m.next_due);
    backs_off = keeps_due m;
    other_file = λ ne. unwatched m (
        let other : str_eq m.file_token d.file_token ≡ false =
          ground (arith, eq_iff m.file_token d.file_token) in
        rw other refl);
    other_table = λ ne. unwatched m (
        let other : str_eq m.table_id d.table_id ≡ false =
          ground (arith, eq_iff m.table_id d.table_id) in
        ground arith);
    not_ready = λ h. unwatched m (ground arith);
    not_enabled = λ h. unwatched m (ground arith);
  }

  wake-Woken :
      (t : List Monitor)
      → Evolves
          (Woken d coalesce now)
          (λ m. ⊥)
          t
          (update (watches d.file_token d.table_id) (request (now + coalesce)) t)
  wake-Woken [] = fresh tt
  wake-Woken (m ∷ ms) = step (woken-Woken m) (wake-Woken ms)

-- A first delivery succeeds and adds its event, which is pending with no attempt and no claim, due at
-- once, and has all that was delivered. It wakes the monitors of its table once if the setting is
-- enabled, and none if it is not. The same delivery again, at any later time and with any settings,
-- reports that nothing was added and leaves events and monitors alone.
pub accept-once :
    (settings : Settings) (d : Delivery) (now : ℕ) (s : Store)
    → get_holding_event d.event_id s ≡ none
    → (s' : Store) × (accept_holding_event settings d now s ≡ ok (true, s'))
      × ((e : Event) × (get_holding_event d.event_id s' ≡ some e) × Accepted d now e)
      × (settings.enabled ≡ false → s'.monitors ≡ s.monitors)
      × (settings.enabled ≡ true
          → Evolves (Woken d (coalesce_time settings.coalesce) now) (λ m. ⊥) s.monitors s'.monitors)
      × ((other : Settings) (later : ℕ) → accept_holding_event other d later s' ≡ ok (false, s'))
unfolding get_holding_event accept_holding_event accept_event accept_or_compare after_insert wake
    new_event
accept-once settings d now s new =
    let e = new_event d now in
    let s' : Store = record {
      events = s.events ++ e ∷ [];
      monitors = wake settings d now s.monitors;
    } in
    let there : fetch_one (has_id d.event_id) s'.events ≡ some e =
      fetch_one-append (λ (x : Event). x.event_id) s.events e new in
    (
      s',
      rw new refl,
      (e, there, new_event-Accepted d now),
      (λ off. rw off refl),
      (λ on. rw on (wake-Woken d (coalesce_time settings.coalesce) now s.monitors)),
      (λ other later. rw (there, same_new d now) refl),
    )
