-- ===== src/OperationState/HoldingMonitor/Schedule.antt =====
-- When the monitor runs next, after a request and after a failure.
use portfolio_management.Common.{
  ℕ, zero, suc, ◌+◌, ◌-◌, ◌*◌, ◌≤◌, ◌≡◌, refl, ap, ◌∙◌, String, true, false, ◌&&◌, Option, none,
  some, List, arith, min, ok, ltb,
}
use portfolio_management.Common.Table.{update}
use portfolio_management.Common.Table.Keys.{fetch_one-update, fetch_one_holds, image}
use portfolio_management.OperationState.HoldingMonitor.{
  Monitor, second, has_scope, sooner, request, request_holding_monitor, failure_delay, back_off,
  fail_as, fail_holding_monitor, read_monitor,
}

abbrev pub key_of : Monitor → String
key_of m = m.scope_key

pub sooner_bound : (o : Option ℕ) (due : ℕ) → sooner o due ≤ due
unfolding sooner
sooner_bound none due = omega arith
sooner_bound (some d) due = ground arith

sooner_kept : (d due : ℕ) → sooner (some d) due ≤ d
unfolding sooner
sooner_kept d due = ground arith

last_rung : (n : ℕ) → min (suc (suc (suc (suc (suc n)))) - 1) 4 ≡ 4
last_rung n = omega arith

failure_delay_bounds : (n : ℕ) → (2 * second ≤ failure_delay n) × (failure_delay n ≤ 60 * second)
unfolding failure_delay
failure_delay_bounds zero = omega arith
failure_delay_bounds (suc zero) = omega arith
failure_delay_bounds (suc (suc zero)) = omega arith
failure_delay_bounds (suc (suc (suc zero))) = omega arith
failure_delay_bounds (suc (suc (suc (suc zero)))) = omega arith
failure_delay_bounds (suc (suc (suc (suc (suc n))))) = rw (last_rung n) (omega arith)

-- A request to a monitor that is ready and enabled is counted, whatever its schedule; a monitor
-- that does not back off will run at the requested time at the latest and never later than it
-- would have, and one that backs off keeps its time.
pub request-sooner :
    (scope : String) (delay now : ℕ) (t : List Monitor) (m : Monitor)
    → read_monitor scope t ≡ some m
    → m.ready ≡ true
    → m.enabled ≡ true
    → (m' : Monitor) × (read_monitor scope (request_holding_monitor scope delay now t) ≡ some m')
      × (m'.requested ≡ m.requested + 1)
      × (m.failure_count ≡ 0
          → (due : ℕ) × (m'.next_due ≡ some due)
            × (due ≤ now + delay)
            × ((d : ℕ) → m.next_due ≡ some d → due ≤ d))
      × (1 ≤ m.failure_count → m'.next_due ≡ m.next_due)
unfolding read_monitor request_holding_monitor request
request-sooner scope delay now t m e r n =
    let f = request (now + delay) in
    let p = λ (x : Monitor). has_scope scope x && (x.ready && x.enabled) in
    (
      f m,
      fetch_one-update key_of p f (λ x. refl) scope t
          ∙ ap (image p f) e
          ∙ rw (fetch_one_holds (has_scope scope) t e, r, n) refl,
      refl,
      (λ z.
          let idle : ltb 0 m.failure_count ≡ false = ground arith in
          (
            sooner m.next_due (now + delay),
            rw idle refl,
            sooner_bound m.next_due (now + delay),
            (λ d q. rw q (sooner_kept d (now + delay))),
          )),
      (λ z. let backing_off : ltb 0 m.failure_count ≡ true = ground arith in rw backing_off refl),
    )

-- A failed background run is counted, and the next one is due no sooner than after two seconds and
-- no later than after a minute.
pub fail-backs_off :
    (scope error : String) (now : ℕ) (t : List Monitor) (m : Monitor)
    → read_monitor scope t ≡ some m
    → (t' : List Monitor) × (fail_holding_monitor scope "background" error now t ≡ ok t')
      × (m' : Monitor) × (read_monitor scope t' ≡ some m')
      × (m'.failure_count ≡ m.failure_count + 1)
      × (due : ℕ) × (m'.next_due ≡ some due)
      × (now + 2 * second ≤ due)
      × (due ≤ now + 60 * second)
unfolding read_monitor fail_holding_monitor fail_as back_off
fail-backs_off scope error now t m e =
    let n = m.failure_count + 1 in
    let f = back_off n error now in
    let bounds = failure_delay_bounds n in
    (
      update (has_scope scope) f t,
      rw e refl,
      f m,
      fetch_one-update key_of (has_scope scope) f (λ x. refl) scope t
          ∙ ap (image (has_scope scope) f) e
          ∙ rw (fetch_one_holds (has_scope scope) t e) refl,
      refl,
      now + failure_delay n,
      refl,
      omega (arith, bounds),
      omega (arith, bounds),
    )
