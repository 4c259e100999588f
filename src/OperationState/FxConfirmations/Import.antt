-- ===== src/OperationState/FxConfirmations/Import.antt =====
-- An import never overwrites, and the second one does nothing.
use portfolio_management.Common.{
  ◌≡◌, refl, String, Option, none, some, List, [], ◌∷◌, length, All, ok,
}
use portfolio_management.Common.Table.{fetch_one}
use portfolio_management.Common.Table.Keys.{fetch_one-append, fetch_one-append_keeps}
use portfolio_management.OperationState.FxConfirmations.{
  FxConfirmation, confirmation_of, has_confirmation, table, ImportReport, import_over, import_rows,
  import_legacy_fx_confirmations,
}

abbrev pub read : String → List FxConfirmation → Option FxConfirmation
read k t = fetch_one (has_confirmation k) t

-- The table has a row under the key of this one.
abbrev pub IsThere : List FxConfirmation → FxConfirmation → Type 0
IsThere t r = (x : FxConfirmation) × (read r.confirmation_id t ≡ some x)

import_over-keeps :
    (r : FxConfirmation) (t : List FxConfirmation) (o : Option FxConfirmation) (k : String)
    (x : FxConfirmation)
    → read k t ≡ some x
    → read k (import_over r t o).1 ≡ some x
unfolding import_over
import_over-keeps r t none k x e = fetch_one-append_keeps confirmation_of k t r x e
import_over-keeps r t (some y) k x e = e

import_over-IsThere :
    (r : FxConfirmation) (t : List FxConfirmation) (o : Option FxConfirmation)
    → read r.confirmation_id t ≡ o
    → IsThere (import_over r t o).1 r
unfolding import_over
import_over-IsThere r t none e = (r, fetch_one-append confirmation_of t r e)
import_over-IsThere r t (some y) e = (y, e)

import_rows-keeps :
    (rs t : List FxConfirmation) (k : String) (x : FxConfirmation)
    → read k t ≡ some x
    → read k (import_rows rs t).1 ≡ some x
unfolding import_rows
import_rows-keeps [] t k x e = e
import_rows-keeps (r ∷ rs) t k x e =
    import_rows-keeps rs _ k x (import_over-keeps r t (read r.confirmation_id t) k x e)

import_rows-IsThere : (rs t : List FxConfirmation) → All (IsThere (import_rows rs t).1) rs
unfolding import_rows
import_rows-IsThere [] t = tt
import_rows-IsThere (r ∷ rs) t =
    let t' = (import_over r t (read r.confirmation_id t)).1 in
    let (x, e) = import_over-IsThere r t (read r.confirmation_id t) refl in
    ((x, import_rows-keeps rs t' r.confirmation_id x e), import_rows-IsThere rs t')

import_rows-again : (rs t : List FxConfirmation) → All (IsThere t) rs → import_rows rs t ≡ (0, t)
unfolding import_rows import_over
import_rows-again [] t h = refl
import_rows-again (r ∷ rs) t h = let (x, e) = h.0 in rw (e, import_rows-again rs t h.1) refl

-- After an import that returns, every confirmation that was there is unchanged, every scanned one
-- has a row under its key, and the same import again adds nothing and changes nothing.
pub import-idempotent :
    (rows t : List FxConfirmation) (report : ImportReport) (t' : List FxConfirmation)
    → import_legacy_fx_confirmations (table rows) t ≡ ok (report, t')
    → ((k : String) (x : FxConfirmation) → read k t ≡ some x → read k t' ≡ some x)
      × All (IsThere t') rows
      × (import_legacy_fx_confirmations (table rows) t'
          ≡ ok (record { scanned = length rows; imported = 0 }, t'))
unfolding import_legacy_fx_confirmations
import-idempotent rows t report t' h =
    let same : (import_rows rows t).1 ≡ t' = cc in
    (
      (λ k x e. rw (← same) (import_rows-keeps rows t k x e)),
      rw (← same) (import_rows-IsThere rows t),
      rw (import_rows-again rows t' (rw (← same) (import_rows-IsThere rows t))) refl,
    )
