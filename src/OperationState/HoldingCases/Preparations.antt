-- ===== src/OperationState/HoldingCases/Preparations.antt =====
-- What a preparation of an apply leaves, and that its remote attempt can start
-- (`_prepare_holding_apply_tx` of src/app/operation_state/_holding_case_mixin.py).
use portfolio_management.Common.{
  ℕ, ◌≡◌, refl, sym, ap, ◌∙◌, subst, inl, inr, String, Bool, true, false, Option, none, some, List,
  [], ◌∷◌, map, ◌==◌, if◌then◌else◌, str_eq, str_eq_refl, eq_iff, text_in, Bool-cases, ok, Returns,
  returned, raised, >>=-Returns, Returns-ok, Returns-map, Members, All, All-map, All-map_of,
}
use portfolio_management.Common.Table.{update, row_count, fetch_one}
use portfolio_management.Common.Table.Keys.{
  HasUniqueKeys, image, fetch_one_holds, fetch_one-update, update-HasUniqueKeys,
}
use portfolio_management.OperationState.HoldingCases.{
  Case, CaseStore, case_key_of, has_case_key, insert_case_event_tx,
}
use portfolio_management.OperationState.HoldingCases.Apply.{
  Application, apply_row, prepare_found, prepare_all, prepare_holding_apply, can_start, mark_one,
  mark_holding_remote_attempt,
}
use portfolio_management.OperationState.HoldingCases.Attempts.{
  read_case, IsKeyed, is_waiting, marked, marked-IsKeyed, marked-spares, row_count-waiting,
}

cannot_start :
    (key attempt : String) (r : Case)
    → str_eq r.case_key key ≡ false
    → can_start key attempt r ≡ false
unfolding can_start
cannot_start key attempt r h = rw h refl

-- The case waits for the remote attempt to start.
abbrev pub Waits : String → CaseStore → String → Type 0
Waits attempt s k = (r : Case) × (read_case k s ≡ some r) × (is_waiting attempt r ≡ true)

-- The case was there with the precondition of the application.
abbrev pub Matches : CaseStore → Application → Type 0
Matches s a =
    (r : Case) × (read_case a.case_key s ≡ some r)
    × (r.case_precondition_digest ≡ a.case_precondition_digest)

module _ (attempt : String) (context : Members) (now : ℕ) where
  -- the rows after one preparation
  abbrev applied : Application → CaseStore → List Case
  applied a s = update (has_case_key a.case_key) (apply_row attempt context a now) s.rows

  applied_waits :
      (a : Application) (r : Case) → is_waiting attempt (apply_row attempt context a now r) ≡ true
  unfolding apply_row
  applied_waits a r = rw (str_eq_refl attempt) refl

  applied_read :
      (a : Application) (s : CaseStore) (k : String)
      → fetch_one (has_case_key k) (applied a s)
        ≡ image (has_case_key a.case_key) (apply_row attempt context a now) (read_case k s)
  unfolding apply_row
  applied_read a s k =
      fetch_one-update case_key_of (has_case_key a.case_key) (apply_row attempt context a now)
        (λ x. refl) k s.rows

  applied_keyed :
      (a : Application) (s : CaseStore) → IsKeyed s → HasUniqueKeys case_key_of (applied a s)
  unfolding apply_row
  applied_keyed a s u =
      update-HasUniqueKeys case_key_of (has_case_key a.case_key) (apply_row attempt context a now)
        (λ x. refl) s.rows u

  applied_digest :
      (a : Application) (r : Case) (b : Bool)
      → (if b then apply_row attempt context a now r else r).case_precondition_digest
        ≡ r.case_precondition_digest
  unfolding apply_row
  applied_digest a r true = refl
  applied_digest a r false = refl

  image_digest :
      (a b : Application) (o : Option Case) (r' : Case)
      → image (has_case_key a.case_key) (apply_row attempt context a now) o ≡ some r'
      → r'.case_precondition_digest ≡ b.case_precondition_digest
      → (r : Case) × (o ≡ some r) × (r.case_precondition_digest ≡ b.case_precondition_digest)
  image_digest a b none r' e d = cc
  image_digest a b (some r) r' e d =
      let y = if has_case_key a.case_key r then apply_row attempt context a now r else r in
      let same : y ≡ r' = cc in
      (
        r,
        refl,
        sym (applied_digest a r (has_case_key a.case_key r))
            ∙ ap (λ (x : Case). x.case_precondition_digest) same
            ∙ d,
      )

  image_waits :
      (a : Application) (r : Case)
      → is_waiting attempt r ≡ true
      → (r' : Case) × (image (has_case_key a.case_key) (apply_row attempt context a now) (some r)
          ≡ some r')
        × (is_waiting attempt r' ≡ true)
  image_waits a r w = elim (Bool-cases (has_case_key a.case_key r)) [
    | inl t ↦ (apply_row attempt context a now r, rw t refl, applied_waits a r)
    | inr t ↦ (r, rw t refl, w)
  ]

  -- What preparing the cases does: each was there with its digest and waits now, and a case that
  -- waited before waits still.
  record Prepares (cases : List Application) (s t : CaseStore) : Type 0 where
    keyed : IsKeyed s → IsKeyed t
    matched : All (Matches s) cases
    waiting : All (λ (a : Application). Waits attempt t a.case_key) cases
    keeps_waiting : (k : String) → Waits attempt s k → Waits attempt t k
    same_digest : (a : Application) → Matches t a → Matches s a

  prepare_found-Prepares :
      (a : Application) (s : CaseStore) (o : Option Case)
      → read_case a.case_key s ≡ o
      → Returns (Prepares (a ∷ []) s) (prepare_found attempt context now a s o)
  unfolding prepare_found insert_case_event_tx
  prepare_found-Prepares a s none e = raised
  prepare_found-Prepares a s (some r) e = elim (Bool-cases (text_in r.state a.allowed_states)) [
    | inr h ↦ rw h raised
    | inl h ↦
        rw h (elim (Bool-cases (str_eq r.case_precondition_digest a.case_precondition_digest)) [
          | inr d ↦ rw d raised
          | inl d ↦ rw d (
              returned (record {
                keyed = applied_keyed a s;
                matched = ((r, e, (eq_iff _ _).0 d), tt);
                waiting = (
                  (
                    apply_row attempt context a now r,
                    applied_read a s a.case_key ∙ rw (e, at_key) refl,
                    applied_waits a r,
                  ),
                  tt,
                );
                keeps_waiting = λ k (x, f, w).
                    let (x', g, w') = image_waits a x w in (x', applied_read a s k ∙ rw f g, w');
                same_digest = λ b (x', f, q).
                    image_digest a b (read_case b.case_key s) x'
                      (sym (applied_read a s b.case_key) ∙ f) q;
              }))
        ])
  ]
    where
      at_key : has_case_key a.case_key r ≡ true
      at_key = fetch_one_holds (has_case_key a.case_key) s.rows e

  prepare_all-Prepares :
      (cases : List Application) (s : CaseStore)
      → Returns (Prepares cases s) (prepare_all attempt context now cases s)
  unfolding prepare_all
  prepare_all-Prepares [] s = returned (record {
    keyed = λ u. u;
    matched = tt;
    waiting = tt;
    keeps_waiting = λ k w. w;
    same_digest = λ a m. m;
  })
  prepare_all-Prepares (a ∷ as_) s =
      let o = read_case a.case_key s in
      >>=-Returns (Prepares (a ∷ []) s) (Prepares (a ∷ as_) s)
        (prepare_found attempt context now a s o) (prepare_all attempt context now as_)
        (prepare_found-Prepares a s o refl)
        (λ t m.
          Returns-map (Prepares as_ t) (Prepares (a ∷ as_) s)
            (prepare_all attempt context now as_ t)
            (λ v n. record {
              keyed = λ u. n.keyed (m.keyed u);
              matched = (m.matched.0, All-map (Matches t) (Matches s) m.same_digest as_ n.matched);
              waiting = (n.keeps_waiting a.case_key m.waiting.0, n.waiting);
              keeps_waiting = λ k w. n.keeps_waiting k (m.keeps_waiting k w);
              same_digest = λ b x. m.same_digest b (n.same_digest b x);
            })
            (prepare_all-Prepares as_ t))

  prepare-Prepares :
      (cases : List Application) (s : CaseStore)
      → Returns (Prepares cases s) (prepare_holding_apply attempt context now cases s)
  unfolding prepare_holding_apply
  prepare-Prepares [] s = raised
  prepare-Prepares (a ∷ as_) s = prepare_all-Prepares (a ∷ as_) s

-- No text stands twice in the list.
abbrev pub IsDistinct : List String → Type 0
IsDistinct [] = Unit
IsDistinct (k ∷ ks) = All (λ j. str_eq j k ≡ false) ks × IsDistinct ks

module _ (attempt : String) (now : ℕ) where
  Waits-marked :
      (key k : String) (t : CaseStore)
      → str_eq k key ≡ false
      → Waits attempt t k
      → (r : Case) × (fetch_one (has_case_key k) (marked attempt now key t) ≡ some r)
        × (is_waiting attempt r ≡ true)
  Waits-marked key k t other (r, e, w) = (
    r,
    marked-spares attempt now key k t r e (not_taken (fetch_one_holds (has_case_key k) t.rows e)),
    w,
  )
    where
      not_taken : has_case_key k r ≡ true → can_start key attempt r ≡ false
      not_taken h =
          cannot_start key attempt r
            (subst (λ j. str_eq j key ≡ false) (sym ((eq_iff r.case_key k).0 h)) other)

  count_waiting :
      (key : String) (t : CaseStore)
      → IsKeyed t
      → Waits attempt t key
      → (row_count (can_start key attempt) t.rows == 1) ≡ true
  count_waiting key t u (r, e, w) = rw (row_count-waiting attempt now key t u, e, w) refl

  mark-starts :
      (keys : List String) (t : CaseStore)
      → IsKeyed t
      → IsDistinct keys
      → All (Waits attempt t) keys
      → (v : CaseStore) × (mark_holding_remote_attempt attempt now keys t ≡ ok v)
  unfolding mark_holding_remote_attempt mark_one insert_case_event_tx
  mark-starts [] t u d w = (t, refl)
  mark-starts (key ∷ keys) t u d w =
      rw (count_waiting key t u w.0)
        (mark-starts keys _ (marked-IsKeyed attempt now key t u) d.1 (elsewhere keys d.0 w.1))
    where
      elsewhere :
          (ks : List String)
          → All (λ j. str_eq j key ≡ false) ks
          → All (Waits attempt t) ks
          → All
              (λ k.
                (r : Case) × (fetch_one (has_case_key k) (marked attempt now key t) ≡ some r)
                × (is_waiting attempt r ≡ true))
              ks
      elsewhere [] d w = tt
      elsewhere (k ∷ ks) d w = (Waits-marked key k t d.0 w.0, elsewhere ks d.1 w.1)

-- A preparation that returns found every case with the precondition it was asked for, and left
-- every case applying under the attempt, its remote attempt not started; and in a table with unique
-- keys, where the cases are distinct, the mark of all of them, at any later time, returns.
pub prepare-then_starts :
    (attempt : String) (context : Members) (now : ℕ) (cases : List Application) (s t : CaseStore)
    → IsKeyed s
    → IsDistinct (map (λ (a : Application). a.case_key) cases)
    → prepare_holding_apply attempt context now cases s ≡ ok t
    → All (Matches s) cases
      × All (λ (a : Application). Waits attempt t a.case_key) cases
      × ((later : ℕ)
          → (v : CaseStore) × (mark_holding_remote_attempt attempt later
                (map (λ (a : Application). a.case_key) cases)
                t
              ≡ ok v))
prepare-then_starts attempt context now cases s t u d returns =
    let p : Prepares attempt context now cases s t =
      Returns-ok (Prepares attempt context now cases s)
        (prepare_holding_apply attempt context now cases s)
        (prepare-Prepares attempt context now cases s) returns in
    (
      p.matched,
      p.waiting,
      (λ later.
          mark-starts attempt later (map (λ (a : Application). a.case_key) cases) t (p.keyed u) d
            (All-map_of (Waits attempt t) (λ (a : Application). a.case_key) cases p.waiting)),
    )
