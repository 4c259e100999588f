-- ===== src/OperationState/HoldingCases/Attempts.antt =====
-- The remote attempt of a prepared case starts, and starts once (`_prepare_holding_apply_tx` and
-- `mark_holding_remote_attempt` of src/app/operation_state/_holding_case_mixin.py).
use portfolio_management.Common.{
  ℕ, ◌≡◌, refl, ◌∙◌, subst, inl, inr, String, Bool, true, false, not, ◌&&◌, Option, none, some,
  List, [], ◌∷◌, Memᴰ, arith, ◌==◌, str_eq, eq_iff, opt_is, is_some, Bool-cases, and_true, Error,
  value_error, ok, err, Returns, returned, raised, >>=-Returns, Returns-ok, Returns-map,
  Result-cases, All, All-mem,
}
use portfolio_management.Common.Table.{update, row_count, fetch_one}
use portfolio_management.Common.Table.Keys.{
  HasUniqueKeys, found, row_count-key, fetch_one_holds, fetch_one-update, update-HasUniqueKeys,
}
use portfolio_management.OperationState.HoldingCases.{
  Case, CaseStore, case_key_of, has_case_key, insert_case_event_tx,
}
use portfolio_management.OperationState.HoldingCases.Apply.{
  can_start, start_row, mark_one, mark_holding_remote_attempt,
}

abbrev pub read_case : String → CaseStore → Option Case
read_case k s = fetch_one (has_case_key k) s.rows

abbrev pub IsKeyed : CaseStore → Type 0
IsKeyed s = HasUniqueKeys case_key_of s.rows

-- what the update asks of the row, besides its key
abbrev pub is_waiting : String → Case → Bool
is_waiting attempt r =
    str_eq r.state "applying"
    && (opt_is r.apply_attempt_id attempt && not (is_some r.remote_attempt_started_at))

-- The case is being applied under the attempt, whose remote write started at the time.
abbrev pub Started : String → ℕ → CaseStore → String → Type 0
Started attempt now s k =
    (r : Case) × (fetch_one (has_case_key k) s.rows ≡ some r)
    × (r.state ≡ "applying")
    × (opt_is r.apply_attempt_id attempt ≡ true)
    × (r.remote_attempt_started_at ≡ some now)

count_one :
    (q : Case → Bool) (o : Option Case)
    → (found q o == 1) ≡ true
    → (r : Case) × (o ≡ some r) × (q r ≡ true)
count_one q none h = cc
count_one q (some r) h = elim (Bool-cases (q r)) [
  | inl t ↦ (r, refl, t)
  | inr t ↦ let g : false ≡ true = rw t at h in cc
]

module _ (attempt : String) (now : ℕ) where
  -- the rows after the update of one key
  abbrev pub marked : String → CaseStore → List Case
  marked key s = update (can_start key attempt) (start_row now) s.rows

  pub marked-IsKeyed :
      (key : String) (s : CaseStore) → IsKeyed s → HasUniqueKeys case_key_of (marked key s)
  unfolding start_row
  marked-IsKeyed key s u =
      update-HasUniqueKeys case_key_of (can_start key attempt) (start_row now) (λ r. refl) s.rows u

  -- A row that the update does not take is left alone.
  pub marked-spares :
      (key k : String) (s : CaseStore) (r : Case)
      → read_case k s ≡ some r
      → can_start key attempt r ≡ false
      → fetch_one (has_case_key k) (marked key s) ≡ some r
  unfolding start_row
  marked-spares key k s r e n =
      rw
        (
          fetch_one-update case_key_of (can_start key attempt) (start_row now) (λ x. refl) k s.rows,
          e,
          n,
        )
        refl

  pub marked-takes :
      (key : String) (s : CaseStore) (r : Case)
      → read_case key s ≡ some r
      → can_start key attempt r ≡ true
      → fetch_one (has_case_key key) (marked key s) ≡ some (start_row now r)
  unfolding start_row
  marked-takes key s r e n =
      rw
        (
          fetch_one-update case_key_of (can_start key attempt) (start_row now) (λ x. refl) key
              s.rows,
          e,
          n,
        )
        refl

  pub waits :
      (key : String) (r : Case)
      → has_case_key key r ≡ true
      → can_start key attempt r ≡ is_waiting attempt r
  unfolding can_start
  waits key r h = rw h refl

  started_stays :
      (key : String) (r : Case)
      → is_some r.remote_attempt_started_at ≡ true
      → can_start key attempt r ≡ false
  unfolding can_start
  started_stays key r h = ground arith

  -- What a mark of one case does, in a table with unique keys.
  record Marks (key : String) (s t : CaseStore) : Type 0 where
    keyed : IsKeyed t
    starts : Started attempt now t key
    spares :
        (k : String) (r : Case)
        → read_case k s ≡ some r
        → is_some r.remote_attempt_started_at ≡ true
        → read_case k t ≡ some r

  pub row_count-waiting :
      (key : String) (s : CaseStore)
      → IsKeyed s
      → row_count (can_start key attempt) s.rows ≡ found (is_waiting attempt) (read_case key s)
  unfolding can_start
  row_count-waiting key s u = row_count-key case_key_of key (is_waiting attempt) s.rows u

  started_row :
      (key : String) (s : CaseStore) (r : Case)
      → read_case key s ≡ some r
      → can_start key attempt r ≡ true
      → is_waiting attempt r ≡ true
      → (x : Case) × (fetch_one (has_case_key key) (marked key s) ≡ some x)
        × (x.state ≡ "applying")
        × (opt_is x.apply_attempt_id attempt ≡ true)
        × (x.remote_attempt_started_at ≡ some now)
  unfolding start_row
  started_row key s r e t w = (
    start_row now r,
    marked-takes key s r e t,
    (eq_iff r.state "applying").0 (and_true w).0,
    (and_true (and_true w).1).0,
    refl,
  )

  mark_one-Marks :
      (key : String) (s : CaseStore)
      → IsKeyed s
      → Returns (Marks key s) (mark_one attempt now key s)
  unfolding mark_one insert_case_event_tx
  mark_one-Marks key s u = elim (Bool-cases (row_count (can_start key attempt) s.rows == 1)) [
    | inr e ↦ rw e raised
    | inl e ↦
        let counted : (found (is_waiting attempt) (read_case key s) == 1) ≡ true =
          subst (λ n. (n == 1) ≡ true) (row_count-waiting key s u) e in
        let (r, at_key, waiting) = count_one (is_waiting attempt) (read_case key s) counted in
        let has : has_case_key key r ≡ true = fetch_one_holds (has_case_key key) s.rows at_key in
        let takes : can_start key attempt r ≡ true = waits key r has ∙ waiting in
        rw e (
          returned (record {
            keyed = marked-IsKeyed key s u;
            starts = started_row key s r at_key takes waiting;
            spares = λ k x d h. marked-spares key k s x d (started_stays key x h);
          }))
  ]

  -- A started row stays as it is while the other cases of the call are marked.
  Started-spared :
      (s t : CaseStore) (k : String)
      → Started attempt now s k
      → ((r : Case)
          → read_case k s ≡ some r
          → is_some r.remote_attempt_started_at ≡ true
          → read_case k t ≡ some r)
      → Started attempt now t k
  Started-spared s t k (r, e, state, owner, at_time) spares =
      (r, spares r e (rw at_time refl), state, owner, at_time)

  record MarksAll (keys : List String) (s t : CaseStore) : Type 0 where
    keyed : IsKeyed t
    starts : All (Started attempt now t) keys
    spares :
        (k : String) (r : Case)
        → read_case k s ≡ some r
        → is_some r.remote_attempt_started_at ≡ true
        → read_case k t ≡ some r

  mark-MarksAll :
      (keys : List String) (s : CaseStore)
      → IsKeyed s
      → Returns (MarksAll keys s) (mark_holding_remote_attempt attempt now keys s)
  unfolding mark_holding_remote_attempt
  mark-MarksAll [] s u = returned (record { keyed = u; starts = tt; spares = λ k r e h. e })
  mark-MarksAll (key ∷ keys) s u =
      >>=-Returns (Marks key s) (MarksAll (key ∷ keys) s) (mark_one attempt now key s)
        (mark_holding_remote_attempt attempt now keys) (mark_one-Marks key s u)
        (λ t m.
          Returns-map (MarksAll keys t) (MarksAll (key ∷ keys) s)
            (mark_holding_remote_attempt attempt now keys t)
            (λ v n. record {
              keyed = n.keyed;
              starts = (Started-spared t v key m.starts (λ r e h. n.spares key r e h), n.starts);
              spares = λ k r e h. n.spares k r (m.spares k r e h) h;
            })
            (mark-MarksAll keys t m.keyed))

-- Where a case has started, a call that marks it again raises, under any attempt.
refused :
    (attempt : String) (later : ℕ) (key : String) (r : Case) (s : CaseStore)
    → IsKeyed s
    → read_case key s ≡ some r
    → is_some r.remote_attempt_started_at ≡ true
    → (x : Error) × (mark_one attempt later key s ≡ err x)
unfolding mark_one
refused attempt later key r s u e h =
    let none_waits : is_waiting attempt r ≡ false = ground arith in
    let none_taken : row_count (can_start key attempt) s.rows ≡ 0 =
      row_count-waiting attempt later key s u ∙ rw (e, none_waits) refl in
    (value_error "holding case remote attempt cannot start", rw none_taken refl)

mark-refused :
    (attempt : String) (later : ℕ) (keys : List String) (key : String) (r : Case) (s : CaseStore)
    → Memᴰ key keys
    → IsKeyed s
    → read_case key s ≡ some r
    → is_some r.remote_attempt_started_at ≡ true
    → (x : Error) × (mark_holding_remote_attempt attempt later keys s ≡ err x)
unfolding mark_holding_remote_attempt
mark-refused attempt later [] key r s m u e h = elim m [ ]
mark-refused attempt later (k ∷ keys) key r s (Memᴰ.head same) u e h =
    let (x, d) = refused attempt later k r s u (subst (λ j. read_case j s ≡ some r) same e) h in
    (x, rw d refl)
mark-refused attempt later (k ∷ keys) key r s (Memᴰ.tail m) u e h =
    elim (Result-cases (mark_one attempt later k s)) [
      | inr (x, d) ↦ (x, rw d refl)
      | inl (t, d) ↦
          let n : Marks attempt later k s t =
            Returns-ok (Marks attempt later k s) (mark_one attempt later k s)
              (mark_one-Marks attempt later k s u) d in
          rw d (mark-refused attempt later keys key r t m n.keyed (n.spares key r e h) h)
    ]

-- After a mark that returns, in a table with unique keys, each of its cases is being applied under
-- the attempt and has the call's time as its start; and a next mark, on the store that the first one
-- returned, that names one of them raises, whatever attempt and whatever other cases it names. (A case
-- that is put back and prepared again has no start, and may be started under its new attempt.)
pub mark-once :
    (attempt : String) (now : ℕ) (keys : List String) (s t : CaseStore)
    → IsKeyed s
    → mark_holding_remote_attempt attempt now keys s ≡ ok t
    → All (Started attempt now t) keys
      × ((key other : String) (later : ℕ) (more : List String)
          → Memᴰ key keys
          → Memᴰ key more
          → (x : Error) × (mark_holding_remote_attempt other later more t ≡ err x))
mark-once attempt now keys s t u returns =
    let m : MarksAll attempt now keys s t =
      Returns-ok (MarksAll attempt now keys s) (mark_holding_remote_attempt attempt now keys s)
        (mark-MarksAll attempt now keys s u) returns in
    (
      m.starts,
      (λ key other later more here_ there.
          let (r, e, _, _, at_time) = All-mem (Started attempt now t) m.starts here_ in
          mark-refused other later more key r t there m.keyed e (rw at_time refl)),
    )
