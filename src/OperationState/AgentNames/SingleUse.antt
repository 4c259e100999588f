-- ===== src/OperationState/AgentNames/SingleUse.antt =====
-- However previews are created, claimed and finished, a preview is claimed at most once.
use portfolio_management.Common.{
  ℕ, ◌+◌, ◌≤◌, ◌≡◌, refl, sym, ◌∙◌, subst, inl, inr, String, Bool, true, false, ◌&&◌, Option, none,
  some, List, [], ◌∷◌, ◌++◌, arith, ltb, ◌==◌, if◌then◌else◌, str_eq, eq_iff, text_in, Bool-cases,
  and_true, try_except,
}
use portfolio_management.Common.Table.{update, row_count, fetch_one}
use portfolio_management.Common.Table.Keys.{
  HasUniqueKeys, image, found, row_count-key, fetch_one_holds, fetch_one-update,
  update-HasUniqueKeys, fetch_one-append_keeps, append-HasUniqueKeys,
}
use portfolio_management.OperationState.AgentNames.{
  AgentOperation, Preview, Claim, preview_of, has_preview, new_operation, create_over,
  create_agent_name_operation, may_claim, begin_execution, claim_agent_name_operation,
  terminal_states, is_executing, end_execution, finish_agent_name_operation,
}

pub data Call : Type 0 where
  create : Preview → Call
  claim : Claim → ℕ → Call
  finish : String → String → String → Call

-- Whether the call is a claim that won, and the table; a call that raises leaves it.
unfoldable pub call : Call → List AgentOperation → Bool × List AgentOperation
call (create p) t = (false, try_except (create_agent_name_operation p t) (λ t'. t') (λ _. t))
call (claim c now) t = claim_agent_name_operation c now t
call (finish k state result) t =
    (false, try_except (finish_agent_name_operation k state result t) (λ t'. t') (λ _. t))

-- whether the call is a claim of the preview
abbrev claims : String → Call → Bool
claims k (claim c now) = str_eq c.preview_id k
claims k _ = false

-- How many claims of the preview win.
unfoldable pub wins : String → List Call → List AgentOperation → ℕ
unfolding call
wins k [] t = 0
wins k (c ∷ cs) t = let (won, t') = call c t in (if won && claims k c then 1 else 0) + wins k cs t'

-- What is left of the preview: one claim where it is not there yet, or not claimed.
budget : Option AgentOperation → ℕ
budget none = 1
budget (some r) = if str_eq r.state "previewed" then 1 else 0

new_budget : (o : Option AgentOperation) → budget o ≤ 1
unfolding budget
new_budget none = ground arith
new_budget (some r) = ground arith

and_false : (b : Bool) → (b && false) ≡ false
and_false b = ground arith

and_true_right : (b : Bool) → (b && true) ≡ b
and_true_right b = ground arith

terminal_not_previewed :
    (state : String) → text_in state terminal_states ≡ true → str_eq state "previewed" ≡ false
terminal_not_previewed state h = elim (Bool-cases (str_eq state "previewed")) [
  | inr e ↦ e
  | inl e ↦
      let same : state ≡ "previewed" = (eq_iff state "previewed").0 e in
      let impossible : text_in "previewed" terminal_states ≡ true = rw same at h in cc
]

claim_keyed :
    (c : Claim) (now : ℕ) (t : List AgentOperation)
    → HasUniqueKeys preview_of t
    → HasUniqueKeys preview_of (update (may_claim c now) begin_execution t)
unfolding begin_execution
claim_keyed c now t u =
    update-HasUniqueKeys preview_of (may_claim c now) begin_execution (λ x. refl) t u

finish_keyed :
    (j state result : String) (t : List AgentOperation)
    → HasUniqueKeys preview_of t
    → HasUniqueKeys preview_of (update (is_executing j) (end_execution state result) t)
unfolding end_execution
finish_keyed j state result t u =
    update-HasUniqueKeys preview_of (is_executing j) (end_execution state result) (λ x. refl) t u

module _ (k : String) where
  abbrev read : List AgentOperation → Option AgentOperation
  read t = fetch_one (has_preview k) t

  abbrev Keyed : List AgentOperation → Type 0
  Keyed t = HasUniqueKeys preview_of t

  budget_kept : (o o' : Option AgentOperation) → o' ≡ o → budget o' ≤ budget o
  budget_kept o o' e = rw e (ground arith)

  create_over-step :
      (p : Preview) (t : List AgentOperation) (o : Option AgentOperation)
      → fetch_one (has_preview p.preview_id) t ≡ o
      → Keyed t
      → Keyed (try_except (create_over p t o) (λ x. x) (λ _. t))
        × (budget (read (try_except (create_over p t o) (λ x. x) (λ _. t))) ≤ budget (read t))
  unfolding create_over new_operation budget
  create_over-step p t (some _) e u = (u, budget_kept (read t) (read t) refl)
  create_over-step p t none e u =
      let r = new_operation p in (append-HasUniqueKeys preview_of t r e u, after (read t) refl)
    where
      after :
          (o : Option AgentOperation)
          → read t ≡ o
          → budget (read (t ++ new_operation p ∷ [])) ≤ budget o
      after none h = new_budget (read (t ++ new_operation p ∷ []))
      after (some x) h =
          budget_kept (some x) (read (t ++ new_operation p ∷ []))
            (fetch_one-append_keeps preview_of k t (new_operation p) x h)

  -- the test of a claim besides the key
  abbrev suits : Claim → ℕ → AgentOperation → Bool
  suits c now r =
      str_eq r.state "previewed"
      && (str_eq r.principal_id c.principal_id
          && (str_eq r.record_id c.record_id
              && (str_eq r.grant_digest c.grant_digest && ltb now r.expires_at)))

  claim_read :
      (c : Claim) (now : ℕ) (t : List AgentOperation)
      → read (update (may_claim c now) begin_execution t)
        ≡ image (may_claim c now) begin_execution (read t)
  unfolding begin_execution
  claim_read c now t = fetch_one-update preview_of (may_claim c now) begin_execution (λ x. refl) k t

  other_claim :
      (c : Claim) (now : ℕ) (o : Option AgentOperation) (t : List AgentOperation)
      → str_eq c.preview_id k ≡ false
      → read t ≡ o
      → image (may_claim c now) begin_execution o ≡ o
  unfolding may_claim
  other_claim c now none t h e = refl
  other_claim c now (some r) t h e = elim (Bool-cases (str_eq r.preview_id c.preview_id)) [
    | inr d ↦ rw d refl
    | inl d ↦
        let at_claim : r.preview_id ≡ c.preview_id = (eq_iff r.preview_id c.preview_id).0 d in
        let at_k : r.preview_id ≡ k =
          (eq_iff r.preview_id k).0 (fetch_one_holds (has_preview k) t e) in
        let this : str_eq c.preview_id k ≡ true = (eq_iff c.preview_id k).1 (sym at_claim ∙ at_k) in
        cc
  ]

  own_claim :
      (c : Claim) (now : ℕ) (o : Option AgentOperation) (t : List AgentOperation)
      → c.preview_id ≡ k
      → read t ≡ o
      → (if found (suits c now) o == 1 then 1 else 0)
          + budget (image (may_claim c now) begin_execution o)
        ≤ budget o
  unfolding may_claim begin_execution budget
  own_claim c now none t h e = ground arith
  own_claim c now (some r) t h e =
      let at_key : str_eq r.preview_id c.preview_id ≡ true =
        rw h (fetch_one_holds (has_preview k) t e) in
      elim (Bool-cases (suits c now r)) [
        | inl s ↦
            let previewed : str_eq r.state "previewed" ≡ true = (and_true s).0 in
            rw (at_key, s, previewed) (ground arith)
        | inr s ↦ rw (at_key, s) (ground arith)
      ]

  count_claims :
      (c : Claim) (now : ℕ) (t : List AgentOperation)
      → Keyed t
      → row_count (may_claim c now) t ≡ found (suits c now) (fetch_one (has_preview c.preview_id) t)
  unfolding may_claim
  count_claims c now t u = row_count-key preview_of c.preview_id (suits c now) t u

  claim-step :
      (c : Claim) (now : ℕ) (t : List AgentOperation)
      → Keyed t
      → Keyed (claim_agent_name_operation c now t).1
        × ((if (claim_agent_name_operation c now t).0 && str_eq c.preview_id k then 1 else 0)
              + budget (read (claim_agent_name_operation c now t).1)
            ≤ budget (read t))
  unfolding claim_agent_name_operation
  claim-step c now t u = (
    claim_keyed c now t u,
    elim (Bool-cases (str_eq c.preview_id k)) [
      | inr h ↦
          rw
            (
              h,
              and_false (row_count (may_claim c now) t == 1),
              claim_read c now t,
              other_claim c now (read t) t h refl,
            )
            (ground arith)
      | inl h ↦
          let same : c.preview_id ≡ k = (eq_iff c.preview_id k).0 h in
          let counted : row_count (may_claim c now) t ≡ found (suits c now) (read t) =
            subst
              (λ j.
                row_count (may_claim c now) t ≡ found (suits c now) (fetch_one (has_preview j) t))
              same (count_claims c now t u) in
          rw (h, and_true_right (row_count (may_claim c now) t == 1), claim_read c now t, counted)
            (own_claim c now (read t) t same refl)
    ],
  )

  finish_read :
      (j state result : String) (t : List AgentOperation)
      → read (update (is_executing j) (end_execution state result) t)
        ≡ image (is_executing j) (end_execution state result) (read t)
  unfolding end_execution
  finish_read j state result t =
      fetch_one-update preview_of (is_executing j) (end_execution state result) (λ x. refl) k t

  finish_budget :
      (j state result : String) (o : Option AgentOperation)
      → text_in state terminal_states ≡ true
      → budget (image (is_executing j) (end_execution state result) o) ≤ budget o
  unfolding budget end_execution
  finish_budget j state result none h = ground arith
  finish_budget j state result (some r) h = elim (Bool-cases (is_executing j r)) [
    | inr e ↦ rw e (ground arith)
    | inl e ↦ rw (e, terminal_not_previewed state h) (ground arith)
  ]

  finish-step :
      (j state result : String) (t : List AgentOperation)
      → Keyed t
      → Keyed (try_except (finish_agent_name_operation j state result t) (λ x. x) (λ _. t))
        × (budget
              (read (try_except (finish_agent_name_operation j state result t) (λ x. x) (λ _. t)))
            ≤ budget (read t))
  unfolding finish_agent_name_operation
  finish-step j state result t u = elim (Bool-cases (text_in state terminal_states)) [
    | inr e ↦ rw e (u, budget_kept (read t) (read t) refl)
    | inl e ↦ rw e (
      finish_keyed j state result t u,
      rw (finish_read j state result t) (finish_budget j state result (read t) e),
    )
  ]

  wins-budget : (cs : List Call) (t : List AgentOperation) → Keyed t → wins k cs t ≤ budget (read t)
  unfolding wins call create_agent_name_operation
  wins-budget [] t u = ground arith
  wins-budget (create p ∷ cs) t u =
      let (v, b) = create_over-step p t (fetch_one (has_preview p.preview_id) t) refl u in
      omega (arith, wins-budget cs _ v, b)
  wins-budget (claim c now ∷ cs) t u =
      let (v, b) = claim-step c now t u in omega (arith, wins-budget cs _ v, b)
  wins-budget (finish j state result ∷ cs) t u =
      let (v, b) = finish-step j state result t u in omega (arith, wins-budget cs _ v, b)

-- In a table with unique preview ids, at most one claim of a preview wins over any sequence of
-- creations, claims and endings, whoever makes them and whatever they raise.
pub claims-single_use :
    (k : String) (cs : List Call) (t : List AgentOperation)
    → HasUniqueKeys preview_of t
    → wins k cs t ≤ 1
claims-single_use k cs t u =
    ground (arith, wins-budget k cs t u, new_budget (fetch_one (has_preview k) t))
