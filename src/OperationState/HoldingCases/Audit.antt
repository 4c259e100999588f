-- ===== src/OperationState/HoldingCases/Audit.antt =====
-- What every operation on the reconciliation cases keeps: rows stay with their subject, events are
-- only added, and a row changes its state only along with an event of its case.
pub mod Observed
pub mod Applied
pub mod Reconciled
pub mod Runs
use portfolio_management.Common.{
  ℕ, ◌≡◌, refl, sym, ap, ◌∙◌, subst, ◌⊎◌, inl, inr, String, Bool, true, false, ◌&&◌, ◌||◌, Option,
  none, some, List, [], ◌∷◌, ◌++◌, arith, if◌then◌else◌, str_eq, str_eq_refl, eq_iff, and_true,
  any_of, Json, Members, All, Result, ok, err, ◌>>=◌, Returns, returned, >>=-Returns_any,
}
use portfolio_management.Common.Table.{update}
use portfolio_management.Common.Table.Evolution.{
  Evolves, Evolves-refl, Evolves-update, Evolves-append, Evolves-trans, Evolves-map, All-Evolves,
}
use mathlib.Core.List.{append-nil, append_assoc}
use portfolio_management.OperationState.Receipts.{Outbox}
use portfolio_management.OperationState.HoldingCases.{
  Case, CaseEvent, CaseStore, insert_case_event_tx, enqueue_closure, has_case_key,
}

-- What a case is about. No operation writes these columns of a row that is there.
pub record Subject : Type 0 where
  pub case_key : String
  pub record_id : String
  pub account : Option String
  pub field : String
  pub kind : String
  pub blocks_official_nav : Bool
  pub policy_version : String
  pub authority_id : Option String
  pub current : Json
  pub proposed_json : String
  pub created_at : ℕ

abbrev pub subject : Case → Subject
subject r = record {
  case_key = r.case_key;
  record_id = r.record_id;
  account = r.account;
  field = r.field;
  kind = r.kind;
  blocks_official_nav = r.blocks_official_nav;
  policy_version = r.policy_version;
  authority_id = r.authority_id;
  current = r.current;
  proposed_json = r.proposed_json;
  created_at = r.created_at;
}

abbrev pub has_event : String → List CaseEvent → Bool
has_event k events = any_of (λ (e : CaseEvent). str_eq e.case_key k) events

-- A row and what became of it while `events` were added.
pub record Tracks (events : List CaseEvent) (x y : Case) : Type 0 where
  pub same_subject : subject y ≡ subject x
  pub logged : (y.state ≡ x.state) ⊎ (has_event x.case_key events ≡ true)

abbrev pub IsLogged : List CaseEvent → Case → Type 0
IsLogged events y = has_event y.case_key events ≡ true

pub record Audited (s s' : CaseStore) : Type 0 where
  pub new_events : List CaseEvent
  pub grown : s'.events ≡ s.events ++ new_events
  pub evolved : Evolves (Tracks new_events) (IsLogged new_events) s.rows s'.rows

pub same_key : (x y : Case) → subject y ≡ subject x → y.case_key ≡ x.case_key
same_key x y e = ap (λ (z : Subject). z.case_key) e

has_event-left :
    (k : String) (ds es : List CaseEvent) → has_event k ds ≡ true → has_event k (ds ++ es) ≡ true
has_event-left k [] es h = cc
has_event-left k (d ∷ ds) es h = ground (arith, has_event-left k ds es)

has_event-right :
    (k : String) (ds es : List CaseEvent) → has_event k es ≡ true → has_event k (ds ++ es) ≡ true
has_event-right k [] es h = h
has_event-right k (d ∷ ds) es h = ground (arith, has_event-right k ds es h)

Tracks-refl : (events : List CaseEvent) (x : Case) → Tracks events x x
Tracks-refl events x = record { same_subject = refl; logged = inl refl }

Tracks-left : (ds es : List CaseEvent) (x y : Case) → Tracks ds x y → Tracks (ds ++ es) x y
Tracks-left ds es x y t = record {
  same_subject = t.same_subject;
  logged = elim t.logged [ inl e ↦ inl e | inr h ↦ inr (has_event-left x.case_key ds es h) ];
}

Tracks-right : (ds es : List CaseEvent) (x y : Case) → Tracks es x y → Tracks (ds ++ es) x y
Tracks-right ds es x y t = record {
  same_subject = t.same_subject;
  logged = elim t.logged [ inl e ↦ inl e | inr h ↦ inr (has_event-right x.case_key ds es h) ];
}

Tracks-trans :
    (events : List CaseEvent) (x y z : Case)
    → Tracks events x y
    → Tracks events y z
    → Tracks events x z
Tracks-trans events x y z t u = record {
  same_subject = u.same_subject ∙ t.same_subject;
  logged = elim u.logged [
    | inl e ↦ elim t.logged [ inl d ↦ inl (e ∙ d) | inr h ↦ inr h ]
    | inr h ↦ inr (rw (← same_key x y t.same_subject) h)
  ];
}

IsLogged-Tracks :
    (events : List CaseEvent) (x y : Case)
    → Tracks events x y
    → IsLogged events x
    → IsLogged events y
IsLogged-Tracks events x y t h = rw (same_key x y t.same_subject) h

pub Audited-refl : (s : CaseStore) → Audited s s
Audited-refl s = record {
  new_events = [];
  grown = sym (append-nil s.events);
  evolved = Evolves-refl (Tracks []) (IsLogged []) (Tracks-refl []) s.rows;
}

pub Audited-trans : {s t u : CaseStore} → Audited s t → Audited t u → Audited s u
Audited-trans {s} {t} {u} a b =
    let ds = a.new_events in
    let es = b.new_events in
    record {
      new_events = ds ++ es;
      grown = b.grown ∙ ap (λ es'. es' ++ es) a.grown ∙ append_assoc s.events ds es;
      evolved =
          Evolves-trans (Tracks (ds ++ es)) (IsLogged (ds ++ es)) (Tracks-trans (ds ++ es))
            (IsLogged-Tracks (ds ++ es))
            (Evolves-map (Tracks ds) (IsLogged ds) (Tracks (ds ++ es)) (IsLogged (ds ++ es))
              (Tracks-left ds es) (λ y. has_event-left y.case_key ds es) a.evolved)
            (Evolves-map (Tracks es) (IsLogged es) (Tracks (ds ++ es)) (IsLogged (ds ++ es))
              (Tracks-right ds es) (λ y. has_event-right y.case_key ds es) b.evolved);
    }

has_event_one : (k key : String) → str_eq k key ≡ true → (str_eq key k || false) ≡ true
has_event_one k key h = rw ((eq_iff k key).0 h, str_eq_refl key) refl

module _ (key type : String) (payload : Members) (now : ℕ) (s : CaseStore) where
  -- An update of the rows of one case along with an event of the case.
  pub Audited-update :
      (p : Case → Bool) (f : Case → Case)
      → ((r : Case) → subject (f r) ≡ subject r)
      → ((r : Case) → p r ≡ true → has_case_key key r ≡ true)
      → Audited s
          (insert_case_event_tx key type payload now (record s { rows = update p f s.rows }))
  unfolding insert_case_event_tx
  Audited-update p f same only = record {
    new_events = _;
    grown = refl;
    evolved =
        Evolves-update _ _ (Tracks-refl _) p f
          (λ r h. record {
            same_subject = same r;
            logged = inr (has_event_one r.case_key key (only r h));
          })
          s.rows;
  }

  -- A new row along with an event of its case.
  pub Audited-append :
      (r : Case)
      → r.case_key ≡ key
      → Audited s (insert_case_event_tx key type payload now (record s { rows = s.rows ++ r ∷ [] }))
  unfolding insert_case_event_tx
  Audited-append r e = record {
    new_events = _;
    grown = refl;
    evolved =
        Evolves-append _ _ (Tracks-refl _) s.rows (r ∷ [])
          (has_event_one r.case_key key (rw e (str_eq_refl key)), tt);
  }

-- An update that leaves the state alone needs no event.
pub Audited-quiet :
    (p : Case → Bool) (f : Case → Case)
    → ((r : Case) → subject (f r) ≡ subject r)
    → ((r : Case) → (f r).state ≡ r.state)
    → (s : CaseStore) → Audited s (record s { rows = update p f s.rows })
Audited-quiet p f same state s = record {
  new_events = [];
  grown = sym (append-nil s.events);
  evolved =
      Evolves-update (Tracks []) (IsLogged []) (Tracks-refl []) p f
        (λ r h. record { same_subject = same r; logged = inl (state r) }) s.rows;
}

-- Receipts are another table.
same_tables : (o : Outbox) (s : CaseStore) → Audited s (record s { outbox = o })
same_tables o s = record {
  new_events = [];
  grown = sym (append-nil s.events);
  evolved = Evolves-refl (Tracks []) (IsLogged []) (Tracks-refl []) s.rows;
}

-- After a statement on the cases, receipts may follow.
pub Audited-outbox :
    {s t : CaseStore} (o : Outbox) → Audited s t → Audited s (record t { outbox = o })
Audited-outbox {t = t} o a = Audited-trans a (same_tables o t)

pub closure-Audited :
    (enqueue : Bool) (key : String) (payload : Members) (now : ℕ) (s : CaseStore)
    → Returns (λ added. Audited s added.1) (enqueue_closure enqueue key payload now s)
unfolding enqueue_closure
closure-Audited false key payload now s = returned (Audited-refl s)
closure-Audited true key payload now s =
    >>=-Returns_any (λ (added : List String × CaseStore). Audited s added.1) _ _
      (λ (o : Bool × Outbox). returned (same_tables o.1 s))
