-- ===== src/OperationState/Dispatch.antt =====
-- The dispatcher of operation receipts: src/app/operation_receipt_outbox_service.py. Each call of the
-- store is its own transaction, so a dispatch that raises leaves what it wrote, and other workers'
-- operations come between two calls. The renderers, which send, are a parameter; what one returns is
-- read as the keys that the dispatcher reads.
pub mod Scripts
pub mod Settles
use portfolio_management.Common.{
  ℕ, zero, suc, ◌+◌, String, Bool, true, false, not, ◌&&◌, ◌==◌, Option, none, some, List, [], ◌∷◌,
  leb, if◌then◌else◌, str_eq, map, codes, length, keep, join_text, Error, value_error, key_error,
  runtime_error, Result, ok, err, ◌>>=◌,
}
use portfolio_management.OperationState.Receipts.{Outbox, Receipt}
use portfolio_management.OperationState.ReceiptOutbox.{
  claim_due_operation_receipts, start_operation_receipt_send, mark_operation_receipt,
  resolve_operation_receipt, get_operation_receipt,
}
use portfolio_management.OperationState.ReceiptOutbox.Operations.{Op, run}

-- `success` is the truth of the value; a text that is missing is "".
pub record Delivery : Type 0 where
  pub success : Bool
  pub delivery_state : String
  pub message_id : Option String
  pub error : Option String

-- A renderer returns, or raises an exception with a text and the name of its class.
pub data Rendered : Type 0 where
  returns : Delivery → Rendered
  raises : String → String → Rendered

-- What the dispatcher's surroundings do: the renderers by type, on a payload; the readings of the
-- clock; and what other workers do before each of its calls.
pub record World : Type 0 where
  pub renderers : String → Option (String → Rendered)
  pub clock : ℕ → ℕ
  pub others : ℕ → List (ℕ × Op)

-- One entry of `results`.
pub record Attempt : Type 0 where
  pub receipt_key : String
  pub receipt_type : String
  pub status : String
  pub delivery : Delivery

pub record DispatchReport : Type 0 where
  pub success : Bool
  pub attempted : ℕ
  pub sent : ℕ
  pub failed : ℕ
  pub unknown : ℕ
  pub results : List Attempt

failed_delivery : String → String → Delivery
failed_delivery state error = record {
  success = false;
  delivery_state = state;
  message_id = none;
  error = some error;
}

-- `str(exc) or exc.__class__.__name__`
exception_text : String → String → String
exception_text text class_name = if str_eq text "" then class_name else text

delivery_of : Rendered → Delivery
unfolding failed_delivery exception_text
delivery_of (returns d) = d
delivery_of (raises text class_name) = failed_delivery "unknown" (exception_text text class_name)

unfoldable pub deliver : Receipt → Option (String → Rendered) → Delivery
unfolding failed_delivery delivery_of
deliver r none = failed_delivery "failed" (join_text ("no renderer for " ∷ r.receipt_type ∷ []))
deliver r (some renderer) = delivery_of (renderer r.payload_json)

lower_code : ℕ → ℕ
lower_code c = if leb 65 c && leb c 90 then c + 32 else c

same_codes : List ℕ → List ℕ → Bool
same_codes [] [] = true
same_codes (x ∷ xs) (y ∷ ys) = x == y && same_codes xs ys
same_codes _ _ = false

-- `s.lower() == word`, for a word of small letters other than k and i with a dot
unfoldable pub lower_is : String → String → Bool
unfolding lower_code same_codes
lower_is word s = same_codes (map lower_code (codes s)) (codes word)

unfoldable pub outcome_of : Delivery → String
unfolding lower_is
outcome_of d =
    if d.success && lower_is "accepted" d.delivery_state
    then "sent"
    else if lower_is "failed" d.delivery_state
    then "failed"
    else "unknown"

-- `str(cause)`; that of a KeyError has quotes
cause_text : Error → String
cause_text (value_error s) = s
cause_text (runtime_error s) = s
cause_text (key_error s) = join_text ("'" ∷ s ∷ "'" ∷ [])

-- OperationReceiptDispatchStateUnknown
unfoldable pub state_unknown : Receipt → Error → Error
unfolding cause_text
state_unknown r cause = runtime_error (
    join_text (
      "operation receipt delivery state is unknown after send attempt: "
      ∷ r.receipt_key
      ∷ ": "
      ∷ cause_text cause
      ∷ []))

-- The outbox, and what the loop returns or raises.
abbrev pub Outcome : Type 0 → Type 0
Outcome A = Outbox × Result A

-- behind `mark_operation_receipt`
unfoldable pub marked : Receipt → Delivery → Outbox → Result Outbox → Outcome Attempt
unfolding outcome_of state_unknown
marked r d t (err cause) = (t, err (state_unknown r cause))
marked r d t (ok t') = (
  t',
  ok (record {
    receipt_key = r.receipt_key;
    receipt_type = r.receipt_type;
    status = outcome_of d;
    delivery = d;
  }),
)

unfoldable pub mark_row : World → String → ℕ → Receipt → Delivery → Outbox → Outcome Attempt
unfolding marked outcome_of
mark_row w claim i r d t =
    marked r d t
      (mark_operation_receipt r.receipt_key claim (outcome_of d) d.message_id d.error (w.clock i) t)

-- behind `start_operation_receipt_send`
unfoldable pub started : World → String → ℕ → Receipt → Outbox → Result Outbox → Outcome Attempt
unfolding mark_row deliver
started w claim i r t (err e) = (t, err e)
started w claim i r t (ok t') =
    mark_row w claim (suc i) r (deliver r (w.renderers r.receipt_type)) (run (w.others (suc i)) t')

unfoldable pub dispatch_row : World → String → ℕ → Receipt → Outbox → Outcome Attempt
unfolding started
dispatch_row w claim i r t =
    let t' = run (w.others i) t in
    started w claim i r t' (start_operation_receipt_send r.receipt_key claim (w.clock i) t')

abbrev pub add_attempt : Attempt → Outcome (List Attempt) → Outcome (List Attempt)
add_attempt a (t, ok attempts) = (t, ok (a ∷ attempts))
add_attempt a (t, err e) = (t, err e)

-- the loop goes on unless the row raised
abbrev pub go_on : Outcome Attempt → (Outbox → Outcome (List Attempt)) → Outcome (List Attempt)
go_on (t, ok a) rest = add_attempt a (rest t)
go_on (t, err e) rest = (t, err e)

unfoldable pub dispatch_rows : World → String → ℕ → List Receipt → Outbox → Outcome (List Attempt)
unfolding dispatch_row
dispatch_rows w claim i [] t = (t, ok [])
dispatch_rows w claim i (r ∷ rs) t =
    go_on (dispatch_row w claim i r t) (dispatch_rows w claim (suc (suc i)) rs)

count_of : String → List Attempt → ℕ
count_of s attempts = length (keep (λ (a : Attempt). str_eq a.status s) attempts)

unfoldable pub report_of : ℕ → List Attempt → DispatchReport
unfolding count_of
report_of attempted attempts = record {
  success = count_of "failed" attempts == 0 && count_of "unknown" attempts == 0;
  attempted = attempted;
  sent = count_of "sent" attempts;
  failed = count_of "failed" attempts;
  unknown = count_of "unknown" attempts;
  results = attempts;
}

abbrev pub reported : ℕ → Outcome (List Attempt) → Outcome DispatchReport
reported attempted (t, ok attempts) = (t, ok (report_of attempted attempts))
reported attempted (t, err e) = (t, err e)

-- `claim` is a fresh uuid.
unfoldable pub dispatch_pending :
    World → ℕ → Option String → String → ℕ → Outbox → Outcome DispatchReport
unfolding dispatch_rows report_of
dispatch_pending w limit key claim now t =
    let (rows, t') = claim_due_operation_receipts limit key (some claim) claim now t in
    reported (length rows) (dispatch_rows w claim zero rows t')

-- the receipt as it is read afterwards, and the outbox
unfoldable pub resolve_unknown :
    String → String → String → ℕ → Outbox → Result (Option Receipt × Outbox)
resolve_unknown key decision note now t =
    resolve_operation_receipt key decision note now t >>= λ t'.
    ok (get_operation_receipt key t', t')
