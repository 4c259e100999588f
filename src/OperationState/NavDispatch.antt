-- ===== src/OperationState/NavDispatch.antt =====
-- The dispatcher of NAV receipts: src/app/nav_receipt_outbox_service.py. The sender is a parameter; of
-- what it returns the keys that the dispatcher reads are written out. Each call of the store is its
-- own transaction, so what was written before an exception stays.
pub mod Repeats
use portfolio_management.Common.{
  ℕ, zero, suc, ◌+◌, String, Bool, true, false, not, ◌==◌, Option, none, some, List, [], ◌∷◌,
  if◌then◌else◌, str_eq, length, keep, strip, join_text, or_else, Error, value_error, key_error,
  runtime_error, Result, ok, err,
}
use portfolio_management.OperationState.NavReceipts.{
  NavReceipt, NavOutbox, SendStatus, sent, enqueue_nav_receipt, claim_due_nav_receipts,
  mark_nav_receipt, get_nav_receipt,
}

pub record NavDelivery : Type 0 where
  pub success : Bool
  pub status : Option String
  pub message_id : Option String
  pub error : Option String

-- The sender returns, or raises an exception with a text and the name of its class.
pub data Answer : Type 0 where
  answers : NavDelivery → Answer
  throws : String → String → Answer

abbrev pub Sender : Type 0
Sender = String → Answer

-- One entry of `results`, or what `enqueue_and_dispatch` makes of the receipt that is there.
pub record NavResult : Type 0 where
  pub success : Bool
  pub status : Option String
  pub message_id : Option String
  pub error : Option String
  pub receipt_key : Option String
  pub deduplicated : Bool

pub record NavReport : Type 0 where
  pub success : Bool
  pub attempted : ℕ
  pub sent_count : ℕ
  pub failed_count : ℕ
  pub results : List NavResult

-- `str(exc) or exc.__class__.__name__`
text_of : String → String → String
text_of text class_name = if str_eq text "" then class_name else text

unfoldable pub nav_delivery : Answer → NavDelivery
unfolding text_of
nav_delivery (answers d) = d
nav_delivery (throws text class_name) = record {
  success = false;
  status = some "failed";
  message_id = none;
  error = some (text_of text class_name);
}

-- `str(cause)`; that of a KeyError has quotes
nav_cause : Error → String
nav_cause (value_error s) = s
nav_cause (runtime_error s) = s
nav_cause (key_error s) = join_text ("'" ∷ s ∷ "'" ∷ [])

-- ReceiptDispatchStateUnknown
nav_state_unknown : String → Error → Error
unfolding nav_cause
nav_state_unknown key cause = runtime_error (
    join_text (
      "NAV receipt delivery state is unknown after send attempt: "
      ∷ key
      ∷ ": "
      ∷ nav_cause cause
      ∷ []))

abbrev pub NavOutcome : Type 0 → Type 0
NavOutcome A = NavOutbox × Result A

-- a receipt that was not sent is queued
unfoldable pub result_of : String → NavDelivery → NavResult
result_of key d = record {
  success = d.success;
  status = if d.success then d.status else some "queued";
  message_id = d.message_id;
  error = d.error;
  receipt_key = some key;
  deduplicated = false;
}

nav_marked : String → NavDelivery → NavOutbox → Result NavOutbox → NavOutcome NavResult
unfolding result_of nav_state_unknown
nav_marked key d t (err cause) = (t, err (nav_state_unknown key cause))
nav_marked key d t (ok t') = (t', ok (result_of key d))

send_row : Sender → String → ℕ → NavReceipt → NavOutbox → NavOutcome NavResult
unfolding nav_marked nav_delivery
send_row sender claim now r t =
    let d = nav_delivery (sender r.payload_json) in
    nav_marked r.receipt_key d t
      (mark_nav_receipt r.receipt_key claim d.success d.message_id d.error now t)

abbrev add_result : NavResult → NavOutcome (List NavResult) → NavOutcome (List NavResult)
add_result a (t, ok results) = (t, ok (a ∷ results))
add_result a (t, err e) = (t, err e)

abbrev send_on :
    NavOutcome NavResult → (NavOutbox → NavOutcome (List NavResult)) → NavOutcome (List NavResult)
send_on (t, ok a) rest = add_result a (rest t)
send_on (t, err e) rest = (t, err e)

-- The clock is read once for each receipt.
unfoldable pub send_rows :
    Sender → (ℕ → ℕ) → String → ℕ → List NavReceipt → NavOutbox → NavOutcome (List NavResult)
unfolding send_row
send_rows sender clock claim i [] t = (t, ok [])
send_rows sender clock claim i (r ∷ rs) t =
    send_on (send_row sender claim (clock i) r t) (send_rows sender clock claim (suc i) rs)

unfoldable pub nav_report : ℕ → List NavResult → NavReport
nav_report attempted results =
    let failures = length (keep (λ (a : NavResult). not a.success) results) in
    record {
      success = failures == 0;
      attempted = attempted;
      sent_count = length (keep (λ (a : NavResult). a.success) results);
      failed_count = failures;
      results = results;
    }

abbrev pub nav_reported : ℕ → NavOutcome (List NavResult) → NavOutcome NavReport
nav_reported attempted (t, ok results) = (t, ok (nav_report attempted results))
nav_reported attempted (t, err e) = (t, err e)

-- `claim` is a fresh uuid; the clock's reading 0 is that of the claim.
unfoldable pub dispatch_pending :
    Sender → (ℕ → ℕ) → ℕ → Option String → String → NavOutbox → NavOutcome NavReport
unfolding send_rows nav_report
dispatch_pending sender clock limit key claim t =
    let (rows, t') = claim_due_nav_receipts limit key (some claim) claim (clock 0) t in
    nav_reported (length rows) (send_rows sender clock claim 1 rows t')

-- `job_result`: `payload` is the canonical text of the whole, and a run id that is missing is ""
pub record Job : Type 0 where
  pub dry_run : Bool
  pub run_id : String
  pub payload : String

-- a dry run is sent as it is, and an exception of the sender is passed on
sent_directly : NavOutbox → Answer → NavOutcome NavResult
sent_directly t (throws text class_name) = (t, err (runtime_error text))
sent_directly t (answers d) = (
  t,
  ok (record {
    success = d.success;
    status = d.status;
    message_id = d.message_id;
    error = d.error;
    receipt_key = none;
    deduplicated = false;
  }),
)

unfoldable pub already_sent : String → NavReceipt → NavResult
already_sent key r = record {
  success = true;
  status = some "sent";
  message_id = r.message_id;
  error = none;
  receipt_key = some key;
  deduplicated = true;
}

-- `last_error or …`
error_or : Option String → String → String
error_or none default = default
error_or (some e) default = if str_eq e "" then default else e

unfoldable pub still_queued : String → Option String → NavResult
unfolding error_or
still_queued key last_error = record {
  success = false;
  status = some "queued";
  message_id = none;
  error = some (error_or last_error "receipt is waiting for retry");
  receipt_key = some key;
  deduplicated = false;
}

abbrev pub is_sent : SendStatus → Bool
is_sent sent = true
is_sent _ = false

unfoldable pub found_as : String → Option NavReceipt → NavResult
unfolding already_sent still_queued
found_as key none = still_queued key none
found_as key (some r) =
    if is_sent r.status then already_sent key r else still_queued key r.last_error

unfoldable pub first_result : String → NavOutcome NavReport → NavOutcome NavResult
unfolding found_as
first_result key (t, err e) = (t, err e)
first_result key (t, ok report) = (t, ok (first_of report.results))
  where
    first_of : List NavResult → NavResult
    first_of (a ∷ _) = a
    first_of [] = found_as key (get_nav_receipt key t)

unfoldable pub enqueued :
    Sender
    → (ℕ → ℕ)
    → String
    → String
    → NavOutbox
    → Result (Bool × NavOutbox)
    → NavOutcome NavResult
unfolding first_result dispatch_pending
enqueued sender clock key claim t (err e) = (t, err e)
enqueued sender clock key claim t (ok (_, t')) =
    first_result key (dispatch_pending sender clock 1 (some key) claim t')

abbrev pub nav_key : String → String
nav_key run_id = join_text ("nav:" ∷ run_id ∷ [])

-- `now` is the clock's reading at the enqueue.
unfoldable pub enqueue_and_dispatch :
    Sender → (ℕ → ℕ) → Job → String → ℕ → NavOutbox → NavOutcome NavResult
unfolding sent_directly enqueued
enqueue_and_dispatch sender clock job claim now t =
    let run_id = strip job.run_id in
    if job.dry_run
    then sent_directly t (sender job.payload)
    else if str_eq run_id ""
    then (t, err (value_error "real NAV receipt requires run_id"))
    else enqueued sender clock (nav_key run_id) claim t
        (enqueue_nav_receipt (nav_key run_id) job.payload now t)
