-- ===== src/Tests/Stores.antt =====
-- The exception store and the payment store at small contents.
use hookx.Prelude.{String, ◌≡◌, refl, true, none, some, [], ◌∷◌, if◌then◌else◌}
use hookx.Domain.{Result, ok, same, authorized}
use hookx.Audit.Metadata.{number, sanitize_audit_metadata}
use hookx.Exceptions.Codes.{
  ExceptionCode, ExceptionSeverity, severity_for_exception_code, opened, acknowledged,
}
use hookx.Exceptions.Draft.{ExceptionDraft, ExceptionDraftInput, checked_draft}
use hookx.Exceptions.Record.{ExceptionRecord, create_exception}
use hookx.Exceptions.Record.Made.{create_exception_inv}
use hookx.Storage.Exceptions.{
  ExceptionStore, ExceptionCreateResult, create, find_by_id, update_status, put_record,
  new_of_draft,
}
use hookx.Storage.Exceptions.Status.{restated, update_status_lem}
use hookx.Storage.Exceptions.Unique.{IsSound, Calls-IsSound, done, created, updated}
use hookx.Storage.Payments.{StoredPayment, get, upsert}
use hookx.Storage.Payments.Laws.{get-upsert}
use hookx.Tests.Data.{noon, later, pay_1, razorpay, inr_code}

abbrev exception_id : String
exception_id = "00000000-0000-4000-8000-000000000001"

abbrev failure : ExceptionDraftInput
failure = record {
  exception_code = ExceptionCode.processing_failure;
  payment_id = some pay_1;
  webhook_event_id = none;
  provider = some razorpay;
  reason = "TIMEOUT";
  detected_at = noon;
  correlation_id = "delivery-1";
  metadata = some (("attempt", number 2) ∷ []);
}

abbrev failure_draft : ExceptionDraft
failure_draft = checked_draft failure

abbrev first_create : Result (ExceptionStore × ExceptionCreateResult)
first_create = create exception_id [] failure_draft

abbrev failure_record : ExceptionRecord
failure_record = record {
  exception_id = exception_id;
  exception_code = ExceptionCode.processing_failure;
  severity = ExceptionSeverity.error;
  payment_id = some pay_1;
  webhook_event_id = none;
  provider = some razorpay;
  status = opened;
  reason = "TIMEOUT";
  detected_at = noon;
  correlation_id = "delivery-1";
  metadata = ("attempt", number 2) ∷ [];
  identity = failure_draft.identity;
}

abbrev failures : ExceptionStore
failures = failure_record ∷ []

stored_once : first_create ≡ ok (failures, record { row = failure_record; inserted = true })
unfolding create severity_for_exception_code sanitize_audit_metadata
stored_once = refl

failure_found : find_by_id failures exception_id ≡ some failure_record
unfolding find_by_id
failure_found = refl

failure_made : create_exception (new_of_draft exception_id failure_draft) ≡ ok failure_record
unfolding create_exception severity_for_exception_code sanitize_audit_metadata
failure_made = refl

failure_acknowledged :
    update_status failures exception_id acknowledged
    ≡ ok (restated acknowledged failure_record ∷ [], restated acknowledged failure_record)
unfolding update_status severity_for_exception_code sanitize_audit_metadata
failure_acknowledged = refl

Calls-IsSound_example : IsSound (restated acknowledged failure_record ∷ [])
Calls-IsSound_example = Calls-IsSound (
    updated exception_id acknowledged (restated acknowledged failure_record)
      (created exception_id failure_draft (record { row = failure_record; inserted = true }) done
        stored_once)
      failure_acknowledged)

update_status_lem_example :
    update_status failures exception_id acknowledged
    ≡ ok (
      put_record exception_id (restated acknowledged failure_record) failures,
      restated acknowledged failure_record,
    )
update_status_lem_example =
    update_status_lem failures exception_id failure_record acknowledged failure_found
      (create_exception_inv (new_of_draft exception_id failure_draft) failure_record failure_made).1

abbrev payment_row : StoredPayment
payment_row = record {
  provider = razorpay;
  payment_id = pay_1;
  state = authorized;
  amount_minor = 4200;
  currency = inr_code;
  last_occurred_at = noon;
  updated_at = noon;
}

get-upsert_example :
    get (upsert (payment_row ∷ []) (record payment_row { updated_at = later })) razorpay pay_1
    ≡ (if true then some (record payment_row { updated_at = later }) else none)
unfolding same
get-upsert_example =
    get-upsert (payment_row ∷ []) (record payment_row { updated_at = later }) razorpay pay_1
