-- ===== src/Storage/Retry/Worker/Memory.antt =====
-- The worker over the repositories in memory, as worker.test.ts sets it up: one state holds the
-- objects, and `randomUUID` gives the next of a sequence of ids.
use hookx.Prelude.{◌≡◌, refl, ap, ℕ, String, suc, none, some, List, [], ◌∷◌, ◌++◌}
use hookx.Domain.{Instant, Result, ok, err}
use hookx.Storage.Action.{Settled, returned, threw, Action}
use hookx.Storage.Events.{
  EventLog, StoredWebhookEvent, find_by_id, mark_processing, mark_processed, mark_rejected,
  mark_conflict, process_payment_events,
}
use hookx.Storage.Audit.{AuditTrail, append, list_by_webhook}
use hookx.Storage.Audit.Outcome.{
  AuditRepository, PaymentRepository, create_sequential_outcome_writer,
}
use hookx.Storage.Payments.{PaymentStore, upsert}
use hookx.Storage.Exceptions.{ExceptionStore, create, update_status}
use hookx.Storage.Exceptions.Recording.{ExceptionRepository}
use hookx.Storage.Retry.Classify.{Thrown, coded_error, other_error}
use hookx.Storage.Retry.Policy.{RetryPolicy}
use hookx.Storage.Retry.Memory as Retries
use hookx.Storage.Retry.Attempt.{WebhookEventRepository}
use hookx.Storage.Retry.Worker.{RetryRepository, RetryLifecycleTransition, RetryWorkerDependencies}
use hookx.Storage.Retry.Worker.Isolation.{IsOn}

pub record World : Type 0 where
  pub events : EventLog
  pub retries : Retries.Repository
  pub trail : AuditTrail
  pub exceptions : ExceptionStore
  pub payments : PaymentStore
  pub transitions : List RetryLifecycleTransition
  pub drawn : ℕ

-- A call on one object, which is put back where the call returns.
unfoldable pub settle_part :
    {V A : Type 0} → World → (V → World) → (String → Thrown) → Result (V × A) → Settled A × World
settle_part world put error (ok (next, a)) = (returned a, put next)
settle_part world put error (err code) = (threw (error code), world)

-- A plain `Error` has no code.
abbrev pub plain : String → Thrown
plain message = other_error

module _ (uuid : ℕ → String) where
  -- `randomUUID()`.
  abbrev fresh : {A : Type 0} → (String → Action World A) → Action World A
  fresh call world = call (uuid world.drawn) (record world { drawn = suc world.drawn })

  abbrev on_events :
      (EventLog → Result (EventLog × StoredWebhookEvent)) → Action World StoredWebhookEvent
  on_events call world =
      settle_part world (λ events. record world { events = events }) coded_error (call world.events)

  abbrev on_retries :
      {A : Type 0} → (Retries.Repository → Result (Retries.Repository × A)) → Action World A
  on_retries call world =
      settle_part world (λ retries. record world { retries = retries }) plain (call world.retries)

  abbrev pub memory_events : WebhookEventRepository World
  memory_events = record {
    find_by_id = λ id world. (returned (find_by_id world.events id), world);
    mark_processing = λ id. on_events (λ log. mark_processing log id);
    mark_processed = λ id. on_events (λ log. mark_processed log id);
    mark_rejected = λ id. on_events (λ log. mark_rejected log id);
    mark_conflict = λ id. on_events (λ log. mark_conflict log id);
  }

  abbrev pub memory_audit : AuditRepository World
  memory_audit = record {
    append = λ input. fresh (λ id world.
        settle_part world (λ trail. record world { trail = trail }) coded_error
          (append id world.trail input));
    list_by_webhook = λ id world. (returned (list_by_webhook world.trail id), world);
  }

  abbrev pub memory_payments : PaymentRepository World
  memory_payments = record {
    upsert = λ row world. (returned row, record world { payments = upsert world.payments row });
  }

  abbrev pub memory_exceptions : ExceptionRepository World
  memory_exceptions = record {
    create = λ draft. fresh (λ id world.
        settle_part world (λ exceptions. record world { exceptions = exceptions }) coded_error
          (create id world.exceptions draft));
    update_status = λ id status world.
        settle_part world (λ exceptions. record world { exceptions = exceptions }) coded_error
          (update_status world.exceptions id status);
  }

  module _ (add_milliseconds : Instant → ℕ → Instant) where
    abbrev pub memory_retries : RetryRepository World
    memory_retries = record {
      ensure_pending = λ id now. fresh (λ fresh_id world.
          let (retries, row) = Retries.ensure_pending fresh_id world.retries id now in
          (returned row, record world { retries = retries }));
      get_by_webhook_event_id =
          λ id world. (returned (Retries.get_by_webhook_event_id world.retries id), world);
      claim_due = λ now limit lease_ms world.
          let (retries, claimed) =
            Retries.claim_due add_milliseconds world.retries now limit lease_ms in
          (returned claimed, record world { retries = retries });
      begin_attempt = λ id now lease_ms world.
          let (retries, started) =
            Retries.begin_attempt add_milliseconds world.retries id now lease_ms in
          (returned started, record world { retries = retries });
      mark_succeeded = λ id now. on_retries (λ retries. Retries.mark_succeeded retries id now);
      schedule_retry = λ id input. on_retries (λ retries. Retries.schedule_retry retries id input);
      dead_letter = λ id input.
          fresh (λ fresh_id. on_retries (λ retries. Retries.dead_letter fresh_id retries id input));
    }

    -- The dependencies, with the outcome writer of persist-outcome.ts and a sink that collects.
    abbrev pub memory_dependencies : RetryPolicy → RetryWorkerDependencies World
    memory_dependencies policy = record {
      retry = memory_retries;
      events = memory_events;
      policy = policy;
      process_payment_events = λ provider payment_id world.
          (returned (process_payment_events world.events provider payment_id), world);
      lifecycle = λ step world.
          (returned tt, record world { transitions = world.transitions ++ step ∷ [] });
      lease_ms = 30000;
      limit = none;
      audit = some memory_audit;
      persist_outcome =
          some (create_sequential_outcome_writer memory_events memory_audit (some memory_payments));
      correlation_id = none;
      actor = none;
      exceptions = some memory_exceptions;
    }

settle_part_inv :
    {A : Type 0} (world next : World) (r : Result (Retries.Repository × A)) (a : A)
    → settle_part world (λ retries. record world { retries = retries }) plain r ≡ (returned a, next)
    → r ≡ ok (next.retries, a)
unfolding settle_part
settle_part_inv world next (ok (retries, b)) a e =
    let stored : retries ≡ next.retries = ap (λ (x : Settled _ × World). x.1.retries) e in
    let result : returned b ≡ returned a = ap (λ (x : Settled _ × World). x.0) e in
    let same : b ≡ a = cc in cc
settle_part_inv world next (err code) a e =
    let bad : threw (plain code) ≡ returned a = ap (λ (x : Settled _ × World). x.0) e in cc

other_part :
    {V A : Type 0} (world : World) (put : V → World) (r : Result (V × A))
    → ((v : V) → (put v).retries ≡ world.retries)
    → (settle_part world put coded_error r).1.retries ≡ world.retries
unfolding settle_part
other_part world put (ok (next, a)) h = h next
other_part world put (err code) h = refl

-- The repositories in memory are apart, and the retries among them are those of Retry/Memory.
pub memory_dependencies-IsOn :
    (uuid : ℕ → String) (add_milliseconds : Instant → ℕ → Instant) (policy : RetryPolicy)
    → IsOn (λ (world : World). world.retries) (memory_dependencies uuid add_milliseconds policy)
memory_dependencies-IsOn uuid add_milliseconds policy = record {
  lifecycle = λ step. record { keeps = λ world. refl };
  audit = λ input. record {
    keeps = λ world. other_part _ _ (append (uuid world.drawn) world.trail input) (λ trail. refl);
  };
  exceptions = λ draft. record {
    keeps = λ world.
        other_part _ _ (create (uuid world.drawn) world.exceptions draft) (λ exceptions. refl);
  };
  succeeds = λ id now world next row e. settle_part_inv world next _ row e;
  schedules = λ id input world next row e. settle_part_inv world next _ row e;
  buries = λ id input world next dead e.
      (uuid world.drawn, settle_part_inv (record world { drawn = suc world.drawn }) next _ dead e);
}
