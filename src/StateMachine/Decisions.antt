-- ===== src/StateMachine/Decisions.antt =====
-- packages/state-machine/src/replay-result.ts, and the small builders of replay.ts.
use hookx.Prelude.{Bool, true, false, Option, none, List, [], any}
use hookx.Domain.{Identity}
use hookx.Webhook.{NormalizedWebhookEvent}
use hookx.StateMachine.Table.{PaymentRecordState}
use hookx.StateMachine.History.{Payment}

pub data DecisionKind : Type 0 where
  accepted duplicate delayed conflict rejected : DecisionKind

pub data ReplayReason : Type 0 where
  transition identical_delivery awaiting_prerequisite out_of_order material_conflict
        impossible_after_ordering payment_id_mismatch :
      ReplayReason

pub record ReplayDecision : Type 0 where
  pub payment_id : Identity
  pub provider : Identity
  pub event_id : Identity
  pub previous_state : PaymentRecordState
  pub resulting_state : PaymentRecordState
  pub decision : DecisionKind
  pub reason : ReplayReason

pub record ReplayScope : Type 0 where
  pub provider : Identity
  pub payment_id : Identity

pub record ReplayResult : Type 0 where
  pub payment : Option Payment
  pub decisions : List ReplayDecision
  pub delayed : List NormalizedWebhookEvent
  pub requires_investigation : Bool

unfoldable pub empty_replay_result : ReplayResult
empty_replay_result = record {
  payment = none;
  decisions = [];
  delayed = [];
  requires_investigation = false;
}

abbrev pub is_conflict : DecisionKind → Bool
is_conflict DecisionKind.conflict = true
is_conflict _ = false

unfoldable pub freeze_replay_result :
    Option Payment → List ReplayDecision → List NormalizedWebhookEvent → ReplayResult
freeze_replay_result payment decisions waiting = record {
  payment = payment;
  decisions = decisions;
  delayed = waiting;
  requires_investigation = any (λ (d : ReplayDecision). is_conflict d.decision) decisions;
}

unfoldable pub decision_record :
    NormalizedWebhookEvent
    → PaymentRecordState
    → PaymentRecordState
    → DecisionKind
    → ReplayReason
    → ReplayDecision
decision_record event previous_state resulting_state decision reason = record {
  payment_id = event.payment_id;
  provider = event.provider;
  event_id = event.external_event_id;
  previous_state = previous_state;
  resulting_state = resulting_state;
  decision = decision;
  reason = reason;
}
