-- ===== src/StateMachine/Reachability.antt =====
-- packages/state-machine/src/reachability.ts: breadth-first search over the published table.
pub mod Reach
use text.Mathlib.Text.{◌==◌ as str_eq}
use hookx.Prelude.{
  ℕ, zero, suc, Bool, true, false, not, ◌&&◌, Option, none, some, List, [], ◌∷◌, ◌++◌, any, map,
  keep, if◌then◌else◌,
}
use hookx.Domain.{PaymentState}
use hookx.Webhook.{WebhookEventType}
use hookx.StateMachine.Table.{
  PaymentRecordState, AllowedTransition, state_label, transition_table, lookup_transition,
}

-- `===` on states and on `null`: no state is labelled "NONE".
unfoldable pub state_same : PaymentRecordState → PaymentRecordState → Bool
state_same a b = str_eq (state_label a) (state_label b)

-- A `Set` by the list of its elements in order of insertion.
unfoldable pub has : List PaymentRecordState → PaymentRecordState → Bool
unfolding state_same
has seen s = any (λ t. state_same t s) seen

-- The states that one visit pushes on the queue.
successors : List PaymentRecordState → PaymentRecordState → List PaymentRecordState
unfolding has state_same transition_table
successors seen current =
    map (λ r. some r.to)
      (keep (λ r. state_same r.from current && not (has seen (some r.to))) transition_table)

-- The `while` loop, one round to a unit of fuel.
search_states : ℕ → List PaymentRecordState → List PaymentRecordState → List PaymentRecordState
unfolding successors has
search_states zero seen queue = seen
search_states (suc f) seen [] = seen
search_states (suc f) seen (current ∷ queue) = elim (has seen current) [
  | true ↦ search_states f seen queue
  | false ↦
      search_states f (seen ++ current ∷ []) (queue ++ successors (seen ++ current ∷ []) current)
]

-- A state is pushed at most once for each row that leads to it, so seven rounds are enough.
abbrev search_fuel : ℕ
search_fuel = 8

unfoldable pub reachable_states : PaymentRecordState → List PaymentRecordState
unfolding search_states
reachable_states from = search_states search_fuel [] (from ∷ [])

possible : WebhookEventType → PaymentRecordState → Bool
possible event_type state = elim (lookup_transition state event_type) [
  | none ↦ false
  | some to ↦ true
]

unfoldable pub is_eventually_possible : PaymentRecordState → WebhookEventType → Bool
unfolding reachable_states possible lookup_transition
is_eventually_possible from event_type = any (possible event_type) (reachable_states from)
