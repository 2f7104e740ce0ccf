-- ===== src/StateMachine.antt =====
-- packages/state-machine/src: the transition table, reachability, the order of events, the
-- processing of one event, and replay.
pub mod Table
pub mod Reachability
pub mod Instants
pub mod Order
pub mod History
pub mod Process
pub mod Decisions
pub mod Replay
