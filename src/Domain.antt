-- ===== src/Domain.antt =====
-- packages/domain/src: identifiers, instants, money, payment states and the errors they throw.
-- A branded string of the source is a text with the proof that its constructor accepts it.
pub mod Ids
pub mod Money
pub mod State
unfoldable pub use Ids.*
unfoldable pub use State.*
