-- ===== src/Domain/State.antt =====
-- packages/domain/src/payment-state.ts.
use text.Mathlib.Text.{◌==◌ as str_eq}
use hookx.Prelude.{String, Bool, List, [], ◌∷◌, any}

pub data PaymentState : Type 0 where
  created authorized captured failed refunded : PaymentState

abbrev pub payment_states : List PaymentState
payment_states = created ∷ authorized ∷ captured ∷ failed ∷ refunded ∷ []

-- The string that the source uses for the state.
abbrev pub label : PaymentState → String
label created = "CREATED"
label authorized = "AUTHORIZED"
label captured = "CAPTURED"
label failed = "FAILED"
label refunded = "REFUNDED"

unfoldable pub is_payment_state : String → Bool
is_payment_state value = any (λ s. str_eq (label s) value) payment_states

abbrev pub state_eq : PaymentState → PaymentState → Bool
state_eq a b = str_eq (label a) (label b)

abbrev pub terminal_payment_states : List PaymentState
terminal_payment_states = failed ∷ refunded ∷ []

unfoldable pub is_terminal_payment_state : PaymentState → Bool
is_terminal_payment_state value = any (λ s. state_eq s value) terminal_payment_states
