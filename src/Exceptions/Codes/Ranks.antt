-- ===== src/Exceptions/Codes/Ranks.antt =====
-- The precedence of codes is a total order, and a status only moves forward.
use Prim.Native.Nat.{Ordering, compare}
use text.Mathlib.Text.{◌==◌ as str_eq}
use text.Mathlib.TextEquality.{eq_iff}
use hookx.Prelude.{
  ℕ, zero, suc, ◌≡◌, refl, sym, ap, ◌∙◌, ◌↔◌, ◌≤◌, true, Option, some, find, String, arith,
  IsComparison, swap, ◌≢◌,
}
use hookx.Exceptions.Codes.{
  ExceptionCode, invalid_signature, malformed_webhook, unsupported_event, conflicting_event,
  invalid_state_transition, processing_failure, retry_exhausted, out_of_order_event, missing_event,
  duplicate_event, code_label, code_same, ExceptionStatus, opened, acknowledged, resolved,
  can_transition_exception_status, exception_precedence, exception_precedence_rank,
  compare_exception_code,
}

-- The code of a rank.
abbrev ranked : ℕ → ExceptionCode
ranked zero = invalid_signature
ranked (suc zero) = malformed_webhook
ranked (suc (suc zero)) = unsupported_event
ranked (suc (suc (suc zero))) = conflicting_event
ranked (suc (suc (suc (suc zero)))) = invalid_state_transition
ranked (suc (suc (suc (suc (suc zero))))) = processing_failure
ranked (suc (suc (suc (suc (suc (suc zero)))))) = retry_exhausted
ranked (suc (suc (suc (suc (suc (suc (suc zero))))))) = out_of_order_event
ranked (suc (suc (suc (suc (suc (suc (suc (suc zero)))))))) = missing_event
ranked _ = duplicate_event

ranked_lem : (c : ExceptionCode) → ranked (exception_precedence_rank c) ≡ c
unfolding exception_precedence_rank
ranked_lem invalid_signature = refl
ranked_lem malformed_webhook = refl
ranked_lem unsupported_event = refl
ranked_lem conflicting_event = refl
ranked_lem invalid_state_transition = refl
ranked_lem processing_failure = refl
ranked_lem retry_exhausted = refl
ranked_lem out_of_order_event = refl
ranked_lem missing_event = refl
ranked_lem duplicate_event = refl

pub rank_inj :
    (a b : ExceptionCode) → exception_precedence_rank a ≡ exception_precedence_rank b → a ≡ b
rank_inj a b h = sym (ranked_lem a) ∙ ap ranked h ∙ ranked_lem b

labelled : String → Option ExceptionCode
unfolding exception_precedence
labelled value = find (λ c. str_eq (code_label c) value) exception_precedence

labelled_lem : (c : ExceptionCode) → labelled (code_label c) ≡ some c
unfolding labelled
labelled_lem invalid_signature = refl
labelled_lem malformed_webhook = refl
labelled_lem unsupported_event = refl
labelled_lem conflicting_event = refl
labelled_lem invalid_state_transition = refl
labelled_lem processing_failure = refl
labelled_lem retry_exhausted = refl
labelled_lem out_of_order_event = refl
labelled_lem missing_event = refl
labelled_lem duplicate_event = refl

pub code_same_iff : (a b : ExceptionCode) → (code_same a b ≡ true) ↔ (a ≡ b)
unfolding code_same
code_same_iff a b = (
  λ h.
      let e = ap labelled ((eq_iff _ _).0 h) in
      let p = labelled_lem a in let q = labelled_lem b in cc,
  λ e. (eq_iff _ _).1 (ap code_label e),
)

compare-swap : (m n : ℕ) → compare n m ≡ swap (compare m n)
compare-swap m n = ground arith

compare_chain :
    (l m n : ℕ) → compare l m ≢ Ordering.gt → compare m n ≢ Ordering.gt → compare l n ≢ Ordering.gt
compare_chain l m n h k = ground arith

pub compare_exception_code-IsComparison : IsComparison compare_exception_code
unfolding compare_exception_code
compare_exception_code-IsComparison = record {
  swaps = λ a b. compare-swap (exception_precedence_rank a) (exception_precedence_rank b);
  chains = λ a b c.
      compare_chain (exception_precedence_rank a) (exception_precedence_rank b)
        (exception_precedence_rank c);
}

compare_eq : (m n : ℕ) → compare m n ≡ Ordering.eq → m ≡ n
compare_eq m n h = ground arith

pub compare_exception_code_eq :
    (a b : ExceptionCode) → compare_exception_code a b ≡ Ordering.eq → a ≡ b
unfolding compare_exception_code
compare_exception_code_eq a b h = rank_inj a b (compare_eq _ _ h)

-- How far an exception is handled.
abbrev pub stage : ExceptionStatus → ℕ
stage opened = 0
stage acknowledged = 1
stage resolved = 2

-- A status may change to another exactly when it is not handled less: an exception is never opened
-- again, and every later status can be set at once.
pub can_transition_exception_status_iff :
    (from to : ExceptionStatus)
    → (can_transition_exception_status from to ≡ true) ↔ (stage from ≤ stage to)
unfolding can_transition_exception_status
can_transition_exception_status_iff opened opened = (λ _. omega arith, λ _. refl)
can_transition_exception_status_iff opened acknowledged = (λ _. omega arith, λ _. refl)
can_transition_exception_status_iff opened resolved = (λ _. omega arith, λ _. refl)
can_transition_exception_status_iff acknowledged opened = (λ h. cc, λ h. absurd (omega arith))
can_transition_exception_status_iff acknowledged acknowledged = (λ _. omega arith, λ _. refl)
can_transition_exception_status_iff acknowledged resolved = (λ _. omega arith, λ _. refl)
can_transition_exception_status_iff resolved opened = (λ h. cc, λ h. absurd (omega arith))
can_transition_exception_status_iff resolved acknowledged = (λ h. cc, λ h. absurd (omega arith))
can_transition_exception_status_iff resolved resolved = (λ _. omega arith, λ _. refl)
