-- ===== src/Storage/Audit.antt =====
-- packages/storage/src/audit/memory-audit-repository.ts: the audit trail in memory.
pub mod Live
pub mod Outcome
use text.Mathlib.Text.{◌==◌ as str_eq}
use hookx.Prelude.{
  ℕ, String, suc, Ordering, compare, Bool, true, false, ◌&&◌, Option, none, some, List, [], ◌∷◌,
  ◌++◌, map, keep, sort, then, lex,
}
use hookx.Domain.{Identity, Result, ok, err, ◌>>=◌, codes, same}
use hookx.Audit.Event.{AuditEvent, AuditAppendInput, create_audit_event}

-- The field `records`.
abbrev pub AuditTrail : Type 0
AuditTrail = List AuditEvent

-- `randomUUID()` is the argument `fresh_id`.
unfoldable pub append : String → AuditTrail → AuditAppendInput → Result (AuditTrail × AuditEvent)
unfolding create_audit_event
append fresh_id records input =
    create_audit_event fresh_id input >>= (λ created. ok (records ++ created ∷ [], created))

-- An event with the index that `indexOf` gives it.
abbrev Placed : Type 0
Placed = ℕ × AuditEvent

placed_from : ℕ → AuditTrail → List Placed
placed_from n [] = []
placed_from n (row ∷ records) = (n, row) ∷ placed_from (suc n) records

compare_audit : Placed → Placed → Ordering
compare_audit (left_index, left) (right_index, right) =
    (then) (lex (codes left.recorded_at.text) (codes right.recorded_at.text))
      (compare left_index right_index)

-- The chain of `filter`, `slice` and `sort` that the three lists share.
unfoldable pub list_where : (AuditEvent → Bool) → AuditTrail → AuditTrail
unfolding placed_from compare_audit
list_where test records =
    map (λ (p : Placed). p.1)
      (sort compare_audit (keep (λ (p : Placed). test p.1) (placed_from 0 records)))

-- `!==` on an identity that may be null.
abbrev pub is_identity_of : Identity → Option Identity → Bool
is_identity_of wanted none = false
is_identity_of wanted (some value) = same value wanted

abbrev pub is_text_of : String → Option String → Bool
is_text_of wanted none = false
is_text_of wanted (some value) = str_eq value wanted

unfoldable pub list_by_payment : AuditTrail → Identity → Option Identity → AuditTrail
unfolding list_where
list_by_payment records payment_id provider =
    list_where
      (λ row.
        is_identity_of payment_id row.payment_id
        && elim provider [ none ↦ true | some wanted ↦ is_identity_of wanted row.provider ])
      records

unfoldable pub list_by_webhook : AuditTrail → String → AuditTrail
unfolding list_where
list_by_webhook records webhook_event_id =
    list_where (λ row. is_text_of webhook_event_id row.webhook_event_id) records

unfoldable pub list_by_correlation_id : AuditTrail → String → AuditTrail
unfolding list_where
list_by_correlation_id records correlation_id =
    list_where (λ row. str_eq row.correlation_id correlation_id) records
