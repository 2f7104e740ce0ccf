-- ===== src/Tests/Values.antt =====
-- Identities, amounts, metadata and codes.
use hookx.Prelude.{ap, ◌≡◌, refl, ◌≤◌, some, [], ◌∷◌, All, length, ℕ}
use hookx.Prelude.Int.{pos, ◌+ℤ◌}
use hookx.Domain.{◌>>=◌, ok, is_identity, make, make_checked, same, iso_currency_code}
use hookx.Domain.Money.{Money, add_money, subtract_money}
use hookx.Domain.Money.Laws.{subtract_money-add_money}
use hookx.Webhook.Identity.{webhook_identity_key-inj}
use hookx.Audit.Metadata.{Object, number, string, max_keys, sanitize_audit_metadata}
use hookx.Audit.Metadata.Laws.{Safe, sanitize_audit_metadata_lem}
use hookx.Tests.Data.{razorpay, evt_1, inr_code}

make_checked_example : make is_identity "INVALID_IDENTITY" "razorpay" ≡ ok razorpay
make_checked_example = make_checked "INVALID_IDENTITY" razorpay

abbrev rupees : ℕ → Money
rupees n = record { amount_minor = pos n; currency = inr_code }

sum_checked : add_money (rupees 40) (rupees 2) ≡ ok (rupees 42)
unfolding add_money same ◌+ℤ◌ iso_currency_code
sum_checked =
    ap (λ r. r >>= (λ code. ok (record { amount_minor = pos 42; currency = code })))
      (make_checked "INVALID_CURRENCY" inr_code)

subtract_money-add_money_example : subtract_money (rupees 42) (rupees 2) ≡ ok (rupees 40)
subtract_money-add_money_example =
    subtract_money-add_money (rupees 40) (rupees 2) (rupees 42) refl sum_checked

webhook_identity_key-inj_example : (razorpay ≡ razorpay) × (evt_1 ≡ evt_1)
webhook_identity_key-inj_example = webhook_identity_key-inj razorpay razorpay evt_1 evt_1 refl

abbrev metadata : Object
metadata = ("attempt", number 2) ∷ ("api_Key", string "k") ∷ []

sanitize_audit_metadata_lem_example :
    All Safe (sanitize_audit_metadata (some metadata))
    × (length (sanitize_audit_metadata (some metadata)) ≤ max_keys)
    × (sanitize_audit_metadata (some (sanitize_audit_metadata (some metadata)))
        ≡ sanitize_audit_metadata (some metadata))
sanitize_audit_metadata_lem_example = sanitize_audit_metadata_lem (some metadata)
