-- ===== src/Webhook/Identity.antt =====
-- packages/webhook/src/identity.ts, and `eventIdentityKey` of event.ts.
use text.Mathlib.TextEquality.{Char-path}
use hookx.Prelude.{ℕ, String, ◌≡◌, refl, ◌↔◌, Bool, true, List, [], ◌∷◌, arith, all}
use hookx.Domain.Ids.{
  Result, ok, ◌>>=◌, codes, Identity, identity, is_identity, printable_id, is_printable, is_digit,
  is_upper, is_lower, text_eq, branded_path,
}
use hookx.Webhook.Event.{NormalizedWebhookEvent}
use hookx.Webhook.Json.{json_string, json_string_inj}

pub record WebhookIdentity : Type 0 where
  pub provider : Identity
  pub external_event_id : Identity

-- `JSON.stringify({ provider, externalEventId })`, by its code units: the last value, the text
-- after the first value, the text after the first name, and the whole.
abbrev key_end : Identity → List ℕ
key_end event_id = 58 ∷ json_string (codes event_id.text) (125 ∷ [])

abbrev key_rest : Identity → List ℕ
key_rest event_id = 44 ∷ json_string (codes "externalEventId") (key_end event_id)

abbrev key_values : Identity → Identity → List ℕ
key_values provider event_id = 58 ∷ json_string (codes provider.text) (key_rest event_id)

unfoldable pub webhook_identity_key : Identity → Identity → List ℕ
webhook_identity_key provider external_event_id =
    123 ∷ json_string (codes "provider") (key_values provider external_event_id)

unfoldable pub create_webhook_identity : String → String → Result WebhookIdentity
create_webhook_identity provider event_id = do
  p ← identity provider
  e ← identity event_id
  ok (record { provider = p; external_event_id = e })

unfoldable pub identities_equal : WebhookIdentity → WebhookIdentity → Bool
unfolding webhook_identity_key
identities_equal left right =
    text_eq (webhook_identity_key left.provider left.external_event_id)
      (webhook_identity_key right.provider right.external_event_id)

unfoldable pub event_identity_key : NormalizedWebhookEvent → List ℕ
event_identity_key event = webhook_identity_key event.provider event.external_event_id

pub codes_inj : (s t : String) → codes s ≡ codes t → s ≡ t
codes_inj String.[] String.[] h = refl
codes_inj String.[] (String.◌∷◌ d t) h = cc
codes_inj (String.◌∷◌ c s) String.[] h = cc
codes_inj (String.◌∷◌ c s) (String.◌∷◌ d t) h =
    cc (Char-path c d (ground arith), codes_inj s t (ground arith))

pub identity_printable : (i : Identity) → all is_printable (codes i.text) ≡ true
unfolding is_identity printable_id
identity_printable i = let h = i.checked in ground arith

-- Equal identity keys come from equal providers and equal event ids.
pub webhook_identity_key-inj :
    (p q e f : Identity) → webhook_identity_key p e ≡ webhook_identity_key q f → (p ≡ q) × (e ≡ f)
unfolding webhook_identity_key is_printable is_digit is_upper is_lower
webhook_identity_key-inj p q e f h =
    let named =
      json_string_inj (codes "provider") (codes "provider") (key_values p e) (key_values q f) word
        word (cc h) in
    let first =
      json_string_inj (codes p.text) (codes q.text) (key_rest e) (key_rest f) (identity_printable p)
        (identity_printable q) (cc named.1) in
    let labelled =
      json_string_inj (codes "externalEventId") (codes "externalEventId") (key_end e) (key_end f)
        label label (cc first.1) in
    let second =
      json_string_inj (codes e.text) (codes f.text) (125 ∷ []) (125 ∷ []) (identity_printable e)
        (identity_printable f) (cc labelled.1) in
    (branded_path p q (codes_inj _ _ first.0), branded_path e f (codes_inj _ _ second.0))
  where
    word : all is_printable (codes "provider") ≡ true
    word = refl

    label : all is_printable (codes "externalEventId") ≡ true
    label = refl

pub text_eq_iff : (s t : List ℕ) → (text_eq s t ≡ true) ↔ (s ≡ t)
unfolding text_eq
text_eq_iff [] [] = ground arith
text_eq_iff [] (y ∷ ys) = ground arith
text_eq_iff (x ∷ xs) [] = ground arith
text_eq_iff (x ∷ xs) (y ∷ ys) = ground (arith, text_eq_iff xs ys)
