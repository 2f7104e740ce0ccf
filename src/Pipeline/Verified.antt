-- ===== src/Pipeline/Verified.antt =====
-- What a delivery that is accepted has passed.
use hookx.Prelude.{◌≡◌, refl, ℕ, String, Option, none, some, List, arith}
use hookx.Domain.{Instant}
use hookx.Webhook.{NormalizedWebhookEvent}
use hookx.Exceptions.Facts.{DetectionFact, facts_from_verification_status}
use hookx.Storage.Action.{returned, Action}
use hookx.Storage.Action.Ends.{Ends, Ends-bind, Ends-pure}
use hookx.Pipeline.{
  VerificationStatus, verified, invalid_signature, missing_signature, malformed_signature,
  expired_signature, ProcessIncomingWebhookResult, LifecycleLogInput, Normalization, normalized,
  webhook_error, other_failure, Delivery, IngestDependencies,
}
use hookx.Pipeline.Ingest.{respond, internal_error}
use hookx.Pipeline.Handler.{
  refuse, fail_normalization, refuse_with, by_normalization, by_payload, reject_signature,
  by_verification, by_verifier, process_incoming_webhook,
}

module _ {S Body Headers Payload : Type 0} (add_milliseconds : Instant → ℕ → Instant)
    (dependencies : IngestDependencies S Body Headers Payload) (input : Delivery Body Headers) where
  -- The provider's verifier accepts the delivery, its body is parsed, and the adapter makes an event
  -- of it.
  pub record IsAuthentic : Type 0 where
    pub verify : Delivery Body Headers → VerificationStatus
    pub known : dependencies.verifiers input.provider ≡ some verify
    pub accepted : verify input ≡ verified
    pub payload : Payload
    pub parsed : dependencies.parse input.raw_body ≡ some payload
    pub event : NormalizedWebhookEvent
    pub made :
        dependencies.normalize input.provider payload input.now input.headers ≡ normalized event

  abbrev pub Sound : ProcessIncomingWebhookResult → Type 0
  Sound result = result.http_status ≡ 200 → IsAuthentic

  always : (m : Action S ProcessIncomingWebhookResult) → IsAuthentic → Ends Sound m
  always m authentic = record { ends = λ s result e h. authentic }

  refuse-Ends :
      (reason : String) (facts : List DetectionFact) (logged : LifecycleLogInput)
      (answer : ProcessIncomingWebhookResult)
      → Sound answer
      → Ends Sound (refuse add_milliseconds dependencies input reason facts logged answer)
  unfolding refuse
  refuse-Ends reason facts logged answer sound =
      Ends-bind _ _ (λ u. Ends-bind _ _ (λ v. Ends-bind _ _ (λ w. Ends-pure answer sound)))

  fail_normalization-Ends : Ends Sound (fail_normalization add_milliseconds dependencies input)
  unfolding fail_normalization internal_error respond
  fail_normalization-Ends = Ends-bind _ _ (λ u. Ends-pure _ (λ h. absurd (omega (arith, h))))

  refuse_with-Ends :
      (code : String) → Ends Sound (refuse_with add_milliseconds dependencies input code)
  unfolding refuse_with respond
  refuse_with-Ends code = refuse-Ends code _ _ _ (λ h. absurd (omega (arith, h)))

  by_normalization-Ends :
      (n : Normalization)
      → ((event : NormalizedWebhookEvent) → n ≡ normalized event → IsAuthentic)
      → Ends Sound (by_normalization add_milliseconds dependencies input n)
  unfolding by_normalization
  by_normalization-Ends (normalized event) h = always _ (h event refl)
  by_normalization-Ends (webhook_error code) h = refuse_with-Ends code
  by_normalization-Ends other_failure h = fail_normalization-Ends

  by_payload-Ends :
      (payload : Option Payload)
      → ((p : Payload) (event : NormalizedWebhookEvent)
          → payload ≡ some p
          → dependencies.normalize input.provider p input.now input.headers ≡ normalized event
          → IsAuthentic)
      → Ends Sound (by_payload add_milliseconds dependencies input payload)
  unfolding by_payload
  by_payload-Ends none h = refuse_with-Ends _
  by_payload-Ends (some payload) h = by_normalization-Ends _ (λ event e. h payload event refl e)

  reject_signature-Ends :
      (status : VerificationStatus) (http_status : ℕ) (answer : String)
      → (http_status ≡ 200 → IsAuthentic)
      → Ends Sound (reject_signature add_milliseconds dependencies input status http_status answer)
  unfolding reject_signature respond
  reject_signature-Ends status http_status answer h = refuse-Ends _ _ _ _ h

  by_verification-Ends :
      (verify : Delivery Body Headers → VerificationStatus) (status : VerificationStatus)
      → dependencies.verifiers input.provider ≡ some verify
      → verify input ≡ status
      → Ends Sound (by_verification add_milliseconds dependencies input status)
  unfolding by_verification
  by_verification-Ends verify verified known accepted = Ends-bind _ _ (λ u.
      by_payload-Ends (dependencies.parse input.raw_body) (λ payload event parsed made. record {
        verify = verify;
        known = known;
        accepted = accepted;
        payload = payload;
        parsed = parsed;
        event = event;
        made = made;
      }))
  by_verification-Ends verify malformed_signature known refused =
      reject_signature-Ends malformed_signature 400 "bad_request" (λ h. absurd (omega (arith, h)))
  by_verification-Ends verify invalid_signature known refused =
      reject_signature-Ends invalid_signature 401 "unauthorized" (λ h. absurd (omega (arith, h)))
  by_verification-Ends verify missing_signature known refused =
      reject_signature-Ends missing_signature 401 "unauthorized" (λ h. absurd (omega (arith, h)))
  by_verification-Ends verify expired_signature known refused =
      reject_signature-Ends expired_signature 401 "unauthorized" (λ h. absurd (omega (arith, h)))

  by_verifier-Ends :
      (verifier : Option (Delivery Body Headers → VerificationStatus))
      → dependencies.verifiers input.provider ≡ verifier
      → Ends Sound (by_verifier add_milliseconds dependencies input verifier)
  unfolding by_verifier respond
  by_verifier-Ends none known =
      refuse-Ends "UNSUPPORTED_PROVIDER" (facts_from_verification_status "UNSUPPORTED_PROVIDER") _ _
        (λ h. absurd (omega (arith, h)))
  by_verifier-Ends (some verify) known = by_verification-Ends verify (verify input) known refl

  -- A delivery that is answered with 200 has a verifier that accepts it, a body that is parsed and an
  -- event that the adapter makes of it.
  pub process_incoming_webhook-IsAuthentic :
      (s : S) (result : ProcessIncomingWebhookResult)
      → (process_incoming_webhook add_milliseconds dependencies input s).0 ≡ returned result
      → result.http_status ≡ 200
      → IsAuthentic
  unfolding process_incoming_webhook
  process_incoming_webhook-IsAuthentic s result e h =
      let sound : Ends Sound (process_incoming_webhook add_milliseconds dependencies input) =
        Ends-bind _ _ (λ u. by_verifier-Ends (dependencies.verifiers input.provider) refl) in
      sound.ends s result e h
