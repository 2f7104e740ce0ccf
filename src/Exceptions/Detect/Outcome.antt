-- ===== src/Exceptions/Detect/Outcome.antt =====
-- Which exceptions are detected: one for each code among the facts, in order of precedence.
use Prim.Native.Nat.{compare}
use hookx.Prelude.{
  IsOrdered, sort-IsOrdered, length-perm, keep-perm, ℕ, length, keep, ◌≡◌, refl, sym, subst, ap,
  ◌∙◌, Bool, true, false, ◌||◌, List, [], ◌∷◌, ◌++◌, any, arith, Bool-cases, inl, inr, sort,
  sort-perm, length-append, suc, leb, ◌≤◌, ◌≢◌, Ordering, All, All-map, if◌then◌else◌,
}
use hookx.Domain.{Result-cases, Result, ok, err, ◌>>=◌}
use hookx.Exceptions.Codes.{
  ExceptionCode, code_same, exception_precedence_rank, compare_exception_code,
}
use hookx.Exceptions.Codes.Ranks.{compare_exception_code-IsComparison, code_same_iff}
use hookx.Exceptions.Facts.{
  DetectionFact, invalid_signature, malformed_webhook, unsupported_event, duplicate_event,
  conflicting_event, out_of_order_event, invalid_state_transition, processing_failure,
  retry_exhausted, missing_event, code_of,
}
use hookx.Exceptions.Draft.{ExceptionDraft, create_exception_draft_inv, checked_draft}
use hookx.Exceptions.Detect.{
  by_precedence, DetectionContext, draft_from_fact, details, draft_input, has_code, collect,
  expand_facts, detect_exception,
}

details_code : (fact : DetectionFact) → (details fact).0 ≡ code_of fact
unfolding details code_of
details_code (invalid_signature r) = refl
details_code (malformed_webhook r) = refl
details_code (unsupported_event r) = refl
details_code duplicate_event = refl
details_code conflicting_event = refl
details_code (out_of_order_event s t r) = refl
details_code (invalid_state_transition s t r) = refl
details_code (processing_failure c n) = refl
details_code (retry_exhausted c n) = refl
details_code (missing_event t m) = refl

-- A draft has the code of its fact.
draft_code :
    (context : DetectionContext) (fact : DetectionFact) (d : ExceptionDraft)
    → draft_from_fact context fact ≡ ok d
    → d.exception_code ≡ code_of fact
unfolding draft_from_fact draft_input checked_draft
draft_code context fact d h =
    let (code, reason, m) = details fact in
    ap (λ (d : ExceptionDraft). d.exception_code)
      (create_exception_draft_inv (draft_input context code reason m) d h)
    ∙ details_code fact

abbrev pub flag : Bool → ℕ
flag true = 1
flag false = 0

-- The drafts and the facts of a code.
abbrev pub with_code : ExceptionCode → List ExceptionDraft → List ExceptionDraft
with_code code = keep (λ (d : ExceptionDraft). code_same d.exception_code code)

abbrev pub stated : ExceptionCode → List DetectionFact → Bool
stated code = any (λ f. code_same (code_of f) code)

-- A code is among the drafts once, or not at all.
abbrev Once : ExceptionCode → List ExceptionDraft → Type 0
Once code drafts = length (with_code code drafts) ≡ flag (has_code drafts code)

with_code-append :
    (code : ExceptionCode) (xs ys : List ExceptionDraft)
    → with_code code (xs ++ ys) ≡ with_code code xs ++ with_code code ys
with_code-append code [] ys = refl
with_code-append code (x ∷ xs) ys = ground (arith, with_code-append code xs ys)

has_code-append :
    (code : ExceptionCode) (xs ys : List ExceptionDraft)
    → has_code (xs ++ ys) code ≡ (has_code xs code || has_code ys code)
unfolding has_code
has_code-append code [] ys = refl
has_code-append code (x ∷ xs) ys = ground (arith, has_code-append code xs ys)

Once-append :
    (code : ExceptionCode) (drafts : List ExceptionDraft) (d : ExceptionDraft)
    → Once code drafts
    → has_code drafts d.exception_code ≡ false
    → Once code (drafts ++ d ∷ [])
unfolding has_code
Once-append code drafts d once new =
    let counted =
      ap length (with_code-append code drafts (d ∷ []))
      ∙ length-append (with_code code drafts) (with_code code (d ∷ [])) in
    let has = has_code-append code drafts (d ∷ []) in
    elim (Bool-cases (code_same d.exception_code code)) [
      | inl same ↦
          let fresh : has_code drafts code ≡ false =
            subst (λ c. has_code drafts c ≡ false) ((code_same_iff _ _).0 same) new in
          let none_before : length (with_code code drafts) ≡ 0 = rw fresh at once in
          let one : length (with_code code (d ∷ [])) ≡ 1 = rw same refl in
          rw (has, fresh, same) (omega (arith, none_before, one, counted))
      | inr other ↦
          let none_now : length (with_code code (d ∷ [])) ≡ 0 = rw other refl in
          elim (Bool-cases (has_code drafts code)) [
            | inl h ↦
                let before : length (with_code code drafts) ≡ 1 = rw h at once in
                rw (has, h) (omega (arith, before, none_now, counted))
            | inr h ↦
                let before : length (with_code code drafts) ≡ 0 = rw h at once in
                rw (has, h, other) (omega (arith, before, none_now, counted))
          ]
    ]

module _ (context : DetectionContext) (by_code : List ExceptionDraft) (f : DetectionFact)
    (facts : List DetectionFact) where
  collect_had :
      has_code by_code (code_of f) ≡ true
      → collect context by_code (f ∷ facts) ≡ collect context by_code facts
  unfolding collect
  collect_had e = rw (e, collect) refl

  collect_new :
      has_code by_code (code_of f) ≡ false
      → collect context by_code (f ∷ facts)
        ≡ (draft_from_fact context f >>= (λ d. collect context (by_code ++ d ∷ []) facts))
  unfolding collect
  collect_new e = rw (e, collect) refl

collect-Once :
    (context : DetectionContext) (code : ExceptionCode) (facts : List DetectionFact)
    (by_code drafts : List ExceptionDraft)
    → collect context by_code facts ≡ ok drafts
    → Once code by_code
    → length (with_code code drafts) ≡ flag (has_code by_code code || stated code facts)
unfolding collect
collect-Once context code [] by_code drafts h once = ground arith
collect-Once context code (f ∷ facts) by_code drafts h once =
    elim (Bool-cases (has_code by_code (code_of f))) [
      | inl had ↦
          let rest =
            collect-Once context code facts by_code drafts
              (sym (collect_had context by_code f facts had) ∙ h) once in
          ground (arith, code_same_iff (code_of f) code)
      | inr new ↦ elim (Result-cases (draft_from_fact context f)) [
        | inl (d, made) ↦
            let of_fact = draft_code context f d made in
            let rest =
              collect-Once context code facts (by_code ++ d ∷ []) drafts
                (ap (λ r. r >>= (λ d. collect context (by_code ++ d ∷ []) facts)) (sym made)
                  ∙ sym (collect_new context by_code f facts new)
                  ∙ h)
                (Once-append code by_code d once
                  (subst (λ c. has_code by_code c ≡ false) (sym of_fact) new)) in
            ground (arith, code_same_iff (code_of f) code, has_code-append code by_code (d ∷ []))
        | inr (e, failed) ↦
            let bad : err e ≡ ok drafts =
              ap (λ r. r >>= (λ d. collect context (by_code ++ d ∷ []) facts)) (sym failed)
              ∙ sym (collect_new context by_code f facts new)
              ∙ h in
            cc
      ]
    ]

sorted : Result (List ExceptionDraft) → Result (List ExceptionDraft)
sorted r = r >>= (λ drafts. ok (sort by_precedence drafts))

sorted_inv :
    (r : Result (List ExceptionDraft)) (drafts : List ExceptionDraft)
    → sorted r ≡ ok drafts
    → (found : List ExceptionDraft) × (r ≡ ok found) × (drafts ≡ sort by_precedence found)
unfolding sorted
sorted_inv (ok found) drafts h = (found, refl, cc)
sorted_inv (err e) drafts h = cc

-- Where detection succeeds, a code has exactly one exception if a fact with that code is given or
-- implied, and else none.
pub detect_exception-count :
    (context : DetectionContext) (drafts : List ExceptionDraft) (code : ExceptionCode)
    → detect_exception context ≡ ok drafts
    → length (with_code code drafts) ≡ flag (stated code (expand_facts context.facts))
unfolding detect_exception sorted
detect_exception-count context drafts code h =
    let (found, collected, e) =
      sorted_inv (collect context [] (expand_facts context.facts)) drafts h in
    ap (λ x. length (with_code code x)) e
    ∙ length-perm (
        keep-perm (λ (d : ExceptionDraft). code_same d.exception_code code)
          (sort-perm by_precedence found))
    ∙ collect-Once context code (expand_facts context.facts) [] found collected refl

-- The places that the comment on `EXCEPTION_PRECEDENCE` gives: security, malformed or unsupported
-- ingest, and so on to duplicate deliveries.
abbrev pub place : ExceptionCode → ℕ
place ExceptionCode.invalid_signature = 1
place ExceptionCode.malformed_webhook = 2
place ExceptionCode.unsupported_event = 2
place ExceptionCode.conflicting_event = 3
place ExceptionCode.invalid_state_transition = 4
place ExceptionCode.processing_failure = 5
place ExceptionCode.retry_exhausted = 6
place ExceptionCode.out_of_order_event = 7
place ExceptionCode.missing_event = 8
place ExceptionCode.duplicate_event = 9

-- Each exception has a place that is not after those of the ones that follow.
abbrev pub InPlace : List ExceptionDraft → Type 0
InPlace [] = Unit
InPlace (d ∷ drafts) =
    All (λ (e : ExceptionDraft). place d.exception_code ≤ place e.exception_code) drafts
    × InPlace drafts

place_of_rank : ℕ → ℕ
place_of_rank n = if leb n 1 then suc n else n

place_lem : (c : ExceptionCode) → place c ≡ place_of_rank (exception_precedence_rank c)
unfolding place_of_rank exception_precedence_rank
place_lem ExceptionCode.invalid_signature = refl
place_lem ExceptionCode.malformed_webhook = refl
place_lem ExceptionCode.unsupported_event = refl
place_lem ExceptionCode.conflicting_event = refl
place_lem ExceptionCode.invalid_state_transition = refl
place_lem ExceptionCode.processing_failure = refl
place_lem ExceptionCode.retry_exhausted = refl
place_lem ExceptionCode.out_of_order_event = refl
place_lem ExceptionCode.missing_event = refl
place_lem ExceptionCode.duplicate_event = refl

place_of_rank_mono : (m n : ℕ) → compare m n ≢ Ordering.gt → place_of_rank m ≤ place_of_rank n
unfolding place_of_rank
place_of_rank_mono m n h = ground arith

place_mono : (a b : ExceptionCode) → compare_exception_code a b ≢ Ordering.gt → place a ≤ place b
unfolding compare_exception_code
place_mono a b h =
    let in_rank = place_of_rank_mono _ _ h in omega (arith, place_lem a, place_lem b, in_rank)

IsOrdered-InPlace : (drafts : List ExceptionDraft) → IsOrdered by_precedence drafts → InPlace drafts
IsOrdered-InPlace [] h = tt
IsOrdered-InPlace (d ∷ drafts) (first, rest) = (
  All-map drafts (λ e k. place_mono d.exception_code e.exception_code k) first,
  IsOrdered-InPlace drafts rest,
)

-- Where detection succeeds, the exceptions are in the places that the comment on the precedence gives
-- to their codes: security first, then malformed or unsupported ingest, conflicts, invalid
-- transitions, failures, exhausted retries, out of order, missing events, and duplicates at last.
pub detect_exception-InPlace :
    (context : DetectionContext) (drafts : List ExceptionDraft)
    → detect_exception context ≡ ok drafts
    → InPlace drafts
unfolding detect_exception sorted
detect_exception-InPlace context drafts h =
    let (found, collected, e) =
      sorted_inv (collect context [] (expand_facts context.facts)) drafts h in
    IsOrdered-InPlace drafts (
      subst (IsOrdered by_precedence) (sym e) (
        sort-IsOrdered by_precedence
          (record {
            swaps =
                λ a b. compare_exception_code-IsComparison.swaps a.exception_code b.exception_code;
            chains = λ a b c.
                compare_exception_code-IsComparison.chains a.exception_code b.exception_code
                  c.exception_code;
          })
          found))
