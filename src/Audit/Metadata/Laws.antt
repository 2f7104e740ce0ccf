-- ===== src/Audit/Metadata/Laws.antt =====
-- What a sanitized object holds.
use hookx.Prelude.{
  String, ◌+◌, ◌≡◌, refl, sym, ◌∙◌, ◌≤◌, true, false, Option, none, some, [], ◌∷◌, ◌++◌, All,
  All-append, length, length-append, arith, Bool-cases, inl, inr, leb,
}
use mathlib.Core.List.{append_assoc, append-nil}
use hookx.Audit.Metadata.{
  Value, Object, blocked_key, storable, max_keys, clean, sanitize_audit_metadata,
}

-- A member that may be stored.
abbrev pub Safe : String × Value → Type 0
Safe (key, value) = (blocked_key key ≡ false) × (storable value ≡ true)

clean-Safe : (cleaned entries : Object) → All Safe cleaned → All Safe (clean cleaned entries)
unfolding clean
clean-Safe cleaned [] h = h
clean-Safe cleaned ((key, value) ∷ entries) h = elim (Bool-cases (leb max_keys (length cleaned))) [
  | inl full ↦ rw full h
  | inr room ↦ elim (Bool-cases (blocked_key key)) [
    | inl b ↦ rw (room, b) (clean-Safe cleaned entries h)
    | inr b ↦ elim (Bool-cases (storable value)) [
      | inl s ↦
          rw (room, b, s)
            (clean-Safe (cleaned ++ (key, value) ∷ []) entries
              (All-append Safe cleaned ((key, value) ∷ []) h ((b, s), tt)))
      | inr s ↦ rw (room, b, s) (clean-Safe cleaned entries h)
    ]
  ]
]

clean-length :
    (cleaned entries : Object)
    → length cleaned ≤ max_keys
    → length (clean cleaned entries) ≤ max_keys
unfolding clean
clean-length cleaned [] h = h
clean-length cleaned ((key, value) ∷ entries) h = ground (
  arith,
  length-append cleaned ((key, value) ∷ []),
  clean-length (cleaned ++ (key, value) ∷ []) entries,
  clean-length cleaned entries,
)

clean_of_Safe :
    (cleaned entries : Object)
    → All Safe entries
    → length cleaned + length entries ≤ max_keys
    → clean cleaned entries ≡ cleaned ++ entries
unfolding clean
clean_of_Safe cleaned [] h l = sym (append-nil cleaned)
clean_of_Safe cleaned ((key, value) ∷ entries) h l =
    let room : leb max_keys (length cleaned) ≡ false = ground arith in
    rw (room, h.0.0, h.0.1)
      (clean_of_Safe (cleaned ++ (key, value) ∷ []) entries h.1
          (omega (arith, l, length-append cleaned ((key, value) ∷ [])))
        ∙ append_assoc cleaned ((key, value) ∷ []) entries)

-- What is stored has no key that the pattern blocks, no long text and nothing but texts, numbers,
-- Booleans and null, and at most sixteen members; and it passes again unchanged.
pub sanitize_audit_metadata_lem :
    (input : Option Object)
    → All Safe (sanitize_audit_metadata input)
      × (length (sanitize_audit_metadata input) ≤ max_keys)
      × (sanitize_audit_metadata (some (sanitize_audit_metadata input))
          ≡ sanitize_audit_metadata input)
unfolding sanitize_audit_metadata
sanitize_audit_metadata_lem none = (tt, omega arith, refl)
sanitize_audit_metadata_lem (some input) = (
  clean-Safe [] input tt,
  clean-length [] input (omega arith),
  clean_of_Safe [] (clean [] input) (clean-Safe [] input tt)
      (omega (arith, clean-length [] input (omega arith))),
)
