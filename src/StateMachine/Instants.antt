-- ===== src/StateMachine/Instants.antt =====
-- packages/state-machine/src/instant-order.ts.
use hookx.Prelude.{
  ℕ, zero, suc, ◌≡◌, refl, Option, Option-cases, inl, inr, true, false, none, some, List, [], ◌∷◌,
  ◌++◌, Ordering, lex,
}
use hookx.Domain.{Instant, codes, match_instant, is_instant}

-- `padEnd(9, "0")`.
abbrev pub pad_end : ℕ → List ℕ → List ℕ
pad_end zero s = s
pad_end (suc n) [] = b'0' ∷ pad_end n []
pad_end (suc n) (c ∷ s) = c ∷ pad_end n s

sort_key : Option (List ℕ × List ℕ) → List ℕ
sort_key none = []
sort_key (some (stamp, fraction)) = stamp ++ pad_end 9 fraction

-- The pattern matches every instant, since the brand is that very test: the branch that throws is
-- not taken.
unfoldable pub instant_sort_key : Instant → List ℕ
unfolding sort_key
instant_sort_key value = sort_key (match_instant (codes value.text))

unfoldable pub compare_instant : Instant → Instant → Ordering
compare_instant left right = lex (instant_sort_key left) (instant_sort_key right)

-- The key of an instant has the digits of date and time, and nine digits of the second.
pub instant_sort_key_lem :
    (value : Instant)
    → (stamp : List ℕ) × (fraction : List ℕ) × (match_instant (codes value.text)
        ≡ some (stamp, fraction))
      × (instant_sort_key value ≡ stamp ++ pad_end 9 fraction)
unfolding is_instant instant_sort_key
instant_sort_key_lem value = elim (Option-cases (match_instant (codes value.text))) [
  | inl missed ↦
      let h = value.checked in let bad : false ≡ true = rw (missed, is_instant) at h in cc
  | inr ((stamp, fraction), found) ↦ (stamp, fraction, found, rw (found, instant_sort_key) refl)
]
