-- ===== src/Prelude/Distinct.antt =====
-- Lists without repetition, and what keeps them so.
use mathlib.Core.Path.{◌≡◌, refl, ap}
use mathlib.Core.Logic.{◌≢◌, ◌↔◌, inl, inr}
use mathlib.Core.Bool.{Bool, true}
use mathlib.Core.Option.{none, some}
use mathlib.Core.List.{List, [], ◌∷◌, ◌++◌, map}
use hookx.Prelude.Tests.{Bool-cases}
use hookx.Prelude.Lists.{find, All}

module _ {K : Type 0} where
  -- Nothing is twice in the list.
  abbrev pub IsUnique : List K → Type 0
  IsUnique [] = Unit
  IsUnique (x ∷ l) = All (λ y. x ≢ y) l × IsUnique l

  All-end : (P : K → Type 0) (l : List K) (x : K) → All P l → P x → All P (l ++ x ∷ [])
  All-end P [] x h p = (p, tt)
  All-end P (y ∷ l) x h p = (h.0, All-end P l x h.1 p)

  IsUnique-end : (l : List K) (x : K) → IsUnique l → All (λ y. y ≢ x) l → IsUnique (l ++ x ∷ [])
  IsUnique-end [] x u h = (tt, tt)
  IsUnique-end (y ∷ l) x u h = (All-end (λ z. y ≢ z) l x u.0 h.0, IsUnique-end l x u.1 h.1)

  module _ {A : Type 0} (same : K → K → Bool) (same_iff : (a b : K) → (same a b ≡ true) ↔ (a ≡ b))
      (key : A → K) where
    map-end : (l : List A) (a : A) → map key (l ++ a ∷ []) ≡ map key l ++ key a ∷ []
    map-end [] a = refl
    map-end (b ∷ l) a = ap (key b ∷◌) (map-end l a)

    not_found :
        (l : List A) (x : K) → find (λ a. same (key a) x) l ≡ none → All (λ y. y ≢ x) (map key l)
    not_found [] x h = tt
    not_found (a ∷ l) x h = elim (Bool-cases (same (key a) x)) [
      | inl e ↦ let bad : some a ≡ none = rw e at h in cc
      | inr e ↦ (λ p. let q = (same_iff (key a) x).1 p in cc, not_found l x (rw e at h))
    ]

    -- A new element whose key is not found keeps the keys apart.
    pub added :
        (l : List A) (a : A)
        → IsUnique (map key l)
        → find (λ b. same (key b) (key a)) l ≡ none
        → IsUnique (map key (l ++ a ∷ []))
    added l a u h = rw (map-end l a) (IsUnique-end (map key l) (key a) u (not_found l (key a) h))
