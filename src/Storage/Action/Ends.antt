-- ===== src/Storage/Action/Ends.antt =====
-- What holds of the result of a call that returns.
use hookx.Prelude.{◌≡◌, inl, inr, subst}
use hookx.Storage.Action.{returned, threw, Action, pure, ◌>>=◌, Settled-cases}

-- Whatever the call returns, `P` holds of it.
pub record Ends {S A : Type 0} (P : A → Type 0) (m : Action S A) : Type 0 where
  pub ends : (s : S) (a : A) → (m s).0 ≡ returned a → P a

module _ {S A B : Type 0} {P : B → Type 0} where
  pub Ends-bind :
      (m : Action S A) (f : A → Action S B) → ((a : A) → Ends P (f a)) → Ends P (m >>= f)
  unfolding ◌>>=◌
  Ends-bind m f h = record {
    ends = λ s b e. elim (Settled-cases (m s).0) [
      | inl (a, r) ↦ (h a).ends (m s).1 b (rw (r, ◌>>=◌) at e)
      | inr (t, r) ↦ let bad : threw t ≡ returned b = rw (r, ◌>>=◌) at e in cc
    ];
  }

module _ {S A : Type 0} {P : A → Type 0} where
  pub Ends-pure : (a : A) → P a → Ends P (pure {S = S} a)
  Ends-pure a p = record { ends = λ s b e. let same : a ≡ b = cc in subst P same p }
