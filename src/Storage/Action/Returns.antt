-- ===== src/Storage/Action/Returns.antt =====
-- Calls that do not throw.
use hookx.Prelude.{◌≡◌, refl, Bool, true, false, List, [], ◌∷◌, inl, inr}
use hookx.Storage.Retry.Classify.{Thrown}
use hookx.Storage.Action.{
  returned, Action, pure, try_catch, settled, ◌>>=◌, when, for_each, Settled-cases,
}

-- From no state does the call throw.
pub record Returns {S A : Type 0} (m : Action S A) : Type 0 where
  pub returns : (s : S) → (a : A) × ((m s).0 ≡ returned a)

module _ {S A : Type 0} where
  pub Returns-bind :
      {B : Type 0} (m : Action S A) (f : A → Action S B)
      → Returns m
      → ((a : A) → Returns (f a))
      → Returns (m >>= f)
  unfolding ◌>>=◌
  Returns-bind m f hm hf = record {
    returns = λ s.
        let (a, e) = hm.returns s in let (b, e') = (hf a).returns (m s).1 in (b, rw (e, ◌>>=◌) e');
  }

  pub Returns-try_catch :
      (m : Action S A) (handler : Thrown → Action S A)
      → ((t : Thrown) → Returns (handler t))
      → Returns (try_catch m handler)
  unfolding try_catch
  Returns-try_catch m handler h = record {
    returns = λ s. elim (Settled-cases (m s).0) [
      | inl (a, e) ↦ (a, rw (e, try_catch) refl)
      | inr (t, e) ↦ let (b, e') = (h t).returns (m s).1 in (b, rw (e, try_catch) e')
    ];
  }

  pub Returns-pure : (a : A) → Returns {S = S} (pure a)
  Returns-pure a = record { returns = λ s. (a, refl) }

  pub Returns-settled : (m : Action S A) → Returns (settled m)
  unfolding settled
  Returns-settled m = record { returns = λ s. ((m s).0, refl) }

pub Returns-when :
    {S : Type 0} (b : Bool) (m : Action S (Unit {0})) → Returns m → Returns (when b m)
unfolding when
Returns-when true m h = h
Returns-when false m h = Returns-pure tt

pub Returns-for_each :
    {S A : Type 0} (act : A → Action S (Unit {0})) (items : List A)
    → ((a : A) → Returns (act a))
    → Returns (for_each act items)
unfolding for_each
Returns-for_each act [] h = Returns-pure tt
Returns-for_each act (item ∷ items) h =
    Returns-bind _ _ (h item) (λ done. Returns-for_each act items h)
