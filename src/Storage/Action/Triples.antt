-- ===== src/Storage/Action/Triples.antt =====
-- What is known after a call that returns, and the calls that leave a part of the state alone.
use hookx.Prelude.{◌≡◌, refl, sym, ◌∙◌, ap, subst, List, [], ◌∷◌, inl, inr}
use hookx.Storage.Retry.Classify.{Thrown}
use hookx.Storage.Action.{
  Settled, returned, threw, Action, pure, ◌>>=◌, try_catch, throw, for_each, Settled-cases,
}

-- From a state with `P`, a call that returns ends in a state with `Q`, which may speak of the result.
pub record Triple {S A : Type 0} (P : S → Type 0) (m : Action S A) (Q : A → S → Type 0)
    : Type 0 where
  pub holds : (s s' : S) (a : A) → P s → m s ≡ (returned a, s') → Q a s'

-- The call leaves `part` of the state as it is, whether it returns or throws.
pub record Keeps {S V A : Type 0} (part : S → V) (m : Action S A) : Type 0 where
  pub keeps : (s : S) → part (m s).1 ≡ part s

module _ {S A : Type 0} {P : S → Type 0} where
  pub Triple-bind :
      {B : Type 0} (R : A → S → Type 0) {Q : B → S → Type 0} (m : Action S A) (f : A → Action S B)
      → Triple P m R
      → ((a : A) → Triple (R a) (f a) Q)
      → Triple P (m >>= f) Q
  unfolding ◌>>=◌
  Triple-bind R m f hm hf = record {
    holds = λ s s' b p e. elim (Settled-cases (m s).0) [
      | inl (a, r) ↦
          (hf a).holds (m s).1 s' b (hm.holds s (m s).1 a p (ap (λ x. (x, (m s).1)) r))
            (rw (r, ◌>>=◌) at e)
      | inr (t, r) ↦
          let bad : (threw t, (m s).1) ≡ (returned b, s') = rw (r, ◌>>=◌) at e in
          let worse : threw t ≡ returned b = ap (λ (x : Settled _ × S). x.0) bad in cc
    ];
  }

  pub Triple-pure : {Q : A → S → Type 0} (a : A) → ((s : S) → P s → Q a s) → Triple P (pure a) Q
  Triple-pure {Q} a h = record {
    holds = λ s s' b p e.
        let same : a ≡ b =
          let r : returned a ≡ returned b = ap (λ (x : Settled A × S). x.0) e in cc in
        subst (λ x. Q x s') same (subst (Q a) (ap (λ (x : Settled A × S). x.1) e) (h s p));
  }

module _ {S V : Type 0} (part : S → V) where
  -- What is said of a part holds after a call that leaves it alone.
  pub Keeps-Triple :
      {A : Type 0} (F : V → Type 0) (m : Action S A)
      → Keeps part m
      → Triple (λ s. F (part s)) m (λ a s. F (part s))
  Keeps-Triple F m k = record {
    holds = λ s s' a p e. subst F (sym (k.keeps s) ∙ ap (λ (x : Settled _ × S). part x.1) e) p;
  }

  pub Keeps-pure : {A : Type 0} (a : A) → Keeps part (pure a)
  Keeps-pure a = record { keeps = λ s. refl }

  pub Keeps-throw : {A : Type 0} (t : Thrown) → Keeps part (throw {A = A} t)
  Keeps-throw t = record { keeps = λ s. refl }

  pub Keeps-bind :
      {A B : Type 0} (m : Action S A) (f : A → Action S B)
      → Keeps part m
      → ((a : A) → Keeps part (f a))
      → Keeps part (m >>= f)
  unfolding ◌>>=◌
  Keeps-bind m f hm hf = record {
    keeps = λ s. elim (Settled-cases (m s).0) [
      | inl (a, r) ↦ rw (r, ◌>>=◌) ((hf a).keeps (m s).1 ∙ hm.keeps s)
      | inr (t, r) ↦ rw (r, ◌>>=◌) (hm.keeps s)
    ];
  }

  pub Keeps-try_catch :
      {A : Type 0} (m : Action S A) (handler : Thrown → Action S A)
      → Keeps part m
      → ((t : Thrown) → Keeps part (handler t))
      → Keeps part (try_catch m handler)
  unfolding try_catch
  Keeps-try_catch m handler hm hh = record {
    keeps = λ s. elim (Settled-cases (m s).0) [
      | inl (a, r) ↦ rw (r, try_catch) (hm.keeps s)
      | inr (t, r) ↦ rw (r, try_catch) ((hh t).keeps (m s).1 ∙ hm.keeps s)
    ];
  }

  pub Keeps-for_each :
      {A : Type 0} (act : A → Action S (Unit {0})) (items : List A)
      → ((a : A) → Keeps part (act a))
      → Keeps part (for_each act items)
  unfolding for_each
  Keeps-for_each act [] h = Keeps-pure tt
  Keeps-for_each act (item ∷ items) h = Keeps-bind _ _ (h item) (λ done. Keeps-for_each act items h)
