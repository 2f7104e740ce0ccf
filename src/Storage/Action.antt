-- ===== src/Storage/Action.antt =====
-- What a method of a repository does: it returns or throws, and what it had changed before stays
-- changed. `S` holds the objects that the methods change.
pub mod Triples
pub mod Returns
pub mod Ends
use hookx.Prelude.{◌≡◌, refl, ap, ◌⊎◌, inl, inr, List, [], ◌∷◌, Bool, true, false}
use hookx.Storage.Retry.Classify.{Thrown}

pub data Settled {ℓ} (A : Type ℓ) : Type ℓ where
  returned : A → Settled A
  threw : Thrown → Settled A

abbrev pub Action : Type 0 → Type 0 → Type 0
Action S A = S → Settled A × S

module _ {S A : Type 0} where
  abbrev pub pure : A → Action S A
  pure a s = (returned a, s)

  abbrev pub throw : Thrown → Action S A
  throw t s = (threw t, s)

  -- `try { m } catch (error) { handler }`.
  unfoldable pub try_catch : Action S A → (Thrown → Action S A) → Action S A
  try_catch m handler s =
      let (r, s') = m s in elim r [ returned a ↦ (returned a, s') | threw t ↦ handler t s' ]

infixl 5 ◌>>=◌ ◌>>◌
unfoldable pub ◌>>=◌ : {S A B : Type 0} → Action S A → (A → Action S B) → Action S B
◌>>=◌ m f s = let (r, s') = m s in elim r [ returned a ↦ f a s' | threw t ↦ (threw t, s') ]

abbrev pub ◌>>◌ : {S B : Type 0} → Action S (Unit {0}) → Action S B → Action S B
m >> k = m >>= λ _. k

-- `for (const item of items) await act(item)`.
unfoldable pub for_each : {S A : Type 0} → (A → Action S (Unit {0})) → List A → Action S (Unit {0})
for_each act [] = pure tt
for_each act (item ∷ items) = act item >> for_each act items

-- `if (test) await act`.
unfoldable pub when : {S : Type 0} → Bool → Action S (Unit {0}) → Action S (Unit {0})
when true act = act
when false act = pure tt

pub Settled-cases {ℓ} :
    {A : Type ℓ} (r : Settled A) → ((a : A) × (r ≡ returned a)) ⊎ ((t : Thrown) × (r ≡ threw t))
Settled-cases (returned a) = inl (a, refl)
Settled-cases (threw t) = inr (t, refl)

-- `try { m } catch`, with what follows left to the caller: how `m` ended.
unfoldable pub settled : {S A : Type 0} → Action S A → Action S (Settled A)
settled m s = let (r, s') = m s in (returned r, s')

-- How a call runs whose first part is known.
module _ {S A : Type 0} {a : A} {s s' : S} where
  pub bind_returned :
      {B : Type 0} (m : Action S A) (f : A → Action S B)
      → m s ≡ (returned a, s')
      → (m >>= f) s ≡ f a s'
  unfolding ◌>>=◌
  bind_returned {B} m f e =
      ap
        (λ (x : Settled A × S).
          let (r, t) = x in (elim r [ returned b ↦ f b t | threw error ↦ (threw error, t) ]))
        e

  pub try_returned :
      (m : Action S A) (handler : Thrown → Action S A)
      → m s ≡ (returned a, s')
      → try_catch m handler s ≡ (returned a, s')
  unfolding try_catch
  try_returned m handler e =
      ap
        (λ (x : Settled A × S).
          let (r, t) = x in
          (elim r [ returned b ↦ (returned b, t) | threw error ↦ handler error t ]))
        e

module _ {S : Type 0} {s : S} {b : Bool} (m : Action S (Unit {0})) where
  pub when-true : b ≡ true → when b m s ≡ m s
  unfolding when
  when-true e = ap (λ c. when c m s) e

  pub when-false : b ≡ false → when b m s ≡ (returned tt, s)
  unfolding when
  when-false e = ap (λ c. when c m s) e

pub bind_settled :
    {S A B : Type 0} {r : Settled A} {s s' : S} (m : Action S A) (f : Settled A → Action S B)
    → m s ≡ (r, s')
    → (settled m >>= f) s ≡ f r s'
unfolding ◌>>=◌ settled
bind_settled m f e = ap (λ (x : Settled _ × _). let (r, t) = x in f r t) e

-- A call that returns has returned in its first part.
pub bind_inv :
    {S A B : Type 0} (m : Action S A) (f : A → Action S B) (b : B) (s s'' : S)
    → (m >>= f) s ≡ (returned b, s'')
    → (a : A) × (s' : S) × (m s ≡ (returned a, s')) × (f a s' ≡ (returned b, s''))
unfolding ◌>>=◌
bind_inv m f b s s'' e = elim (Settled-cases (m s).0) [
  | inl (a, r) ↦ (a, (m s).1, ap (λ x. (x, (m s).1)) r, rw (r, ◌>>=◌) at e)
  | inr (t, r) ↦
      let bad : (threw t, (m s).1) ≡ (returned b, s'') = rw (r, ◌>>=◌) at e in
      let no : threw t ≡ returned b = ap (λ (x : Settled _ × _). x.0) bad in cc
]
