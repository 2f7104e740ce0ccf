-- ===== src/Prelude/Sorting.antt =====
-- Three-way comparisons as `Array.prototype.sort` takes them, the comparison of texts by code
-- units, and sorting. A comparator's result -1, 0, 1 is `lt`, `eq`, `gt`.
use Prim.Native.Nat.{ℕ, compare, Ordering}
use mathlib.Core.Path.{◌≡◌, refl, ap, ◌∙◌}
use mathlib.Core.Logic.{◌≢◌}
use mathlib.Core.List.Permᴰ
use mathlib.Core.List.{List, [], ◌∷◌, Memᴰ, Permᴰ}
use native.Mathlib.Omega.{arith}

abbrev pub swap : Ordering → Ordering
swap Ordering.lt = Ordering.gt
swap Ordering.eq = Ordering.eq
swap Ordering.gt = Ordering.lt

-- The first comparison that is not 0.
abbrev pub then : Ordering → Ordering → Ordering
then Ordering.lt o = Ordering.lt
then Ordering.eq o = o
then Ordering.gt o = Ordering.gt

-- `<` and `>` on texts: by the first code unit that differs, a proper prefix first.
unfoldable pub lex : List ℕ → List ℕ → Ordering
lex [] [] = Ordering.eq
lex [] (y ∷ ys) = Ordering.lt
lex (x ∷ xs) [] = Ordering.gt
lex (x ∷ xs) (y ∷ ys) = then (compare x y) (lex xs ys)

Memᴰ-perm {ℓ} : {A : Type ℓ} {l m : List A} {a : A} → Permᴰ l m → Memᴰ a l → Memᴰ a m
Memᴰ-perm Permᴰ.nil x = x
Memᴰ-perm (Permᴰ.cons e p) (Memᴰ.head h) = Memᴰ.head (h ∙ e)
Memᴰ-perm (Permᴰ.cons e p) (Memᴰ.tail x) = Memᴰ.tail (Memᴰ-perm p x)
Memᴰ-perm (Permᴰ.swap e f) (Memᴰ.head h) = Memᴰ.tail (Memᴰ.head (h ∙ e))
Memᴰ-perm (Permᴰ.swap e f) (Memᴰ.tail (Memᴰ.head h)) = Memᴰ.head (h ∙ f)
Memᴰ-perm (Permᴰ.swap e f) (Memᴰ.tail (Memᴰ.tail x)) = Memᴰ.tail (Memᴰ.tail x)
Memᴰ-perm (Permᴰ.trans p q) x = Memᴰ-perm q (Memᴰ-perm p x)

-- A comparator whose answers are a total preorder.
pub record IsComparison {ℓ} {A : Type ℓ} (cmp : A → A → Ordering) : Type ℓ where
  pub swaps : (a b : A) → cmp b a ≡ swap (cmp a b)
  pub chains : (a b c : A) → cmp a b ≢ Ordering.gt → cmp b c ≢ Ordering.gt → cmp a c ≢ Ordering.gt

lex-swap : (xs ys : List ℕ) → lex ys xs ≡ swap (lex xs ys)
unfolding lex
lex-swap [] [] = refl
lex-swap [] (y ∷ ys) = refl
lex-swap (x ∷ xs) [] = refl
lex-swap (x ∷ xs) (y ∷ ys) = ground (arith, lex-swap xs ys)

pub lex_eq : (xs ys : List ℕ) → lex xs ys ≡ Ordering.eq → xs ≡ ys
unfolding lex
lex_eq [] [] h = refl
lex_eq [] (y ∷ ys) h = cc
lex_eq (x ∷ xs) [] h = cc
lex_eq (x ∷ xs) (y ∷ ys) h = ground (arith, lex_eq xs ys)

pub lex_refl : (xs : List ℕ) → lex xs xs ≡ Ordering.eq
unfolding lex
lex_refl [] = refl
lex_refl (x ∷ xs) = ground (arith, lex_refl xs)

lex_trans :
    (xs ys zs : List ℕ)
    → lex xs ys ≢ Ordering.gt
    → lex ys zs ≢ Ordering.gt
    → lex xs zs ≢ Ordering.gt
unfolding lex
lex_trans [] ys [] h k = ground arith
lex_trans [] ys (z ∷ zs) h k = ground arith
lex_trans (x ∷ xs) [] zs h k = absurd (h refl)
lex_trans (x ∷ xs) (y ∷ ys) [] h k = absurd (k refl)
lex_trans (x ∷ xs) (y ∷ ys) (z ∷ zs) h k = ground (arith, lex_trans xs ys zs)

pub lex-IsComparison : IsComparison lex
lex-IsComparison = record { swaps = lex-swap; chains = lex_trans }

-- Sorting by `f` in a comparison, and then by `g` in another that refines equality of `f`.
pub IsComparison-then {ℓ} :
    {A : Type ℓ} (f g : A → List ℕ) → IsComparison (λ a b. then (lex (f a) (f b)) (lex (g a) (g b)))
IsComparison-then f g = record {
  swaps = λ a b. ground (arith, lex-swap (f a) (f b), lex-swap (g a) (g b));
  chains = λ a b c h k. ground (
    arith,
    lex_trans (f a) (f b) (f c),
    lex_trans (g a) (g b) (g c),
    lex_eq (f a) (f b),
    lex_eq (f b) (f c),
    lex-swap (f a) (f b),
    lex-swap (f b) (f c),
    lex_eq (f a) (f c),
  );
}

module _ {ℓ} {A : Type ℓ} (cmp : A → A → Ordering) where
  -- `x` goes before the first element that is not smaller, so equal elements keep their order.
  unfoldable pub insert : A → List A → List A
  insert x [] = x ∷ []
  insert x (y ∷ l) = elim (cmp x y) [ Ordering.gt ↦ y ∷ insert x l | _ ↦ x ∷ y ∷ l ]

  -- `toSorted(cmp)`: a stable sort.
  unfoldable pub sort : List A → List A
  unfolding insert
  sort [] = []
  sort (x ∷ l) = insert x (sort l)

  -- Only equal elements compare as equal.
  abbrev pub Separates : List A → Type ℓ
  Separates l = (a b : A) → Memᴰ a l → Memᴰ b l → cmp a b ≡ Ordering.eq → a ≡ b

  pub insert-perm : (x : A) (l : List A) → Permᴰ (insert x l) (x ∷ l)
  unfolding insert
  insert-perm x [] = Permᴰ.refl (x ∷ [])
  insert-perm x (y ∷ l) = place (cmp x y) (insert-perm x l)
    where
      place :
          (o : Ordering)
          → Permᴰ (insert x l) (x ∷ l)
          → Permᴰ (elim o [ Ordering.gt ↦ y ∷ insert x l | _ ↦ x ∷ y ∷ l ]) (x ∷ y ∷ l)
      place Ordering.gt p = Permᴰ.trans (Permᴰ.cons refl p) (Permᴰ.swap refl refl)
      place Ordering.eq p = Permᴰ.refl (x ∷ y ∷ l)
      place Ordering.lt p = Permᴰ.refl (x ∷ y ∷ l)

  pub sort-perm : (l : List A) → Permᴰ (sort l) l
  unfolding sort
  sort-perm [] = Permᴰ.nil
  sort-perm (x ∷ l) = Permᴰ.trans (insert-perm x (sort l)) (Permᴰ.cons refl (sort-perm l))

  module _ (c : IsComparison cmp) where
    insert_comm :
        (x y : A) (l : List A)
        → (cmp x y ≡ Ordering.eq → x ≡ y)
        → insert x (insert y l) ≡ insert y (insert x l)
    unfolding insert
    insert_comm x y [] h = ground (arith, c.swaps x y)
    insert_comm x y (z ∷ l) h = ground (
      arith,
      c.swaps x y,
      c.swaps x z,
      c.swaps y z,
      c.chains x y z,
      c.chains y x z,
      c.chains x z y,
      c.chains y z x,
      insert_comm x y l h,
    )

    -- The order in which separated elements are given does not matter.
    pub sort_of_perm : {l m : List A} → Permᴰ l m → Separates l → sort l ≡ sort m
    unfolding sort
    sort_of_perm Permᴰ.nil h = refl
    sort_of_perm (Permᴰ.cons {a} {l₂} e p) h =
        ap (insert a) (sort_of_perm p (λ x y m n. h x y (Memᴰ.tail m) (Memᴰ.tail n)))
        ∙ ap (λ x. insert x (sort l₂)) e
    sort_of_perm (Permᴰ.swap {a} {b} {a'} {b'} {l} e f) h =
        insert_comm a b (sort l) (h a b (Memᴰ.head refl) (Memᴰ.tail (Memᴰ.head refl))) ∙ cc
    sort_of_perm (Permᴰ.trans p q) h =
        sort_of_perm p h
        ∙ sort_of_perm q
            (λ a b m n. h a b (Memᴰ-perm (Permᴰ.symm p) m) (Memᴰ-perm (Permᴰ.symm p) n))
