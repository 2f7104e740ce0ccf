-- ===== src/Prelude/Ordered.antt =====
-- The result of sorting is in order.
use Prim.Native.Nat.{Ordering}
use mathlib.Core.Path.{◌≡◌, refl, ap, ◌∙◌}
use mathlib.Core.Logic.{◌≢◌}
use mathlib.Core.List.Permᴰ
use mathlib.Core.List.{List, [], ◌∷◌, Permᴰ}
use Prim.Native.Nat.{suc}
use hookx.Prelude.Lists.{All, length}
use hookx.Prelude.Perms.{All-map, All-perm}
use hookx.Prelude.Sorting.{IsComparison, insert, sort, insert-perm}

pub length-perm {ℓ} : {A : Type ℓ} {l m : List A} → Permᴰ l m → length l ≡ length m
length-perm Permᴰ.nil = refl
length-perm (Permᴰ.cons e p) = ap suc (length-perm p)
length-perm (Permᴰ.swap e f) = refl
length-perm (Permᴰ.trans p q) = length-perm p ∙ length-perm q

module _ {ℓ} {A : Type ℓ} (cmp : A → A → Ordering) where
  -- No element is greater than a later one.
  abbrev pub IsOrdered : List A → Type ℓ
  IsOrdered [] = Unit
  IsOrdered (x ∷ l) = All (λ y. cmp x y ≢ Ordering.gt) l × IsOrdered l

  module _ (c : IsComparison cmp) where
    before :
        (x y : A) (l : List A)
        → All (λ z. cmp y z ≢ Ordering.gt) l
        → cmp x y ≢ Ordering.gt
        → All (λ z. cmp x z ≢ Ordering.gt) (y ∷ l)
    before x y l first h = (h, All-map l (λ z k. c.chains x y z h k) first)

    insert-IsOrdered : (x : A) (l : List A) → IsOrdered l → IsOrdered (insert cmp x l)
    unfolding insert
    insert-IsOrdered x [] h = (tt, tt)
    insert-IsOrdered x (y ∷ l) (first, rest) = place (cmp x y) refl (insert-IsOrdered x l rest)
      where
        place :
            (o : Ordering)
            → cmp x y ≡ o
            → IsOrdered (insert cmp x l)
            → IsOrdered (elim o [ Ordering.gt ↦ y ∷ insert cmp x l | _ ↦ x ∷ y ∷ l ])
        place Ordering.gt e p = (
          All-perm (λ z. cmp y z ≢ Ordering.gt) (Permᴰ.symm (insert-perm cmp x l))
              ((λ g. let s = c.swaps x y in cc), first),
          p,
        )
        place Ordering.eq e p = (before x y l first (λ g. cc), (first, rest))
        place Ordering.lt e p = (before x y l first (λ g. cc), (first, rest))

    pub sort-IsOrdered : (l : List A) → IsOrdered (sort cmp l)
    unfolding sort
    sort-IsOrdered [] = tt
    sort-IsOrdered (x ∷ l) = insert-IsOrdered x (sort cmp l) (sort-IsOrdered l)
