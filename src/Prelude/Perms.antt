-- ===== src/Prelude/Perms.antt =====
-- Permutations, membership and predicates that hold of every element of a list.
use mathlib.Core.Path.{◌≡◌, refl, ap, sym, ◌∙◌, subst}
use mathlib.Core.Logic.{inl, inr}
use mathlib.Core.Bool.{Bool, true}
use mathlib.Core.List.Permᴰ
use mathlib.Core.List.{List, [], ◌∷◌, Mem, Memᴰ, Permᴰ, mem-cons_self, mem-cons_of_mem}
use hookx.Prelude.Tests.{Bool-cases}
use hookx.Prelude.Lists.{All, keep}

module _ {ℓ} {A : Type ℓ} where
  pub All-map {κ} : {P Q : A → Type κ} (l : List A) → ((a : A) → P a → Q a) → All P l → All Q l
  All-map [] f h = tt
  All-map (a ∷ l) f h = (f a h.0, All-map l f h.1)

  pub All-perm {κ} : (P : A → Type κ) {l m : List A} → Permᴰ l m → All P l → All P m
  All-perm P Permᴰ.nil h = h
  All-perm P (Permᴰ.cons e p) h = (subst P e h.0, All-perm P p h.1)
  All-perm P (Permᴰ.swap e f) h = (subst P f h.1.0, (subst P e h.0, h.1.1))
  All-perm P (Permᴰ.trans p q) h = All-perm P q (All-perm P p h)

  keep-cons :
      (p : A → Bool) (l m : List A) {a b : A}
      → a ≡ b
      → Permᴰ (keep p l) (keep p m)
      → Permᴰ (keep p (a ∷ l)) (keep p (b ∷ m))
  keep-cons p l m {a} {b} e q = elim (Bool-cases (p a)) [
    | inl h ↦ rw (h, ap p (sym e) ∙ h) (Permᴰ.cons e q)
    | inr h ↦ rw (h, ap p (sym e) ∙ h) q
  ]

  keep-swap :
      (p : A → Bool) (a b : A) (l : List A) → Permᴰ (keep p (a ∷ b ∷ l)) (keep p (b ∷ a ∷ l))
  keep-swap p a b l = elim (Bool-cases (p a)) [
    | inl h ↦ elim (Bool-cases (p b)) [
      | inl k ↦ rw h (rw k (Permᴰ.swap refl refl))
      | inr k ↦ rw h (rw k (Permᴰ.refl _))
    ]
    | inr h ↦ elim (Bool-cases (p b)) [
      | inl k ↦ rw h (rw k (Permᴰ.refl _))
      | inr k ↦ rw h (rw k (Permᴰ.refl _))
    ]
  ]

  pub keep-perm : (p : A → Bool) {l m : List A} → Permᴰ l m → Permᴰ (keep p l) (keep p m)
  keep-perm p Permᴰ.nil = Permᴰ.nil
  keep-perm p (Permᴰ.cons {a} {b} {l₁} {l₂} e q) = keep-cons p l₁ l₂ e (keep-perm p q)
  keep-perm p (Permᴰ.swap {a} {b} {a'} {b'} {l} e f) =
      subst (λ x. Permᴰ (keep p (a ∷ b ∷ l)) (keep p (x ∷ b' ∷ l))) f
        (subst (λ x. Permᴰ (keep p (a ∷ b ∷ l)) (keep p (b ∷ x ∷ l))) e (keep-swap p a b l))
  keep-perm p (Permᴰ.trans q r) = Permᴰ.trans (keep-perm p q) (keep-perm p r)

  pub keep-Mem : (p : A → Bool) (l : List A) → All (λ a. Mem a l × (p a ≡ true)) (keep p l)
  keep-Mem p [] = tt
  keep-Mem p (a ∷ l) = elim (Bool-cases (p a)) [
    | inl h ↦ rw h (
      (mem-cons_self, h),
      All-map (keep p l) (λ b m. (mem-cons_of_mem a m.0, m.1)) (keep-Mem p l),
    )
    | inr h ↦ rw h (All-map (keep p l) (λ b m. (mem-cons_of_mem a m.0, m.1)) (keep-Mem p l))
  ]

  pub All-Memᴰ {κ} : (P : A → Type κ) {a : A} {l : List A} → Memᴰ a l → All P l → P a
  All-Memᴰ P (Memᴰ.head e) h = subst P (sym e) h.0
  All-Memᴰ P (Memᴰ.tail m) h = All-Memᴰ P m h.1

  keep-Memᴰ : (p : A → Bool) (l : List A) → All (λ a. Memᴰ a l) (keep p l)
  keep-Memᴰ p [] = tt
  keep-Memᴰ p (a ∷ l) = elim (Bool-cases (p a)) [
    | inl h ↦ rw h (Memᴰ.head refl, All-map (keep p l) (λ b m. Memᴰ.tail m) (keep-Memᴰ p l))
    | inr h ↦ rw h (All-map (keep p l) (λ b m. Memᴰ.tail m) (keep-Memᴰ p l))
  ]

  pub Memᴰ-keep : (p : A → Bool) (l : List A) {a : A} → Memᴰ a (keep p l) → Memᴰ a l
  Memᴰ-keep p l m = All-Memᴰ (λ a. Memᴰ a l) m (keep-Memᴰ p l)

  -- Each element of a list is a member of it.
  pub All-self : (l : List A) → All (λ a. Mem a l) l
  All-self [] = tt
  All-self (a ∷ l) = (mem-cons_self, All-map l (λ b m. mem-cons_of_mem a m) (All-self l))
