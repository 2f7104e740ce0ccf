-- ===== src/Storage/Payments/Laws.antt =====
-- The payment store is a map from a provider and a payment to a row.
use hookx.Prelude.{
  ℕ, ◌≡◌, refl, sym, ◌∙◌, Bool, true, false, ◌&&◌, some, List, [], ◌∷◌, ◌++◌, all, arith, inl, inr,
  Bool-cases, if◌then◌else◌,
}
use hookx.Domain.{
  Identity, codes, same, same_iff, branded_path, text_eq, is_printable, is_digit, is_upper,
  is_lower,
}
use hookx.Webhook.Identity.{codes_inj, identity_printable, text_eq_iff}
use hookx.Storage.Payments.{StoredPayment, PaymentStore, key, get, upsert}

-- The separator is no printable character, so a text ends before the first of it.
split_at_zero :
    (s t s' t' : List ℕ)
    → all is_printable s ≡ true
    → all is_printable t ≡ true
    → s ++ 0 ∷ s' ≡ t ++ 0 ∷ t'
    → (s ≡ t) × (s' ≡ t')
unfolding is_printable is_digit is_upper is_lower
split_at_zero [] [] s' t' hs ht e = (refl, cc)
split_at_zero [] (y ∷ t) s' t' hs ht e = ground arith
split_at_zero (x ∷ s) [] s' t' hs ht e = ground arith
split_at_zero (x ∷ s) (y ∷ t) s' t' hs ht e =
    let rest = split_at_zero s t s' t' (ground arith) (ground arith) cc in
    let first : x ≡ y = cc in (cc (first, rest.0), rest.1)

key_inj : (p q : Identity) (a b : Identity) → key p a ≡ key q b → (p ≡ q) × (a ≡ b)
unfolding key
key_inj p q a b e =
    let (left, right) =
      split_at_zero (codes p.text) (codes q.text) (codes a.text) (codes b.text)
        (identity_printable p) (identity_printable q) e in
    (branded_path p q (codes_inj _ _ left), branded_path a b (codes_inj _ _ right))

and_true : (a b : Bool) → a ≡ true → b ≡ true → (a && b) ≡ true
and_true true b h k = k
and_true false b h k = cc

and_left : (a b : Bool) → (a && b) ≡ true → (a ≡ true) × (b ≡ true)
and_left true b h = (refl, h)
and_left false b h = cc

-- Rows have equal keys exactly where both their parts are the same.
key-same : (p q a b : Identity) → text_eq (key p a) (key q b) ≡ (same p q && same a b)
key-same p q a b = elim (Bool-cases (same p q && same a b)) [
  | inl e ↦
      let (left, right) = and_left (same p q) (same a b) e in
      let same_p = (same_iff p q).0 left in
      let same_a = (same_iff a b).0 right in
      (text_eq_iff (key p a) (key q b)).1 (cc (same_p, same_a)) ∙ sym e
  | inr e ↦ elim (Bool-cases (text_eq (key p a) (key q b))) [
    | inr f ↦ f ∙ sym e
    | inl f ↦
        let (left, right) = key_inj p q a b ((text_eq_iff (key p a) (key q b)).0 f) in
        let both =
          and_true (same p q) (same a b) ((same_iff p q).1 left) ((same_iff a b).1 right) in
        cc
  ]
]

-- Which row a lookup takes.
abbrev pub is_of : Identity → Identity → StoredPayment → Bool
is_of provider payment_id row = same row.provider provider && same row.payment_id payment_id

is_of_trans :
    (provider payment_id : Identity) (row next : StoredPayment)
    → is_of next.provider next.payment_id row ≡ true
    → is_of provider payment_id row ≡ is_of provider payment_id next
is_of_trans provider payment_id row next h =
    let (left, right) =
      and_left (same row.provider next.provider) (same row.payment_id next.payment_id) h in
    let p = (same_iff row.provider next.provider).0 left in
    let q = (same_iff row.payment_id next.payment_id).0 right in cc (p, q)

is_of_apart :
    (provider payment_id : Identity) (row next : StoredPayment)
    → is_of next.provider next.payment_id row ≡ false
    → is_of provider payment_id row ≡ true
    → is_of provider payment_id next ≡ false
is_of_apart provider payment_id row next e f = elim (Bool-cases (is_of provider payment_id next)) [
  | inr n ↦ n
  | inl t ↦
      let (left, right) =
        and_left (same row.provider provider) (same row.payment_id payment_id) f in
      let (left', right') =
        and_left (same next.provider provider) (same next.payment_id payment_id) t in
      let p =
        (same_iff row.provider provider).0 left ∙ sym ((same_iff next.provider provider).0 left') in
      let q =
        (same_iff row.payment_id payment_id).0 right
        ∙ sym ((same_iff next.payment_id payment_id).0 right') in
      let both =
        and_true (same row.provider next.provider) (same row.payment_id next.payment_id)
          ((same_iff row.provider next.provider).1 p)
          ((same_iff row.payment_id next.payment_id).1 q) in
      cc
]

-- After a row is written, the lookup of its provider and payment gives it, and every other lookup
-- gives what it gave before.
pub get-upsert :
    (records : PaymentStore) (next : StoredPayment) (provider payment_id : Identity)
    → get (upsert records next) provider payment_id
      ≡ (if is_of provider payment_id next then some next else get records provider payment_id)
unfolding get upsert
get-upsert [] next provider payment_id = refl
get-upsert (row ∷ records) next provider payment_id =
    let tested = key-same row.provider next.provider row.payment_id next.payment_id in
    let rest = get-upsert records next provider payment_id in
    elim (Bool-cases (is_of next.provider next.payment_id row)) [
      | inl e ↦
          let of_row = is_of_trans provider payment_id row next e in
          rw (tested, e)
            (elim (Bool-cases (is_of provider payment_id next)) [
              | inl f ↦ rw (f) refl
              | inr f ↦ rw (f, of_row, f) refl
            ])
      | inr e ↦
          rw (tested, e)
            (elim (Bool-cases (is_of provider payment_id row)) [
              | inl f ↦ rw (f, is_of_apart provider payment_id row next e f) refl
              | inr f ↦ rw f rest
            ])
    ]
