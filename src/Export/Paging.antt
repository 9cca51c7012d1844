-- ===== src/Export/Paging.antt =====
-- Paging by the last key: the rows behind the last row of a page are the rest of the rows.
use forecast_e_zoo.Common.{
  ℕ, zero, suc, some, ◌≤◌, ◌≡◌, ◌≢◌, refl, ap, ◌⊎◌, inl, inr, Bool, true, false, ◌&&◌, Bool-cases,
  List, [], ◌∷◌, ◌++◌, All, length, take, keep, arith,
}
use forecast_e_zoo.Common.Text.{Text}
use forecast_e_zoo.Export.Products.{ProductRow, Cursor, Outside, last_id}

module _ {ℓ} {A : Type ℓ} where
  -- A page is all that there is, or ends in a row behind which the others stand.
  abbrev pub Split : ℕ → List A → Type ℓ
  Split k r =
      ((take (suc k) r ≡ r) × (length r ≤ k))
      ⊎ ((xs : List A) × (y : A) × (ys : List A) × (r ≡ xs ++ y ∷ ys)
          × (take (suc k) r ≡ xs ++ y ∷ [])
          × (length xs ≡ k))

  cons-Split : (k : ℕ) (x : A) (r : List A) → Split k r → Split (suc k) (x ∷ r)
  cons-Split k x r (inl (e, h)) = inl (ap (◌∷◌ x) e, omega arith)
  cons-Split k x r (inr (xs, y, ys, e, t, n)) =
      inr (x ∷ xs, y, ys, ap (◌∷◌ x) e, ap (◌∷◌ x) t, ap suc n)

  pub take-Split : (k : ℕ) (r : List A) → Split k r
  take-Split k [] = inl (refl, omega arith)
  take-Split zero (x ∷ r) = inr ([], x, r, refl, refl, refl)
  take-Split (suc k) (x ∷ r) = cons-Split k x r (take-Split k r)

  pub keep-and : (p q : A → Bool) (xs : List A) → keep (λ x. p x && q x) xs ≡ keep q (keep p xs)
  keep-and p q [] = refl
  keep-and p q (x ∷ xs) = ground (arith, keep-and p q xs)

  keep_none : (p : A → Bool) (xs : List A) → All (λ x. p x ≡ false) xs → keep p xs ≡ []
  keep_none p [] h = refl
  keep_none p (x ∷ xs) h = rw h.0 (keep_none p xs h.1)

  pub keep_passing : (p : A → Bool) (xs : List A) → All (λ x. p x ≡ true) xs → keep p xs ≡ xs
  keep_passing p [] h = refl
  keep_passing p (x ∷ xs) h = rw h.0 (ap (◌∷◌ x) (keep_passing p xs h.1))

  pub keep-passes : (p : A → Bool) (xs : List A) → All (λ x. p x ≡ true) (keep p xs)
  keep-passes p [] = tt
  keep-passes p (x ∷ xs) = elim (Bool-cases (p x)) [
    | inl e ↦ rw e (e, keep-passes p xs)
    | inr e ↦ rw e (keep-passes p xs)
  ]

  pub All-last {κ} :
      (P : A → Type κ) (xs : List A) (y : A) (ys : List A) → All P (xs ++ y ∷ ys) → P y
  All-last P [] y ys h = h.0
  All-last P (x ∷ xs) y ys h = All-last P xs y ys h.1

  -- What passes the second test passes the first.
  pub keep-keep :
      (p q : A → Bool) (xs : List A)
      → ((x : A) → q x ≡ true → p x ≡ true)
      → keep q (keep p xs) ≡ keep q xs
  keep-keep p q [] h = refl
  keep-keep p q (x ∷ xs) h = ground (arith, h x, keep-keep p q xs h)

  pub All-keep {κ} : (P : A → Type κ) (p : A → Bool) (xs : List A) → All P xs → All P (keep p xs)
  All-keep P p [] h = tt
  All-keep P p (x ∷ xs) h = elim (Bool-cases (p x)) [
    | inl e ↦ rw e (h.0, All-keep P p xs h.1)
    | inr e ↦ rw e (All-keep P p xs h.1)
  ]

-- The documented behaviour of what the source relies on: a cursor is decoded as it was encoded, and no
-- cursor is encoded as the empty text; the order of texts is strict, with the empty text below.
pub record IsLawful (o : Outside) : Type 0 where
  pub decode-encode : (c : Cursor) → o.decode_cursor (o.encode_cursor c) ≡ some c
  pub encode_nonempty : (c : Cursor) → o.encode_cursor c ≢ []
  pub after_irrefl : (s : Text) → o.text_after s s ≡ false
  pub after_trans :
      (s t u : Text) → o.text_after s t ≡ true → o.text_after t u ≡ true → o.text_after s u ≡ true
  pub after_empty : (s : Text) → s ≢ [] → o.text_after [] s ≡ true

-- By strictly increasing ids.
abbrev pub Ascending : Outside → List ProductRow → Type 0
Ascending o [] = Unit
Ascending o (r ∷ rs) = All (λ (q : ProductRow). o.text_after r.id q.id ≡ true) rs × Ascending o rs

pub Ascending-keep :
    (o : Outside) (p : ProductRow → Bool) (rs : List ProductRow)
    → Ascending o rs
    → Ascending o (keep p rs)
Ascending-keep o p [] h = tt
Ascending-keep o p (r ∷ rs) h = elim (Bool-cases (p r)) [
  | inl e ↦ rw e (
    All-keep (λ (q : ProductRow). o.text_after r.id q.id ≡ true) p rs h.0,
    Ascending-keep o p rs h.1,
  )
  | inr e ↦ rw e (Ascending-keep o p rs h.1)
]

pub last_id-append : (xs : List ProductRow) (y : ProductRow) → last_id (xs ++ y ∷ []) ≡ y.id
unfolding last_id
last_id-append [] y = refl
last_id-append (x ∷ []) y = refl
last_id-append (x ∷ z ∷ xs) y = last_id-append (z ∷ xs) y

module _ (o : Outside) (lawful : IsLawful o) where
  before : (y : ProductRow) (s : Text) → o.text_after s y.id ≡ true → o.text_after y.id s ≡ false
  before y s h = elim (Bool-cases (o.text_after y.id s)) [
    | inl e ↦ absurd (ground (arith, lawful.after_trans s y.id s, lawful.after_irrefl s))
    | inr e ↦ e
  ]

  -- The rows behind a row, in an ascending list.
  pub keep_after :
      (xs : List ProductRow) (y : ProductRow) (ys : List ProductRow)
      → Ascending o (xs ++ y ∷ ys)
      → keep (λ (r : ProductRow). o.text_after y.id r.id) (xs ++ y ∷ ys) ≡ ys
  keep_after [] y ys h =
      rw (lawful.after_irrefl y.id)
        (keep_passing (λ (r : ProductRow). o.text_after y.id r.id) ys h.0)
  keep_after (x ∷ xs) y ys h =
      rw (before y x.id (All-last (λ (q : ProductRow). o.text_after x.id q.id ≡ true) xs y ys h.0))
        (keep_after xs y ys h.1)
