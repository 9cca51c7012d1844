-- ===== src/Common/Sorting.antt =====
-- Sorting by exchange, and lists that hold the same elements in some order: what a loop over a Go
-- map, whose order of iteration is left open, and a sort after it have in common.
pub mod Unique
use mathlib.Core.Path.{◌≡◌, refl, sym, ◌∙◌, subst}
use mathlib.Core.Bool.{Bool, true, false}
use mathlib.Core.Logic.{◌⊎◌, inl, inr}
use mathlib.Core.List.{List, [], ◌∷◌, Permᴰ, Memᴰ}
use mathlib.Core.List.Permᴰ
use native.Mathlib.Omega.{arith}
use Prim.Native.Nat.{ℕ, zero, suc, ◌≤◌}
use forecast_e_zoo.Common.Tests.{if◌then◌else◌, Bool-cases}
use forecast_e_zoo.Common.Lists.{length, All}

-- Each element is related to every later one.
abbrev pub Related {ℓ κ} : {A : Type ℓ} → (A → A → Type κ) → List A → Type κ
Related R [] = Unit
Related R (x ∷ xs) = All (R x) xs × Related R xs

module _ {ℓ κ} {A : Type ℓ} (P : A → Type κ) where
  pub All-perm : {xs ys : List A} → Permᴰ xs ys → All P xs → All P ys
  All-perm Permᴰ.nil h = tt
  All-perm (Permᴰ.cons e d) h = (subst P e h.0, All-perm d h.1)
  All-perm (Permᴰ.swap e e') h = (subst P e' h.1.0, (subst P e h.0, h.1.1))
  All-perm (Permᴰ.trans d d') h = All-perm d' (All-perm d h)

  pub All-elem : {a : A} (xs : List A) → All P xs → Memᴰ a xs → P a
  All-elem [] h m = elim m [ ]
  All-elem (x ∷ xs) h (Memᴰ.head e) = subst P (sym e) h.0
  All-elem (x ∷ xs) h (Memᴰ.tail m) = All-elem xs h.1 m

  pub All-of_elem : (xs : List A) → ((a : A) → Memᴰ a xs → P a) → All P xs
  All-of_elem [] h = tt
  All-of_elem (x ∷ xs) h = (h x (Memᴰ.head refl), All-of_elem xs (λ a m. h a (Memᴰ.tail m)))

module _ {ℓ} {A : Type ℓ} where
  pub Elem-perm : {xs ys : List A} {a : A} → Permᴰ xs ys → Memᴰ a xs → Memᴰ a ys
  Elem-perm Permᴰ.nil m = m
  Elem-perm (Permᴰ.cons e d) (Memᴰ.head p) = Memᴰ.head (p ∙ e)
  Elem-perm (Permᴰ.cons e d) (Memᴰ.tail m) = Memᴰ.tail (Elem-perm d m)
  Elem-perm (Permᴰ.swap e e') (Memᴰ.head p) = Memᴰ.tail (Memᴰ.head (p ∙ e))
  Elem-perm (Permᴰ.swap e e') (Memᴰ.tail (Memᴰ.head p)) = Memᴰ.head (p ∙ e')
  Elem-perm (Permᴰ.swap e e') (Memᴰ.tail (Memᴰ.tail m)) = Memᴰ.tail (Memᴰ.tail m)
  Elem-perm (Permᴰ.trans d d') m = Elem-perm d' (Elem-perm d m)

module _ {ℓ κ} {A : Type ℓ} {R : A → A → Type κ} (symmetric : (a b : A) → R a b → R b a) where
  -- A symmetric relation between all pairs does not depend on the order of the list.
  pub Related-perm : {xs ys : List A} → Permᴰ xs ys → Related R xs → Related R ys
  Related-perm Permᴰ.nil h = tt
  Related-perm (Permᴰ.cons {a = a} {b = b} {l₁ = l} e d) h =
      (All-perm (R b) d (subst (λ x. All (R x) l) e h.0), Related-perm d h.1)
  Related-perm (Permᴰ.swap {a = a} {b = b} {a' = a'} {l = l} e e') h = (
    (
      subst (R a') e (subst (λ x. R x a) e' (symmetric a b h.0.0)),
      subst (λ x. All (R x) l) e' h.1.0,
    ),
    (subst (λ x. All (R x) l) e h.0.1, h.1.1),
  )
  Related-perm (Permᴰ.trans d d') h = Related-perm d' (Related-perm d h)

-- The inner loop of a sort by exchange: the current element is swapped with each later one that
-- is less. The result is the least element and what then stands behind it.
module _ {ℓ} {A : Type ℓ} (less : A → A → Bool) where
  unfoldable pub select_min : A → List A → A × List A
  select_min x [] = (x, [])
  select_min x (y ∷ ys) =
      let (m, r) = select_min (if less y x then y else x) ys in (m, (if less y x then x else y) ∷ r)

  unfoldable pub exchange_loop : ℕ → List A → List A
  exchange_loop zero xs = xs
  exchange_loop (suc n) [] = []
  exchange_loop (suc n) (x ∷ xs) = let (m, r) = select_min x xs in m ∷ exchange_loop n r

  unfoldable pub exchange_sort : List A → List A
  unfolding select_min exchange_loop
  exchange_sort xs = exchange_loop (length xs) xs

  select_min-perm : (x : A) (ys : List A) → let (m, r) = select_min x ys in Permᴰ (m ∷ r) (x ∷ ys)
  unfolding select_min
  select_min-perm x [] = Permᴰ.refl (x ∷ [])
  select_min-perm x (y ∷ ys) =
      Permᴰ.trans (Permᴰ.swap refl refl)
        (Permᴰ.trans (Permᴰ.cons refl (select_min-perm (if less y x then y else x) ys)) swapped)
    where
      swapped : Permᴰ ((if less y x then x else y) ∷ (if less y x then y else x) ∷ ys) (x ∷ y ∷ ys)
      swapped = elim (Bool-cases (less y x)) [
        | inl e ↦ rw e (Permᴰ.refl (x ∷ y ∷ ys))
        | inr e ↦ rw e (Permᴰ.swap refl refl)
      ]

  length-select_min : (x : A) (ys : List A) → length (select_min x ys).1 ≡ length ys
  unfolding select_min
  length-select_min x [] = refl
  length-select_min x (y ∷ ys) = omega (arith, length-select_min (if less y x then y else x) ys)

  exchange_loop-perm : (n : ℕ) (xs : List A) → Permᴰ (exchange_loop n xs) xs
  unfolding exchange_loop
  exchange_loop-perm zero xs = Permᴰ.refl xs
  exchange_loop-perm (suc n) [] = Permᴰ.refl []
  exchange_loop-perm (suc n) (x ∷ xs) =
      Permᴰ.trans (Permᴰ.cons refl (exchange_loop-perm n (select_min x xs).1))
        (select_min-perm x xs)

  -- Sorting loses and adds nothing.
  pub exchange_sort-perm : (xs : List A) → Permᴰ (exchange_sort xs) xs
  unfolding exchange_sort
  exchange_sort-perm xs = exchange_loop-perm (length xs) xs

  -- No later element is less than an earlier one.
  abbrev pub Ascending : List A → Type 0
  Ascending = Related (λ x y. less y x ≡ false)

  module _ (nlt_trans : (a b c : A) → less a b ≡ false → less b c ≡ false → less a c ≡ false)
      (lt_asym : (a b : A) → less a b ≡ true → less b a ≡ false) where
    irrefl : (x : A) → less x x ≡ false
    irrefl x = elim (Bool-cases (less x x)) [ inl e ↦ lt_asym x x e | inr e ↦ e ]

    lesser_le : (x y : A) → less x (if less y x then y else x) ≡ false
    lesser_le x y = elim (Bool-cases (less y x)) [
      | inl e ↦ rw e (lt_asym y x e)
      | inr e ↦ rw e (irrefl x)
    ]

    lesser_le_greater :
        (x y : A) → less (if less y x then x else y) (if less y x then y else x) ≡ false
    lesser_le_greater x y = elim (Bool-cases (less y x)) [
      | inl e ↦ rw e (lt_asym y x e)
      | inr e ↦ rw e e
    ]

    select_min-least :
        (x : A) (ys : List A)
        → let (m, r) = select_min x ys in (less x m ≡ false) × All (λ z. less z m ≡ false) r
    unfolding select_min
    select_min-least x [] = (irrefl x, tt)
    select_min-least x (y ∷ ys) =
        let ih = select_min-least (if less y x then y else x) ys in
        (
          nlt_trans x (if less y x then y else x) _ (lesser_le x y) ih.0,
          (nlt_trans _ (if less y x then y else x) _ (lesser_le_greater x y) ih.0, ih.1),
        )

    exchange_loop-Ascending : (n : ℕ) (xs : List A) → length xs ≤ n → Ascending (exchange_loop n xs)
    unfolding exchange_loop
    exchange_loop-Ascending zero [] h = tt
    exchange_loop-Ascending zero (x ∷ xs) h = elim h [ ]
    exchange_loop-Ascending (suc n) [] h = tt
    exchange_loop-Ascending (suc n) (x ∷ xs) h = (
      All-perm (λ z. less z (select_min x xs).0 ≡ false)
          (Permᴰ.symm (exchange_loop-perm n (select_min x xs).1)) (select_min-least x xs).1,
      exchange_loop-Ascending n (select_min x xs).1 (omega (arith, length-select_min x xs)),
    )

    -- The sort puts every list in order.
    pub exchange_sort-Ascending : (xs : List A) → Ascending (exchange_sort xs)
    unfolding exchange_sort
    exchange_sort-Ascending xs = exchange_loop-Ascending (length xs) xs (omega arith)

  -- Of two different positions one holds the lesser element.
  abbrev pub Comparable : A → A → Type 0
  Comparable a b = (less a b ≡ true) ⊎ (less b a ≡ true)

  pub Comparable-symm : (a b : A) → Comparable a b → Comparable b a
  Comparable-symm a b (inl h) = inr h
  Comparable-symm a b (inr h) = inl h
