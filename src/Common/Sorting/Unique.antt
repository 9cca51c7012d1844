-- ===== src/Common/Sorting/Unique.antt =====
-- There is one way to put a list of pairwise comparable elements in order.
use mathlib.Core.Path.{◌≡◌, refl, sym, ◌∙◌, ap₂, subst}
use mathlib.Core.Bool.{Bool, true, false}
use mathlib.Core.Logic.{inl, inr}
use mathlib.Core.List.{List, [], ◌∷◌, Permᴰ, Memᴰ}
use mathlib.Core.List.Permᴰ
use forecast_e_zoo.Common.Lists.{All}
use forecast_e_zoo.Common.Sorting.{
  Related, All-elem, Elem-perm, Related-perm, exchange_sort, exchange_sort-perm, Ascending,
  exchange_sort-Ascending, Comparable, Comparable-symm,
}

-- Each element is less than every later one.
abbrev pub Increasing {ℓ} : {A : Type ℓ} → (A → A → Bool) → List A → Type 0
Increasing less = Related (λ x y. less x y ≡ true)

module _ {ℓ} {A : Type ℓ} (less : A → A → Bool)
    (nlt_trans : (a b c : A) → less a b ≡ false → less b c ≡ false → less a c ≡ false)
    (lt_asym : (a b : A) → less a b ≡ true → less b a ≡ false) where
  strict :
      (x : A) (xs : List A)
      → All (λ y. less y x ≡ false) xs
      → All (Comparable less x) xs
      → All (λ y. less x y ≡ true) xs
  strict x [] h k = tt
  strict x (y ∷ ys) h (inl e, k) = (e, strict x ys h.1 k)
  strict x (y ∷ ys) h (inr e, k) = cc

  pub Increasing-of_Ascending :
      (xs : List A) → Ascending less xs → Related (Comparable less) xs → Increasing less xs
  Increasing-of_Ascending [] h k = tt
  Increasing-of_Ascending (x ∷ xs) h k = (strict x xs h.0 k.0, Increasing-of_Ascending xs h.1 k.1)

  drop_head :
      {x y a : A} (xs ys : List A)
      → All (λ z. less x z ≡ true) xs
      → x ≡ y
      → Memᴰ a xs
      → Memᴰ a (y ∷ ys)
      → Memᴰ a ys
  drop_head {x} {y} {a} xs ys low e m (Memᴰ.head p) =
      let lt : less x a ≡ true = All-elem (λ z. less x z ≡ true) xs low m in
      let back : less x x ≡ true = subst (λ z. less x z ≡ true) (p ∙ sym e) lt in
      absurd (cc (lt_asym x x back))
  drop_head xs ys low e m (Memᴰ.tail n) = n

  heads :
      (x y : A) (xs ys : List A)
      → All (λ z. less x z ≡ true) xs
      → All (λ z. less y z ≡ true) ys
      → Memᴰ x (y ∷ ys)
      → Memᴰ y (x ∷ xs)
      → x ≡ y
  heads x y xs ys low low' (Memᴰ.head e) n = e
  heads x y xs ys low low' (Memᴰ.tail m) (Memᴰ.head e) = sym e
  heads x y xs ys low low' (Memᴰ.tail m) (Memᴰ.tail n) =
      let a : less x y ≡ true = All-elem (λ z. less x z ≡ true) xs low n in
      let b : less y x ≡ true = All-elem (λ z. less y z ≡ true) ys low' m in
      absurd (cc (lt_asym x y a))

  Increasing-unique :
      (xs ys : List A)
      → Increasing less xs
      → Increasing less ys
      → ((a : A) → Memᴰ a xs → Memᴰ a ys)
      → ((a : A) → Memᴰ a ys → Memᴰ a xs)
      → xs ≡ ys
  Increasing-unique [] [] h k f g = refl
  Increasing-unique [] (y ∷ ys) h k f g = elim (g y (Memᴰ.head refl)) [ ]
  Increasing-unique (x ∷ xs) [] h k f g = elim (f x (Memᴰ.head refl)) [ ]
  Increasing-unique (x ∷ xs) (y ∷ ys) h k f g =
      let e : x ≡ y = heads x y xs ys h.0 k.0 (f x (Memᴰ.head refl)) (g y (Memᴰ.head refl)) in
      ap₂ (λ a l. a ∷ l) e
        (Increasing-unique xs ys h.1 k.1 (λ a m. drop_head xs ys h.0 e m (f a (Memᴰ.tail m)))
          (λ a m. drop_head ys xs k.0 (sym e) m (g a (Memᴰ.tail m))))

  -- Two lists of the same pairwise comparable elements have the same sorted form.
  pub exchange_sort_unique :
      (xs ys : List A)
      → Permᴰ xs ys
      → Related (Comparable less) xs
      → exchange_sort less xs ≡ exchange_sort less ys
  exchange_sort_unique xs ys p c =
      let q : Permᴰ (exchange_sort less xs) (exchange_sort less ys) =
        Permᴰ.trans (exchange_sort-perm less xs)
          (Permᴰ.trans p (Permᴰ.symm (exchange_sort-perm less ys))) in
      let cx : Related (Comparable less) (exchange_sort less xs) =
        Related-perm (Comparable-symm less) (Permᴰ.symm (exchange_sort-perm less xs)) c in
      Increasing-unique (exchange_sort less xs) (exchange_sort less ys)
        (Increasing-of_Ascending (exchange_sort less xs)
          (exchange_sort-Ascending less nlt_trans lt_asym xs) cx)
        (Increasing-of_Ascending (exchange_sort less ys)
          (exchange_sort-Ascending less nlt_trans lt_asym ys)
          (Related-perm (Comparable-symm less) q cx))
        (λ a. Elem-perm q) (λ a. Elem-perm (Permᴰ.symm q))

  pub exchange_sort-Increasing :
      (xs : List A) → Related (Comparable less) xs → Increasing less (exchange_sort less xs)
  exchange_sort-Increasing xs c =
      Increasing-of_Ascending (exchange_sort less xs)
        (exchange_sort-Ascending less nlt_trans lt_asym xs)
        (Related-perm (Comparable-symm less) (Permᴰ.symm (exchange_sort-perm less xs)) c)
