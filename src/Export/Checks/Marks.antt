-- ===== src/Export/Checks/Marks.antt =====
-- The keys that a load has seen: what marking does to them, and facts on lists of violations and rules.
use mathlib.Core.List.{Memᴰ}
use mathlib.Core.Path.{subst}
use forecast_e_zoo.Common.{
  ◌≡◌, ◌≢◌, refl, inl, inr, Bool, true, false, Bool-cases, ◌||◌, Option, some, List, [], ◌∷◌, ◌++◌,
  if◌then◌else◌, All, arith,
}
use forecast_e_zoo.Common.Text.{Text, text_eq, text_eq_refl, text_eq_sound, text_eq_iff}
use forecast_e_zoo.Common.Dict.{Dict, lookup, insert, lookup-insert}
use forecast_e_zoo.Export.Checks.{
  severity_critical, Rule, Violation, State, is_some, seen_keys, mark_pk, rules_for, has_critical,
}

-- The key was marked for the entity.
abbrev pub seen : Text → Text → State → Bool
seen entity k s = is_some (lookup k (seen_keys entity s))

seen_keys-insert :
    (e d : Text) (v : Dict (Unit {0})) (s : State)
    → seen_keys e (insert d v s) ≡ (if text_eq d e then v else seen_keys e s)
seen_keys-insert e d v s =
    rw (lookup-insert d e v s, seen_keys)
      (elim (Bool-cases (text_eq d e)) [ inl h ↦ rw h refl | inr h ↦ rw h refl ])

pub mark_pk-marks : (e k : Text) (s : State) → seen e k (mark_pk e k s).1 ≡ true
unfolding mark_pk
mark_pk-marks e k s = elim (Bool-cases (seen e k s)) [
  | inl h ↦ rw h h
  | inr h ↦ rw h (
      rw
        (
          seen_keys-insert e e (insert k tt (seen_keys e s)) s,
          text_eq_refl e,
          lookup-insert k k tt (seen_keys e s),
          text_eq_refl k,
        )
        refl)
]

pub either_keeps :
    (b : Bool) (x y : Bool × State) (e k : Text)
    → seen e k x.1 ≡ true
    → seen e k y.1 ≡ true
    → seen e k (if b then x else y).1 ≡ true
either_keeps true x y e k h g = h
either_keeps false x y e k h g = g

or_some :
    (b : Bool) (v : Option (Unit {0}))
    → is_some v ≡ true
    → is_some (if b then some tt else v) ≡ true
or_some true v h = refl
or_some false v h = h

insert-keeps :
    (e k d j : Text) (s : State)
    → seen e k s ≡ true
    → seen e k (insert d (insert j tt (seen_keys d s)) s) ≡ true
insert-keeps e k d j s h = elim (Bool-cases (text_eq d e)) [
  | inl same ↦
      rw
        (
          seen_keys-insert e d (insert j tt (seen_keys d s)) s,
          same,
          lookup-insert j k tt (seen_keys d s),
          text_eq_sound d e same,
        )
        (or_some (text_eq j k) (lookup k (seen_keys e s)) h)
  | inr other ↦ rw (seen_keys-insert e d (insert j tt (seen_keys d s)) s, other) h
]

pub mark_pk-keeps :
    (e k d j : Text) (s : State) → seen e k s ≡ true → seen e k (mark_pk d j s).1 ≡ true
unfolding mark_pk
mark_pk-keeps e k d j s h =
    either_keeps (seen d j s) (false, s) (true, insert d (insert j tt (seen_keys d s)) s) e k h
      (insert-keeps e k d j s h)

has_critical-append :
    (xs ys : List Violation) → has_critical (xs ++ ys) ≡ (has_critical xs || has_critical ys)
unfolding has_critical
has_critical-append [] ys = refl
has_critical-append (x ∷ xs) ys = ground (arith, has_critical-append xs ys)

pub no_critical :
    (xs ys : List Violation)
    → has_critical (xs ++ ys) ≡ false
    → (has_critical xs ≡ false) × (has_critical ys ≡ false)
no_critical xs ys h = ground (arith, has_critical-append xs ys)

pub mark_pk_new : (e k : Text) (s : State) → (mark_pk e k s).0 ≡ true → seen e k s ≡ false
unfolding mark_pk
mark_pk_new e k s h = elim (Bool-cases (seen e k s)) [ inl q ↦ absurd (ground arith) | inr q ↦ q ]

pub passes :
    (v : Violation) (b : Bool)
    → v.severity ≡ severity_critical
    → has_critical (if b then [] else v ∷ []) ≡ false
    → b ≡ true
unfolding has_critical
passes v true c h = refl
passes v false c h = absurd (ground (arith, text_eq_iff v.severity severity_critical))

pub not_taken : {A : Type 0} (b : Bool) (x y : A) → b ≡ false → (if b then x else y) ≡ y
not_taken b x y h = rw h refl

pub unseen :
    (e k : Text) (s s' : State)
    → (seen e k s ≡ true → seen e k s' ≡ true)
    → seen e k s' ≡ false
    → seen e k s ≡ false
unseen e k s s' keeps h = elim (Bool-cases (seen e k s)) [
  | inl q ↦ absurd (ground (arith, keeps q))
  | inr q ↦ q
]

-- None of the keys was marked.
abbrev pub Fresh : Text → State → List Text → Type 0
Fresh entity s = All (λ k. seen entity k s ≡ false)

abbrev pub Distinct : List Text → Type 0
Distinct [] = Unit
Distinct (k ∷ ks) = All (λ j. j ≢ k) ks × Distinct ks

pub Fresh-weaken :
    (e : Text) (s s' : State) (ks : List Text)
    → ((k : Text) → seen e k s ≡ true → seen e k s' ≡ true)
    → Fresh e s' ks
    → Fresh e s ks
Fresh-weaken e s s' [] keeps h = tt
Fresh-weaken e s s' (k ∷ ks) keeps h =
    (unseen e k s s' (keeps k) h.0, Fresh-weaken e s s' ks keeps h.1)

pub other_keys :
    (e k : Text) (s : State) (ks : List Text)
    → seen e k s ≡ true
    → Fresh e s ks
    → All (λ j. j ≢ k) ks
other_keys e k s [] h fresh = tt
other_keys e k s (j ∷ js) h fresh =
    ((λ same. absurd (ground (arith, rw same at (fresh.0)))), other_keys e k s js h fresh.1)

pub rules_for-Memᴰ :
    {V : Type 0} (rs : List (Rule V)) (r : Rule V) → Memᴰ r rs → Memᴰ r (rules_for r.entity rs)
unfolding rules_for
rules_for-Memᴰ [] r m = elim m [ ]
rules_for-Memᴰ {V} (q ∷ rs) r (Memᴰ.head e) =
    let same : text_eq q.entity r.entity ≡ true =
      subst (λ (x : Rule V). text_eq x.entity r.entity ≡ true) e (text_eq_refl r.entity) in
    rw same (Memᴰ.head e)
rules_for-Memᴰ (q ∷ rs) r (Memᴰ.tail m) = elim (Bool-cases (text_eq q.entity r.entity)) [
  | inl h ↦ rw h (Memᴰ.tail (rules_for-Memᴰ rs r m))
  | inr h ↦ rw h (rules_for-Memᴰ rs r m)
]

module _ {V : Type 0} where
  some_injective : {x y : V} → some x ≡ some y → x ≡ y
  some_injective e = cc

  pub lookup-All :
      (P : V → Type 0) (m : Dict V) (k : Text) (v : V)
      → All (λ (b : Text × V). P b.1) m
      → lookup k m ≡ some v
      → P v
  unfolding lookup
  lookup-All P [] k v a h = absurd (ground arith)
  lookup-All P ((j, w) ∷ m) k v a h = elim (Bool-cases (text_eq j k)) [
    | inl e ↦ subst P (some_injective (rw e at h)) a.0
    | inr e ↦ lookup-All P m k v a.1 (rw e at h)
  ]
