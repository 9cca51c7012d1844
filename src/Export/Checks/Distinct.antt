-- ===== src/Export/Checks/Distinct.antt =====
-- duplicate_pk over the rows of a load: no two rows with one key are accepted.
use mathlib.Core.List.{Memᴰ}
use mathlib.Core.Path.{subst}
use forecast_e_zoo.Common.{
  ◌≡◌, refl, sym, ap, ◌∙◌, inl, inr, true, false, Bool-cases, Option, none, some, List, [], ◌∷◌,
}
use forecast_e_zoo.Common.Text.{Text, text_eq, codes}
use forecast_e_zoo.Common.Dict.{lookup}
use forecast_e_zoo.Common.Float.{Float64}
use forecast_e_zoo.Export.Checks.{
  severity_critical, Payload, Rule, State, Outside, is_empty, mark_pk, CheckFunc, rules_for,
  pk_value, mark_value, negative_qty, negative_stock, future_event_time, duplicate_pk,
  missing_required, numeric_range, regex_match, default_checks, violated, apply_check, check_rules,
  check, has_critical, accept,
}
use forecast_e_zoo.Export.Checks.Marks.{
  seen, mark_pk-marks, either_keeps, mark_pk-keeps, no_critical, mark_pk_new, passes, not_taken,
  unseen, Fresh, Distinct, Fresh-weaken, other_keys, rules_for-Memᴰ, lookup-All,
}

module _ (f : Float64) (o : Outside f.Val) where
  -- No key is forgotten.
  abbrev Keeps : CheckFunc f.Val → Type 0
  Keeps fn =
      (r : Rule f.Val) (p : Payload f.Val) (s : State) (e k : Text)
      → seen e k s ≡ true
      → seen e k (fn r p s).1 ≡ true

  mark_value-keeps :
      (d : Text) (v : Option Text) (s : State) (e k : Text)
      → seen e k s ≡ true
      → seen e k (mark_value f o d v s).1 ≡ true
  mark_value-keeps d none s e k h = h
  mark_value-keeps d (some j) s e k h = mark_pk-keeps e k d j s h

  duplicate_pk-Keeps : Keeps (duplicate_pk f o)
  unfolding duplicate_pk
  duplicate_pk-Keeps r p s e k h =
      either_keeps (is_empty r.field) (true, s) (mark_value f o r.entity (pk_value f o r p) s) e k h
        (mark_value-keeps r.entity (pk_value f o r p) s e k h)

  default_checks-Keeps :
      (c : Text) (fn : CheckFunc f.Val) → lookup c (default_checks f o) ≡ some fn → Keeps fn
  unfolding default_checks negative_qty negative_stock future_event_time missing_required
      numeric_range regex_match
  default_checks-Keeps c fn = lookup-All Keeps (default_checks f o) c fn (
    (λ r p s e k h. h),
    (
      (λ r p s e k h. h),
      (
        (λ r p s e k h. h),
        (duplicate_pk-Keeps, ((λ r p s e k h. h), ((λ r p s e k h. h), ((λ r p s e k h. h), tt)))),
      ),
    ),
  )

  apply_check-seen :
      (entity : Text) (fn : Option (CheckFunc f.Val)) (r : Rule f.Val) (p : Payload f.Val)
      (s : State) (e k : Text)
      → ((g : CheckFunc f.Val) → fn ≡ some g → Keeps g)
      → seen e k s ≡ true
      → seen e k (apply_check f o entity fn r p s).1 ≡ true
  apply_check-seen entity none r p s e k a h = h
  apply_check-seen entity (some fn) r p s e k a h = a fn refl r p s e k h

  check_rules-keeps :
      (entity : Text) (rs : List (Rule f.Val)) (p : Payload f.Val) (s : State) (e k : Text)
      → seen e k s ≡ true
      → seen e k (check_rules f o entity rs p s).1 ≡ true
  unfolding check_rules
  check_rules-keeps entity [] p s e k h = h
  check_rules-keeps entity (r ∷ rs) p s e k h =
      check_rules-keeps entity rs p
        (apply_check f o entity (lookup r.check (default_checks f o)) r p s).1 e k
        (apply_check-seen entity (lookup r.check (default_checks f o)) r p s e k
          (default_checks-Keeps r.check) h)

  is_duplicate_pk : lookup (codes "duplicate_pk") (default_checks f o) ≡ some (duplicate_pk f o)
  unfolding default_checks lookup text_eq
  is_duplicate_pk = refl

  duplicate_pk-mark_pk :
      (r : Rule f.Val) (p : Payload f.Val) (s : State) (k : Text)
      → is_empty r.field ≡ false
      → pk_value f o r p ≡ some k
      → duplicate_pk f o r p s ≡ mark_pk r.entity k s
  unfolding duplicate_pk
  duplicate_pk-mark_pk r p s k named key =
      not_taken (is_empty r.field) (true, s) (mark_value f o r.entity (pk_value f o r p) s) named
      ∙ ap (λ v. mark_value f o r.entity v s) key

  -- A critical rule that finds no duplicate: the key is new, and marked.
  duplicate_pk_new :
      (entity : Text) (r : Rule f.Val) (p : Payload f.Val) (s : State) (k : Text)
      → is_empty r.field ≡ false
      → r.severity ≡ severity_critical
      → pk_value f o r p ≡ some k
      → has_critical (apply_check f o entity (some (duplicate_pk f o)) r p s).0 ≡ false
      → (seen r.entity k s ≡ false)
        × (seen r.entity k (apply_check f o entity (some (duplicate_pk f o)) r p s).1 ≡ true)
  duplicate_pk_new entity r p s k named critical key h =
      let marked = duplicate_pk-mark_pk r p s k named key in
      let valid = passes (violated f o entity r r.severity) (duplicate_pk f o r p s).0 critical h in
      (mark_pk_new r.entity k s (rw marked at valid), rw marked (mark_pk-marks r.entity k s))

  check_first_new :
      (entity : Text) (r : Rule f.Val) (rs : List (Rule f.Val)) (p : Payload f.Val) (s : State)
      (k : Text)
      → r.check ≡ codes "duplicate_pk"
      → is_empty r.field ≡ false
      → r.severity ≡ severity_critical
      → pk_value f o r p ≡ some k
      → has_critical (check_rules f o entity (r ∷ rs) p s).0 ≡ false
      → (seen r.entity k s ≡ false)
        × (seen r.entity k (check_rules f o entity (r ∷ rs) p s).1 ≡ true)
  unfolding check_rules
  check_first_new entity r rs p s k c named critical key h =
      let found : lookup r.check (default_checks f o) ≡ some (duplicate_pk f o) =
        ap (λ n. lookup n (default_checks f o)) c ∙ is_duplicate_pk in
      let first = apply_check f o entity (lookup r.check (default_checks f o)) r p s in
      let new : (seen r.entity k s ≡ false) × (seen r.entity k first.1 ≡ true) =
        subst
          (λ fn.
            has_critical (apply_check f o entity fn r p s).0 ≡ false
            → (seen r.entity k s ≡ false)
              × (seen r.entity k (apply_check f o entity fn r p s).1 ≡ true))
          (sym found) (duplicate_pk_new entity r p s k named critical key)
          (no_critical first.0 (check_rules f o entity rs p first.1).0 h).0 in
      (new.0, check_rules-keeps entity rs p first.1 r.entity k new.1)

  check_rules_new :
      (entity : Text) (r : Rule f.Val) (rs : List (Rule f.Val)) (p : Payload f.Val) (s : State)
      (k : Text)
      → Memᴰ r rs
      → r.check ≡ codes "duplicate_pk"
      → is_empty r.field ≡ false
      → r.severity ≡ severity_critical
      → pk_value f o r p ≡ some k
      → has_critical (check_rules f o entity rs p s).0 ≡ false
      → (seen r.entity k s ≡ false) × (seen r.entity k (check_rules f o entity rs p s).1 ≡ true)
  unfolding check_rules
  check_rules_new entity r [] p s k m c named critical key h = elim m [ ]
  check_rules_new entity r (q ∷ rs) p s k (Memᴰ.head e) c named critical key h =
      subst
        (λ (x : Rule f.Val).
          has_critical (check_rules f o entity (x ∷ rs) p s).0 ≡ false
          → (seen r.entity k s ≡ false)
            × (seen r.entity k (check_rules f o entity (x ∷ rs) p s).1 ≡ true))
        e (check_first_new entity r rs p s k c named critical key) h
  check_rules_new entity r (q ∷ rs) p s k (Memᴰ.tail m) c named critical key h =
      let first = apply_check f o entity (lookup q.check (default_checks f o)) q p s in
      let rest =
        check_rules_new entity r rs p first.1 k m c named critical key
          (no_critical first.0 (check_rules f o entity rs p first.1).0 h).1 in
      (
        unseen r.entity k s first.1
            (apply_check-seen entity (lookup q.check (default_checks f o)) q p s r.entity k
              (default_checks-Keeps q.check))
            rest.0,
        rest.1,
      )

  -- The keys of the rows that have one.
  abbrev pub add_key : Option Text → List Text → List Text
  add_key none ks = ks
  add_key (some k) ks = k ∷ ks

  unfoldable pub keys_of : Rule f.Val → List (Payload f.Val) → List Text
  keys_of r [] = []
  keys_of r (p ∷ ps) = add_key (pk_value f o r p) (keys_of r ps)

  module _ (rules : List (Rule f.Val)) (r : Rule f.Val) (m : Memᴰ r rules)
      (c : r.check ≡ codes "duplicate_pk") (named : is_empty r.field ≡ false)
      (critical : r.severity ≡ severity_critical) where
    add_key-Fresh :
        (v : Option Text) (s s' : State) (ks : List Text)
        → ((k : Text) → seen r.entity k s ≡ true → seen r.entity k s' ≡ true)
        → ((k : Text) → v ≡ some k → (seen r.entity k s ≡ false) × (seen r.entity k s' ≡ true))
        → Fresh r.entity s' ks
        → Distinct ks
        → Fresh r.entity s (add_key v ks) × Distinct (add_key v ks)
    add_key-Fresh none s s' ks keeps new fresh distinct =
        (Fresh-weaken r.entity s s' ks keeps fresh, distinct)
    add_key-Fresh (some k) s s' ks keeps new fresh distinct =
        let at_k = new k refl in
        (
          (at_k.0, Fresh-weaken r.entity s s' ks keeps fresh),
          (other_keys r.entity k s' ks at_k.1 fresh, distinct),
        )

    -- Of an entity with a critical duplicate_pk rule on a field, whatever its other rules: the accepted
    -- rows that have a value in that field have values that differ from one another, and from every
    -- key that was seen for the entity before these rows.
    pub accept-Distinct :
        (ps : List (Payload f.Val)) (s : State)
        → let keys = keys_of r (accept f o rules r.entity ps s).kept in
          Fresh r.entity s keys × Distinct keys
    unfolding accept check keys_of
    accept-Distinct [] s = (tt, tt)
    accept-Distinct (p ∷ ps) s =
        let rs = rules_for r.entity rules in
        let after = check_rules f o r.entity rs p s in
        let rest = accept-Distinct ps after.1 in
        let keeps = λ (k : Text). check_rules-keeps r.entity rs p s r.entity k in
        elim (Bool-cases (has_critical after.0)) [
          | inl e ↦ rw e (
            Fresh-weaken r.entity s after.1 (keys_of r (accept f o rules r.entity ps after.1).kept)
                keeps rest.0,
            rest.1,
          )
          | inr e ↦ rw e (
              add_key-Fresh (pk_value f o r p) s after.1
                (keys_of r (accept f o rules r.entity ps after.1).kept) keeps
                (λ k key.
                  check_rules_new r.entity r rs p s k (rules_for-Memᴰ rules r m) c named critical
                    key e)
                rest.0 rest.1)
        ]
