-- ===== src/Access/Authorised.antt =====
-- What is known of a caller that reaches a handler.
use mathlib.Core.List.{Memᴰ}
use mathlib.Core.Path.{subst}
use forecast_e_zoo.Common.{
  ◌==◌, ==_iff, ltb, ◌≤◌, ◌≡◌, refl, sym, ap, ◌⊎◌, inl, inr, Bool, true, false, Bool-cases, Option,
  none, some, Option-cases, List, [], ◌∷◌, ◌++◌, arith,
}
use forecast_e_zoo.Common.Text.{Text, text_eq, text_eq_sound, codes}
use forecast_e_zoo.Common.Time.{Time}
use forecast_e_zoo.Common.Session.{Result, ok, err}
use forecast_e_zoo.Access.{
  Hash, Method, hmac, rsa, other_method, Claims, Token, Key, secret_key, public_key, JwtConfig,
  Outside, Outcome, missing_token, invalid_token, forbidden, passed, alg_hs256, alg_rs256, is_empty,
  split_blank, allows, then_role, hmac_key, loaded_key, rsa_key, key_func, with_key, check_claims,
  check_parts, jwt, route,
}

-- `signed raw t k`: the text is the token t, with a signature by the method of t under the key k.
-- The documented behaviour of ParseWithClaims: claims come only of a token whose signature it has
-- verified, under the key that the function chose for it.
abbrev pub IsVerifying : {K : Type 0} → (Text → Token → Key K → Bool) → Outside K → Type 0
IsVerifying {K} signed o =
    (raw : Text) (kf : Token → Result (Key K)) (c : Claims)
    → o.parse_with_claims raw kf ≡ some c
    → (t : Token) × (k : Key K) × (t.claims ≡ c) × (kf t ≡ ok k) × (signed raw t k ≡ true)

split_blank_sound :
    (auth scheme raw : Text)
    → split_blank auth ≡ some (scheme, raw)
    → auth ≡ scheme ++ codes " " ++ raw
unfolding split_blank
split_blank_sound [] scheme raw h = absurd (ground arith)
split_blank_sound (c ∷ s) scheme raw h = elim (Bool-cases (c == 32)) [
  | inl e ↦ ground (arith, ==_iff c 32)
  | inr e ↦ elim (Option-cases (split_blank s)) [
    | inl q ↦ absurd (ground arith)
    | inr (p, q) ↦ ground (arith, split_blank_sound s p.0 p.1)
  ]
]

allows_sound : (roles : List Text) (role : Text) → allows roles role ≡ true → Memᴰ role roles
unfolding allows
allows_sound [] role h = absurd (ground arith)
allows_sound (r ∷ roles) role h = elim (Bool-cases (text_eq r role)) [
  | inl e ↦ Memᴰ.head (sym (text_eq_sound r role e))
  | inr e ↦ Memᴰ.tail (allows_sound roles role (rw e at h))
]

then_role_sound :
    (roles : List Text) (x : Outcome) (c : Claims)
    → then_role roles x ≡ passed c
    → (x ≡ passed c) × (allows roles c.issuer ≡ true)
then_role_sound roles missing_token c h = absurd (ground arith)
then_role_sound roles invalid_token c h = absurd (ground arith)
then_role_sound roles forbidden c h = absurd (ground arith)
then_role_sound roles (passed d) c h = ground arith

module _ {K : Type 0} (signed : Text → Token → Key K → Bool) where
  -- The token is signed in the family of methods that the configuration names: for HS256 by HMAC with
  -- any of its hashes, under the secret, which is not empty; for RS256 by RSA with any of its hashes,
  -- under the public key that was loaded.
  abbrev pub IsSigned : JwtConfig K → Text → Token → Type 0
  IsSigned cfg raw t =
      ((cfg.alg ≡ alg_hs256)
        × ((n : Hash) × (t.method ≡ hmac n))
        × (is_empty cfg.secret ≡ false)
        × (signed raw t (secret_key cfg.secret) ≡ true))
      ⊎ ((cfg.alg ≡ alg_rs256)
          × ((n : Hash) × (t.method ≡ rsa n))
          × ((k : K) × (cfg.loaded ≡ some (ok k)) × (signed raw t (public_key k) ≡ true)))

  hmac_key_sound :
      (cfg : JwtConfig K) (m : Method) (k : Key K)
      → hmac_key cfg m ≡ ok k
      → ((n : Hash) × (m ≡ hmac n)) × (is_empty cfg.secret ≡ false) × (k ≡ secret_key cfg.secret)
  hmac_key_sound cfg (hmac n) k h = ((n, refl), ground arith, ground arith)
  hmac_key_sound cfg (rsa n) k h = absurd (ground arith)
  hmac_key_sound cfg other_method k h = absurd (ground arith)

  loaded_key_sound :
      (l : Option (Result K)) (k : Key K)
      → loaded_key l ≡ ok k
      → (j : K) × (l ≡ some (ok j)) × (k ≡ public_key j)
  loaded_key_sound none k h = absurd (ground arith)
  loaded_key_sound (some (err e)) k h = absurd (ground arith)
  loaded_key_sound (some (ok j)) k h = (j, refl, ground arith)

  rsa_key_sound :
      (cfg : JwtConfig K) (m : Method) (k : Key K)
      → rsa_key cfg m ≡ ok k
      → ((n : Hash) × (m ≡ rsa n)) × (loaded_key cfg.loaded ≡ ok k)
  rsa_key_sound cfg (hmac n) k h = absurd (ground arith)
  rsa_key_sound cfg (rsa n) k h = ((n, refl), h)
  rsa_key_sound cfg other_method k h = absurd (ground arith)

  key_func-IsSigned :
      (cfg : JwtConfig K) (raw : Text) (t : Token) (k : Key K)
      → key_func cfg t ≡ ok k
      → signed raw t k ≡ true
      → IsSigned cfg raw t
  unfolding key_func
  key_func-IsSigned cfg raw t k h v = elim (Bool-cases (text_eq cfg.alg alg_hs256)) [
    | inl e ↦
        let key = hmac_key_sound cfg t.method k (rw e at h) in
        inl (
          text_eq_sound cfg.alg alg_hs256 e,
          key.0,
          key.1,
          subst (λ j. signed raw t j ≡ true) key.2 v,
        )
    | inr e ↦ elim (Bool-cases (text_eq cfg.alg alg_rs256)) [
      | inl q ↦
          let key = rsa_key_sound cfg t.method k (rw (e, q) at h) in
          let found = loaded_key_sound cfg.loaded k key.1 in
          inr (
            text_eq_sound cfg.alg alg_rs256 q,
            key.0,
            (found.0, found.1, subst (λ j. signed raw t j ≡ true) found.2 v),
          )
      | inr q ↦ absurd (ground arith)
    ]
  ]

  -- The caller holds a token that is signed in the family that the configuration names, that expires no earlier than
  -- now, and whose issuer is one of the roles; and the header is this token behind the scheme.
  abbrev pub IsAuthorised : Outside K → JwtConfig K → List Text → Time → Text → Claims → Type 0
  IsAuthorised o cfg roles now auth c =
      (scheme : Text) × (raw : Text) × (t : Token) × (auth ≡ scheme ++ codes " " ++ raw)
      × (o.equal_fold scheme (codes "Bearer") ≡ true)
      × IsSigned (with_key o cfg) raw t
      × (t.claims ≡ c)
      × Memᴰ c.issuer roles
      × ((expiry : Time) × (c.expires_at ≡ some expiry) × (now ≤ expiry))

  module _ (o : Outside K) where
    check_claims_sound :
        (now : Time) (p : Option Claims) (c : Claims)
        → check_claims o now p ≡ passed c
        → (p ≡ some c) × ((expiry : Time) × (c.expires_at ≡ some expiry) × (now ≤ expiry))
    check_claims_sound now none c h = absurd (ground arith)
    check_claims_sound now (some d) c h = elim (Option-cases d.expires_at) [
      | inl q ↦ absurd (ground arith)
      | inr (t, q) ↦ elim (Bool-cases (ltb t now)) [
        | inl e ↦ absurd (ground arith)
        | inr e ↦
            let same : d ≡ c = ground arith in
            (ap some same, (t, subst (λ (x : Claims). x.expires_at ≡ some t) same q, ground arith))
      ]
    ]

    check_parts_sound :
        (cfg : JwtConfig K) (now : Time) (parts : Option (Text × Text)) (c : Claims)
        → check_parts o cfg now parts ≡ passed c
        → (scheme : Text) × (raw : Text) × (parts ≡ some (scheme, raw))
          × (o.equal_fold scheme (codes "Bearer") ≡ true)
          × (check_claims o now (o.parse_with_claims raw (key_func cfg)) ≡ passed c)
    check_parts_sound cfg now none c h = absurd (ground arith)
    check_parts_sound cfg now (some (scheme, raw)) c h =
        (scheme, raw, refl, ground arith, ground arith)

    -- Whatever the header and the configuration, if the token library verifies what it accepts, a
    -- request that passes the token check and the role check names a bearer token which has a time of
    -- expiry that is not yet over, whose issuer, passed on in its claims, is an allowed role, and whose
    -- signature verifies: under HS256 by an HMAC method (of any hash) with the configured secret, which
    -- is not empty, under RS256 by an RSA method (of any hash) with the public key that was loaded, and
    -- under no other configuration. So a key of one family never verifies a token of the other.
    pub route-IsAuthorised :
        (cfg : JwtConfig K) (roles : List Text) (now : Time) (auth : Text) (c : Claims)
        → IsVerifying signed o
        → route o cfg roles now auth ≡ passed c
        → IsAuthorised o cfg roles now auth c
    unfolding route jwt
    route-IsAuthorised cfg roles now auth c verifying h =
        let role = then_role_sound roles (jwt o cfg now auth) c h in
        let part = check_parts_sound (with_key o cfg) now (split_blank auth) c role.0 in
        let live =
          check_claims_sound now (o.parse_with_claims part.1 (key_func (with_key o cfg))) c
            part.4 in
        let token = verifying part.1 (key_func (with_key o cfg)) c live.0 in
        (
          part.0,
          part.1,
          token.0,
          split_blank_sound auth part.0 part.1 part.2,
          part.3,
          key_func-IsSigned (with_key o cfg) part.1 token.0 token.1 token.3 token.4,
          token.2,
          allows_sound roles c.issuer role.1,
          live.1,
        )
