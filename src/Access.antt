-- ===== src/Access.antt =====
-- internal/middleware (jwt.go and role.go): who gets past the token check and the role check that stand
-- before the handlers. The token library, the loading of PEM files, and strings.EqualFold are
-- parameters; `K` is the type of RSA public keys. The role of a caller is the issuer of its token.
pub mod Authorised
use forecast_e_zoo.Common.{
  ◌==◌, ltb, Bool, true, false, not, ◌&&◌, ◌||◌, Option, none, some, List, [], ◌∷◌, if◌then◌else◌,
}
use forecast_e_zoo.Common.Text.{Text, text_eq, codes}
use forecast_e_zoo.Common.Time.{Time}
use forecast_e_zoo.Common.Session.{internal, Result, ok, err}

-- What the token says in its header: SigningMethodHMAC and SigningMethodRSA, each with one of three
-- hashes (HS256, HS384, HS512; RS256, RS384, RS512), or another method.
pub data Hash : Type 0 where
  sha256 sha384 sha512 : Hash

pub data Method : Type 0 where
  hmac rsa : Hash → Method
  other_method : Method

pub record Claims : Type 0 where
  pub issuer : Text
  pub subject : Text
  pub expires_at : Option Time

pub record Token : Type 0 where
  pub method : Method
  pub claims : Claims

pub data Key (K : Type 0) : Type 0 where
  secret_key : Text → Key K
  public_key : K → Key K

-- `alg` chooses the family of methods: keyFunc asserts the type of the method, not its hash.
-- `loaded` is absent where no key file was read; otherwise the key, or the error.
pub record JwtConfig (K : Type 0) : Type 0 where
  pub alg : Text
  pub secret : Text
  pub public_key_path : Text
  pub loaded : Option (Result K)

pub record Outside (K : Type 0) : Type 0 where
  -- jwt.ParseWithClaims, with the function that chooses the key; none for every error
  pub parse_with_claims : Text → (Token → Result (Key K)) → Option Claims
  pub load_rsa_public_key : Text → Result K
  pub equal_fold : Text → Text → Bool

-- What becomes of a request: an error with its status, or the next handler with the claims.
pub data Outcome : Type 0 where
  missing_token invalid_token forbidden : Outcome  -- 401, 401, 403
  passed : Claims → Outcome

abbrev pub alg_hs256 : Text
alg_hs256 = codes "HS256"

abbrev pub alg_rs256 : Text
alg_rs256 = codes "RS256"

abbrev pub is_empty : Text → Bool
is_empty [] = true
is_empty (_ ∷ _) = false

-- strings.SplitN(auth, " ", 2), where it gives two parts; the code of the blank is 32.
unfoldable pub split_blank : Text → Option (Text × Text)
split_blank [] = none
split_blank (c ∷ s) =
    let rest = split_blank s in
    if c == 32 then some ([], s) else elim rest [ none ↦ none | some p ↦ some (c ∷ p.0, p.1) ]

unfoldable pub allows : List Text → Text → Bool
allows [] role = false
allows (r ∷ roles) role = let rest = allows roles role in if text_eq r role then true else rest

abbrev pub is_expired : Time → Option Time → Bool
is_expired now none = true
is_expired now (some t) = ltb t now

-- RequireRole behind the token check
abbrev pub require_role : List Text → Claims → Outcome
require_role roles c = if allows roles c.issuer then passed c else forbidden

abbrev pub then_role : List Text → Outcome → Outcome
then_role roles missing_token = missing_token
then_role roles invalid_token = invalid_token
then_role roles forbidden = forbidden
then_role roles (passed c) = require_role roles c

module _ {K : Type 0} where
  abbrev pub hmac_key : JwtConfig K → Method → Result (Key K)
  hmac_key cfg (hmac _) = if is_empty cfg.secret then err internal else ok (secret_key cfg.secret)
  hmac_key cfg (rsa _) = err internal
  hmac_key cfg other_method = err internal

  abbrev pub loaded_key : Option (Result K) → Result (Key K)
  loaded_key none = err internal
  loaded_key (some (err e)) = err e
  loaded_key (some (ok k)) = ok (public_key k)

  abbrev pub rsa_key : JwtConfig K → Method → Result (Key K)
  rsa_key cfg (hmac _) = err internal
  rsa_key cfg (rsa _) = loaded_key cfg.loaded
  rsa_key cfg other_method = err internal

  unfoldable pub key_func : JwtConfig K → Token → Result (Key K)
  key_func cfg t =
      if text_eq cfg.alg alg_hs256
      then hmac_key cfg t.method
      else if text_eq cfg.alg alg_rs256
      then rsa_key cfg t.method
      else err internal

  module _ (o : Outside K) where
    -- The start of JWT: the key file is read once.
    unfoldable pub with_key : JwtConfig K → JwtConfig K
    with_key cfg =
        if text_eq cfg.alg alg_rs256 && not (is_empty cfg.public_key_path)
        then record cfg { loaded = some (o.load_rsa_public_key cfg.public_key_path) }
        else cfg

    abbrev pub check_claims : Time → Option Claims → Outcome
    check_claims now none = invalid_token
    check_claims now (some c) = if is_expired now c.expires_at then invalid_token else passed c

    abbrev pub check_parts : JwtConfig K → Time → Option (Text × Text) → Outcome
    check_parts cfg now none = missing_token
    check_parts cfg now (some (scheme, raw)) =
        if not (o.equal_fold scheme (codes "Bearer")) || is_empty raw
        then missing_token
        else check_claims now (o.parse_with_claims raw (key_func cfg))

    -- The handler that JWT returns; an empty header has no two parts either.
    unfoldable pub jwt : JwtConfig K → Time → Text → Outcome
    unfolding split_blank with_key key_func
    jwt cfg now auth = check_parts (with_key cfg) now (split_blank auth)

    -- A route that stands behind JWT and RequireRole.
    unfoldable pub route : JwtConfig K → List Text → Time → Text → Outcome
    unfolding jwt allows
    route cfg roles now auth = then_role roles (jwt cfg now auth)
