-- ===== src/Examples/Access.antt =====
-- A token of the export client, and a library that knows this one token.
use forecast_e_zoo.Common.{
  ◌≡◌, refl, inl, inr, Bool, true, false, Bool-cases, Option, none, some, [], ◌∷◌, if◌then◌else◌,
  arith,
}
use forecast_e_zoo.Common.Text.{Text, text_eq, codes}
use forecast_e_zoo.Common.Session.{Result, ok, err}
use forecast_e_zoo.Access.{
  Hash, sha256, sha512, hmac, Claims, Token, Key, secret_key, public_key, JwtConfig, Outside,
  passed, alg_hs256, split_blank, allows, key_func, with_key, jwt, route,
}
use forecast_e_zoo.Access.Authorised.{IsVerifying, IsAuthorised, route-IsAuthorised}

abbrev claims : Claims
claims = record { issuer = codes "x-flow-etl"; subject = codes "etl"; expires_at = some 900 }

abbrev token : Hash → Token
token hash = record { method = hmac hash; claims = claims }

-- The text "t" is the token, signed with the secret "s".
abbrev is_secret : Key (Unit {0}) → Bool
is_secret (secret_key s) = text_eq s (codes "s")
is_secret (public_key k) = false

abbrev signed : Text → Token → Key (Unit {0}) → Bool
signed raw t k = is_secret k

abbrev verify : Result (Key (Unit {0})) → Option Claims
verify (err e) = none
verify (ok k) = if is_secret k then some claims else none

abbrev outside : Hash → Outside (Unit {0})
outside hash = record {
  parse_with_claims = λ raw kf. verify (kf (token hash));
  load_rsa_public_key = λ path. ok tt;
  equal_fold = text_eq;
}

verify_sound :
    (r : Result (Key (Unit {0}))) (c : Claims)
    → verify r ≡ some c
    → (k : Key (Unit {0})) × (claims ≡ c) × (r ≡ ok k) × (is_secret k ≡ true)
verify_sound (err e) c h = absurd (ground arith)
verify_sound (ok k) c h = elim (Bool-cases (is_secret k)) [
  | inl e ↦ (k, ground arith, refl, e)
  | inr e ↦ absurd (ground arith)
]

outside-IsVerifying : (hash : Hash) → IsVerifying signed (outside hash)
outside-IsVerifying hash raw kf c h =
    let found = verify_sound (kf (token hash)) c h in
    (token hash, found.0, found.1, found.2, found.3)

abbrev config : JwtConfig (Unit {0})
config = record { alg = alg_hs256; secret = codes "s"; public_key_path = []; loaded = none }

abbrev header : Text
header = codes "Bearer t"

let_in :
    (hash : Hash) → route (outside hash) config (codes "x-flow-etl" ∷ []) 800 header ≡ passed claims
unfolding route jwt allows with_key key_func split_blank text_eq
let_in hash = refl

route-IsAuthorised_example :
    IsAuthorised signed (outside sha256) config (codes "x-flow-etl" ∷ []) 800 header claims
route-IsAuthorised_example =
    route-IsAuthorised signed (outside sha256) config (codes "x-flow-etl" ∷ []) 800 header claims
      (outside-IsVerifying sha256) (let_in sha256)

-- HS256 is configured; a token that is signed by HS512 is let in as well.
other_hash : route (outside sha512) config (codes "x-flow-etl" ∷ []) 800 header ≡ passed claims
other_hash = let_in sha512
