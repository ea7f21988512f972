-- ===== src/Tokens.antt =====
-- internal/tokens: the signing keys, and the tokenizer that issues and validates JWTs.
pub mod ReadOnly
pub mod Jwks
pub mod Uses
pub mod RoundTrip
use an.Prelude.{
  ℕ, ◌+◌, ◌*◌, ◌/◌, String, ◌==◌, true, false, not, Option, none, some, List, [], ◌∷◌,
  if◌then◌else◌,
}
use an.Error.{Result, ok, err, no_signing_key, token_invalid, untyped}
use an.Rows.{SigningKey}
use an.World.{Env, Claims, Header, LoadedKeys, JwtOutcome, rejected, parsed}
use an.Exec.{M, pure, throw, lift, asks, draw, now, try, from_option, new_uuid, ◌>>=◌}
use an.Store.SigningKeys

abbrev pub use_access : String
use_access = "access"

abbrev pub use_refresh : String
use_refresh = "refresh"

-- generateSigningKey
unfoldable pub generate_signing_key : M SigningKey
unfolding new_uuid
generate_signing_key = do
  kid ← new_uuid
  pair ← draw (λ env n. from_option (untyped "rsa") (env.generate_rsa n))
  pure (record {
    kid = kid;
    algorithm = "RS256";
    private_key_pem = pair.0;
    public_key_pem = pair.1;
    created = 0;
  })

-- What Initialize does with the answer of ReadLatest
unfoldable pub initialize_from : Result SigningKey → M (Unit {0})
unfolding generate_signing_key
initialize_from (ok key) = pure tt
initialize_from (err no_signing_key) = do key ← generate_signing_key; SigningKeys.create key
initialize_from (err e) = throw e

-- Generates the first signing key when none exist.
unfoldable pub initialize : M (Unit {0})
unfolding initialize_from
initialize = do latest ← try SigningKeys.read_latest; initialize_from latest

-- The map of public keys by kid. The kid is the primary key, so no two keys share one.
unfoldable pub parse_keys : List SigningKey → Env → Result (List (String × String))
parse_keys [] env = ok []
parse_keys (key ∷ keys) env = elim (env.parse_public_key key.public_key_pem) [
  | err e ↦ err e
  | ok public_key ↦ elim (parse_keys keys env) [
    | err e ↦ err e
    | ok rest ↦ ok ((key.kid, public_key) ∷ rest)
  ]
]

unfoldable pub lookup : String → List (String × String) → Option String
lookup kid [] = none
lookup kid ((k, key) ∷ keys) = if k == kid then some key else lookup kid keys

unfoldable pub swap_keys : LoadedKeys → M (Unit {0})
swap_keys keys env w = (ok tt, record w { keys = keys })

unfoldable pub load : Option SigningKey → List SigningKey → M (Unit {0})
unfolding swap_keys parse_keys
load none keys = throw no_signing_key
load (some latest) keys = do
  public_keys ← (asks (λ env. parse_keys keys env) >>= lift)
  private_key ← (asks (λ env. env.parse_private_key latest.private_key_pem) >>= lift)
  swap_keys
      (record { signing_kid = latest.kid; signing_key = private_key; public_keys = public_keys })

-- Nothing is swapped unless every key parses.
unfoldable pub reload_keys : M (Unit {0})
unfolding load
reload_keys = do keys ← SigningKeys.read_all; load (SigningKeys.last keys) keys

unfoldable pub loaded : M LoadedKeys
loaded env w = (ok w.keys, w)

-- A JWT carries its times in whole seconds.
abbrev pub nanoseconds : ℕ
nanoseconds = 1000000000

unfoldable pub numeric_date : ℕ → ℕ
numeric_date time = time / nanoseconds * nanoseconds

unfoldable pub registered_claims : String → String → String → ℕ → M Claims
unfolding numeric_date new_uuid
registered_claims tenant_id email client_id expiry = do
  time ← now
  id ← new_uuid
  issuer ← asks (λ env. env.config.issuer)
  audience ← asks (λ env. env.config.audience)
  pure (record {
    tenant_id = tenant_id;
    client_id = client_id;
    id = id;
    subject = email;
    issuer = issuer;
    audience = audience ∷ [];
    expires_at = numeric_date (time + expiry);
    issued_at = numeric_date time;
    not_before = numeric_date time;
  })

unfoldable pub sign : Claims → String → M String
unfolding loaded
sign claims token_use = do
  keys ← loaded
  signed ← asks λ env.
      env.jwt_sign (record { rsa = true; kid = keys.signing_kid; token_use = token_use }) claims
        keys.signing_key
  lift signed

unfoldable pub create_access_token : String → String → String → M (String × Claims)
unfolding registered_claims sign
create_access_token tenant_id email client_id = do
  expiry ← asks (λ env. env.config.access_expiry)
  claims ← registered_claims tenant_id email client_id expiry
  token ← sign claims use_access
  pure (token, claims)

unfoldable pub create_refresh_token : String → String → String → M (String × Claims)
unfolding registered_claims sign
create_refresh_token tenant_id email client_id = do
  expiry ← asks (λ env. env.config.refresh_expiry)
  claims ← registered_claims tenant_id email client_id expiry
  token ← sign claims use_refresh
  pure (token, claims)

-- The key function that `validate` hands to the parser: the method, then the use, then the kid.
unfoldable pub key_func : List (String × String) → String → Header → Result String
unfolding lookup
key_func keys token_use header =
    if not header.rsa
    then err (token_invalid "signing method not supported")
    else if not (header.token_use == token_use)
    then err (token_invalid "wrong token use")
    else from_option (token_invalid "unknown signing key") (lookup header.kid keys)

-- The text of the parser's error is wrapped; a token that it marks as not valid is refused.
unfoldable pub accept_parsed : JwtOutcome → Result Claims
accept_parsed (rejected text) = err (token_invalid text)
accept_parsed (parsed claims true) = ok claims
accept_parsed (parsed claims false) = err (token_invalid "token is not valid")

unfoldable pub validate : String → String → M Claims
unfolding key_func accept_parsed loaded
validate token token_use = do
  keys ← loaded
  time ← now
  outcome ← asks λ env.
      env.jwt_parse time token (key_func keys.public_keys token_use) env.config.issuer
        env.config.audience
  lift (accept_parsed outcome)

unfoldable pub validate_access_token : String → M Claims
unfolding validate
validate_access_token token = validate token use_access

unfoldable pub validate_refresh_token : String → M Claims
unfolding validate
validate_refresh_token token = validate token use_refresh
