-- ===== src/Tokens/Jwks.antt =====
-- internal/tokens/tokens.go: JWKS, the public keys as a JSON web key set; and the handler of api/jwks.
use an.Prelude.{String, List, [], ◌∷◌}
use an.Error.{Result, ok, err}
use an.Rows.{SigningKey}
use an.World.{Env}
use an.Exec.{M, asks, lift, ◌>>=◌}
use an.Store.SigningKeys

pub record Jwk : Type 0 where
  pub kty : String
  pub key_use : String
  pub alg : String
  pub kid : String
  pub n : String
  pub e : String

-- `modulus` and `exponent` are the bytes of the parts of a crypto/rsa key in the encoding
-- base64.RawURLEncoding.
module _ (modulus exponent : String → String) where
  unfoldable pub jwk_of : SigningKey → String → Jwk
  jwk_of key public_key = record {
    kty = "RSA";
    key_use = "sig";
    alg = key.algorithm;
    kid = key.kid;
    n = modulus public_key;
    e = exponent public_key;
  }

  abbrev add_key : SigningKey → Result String → Result (List Jwk) → Result (List Jwk)
  add_key key (err e) rest = err e
  add_key key (ok public_key) (err e) = err e
  add_key key (ok public_key) (ok jwks) = ok (jwk_of key public_key ∷ jwks)

  -- The loop over the keys, which stops at the first that does not parse
  unfoldable pub to_jwks : List SigningKey → Env → Result (List Jwk)
  unfolding jwk_of
  to_jwks [] env = ok []
  to_jwks (key ∷ keys) env =
      add_key key (env.parse_public_key key.public_key_pem) (to_jwks keys env)

  unfoldable pub jwks : M (List Jwk)
  unfolding to_jwks
  jwks = do keys ← SigningKeys.read_all; found ← asks (to_jwks keys); lift found
