-- ===== src/Utils/Secrets.antt =====
-- internal/utils/crypto.go: hashes, comparisons and random values, over the oracles of `Env`.
pub mod Digits
use an.Prelude.{ℕ, zero, suc, ◌+◌, String, slice, ◌<>◌, Bool, true, false, ◌==◌}
use an.Error.{Result, ok, err, untyped}
use an.World.{Env, Comparison, same, mismatch, broken}
use an.Exec.{M, pure, asks, draw, lift, from_option, ◌>>=◌}
use an.Utils.Hex.{hex_encode}

unfoldable pub bcrypt_hash : String → M String
bcrypt_hash value =
    draw (λ env n.
      from_option (untyped "bcrypt") (env.bcrypt_generate n env.config.password_cost value))

abbrev verdict : Comparison → Result Bool
verdict same = ok true
verdict mismatch = ok false
verdict broken = err (untyped "bcrypt")

-- A mismatch is `false`, anything else is an error.
unfoldable pub bcrypt_verify : String → String → M Bool
bcrypt_verify hash value = do
  comparison ← asks (λ env. env.bcrypt_compare hash value)
  lift (verdict comparison)

unfoldable pub sha256_hex : Env → String → String
unfolding hex_encode
sha256_hex env value = hex_encode (env.sha256 value)

-- 32 random bytes, hex encoded
unfoldable pub random_token : M String
unfolding hex_encode
random_token = do
  bytes ← draw (λ env n. from_option (untyped "rand") (env.random_bytes n 32))
  pure (hex_encode bytes)

-- The digits one after another, each a character from '0' on
unfoldable pub random_digits : ℕ → M String
random_digits zero = pure ""
random_digits (suc n) = do
  d ← draw (λ env step. from_option (untyped "rand") (env.random_int step 10))
  rest ← random_digits n
  pure (slice "0123456789" d (d + 1) <> rest)

-- subtle.ConstantTimeCompare answers as `==` does.
unfoldable pub safe_compare : String → String → Bool
safe_compare a b = a == b
