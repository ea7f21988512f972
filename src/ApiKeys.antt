-- ===== src/ApiKeys.antt =====
-- internal/apikeys/apikeys.go: DefaultApiKeyService.
pub mod RoundTrip
use an.Prelude.{ℕ, String, ◌==◌, ◌<>◌, len, slice, not, ◌||◌, List, ltb, starts_with}
use an.Error.{invalid_api_key, invalid_api_key_request, untyped}
use an.Rows.{ApiKey}
use an.Exec.{M, pure, asks, draw, fail_if, from_option, ◌>>=◌, ◌>>◌}
use an.Utils.Hex.{hex_encode}
use an.Utils.Secrets.{sha256_hex, safe_compare}
use an.Store.ApiKeys

abbrev pub token_marker : String
token_marker = "ank_"

-- len(tokenMarker) + 8
abbrev pub prefix_length : ℕ
prefix_length = 12

-- token[:prefixLength]
abbrev pub prefix_of : String → String
prefix_of token = slice token 0 prefix_length

-- CreatedApiKey: the stored key and the secret, which is shown once.
pub record CreatedApiKey : Type 0 where
  pub api_key : ApiKey
  pub key : String

-- The token of a fresh secret: the marker and 32 random bytes in hex
unfoldable pub fresh_token : M String
fresh_token = do
  secret ← draw (λ env n. from_option (untyped "rand") (env.random_bytes n 32))
  pure (token_marker <> hex_encode secret)

unfoldable pub create : String → String → M CreatedApiKey
unfolding fresh_token
create tenant_id name = do
  fail_if (name == "") (invalid_api_key_request "name is required")
  token ← fresh_token
  hash ← asks (λ env. sha256_hex env token)
  created ← ApiKeys.create tenant_id name (prefix_of token) hash
  pure (record { api_key = created; key = token })

unfoldable pub list : String → M (List ApiKey)
list tenant_id = ApiKeys.read_all tenant_id

unfoldable pub revoke : String → String → M (Unit {0})
revoke tenant_id id = do
  parses ← asks (λ env. env.uuid_parse id)
  fail_if (not parses) (invalid_api_key_request "invalid api key id")
  ApiKeys.delete tenant_id id

-- The tenant of a presented token
unfoldable pub authenticate : String → M String
authenticate token = do
  fail_if (not (starts_with token token_marker) || ltb (len token) prefix_length) invalid_api_key
  stored ← ApiKeys.read_by_prefix (prefix_of token)
  hash ← asks (λ env. sha256_hex env token)
  fail_if (not (safe_compare stored.hash hash)) invalid_api_key
  pure stored.tenant_id
