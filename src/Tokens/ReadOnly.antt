-- ===== src/Tokens/ReadOnly.antt =====
-- The database while tokens are issued and validated (internal/tokens/tokenizer.go).
use an.Prelude.{ℕ, String, refl}
use an.World.{Claims}
use an.Exec.Rules.{ReadOnly, read_rules}
use an.Tokens.{
  loaded, registered_claims, sign, create_access_token, create_refresh_token, validate,
  validate_access_token, validate_refresh_token,
}

ReadOnly-loaded : ReadOnly loaded
unfolding loaded
ReadOnly-loaded = record { at = λ env w. refl }

ReadOnly-registered_claims :
    (tenant_id email client_id : String) (expiry : ℕ)
    → ReadOnly (registered_claims tenant_id email client_id expiry)
unfolding registered_claims
ReadOnly-registered_claims tenant_id email client_id expiry = search read_rules depth 12

ReadOnly-sign : (claims : Claims) (token_use : String) → ReadOnly (sign claims token_use)
unfolding sign
ReadOnly-sign claims token_use = search (read_rules, ReadOnly-loaded)

pub ReadOnly-create_access_token :
    (tenant_id email client_id : String) → ReadOnly (create_access_token tenant_id email client_id)
unfolding create_access_token
ReadOnly-create_access_token tenant_id email client_id =
    search (read_rules, ReadOnly-registered_claims, ReadOnly-sign)

pub ReadOnly-create_refresh_token :
    (tenant_id email client_id : String) → ReadOnly (create_refresh_token tenant_id email client_id)
unfolding create_refresh_token
ReadOnly-create_refresh_token tenant_id email client_id =
    search (read_rules, ReadOnly-registered_claims, ReadOnly-sign)

ReadOnly-validate : (token token_use : String) → ReadOnly (validate token token_use)
unfolding validate
ReadOnly-validate token token_use = search (read_rules, ReadOnly-loaded) depth 10

pub ReadOnly-validate_access_token : (token : String) → ReadOnly (validate_access_token token)
unfolding validate_access_token
ReadOnly-validate_access_token token = ReadOnly-validate token "access"

pub ReadOnly-validate_refresh_token : (token : String) → ReadOnly (validate_refresh_token token)
unfolding validate_refresh_token
ReadOnly-validate_refresh_token token = ReadOnly-validate token "refresh"
