-- ===== src/Api/Message.antt =====
-- The Error methods of internal/*/*_errors.go.
use an.Prelude.{String, ◌<>◌}
use an.Error.{Error}
use an.World.{Env}

-- e.Error()
unfoldable pub message : Env → Error → String
message env (Error.account_not_found v) = "account not found: " <> v
message env (Error.account_duplicate v) = "account already exists: " <> v
message env (Error.account_not_verified v) = "account not verified: " <> v
message env (Error.account_disabled v) = "account disabled: " <> v
message env (Error.invalid_account v) = "invalid account: " <> v
message env (Error.verification_failed v) = "verification failed: " <> v
message env Error.reset_token_invalid = "invalid reset token"
message env Error.reset_token_expired = "reset token expired"
message env Error.authentication_failed = "authentication failed"
message env (Error.account_locked v until) = "account locked until " <> env.format_time until
message env Error.token_not_acknowledged = "token not acknowledged"
message env Error.token_tenant_mismatch = "token was issued for a different tenant"
message env Error.logon_code_invalid = "invalid logon code"
message env Error.logon_code_expired = "logon code expired"
message env (Error.session_not_found v) = "session not found: " <> v
message env Error.no_signing_key = "no signing key exists"
message env (Error.token_invalid reason) = "invalid token: " <> reason
message env (Error.api_key_duplicate v) = "duplicate api key: '" <> (v <> "' already exists")
message env (Error.api_key_not_found v) = "api key not found: " <> v
message env Error.invalid_api_key = "invalid api key"
message env (Error.invalid_api_key_request v) = "invalid api key request: " <> v
message env (Error.tenant_not_found v) = "tenant not found: " <> v
message env (Error.provider_not_configured v) = "social provider not configured: " <> v
message env (Error.social_token_invalid v) = "invalid social token: " <> v
message env (Error.email_not_verified v) = "social email not verified by provider: " <> v
message env (Error.social_already_linked v) =
    "social identity already linked to another account: " <> v
message env (Error.duplicate v) = "already exists: " <> v
message env (Error.reference v) = "referenced row does not exist: " <> v
message env (Error.auth_request_not_found v) = "auth request not found: " <> v
message env (Error.token_not_found v) = "token not found: " <> v
message env Error.browser_session_not_found = "browser session not found"
message env (Error.client_not_found v) = "oidc client not found: " <> v
message env (Error.redirect_uri_not_allowed v) = "redirect uri not allowed: " <> v
message env (Error.client_not_first_party v) = "oidc client is not first party: " <> v
message env Error.client_authentication_failed = "client authentication failed"
message env Error.tenant_mismatch = "resource belongs to another tenant"
message env Error.missing_tenant = "no tenant in context"
message env (Error.pg_error c) = env.driver_message (Error.pg_error c)
message env Error.driver_failure = env.driver_message Error.driver_failure
message env (Error.untyped text) = text
