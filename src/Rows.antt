-- ===== src/Rows.antt =====
-- The rows of the tables (internal/db/migrations/*.sql) as the Go structs that the repositories
-- read and write. A time is a number of nanoseconds; a NULL column is `none`.
use an.Prelude.{ℕ, String, Bool, Option, List}

-- internal/tenants/tenants.go
pub record Tenant : Type 0 where
  pub id : String
  pub name : String
  pub created : ℕ
  pub modified : ℕ

-- the table accounts
pub record AccountRow : Type 0 where
  pub id : String
  pub tenant_id : String
  pub email : String
  pub name : Option String
  pub verified : Bool
  pub enabled : Bool
  pub deleted : Bool
  pub created : ℕ
  pub modified : ℕ
  pub password_hash : String
  pub verification_hash : Option String

-- internal/accounts/accounts.go
pub record Account : Type 0 where
  pub id : String
  pub tenant_id : String
  pub email : String
  pub name : String
  pub verified : Bool
  pub enabled : Bool
  pub deleted : Bool
  pub created : ℕ
  pub modified : ℕ
  pub password_hash : String
  pub verification_hash : String

-- the table password_resets
pub record PasswordReset : Type 0 where
  pub tenant_id : String
  pub email : String
  pub token_hash : String
  pub expires : ℕ
  pub created : ℕ

-- internal/authn/session_repository.go
pub record Session : Type 0 where
  pub id : String
  pub tenant_id : String
  pub email : String
  pub client_id : String
  pub refresh_jti : String
  pub expires : ℕ
  pub created : ℕ
  pub modified : ℕ

-- internal/authn/failed_attempt_repository.go
pub record FailedAttempt : Type 0 where
  pub tenant_id : String
  pub email : String
  pub count : ℕ
  pub locked_until : Option ℕ
  pub modified : ℕ

-- the table logon_codes
pub record LogonCode : Type 0 where
  pub tenant_id : String
  pub email : String
  pub code_hash : String
  pub expires : ℕ
  pub created : ℕ

-- internal/apikeys/apikeys.go, with the column hash
pub record ApiKey : Type 0 where
  pub id : String
  pub tenant_id : String
  pub name : String
  pub prefix : String
  pub hash : String
  pub created : ℕ

-- internal/tokens/tokens.go
pub record SigningKey : Type 0 where
  pub kid : String
  pub algorithm : String
  pub private_key_pem : String
  pub public_key_pem : String
  pub created : ℕ

-- the table social_logins
pub record SocialLogin : Type 0 where
  pub account_id : String
  pub provider : String
  pub subject : String
  pub created : ℕ

-- internal/oidc/oidc.go, with the column code_hash
pub record AuthRequest : Type 0 where
  pub id : String
  pub tenant_id : String
  pub client_id : String
  pub subject : String
  pub redirect_uri : String
  pub response_type : String
  pub response_mode : String
  pub scopes : List String
  pub state : String
  pub nonce : String
  pub code_challenge : String
  pub code_challenge_method : String
  pub code_hash : Option String
  pub amr : List String
  pub auth_time : Option ℕ
  pub complete : Bool
  pub expires : ℕ
  pub created : ℕ
  pub modified : ℕ

-- internal/oidc/oidc.go, with the column token_hash
pub record RefreshToken : Type 0 where
  pub id : String
  pub token_hash : String
  pub tenant_id : String
  pub client_id : String
  pub subject : String
  pub audience : List String
  pub scopes : List String
  pub amr : List String
  pub auth_time : ℕ
  pub expires : ℕ
  pub created : ℕ

-- internal/oidc/oidc.go
pub record AccessToken : Type 0 where
  pub id : String
  pub tenant_id : String
  pub client_id : String
  pub subject : String
  pub audience : List String
  pub scopes : List String
  pub refresh_token_id : Option String
  pub expires : ℕ
  pub created : ℕ

-- internal/oidc/oidc.go, with the column token_hash
pub record BrowserSession : Type 0 where
  pub id : String
  pub token_hash : String
  pub tenant_id : String
  pub account_id : String
  pub auth_time : ℕ
  pub expires : ℕ
  pub created : ℕ

-- internal/oidc/client_repository.go
pub record RegisteredClient : Type 0 where
  pub tenant_id : String
  pub client_id : String
  pub secret_hash : String
  pub redirect_uris : List String
  pub post_logout_redirect_uris : List String
  pub first_party : Bool
  pub name : String
  pub created_at : ℕ
