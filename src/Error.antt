-- ===== src/Error.antt =====
-- The error values of every package: one constructor for each error type of
-- internal/*/*_errors.go, with its fields, an error of the postgres driver that carries a SQLSTATE
-- (pgconn.PgError), and the untyped errors.
use an.Prelude.{ℕ, String, ◌≡◌, refl, ◌⊎◌, inl, inr}

pub data Error : Type 0 where
  -- internal/accounts/accounts_errors.go
  account_not_found account_duplicate account_not_verified account_disabled : String → Error
  invalid_account verification_failed : String → Error
  reset_token_invalid reset_token_expired : Error
  -- internal/authn/authn_errors.go; the number is the end of the lock
  authentication_failed : Error
  account_locked : String → ℕ → Error
  token_not_acknowledged token_tenant_mismatch : Error
  logon_code_invalid logon_code_expired : Error
  session_not_found : String → Error
  -- internal/tokens/tokens_errors.go
  no_signing_key : Error
  token_invalid : String → Error
  -- internal/apikeys/apikey_errors.go
  api_key_duplicate api_key_not_found : String → Error
  invalid_api_key : Error
  invalid_api_key_request : String → Error
  -- internal/tenants/tenants_errors.go
  tenant_not_found : String → Error
  -- internal/social/social_errors.go
  provider_not_configured social_token_invalid email_not_verified : String → Error
  social_already_linked : String → Error
  -- internal/oidc/oidc_errors.go
  duplicate reference : String → Error
  auth_request_not_found token_not_found : String → Error
  browser_session_not_found : Error
  client_not_found redirect_uri_not_allowed client_not_first_party : String → Error
  client_authentication_failed tenant_mismatch missing_tenant : Error
  -- a constraint that a statement violates, by its SQLSTATE
  pg_error : String → Error
  -- a call of the driver that fails for another reason
  driver_failure : Error
  -- any other error, by its text
  untyped : String → Error

pub data Result {ℓ} (A : Type ℓ) : Type ℓ where
  ok : A → Result A
  err : Error → Result A

abbrev pub Succeeds {ℓ} : {A : Type ℓ} → Result A → Type 0
Succeeds (ok a) = Unit
Succeeds (err e) = ⊥

pub Result-cases {ℓ} :
    {A : Type ℓ} (r : Result A) → ((a : A) × (r ≡ ok a)) ⊎ ((e : Error) × (r ≡ err e))
Result-cases (ok a) = inl (a, refl)
Result-cases (err e) = inr (e, refl)
