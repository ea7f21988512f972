-- ===== src/Oidc.antt =====
-- internal/oidc/storage.go: Storage, which the provider library calls. The tenant travels in the
-- context of a call; "" stands for a context that carries none (internal/oidc/oidc.go).
pub mod Clients
pub mod Revoker
pub mod Rotation
pub mod Provider
pub mod Isolation
pub mod Grants
use an.Prelude.{
  ℕ, ◌+◌, String, ◌==◌, Bool, true, false, not, ◌||◌, Option, none, some, List, [], ◌∷◌,
  if◌then◌else◌,
}
use an.Error.{
  Error, Result, ok, err, missing_tenant, auth_request_not_found, token_not_found, account_disabled,
  no_signing_key, untyped,
}
use an.Rows.{Account, AuthRequest, RefreshToken, AccessToken, SigningKey}
use an.World.{World, Env, LoadedKeys}
use an.Exec.{M, pure, throw, lift, asks, now, try, fail_if, ◌>>=◌, ◌>>◌}
use an.Tokens.{parse_keys}
use an.Store.Accounts
use an.Store.AuthRequests
use an.Store.OidcTokens
use an.Store.SigningKeys

-- A missing tenant is an error, never a default.
unfoldable pub tenant_from : String → M String
tenant_from tenant = if tenant == "" then throw missing_tenant else pure tenant

-- oidc.AuthRequest of the library, as CreateAuthRequest reads it
pub record NewRequest : Type 0 where
  pub client_id : String
  pub redirect_uri : String
  pub response_type : String
  pub response_mode : String
  pub scopes : List String
  pub state : String
  pub nonce : String
  pub code_challenge : String
  pub code_challenge_method : String

-- The stored request; the method of a challenge is kept only with a challenge.
unfoldable pub stored_request : String → NewRequest → ℕ → AuthRequest
stored_request tenant_id request expires = record {
  id = "";
  tenant_id = tenant_id;
  client_id = request.client_id;
  subject = "";
  redirect_uri = request.redirect_uri;
  response_type = request.response_type;
  response_mode = request.response_mode;
  scopes = request.scopes;
  state = request.state;
  nonce = request.nonce;
  code_challenge = request.code_challenge;
  code_challenge_method =
      if request.code_challenge == "" then "" else request.code_challenge_method;
  code_hash = none;
  amr = [];
  auth_time = none;
  complete = false;
  expires = expires;
  created = 0;
  modified = 0;
}

unfoldable pub create_auth_request : String → NewRequest → M AuthRequest
unfolding stored_request
create_auth_request tenant request = do
  tenant_id ← tenant_from tenant
  time ← now
  lifetime ← asks (λ env. env.config.auth_code_expiry)
  AuthRequests.create (stored_request tenant_id request (time + lifetime))

unfoldable pub auth_request_by_id : String → String → M AuthRequest
auth_request_by_id tenant id = do tenant_id ← tenant_from tenant; AuthRequests.read tenant_id id

unfoldable pub auth_request_by_code : String → String → M AuthRequest
auth_request_by_code tenant text = do
  tenant_id ← tenant_from tenant
  AuthRequests.read_by_code tenant_id text

unfoldable pub save_auth_code : String → String → String → M (Unit {0})
save_auth_code tenant id text = do
  tenant_id ← tenant_from tenant
  AuthRequests.save_code tenant_id id text

-- A request that is gone already is no failure.
unfoldable pub gone_is_done : Result (Unit {0}) → Result (Unit {0})
gone_is_done (ok u) = ok u
gone_is_done (err (auth_request_not_found id)) = ok tt
gone_is_done (err e) = err e

unfoldable pub delete_auth_request : String → String → M (Unit {0})
unfolding gone_is_done
delete_auth_request tenant id = do
  tenant_id ← tenant_from tenant
  deleted ← try (AuthRequests.delete tenant_id id)
  lift (gone_is_done deleted)

unfoldable pub authenticate_request : String → String → String → ℕ → List String → M (Unit {0})
authenticate_request tenant id subject auth_time amr = do
  tenant_id ← tenant_from tenant
  AuthRequests.authenticate tenant_id id subject auth_time amr

-- op.TokenRequest: an authorization request, a refresh token, or a request of the library's own
-- that has neither a client id nor authentication methods.
pub data TokenRequest : Type 0 where
  by_code : AuthRequest → TokenRequest
  by_refresh : RefreshToken → TokenRequest
  other : String → List String → List String → TokenRequest

unfoldable pub subject_of : TokenRequest → String
subject_of (by_code request) = request.subject
subject_of (by_refresh token) = token.subject
subject_of (other subject audience scopes) = subject

-- The audience of an authorization request is its client.
unfoldable pub audience_of : TokenRequest → List String
audience_of (by_code request) = request.client_id ∷ []
audience_of (by_refresh token) = token.audience
audience_of (other subject audience scopes) = audience

unfoldable pub scopes_of : TokenRequest → List String
scopes_of (by_code request) = request.scopes
scopes_of (by_refresh token) = token.scopes
scopes_of (other subject audience scopes) = scopes

unfoldable pub client_of : TokenRequest → String
client_of (by_code request) = request.client_id
client_of (by_refresh token) = token.client_id
client_of (other subject audience scopes) = ""

unfoldable pub amr_of : TokenRequest → List String
amr_of (by_code request) = request.amr
amr_of (by_refresh token) = token.amr
amr_of (other subject audience scopes) = []

-- The zero time of a request without one
abbrev time_or_zero : Option ℕ → ℕ
time_or_zero none = 0
time_or_zero (some t) = t

unfoldable pub auth_time_of : TokenRequest → ℕ → ℕ
auth_time_of (by_code request) time = time_or_zero request.auth_time
auth_time_of (by_refresh token) time = token.auth_time
auth_time_of (other subject audience scopes) time = time

unfoldable pub mint_access_token : String → TokenRequest → String → M AccessToken
unfolding client_of subject_of audience_of scopes_of
mint_access_token tenant_id request refresh_token_id = do
  time ← now
  lifetime ← asks (λ env. env.config.oidc_access_expiry)
  OidcTokens.create_access_token (record {
    id = "";
    tenant_id = tenant_id;
    client_id = client_of request;
    subject = subject_of request;
    audience = audience_of request;
    scopes = scopes_of request;
    refresh_token_id = OidcTokens.nullable_id refresh_token_id;
    expires = time + lifetime;
    created = 0;
  })

unfoldable pub mint_refresh_token : String → TokenRequest → M (RefreshToken × String)
unfolding client_of subject_of audience_of scopes_of amr_of auth_time_of
mint_refresh_token tenant_id request = do
  auth_time ← now
  time ← now
  lifetime ← asks (λ env. env.config.oidc_refresh_expiry)
  OidcTokens.create_refresh_token (record {
    id = "";
    token_hash = "";
    tenant_id = tenant_id;
    client_id = client_of request;
    subject = subject_of request;
    audience = audience_of request;
    scopes = scopes_of request;
    amr = amr_of request;
    auth_time = auth_time_of request auth_time;
    expires = time + lifetime;
    created = 0;
  })

-- The id of the token, and its expiry
unfoldable pub create_access_token : String → TokenRequest → M (String × ℕ)
create_access_token tenant request = do
  tenant_id ← tenant_from tenant
  token ← mint_access_token tenant_id request ""
  pure (token.id, token.expires)

-- The refresh token that a renewal spends: the request itself, where the library has loaded it
unfoldable pub spent_token : String → TokenRequest → String → M RefreshToken
spent_token tenant_id (by_refresh token) current = pure token
spent_token tenant_id (by_code request) current = OidcTokens.read_refresh_token tenant_id current
spent_token tenant_id (other subject audience scopes) current =
    OidcTokens.read_refresh_token tenant_id current

-- Rotation deletes the token that is presented.
unfoldable pub spend : String → TokenRequest → String → M (Unit {0})
unfolding spent_token
spend tenant_id request current = if current == "" then pure tt else do
  token ← spent_token tenant_id request current
  OidcTokens.delete_refresh_token tenant_id token.id

pub record Minted : Type 0 where
  pub access_token_id : String
  pub refresh_token : String
  pub expires : ℕ

unfoldable pub create_access_and_refresh_tokens : String → TokenRequest → String → M Minted
create_access_and_refresh_tokens tenant request current = do
  tenant_id ← tenant_from tenant
  spend tenant_id request current
  refresh ← mint_refresh_token tenant_id request
  access ← mint_access_token tenant_id request refresh.0.id
  pure (record { access_token_id = access.id; refresh_token = refresh.1; expires = access.expires })

unfoldable pub token_request_by_refresh_token : String → String → M RefreshToken
token_request_by_refresh_token tenant token = do
  tenant_id ← tenant_from tenant
  OidcTokens.read_refresh_token tenant_id token

unfoldable pub terminate_session : String → String → String → M (Unit {0})
terminate_session tenant subject client_id = do
  tenant_id ← tenant_from tenant
  OidcTokens.delete_grants tenant_id subject client_id

-- A missing access token is revoked already; any other error is a server error.
unfoldable pub revoked : Result (Unit {0}) → Result (Unit {0})
revoked (ok u) = ok u
revoked (err (token_not_found id)) = ok tt
revoked (err e) = err (untyped "could not revoke access token")

unfoldable pub revoke_refresh : Result (Unit {0}) → Result (Unit {0})
revoke_refresh (ok u) = ok u
revoke_refresh (err e) = err (untyped "could not revoke refresh token")

-- A refresh token is tried first, and an access token second.
unfoldable pub revoke_found : String → String → Result RefreshToken → M (Unit {0})
unfolding revoked revoke_refresh
revoke_found tenant_id id (ok token) = do
  deleted ← try (OidcTokens.delete_refresh_token tenant_id id)
  lift (revoke_refresh deleted)
revoke_found tenant_id id (err e) = do
  deleted ← try (OidcTokens.delete_access_token tenant_id id)
  lift (revoked deleted)

unfoldable pub revoke_token : String → String → M (Unit {0})
unfolding revoke_found
revoke_token tenant id = if tenant == "" then throw (untyped "no tenant in context") else do
  found ← try (OidcTokens.read_refresh_token_by_id tenant id)
  revoke_found tenant id found

-- Any failure of the lookup is the library's ErrInvalidRefreshToken, and so is another client.
unfoldable pub known_token : String → Result RefreshToken → Result (String × String)
known_token client_id (err e) = err (untyped "invalid_refresh_token")
known_token client_id (ok token) =
    if not (token.client_id == client_id)
    then err (untyped "invalid_refresh_token")
    else ok (token.subject, token.id)

unfoldable pub get_refresh_token_info : String → String → String → M (String × String)
unfolding known_token
get_refresh_token_info tenant client_id token = do
  tenant_id ← tenant_from tenant
  found ← try (OidcTokens.read_refresh_token tenant_id token)
  lift (known_token client_id found)

-- oidc.UserInfo; a claim that is not set is `none`.
pub record UserInfo : Type 0 where
  pub subject : String
  pub email : Option String
  pub email_verified : Option Bool
  pub name : Option String

-- The claims of one scope after another
unfoldable pub add_claims : Account → List String → UserInfo → UserInfo
add_claims account [] info = info
add_claims account (scope ∷ scopes) info = add_claims account scopes (
    if scope == "email"
    then record info { email = some account.email; email_verified = some account.verified }
    else if scope == "profile"
    then record info { name = some account.name }
    else info)

unfoldable pub set_userinfo : String → String → List String → M UserInfo
unfolding add_claims
set_userinfo tenant subject scopes = do
  tenant_id ← tenant_from tenant
  account ← Accounts.read_by_id tenant_id subject
  fail_if (account.deleted || not account.enabled) (account_disabled account.email)
  pure (
      add_claims account scopes
        (record { subject = account.id; email = none; email_verified = none; name = none }))

unfoldable pub set_userinfo_from_token : String → String → M UserInfo
set_userinfo_from_token tenant token_id = do
  tenant_id ← tenant_from tenant
  token ← OidcTokens.read_access_token tenant_id token_id
  set_userinfo tenant token.subject token.scopes

-- The user, the scopes and the client of an introspected token
unfoldable pub set_introspection_from_token : String → String → M (UserInfo × List String × String)
set_introspection_from_token tenant token_id = do
  tenant_id ← tenant_from tenant
  token ← OidcTokens.read_access_token tenant_id token_id
  info ← set_userinfo tenant token.subject token.scopes
  pure (info, token.scopes, token.client_id)

unfoldable pub store_provider_keys : LoadedKeys → M (Unit {0})
store_provider_keys keys env w = (ok tt, record w { provider_keys = some keys })

provider_keys : M (Option LoadedKeys)
provider_keys env w = (ok w.provider_keys, w)

unfoldable pub load_provider : Option SigningKey → List SigningKey → M (Unit {0})
unfolding store_provider_keys
load_provider none keys = throw no_signing_key
load_provider (some latest) keys = do
  public_keys ← (asks (λ env. parse_keys keys env) >>= lift)
  private_key ← (asks (λ env. env.parse_private_key latest.private_key_pem) >>= lift)
  store_provider_keys
      (record { signing_kid = latest.kid; signing_key = private_key; public_keys = public_keys })

unfoldable pub reload_keys : M (Unit {0})
unfolding load_provider
reload_keys = do keys ← SigningKeys.read_all; load_provider (SigningKeys.last keys) keys

-- The cached keys, loaded first if there are none
unfoldable pub cached_keys : Option LoadedKeys → M (Option LoadedKeys)
unfolding provider_keys
cached_keys (some keys) = pure (some keys)
cached_keys none = reload_keys >> provider_keys

-- SigningKey and KeySet read the two parts of the same cache.
unfoldable pub provider_key_set : M (Option LoadedKeys)
unfolding cached_keys
provider_key_set = do keys ← provider_keys; cached_keys keys
