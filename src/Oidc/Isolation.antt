-- ===== src/Oidc/Isolation.antt =====
-- The tenants of what the storage of the provider reads (internal/oidc/storage.go and the repositories).
use an.Prelude.{◌≡◌, String, arith, true_eq}
use an.Error.{ok}
use an.Rows.{AuthRequest, RefreshToken, AccessToken, BrowserSession}
use an.World.{World, Env}
use an.Exec.{M, pure, ◌>>=◌}
use an.Store.AuthRequests
use an.Store.OidcTokens
use an.Store.BrowserSessions
use an.Utils.Secrets.{sha256_hex}
use an.Oidc.{auth_request_by_id, auth_request_by_code, token_request_by_refresh_token, tenant_from}

-- A lookup of the storage by an id, a code, a token or a cookie
pub data Lookup : Type 0 where
  by_id by_code by_refresh_token by_token_id by_cookie : Lookup

-- The tenant of what the lookup finds
unfoldable pub found_tenant : Lookup → String → String → M String
found_tenant by_id tenant text =
    auth_request_by_id tenant text >>= λ (request : AuthRequest). pure request.tenant_id
found_tenant by_code tenant text =
    auth_request_by_code tenant text >>= λ (request : AuthRequest). pure request.tenant_id
found_tenant by_refresh_token tenant text =
    token_request_by_refresh_token tenant text >>= λ (token : RefreshToken). pure token.tenant_id
found_tenant by_token_id tenant text =
    OidcTokens.read_access_token tenant text >>= λ (token : AccessToken). pure token.tenant_id
found_tenant by_cookie tenant text =
    BrowserSessions.read tenant text >>= λ (session : BrowserSession). pure session.tenant_id

-- Whatever is asked for and whatever is stored: an authorization request, a refresh token, an access token
-- or a browser session that is found is one of the tenant in whose context it is looked up.
pub found_tenant_lem :
    (lookup : Lookup) (tenant text : String) (env : Env) (w : World) {found : String}
    → (found_tenant lookup tenant text env w).0 ≡ ok found
    → found ≡ tenant
unfolding found_tenant auth_request_by_id auth_request_by_code token_request_by_refresh_token
    tenant_from AuthRequests.read AuthRequests.read_by_code AuthRequests.read_row
    OidcTokens.read_refresh_token OidcTokens.read_refresh_row OidcTokens.read_access_token
    BrowserSessions.read sha256_hex ◌>>=◌
found_tenant_lem by_id tenant text env w {found} h = true_eq found tenant (ground arith)
found_tenant_lem by_code tenant text env w {found} h = true_eq found tenant (ground arith)
found_tenant_lem by_refresh_token tenant text env w {found} h = true_eq found tenant (ground arith)
found_tenant_lem by_token_id tenant text env w {found} h = true_eq found tenant (ground arith)
found_tenant_lem by_cookie tenant text env w {found} h = true_eq found tenant (ground arith)
