-- ===== src/Api/Mount.antt =====
-- api/oidc/oidc_provider.go, oidc_routes.go and oidc_discovery.go: the issuer of a tenant, the paths of
-- the provider, and the mount that finds the tenant in a path.
pub mod Paths
use an.Prelude.{
  ℕ, String, ◌==◌, ◌<>◌, len, slice, starts_with, Bool, true, false, Option, none, some, List, [],
  ◌∷◌, if◌then◌else◌,
}
use an.Utils.Text.{trim_slash, cut}
use an.Oidc.Clients.{contains}

abbrev pub tenant_path_prefix : String
tenant_path_prefix = "/t/"

abbrev pub login_path : String
login_path = "/login"

abbrev pub end_session_path : String
end_session_path = "/end_session"

abbrev pub logout_path : String
logout_path = "/logout"

abbrev pub discovery_path : String
discovery_path = "/.well-known/openid-configuration"

unfoldable pub issuer : String → String → String
unfolding trim_slash
issuer public_base_url tenant_id = trim_slash public_base_url <> (tenant_path_prefix <> tenant_id)

unfoldable pub login_url : String → String → String → String
unfolding issuer
login_url public_base_url tenant_id auth_request_id =
    issuer public_base_url tenant_id <> (login_path <> ("?authRequestId=" <> auth_request_id))

-- strings.TrimPrefix of the prefix, which is there
abbrev pub remainder : String → String
remainder path = slice path (len tenant_path_prefix) (len path)

abbrev pub with_rest : String → Option (String × String) → String × String
with_rest whole none = if whole == "" then ("", "") else (whole, "/")
with_rest whole (some (tenant_id, rest)) =
    if tenant_id == "" then ("", "") else (tenant_id, "/" <> rest)

-- The tenant and the rest of /t/<tenantId>/<rest>; no tenant is ""
unfoldable pub split_tenant_path : String → String × String
unfolding cut
split_tenant_path path =
    if starts_with path tenant_path_prefix
    then with_rest (remainder path) (cut b'/' (remainder path))
    else ("", "")

-- What tenantHandler makes of a request: 404, or the tenant and the issuer of the context and the
-- path that the library sees
pub data Mounted : Type 0 where
  not_found : Mounted
  serve : String → String → String → Mounted

abbrev pub mounted : String → String × String → Mounted
mounted public_base_url (tenant_id, rest) =
    if tenant_id == "" then not_found else serve tenant_id (issuer public_base_url tenant_id) rest

unfoldable pub tenant_handler : String → String → Mounted
unfolding split_tenant_path issuer
tenant_handler public_base_url path = mounted public_base_url (split_tenant_path path)

abbrev pub provider_paths : List String
provider_paths =
    discovery_path ∷ "/authorize" ∷ "/authorize/callback" ∷ "/oauth/token" ∷ "/oauth/introspect"
    ∷ "/userinfo" ∷ "/revoke" ∷ end_session_path ∷ "/keys" ∷ login_path ∷ logout_path ∷ []

abbrev on_surface : String × String → Bool
on_surface (tenant_id, rest) = if tenant_id == "" then false else contains provider_paths rest

-- The paths that pass the gate without a key when the provider is on
unfoldable pub is_provider_path : String → Bool
unfolding split_tenant_path contains
is_provider_path path = on_surface (split_tenant_path path)

-- http.Cookie, as sessionCookie fills it
pub record Cookie : Type 0 where
  pub name : String
  pub value : String
  pub path : String
  pub expires : ℕ
  pub http_only : Bool
  pub secure : Bool
  pub same_site_lax : Bool

unfoldable pub session_cookie : String → String → Bool → ℕ → Cookie
session_cookie name value secure expires = record {
  name = name;
  value = value;
  path = "/";
  expires = expires;
  http_only = true;
  secure = secure;
  same_site_lax = true;
}

-- The fields of the discovery document that Discovery writes over; the others are the library's.
pub record Discovery : Type 0 where
  pub issuer : String
  pub response_types : List String
  pub grant_types : List String
  pub device_authorization_endpoint : String
  pub token_endpoint_auth_methods : List String

abbrev pub supported_grant_types : List String
supported_grant_types = "authorization_code" ∷ "refresh_token" ∷ []

abbrev corrected : Discovery → Discovery
corrected document = record document {
  response_types = "code" ∷ [];
  grant_types = supported_grant_types;
  device_authorization_endpoint = "";
  token_endpoint_auth_methods = "client_secret_basic" ∷ "client_secret_post" ∷ [];
}

-- `create` is op.CreateDiscoveryConfig at an issuer; without a tenant there is no document, and the
-- answer is 404.
unfoldable pub discovery : (String → Discovery) → String → String → Option Discovery
unfolding issuer
discovery create public_base_url tenant_id =
    if tenant_id == "" then none else some (corrected (create (issuer public_base_url tenant_id)))
