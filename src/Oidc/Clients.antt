-- ===== src/Oidc/Clients.antt =====
-- internal/oidc/client.go: the client of the configuration, the registry behind it, and what the
-- provider library may ask of a client.
use an.Prelude.{
  ℕ, String, ◌==◌, Bool, true, false, not, Option, none, some, List, [], ◌∷◌, if◌then◌else◌,
}
use an.Error.{
  Result, ok, err, client_not_found, client_not_first_party, client_authentication_failed,
  redirect_uri_not_allowed,
}
use an.Rows.{RegisteredClient}
use an.Exec.{M, pure, lift, asks, fail_if, ◌>>=◌, ◌>>◌}
use an.Utils.Secrets.{sha256_hex, safe_compare}
use an.Store.Clients

pub record StaticClient : Type 0 where
  pub id : String
  pub secret_hash : String
  pub redirect_uris : List String
  pub post_logout_redirect_uris : List String
  pub first_party : Bool
  pub id_token_lifetime : ℕ
  pub clock_skew_tolerance : ℕ

-- slices.Contains
unfoldable pub contains : List String → String → Bool
contains [] s = false
contains (x ∷ xs) s = if x == s then true else contains xs s

abbrev pub supported_scopes : List String
supported_scopes = "openid" ∷ "email" ∷ "profile" ∷ "offline_access" ∷ []

unfoldable pub is_scope_allowed : String → Bool
unfolding contains
is_scope_allowed scope = contains supported_scopes scope

-- StaticClientRegistry over its client, `none` for nil
unfoldable pub static_client : Option StaticClient → String → Result StaticClient
static_client none client_id = err (client_not_found client_id)
static_client (some c) client_id =
    if not (c.id == client_id)
    then err (client_not_found client_id)
    else if not c.first_party
    then err (client_not_first_party client_id)
    else ok c

-- The check of the presented secret, the same for both registries
unfoldable pub check_secret : StaticClient → String → M (Unit {0})
check_secret c secret = do
  hash ← asks (λ env. sha256_hex env secret)
  fail_if (not (safe_compare hash c.secret_hash)) client_authentication_failed

unfoldable pub static_authenticate : Option StaticClient → String → String → M (Unit {0})
unfolding check_secret
static_authenticate configured client_id secret = do
  c ← lift (static_client configured client_id)
  check_secret c secret

-- The check of the redirect URI, the same for both registries
unfoldable pub check_redirect : String → String → Option StaticClient → Result (Unit {0})
unfolding contains
check_redirect client_id redirect_uri none = err (client_not_found client_id)
check_redirect client_id redirect_uri (some c) =
    if not (contains c.post_logout_redirect_uris redirect_uri)
    then err (redirect_uri_not_allowed redirect_uri)
    else ok tt

abbrev resolved_redirect : String → String → Result StaticClient → Result (Unit {0})
resolved_redirect client_id redirect_uri (ok c) = check_redirect client_id redirect_uri (some c)
resolved_redirect client_id redirect_uri (err e) = err e

-- Without a client id, the configured client is meant.
unfoldable pub static_post_logout_redirect :
    Option StaticClient → String → String → Result (Unit {0})
unfolding check_redirect static_client
static_post_logout_redirect configured client_id redirect_uri =
    if client_id == ""
    then check_redirect client_id redirect_uri configured
    else resolved_redirect client_id redirect_uri (static_client configured client_id)

abbrev pub id_token_lifetime : Option StaticClient → ℕ
id_token_lifetime none = 0
id_token_lifetime (some c) = c.id_token_lifetime

-- A registered client as a StaticClient
unfoldable pub adapted : Option StaticClient → RegisteredClient → StaticClient
adapted configured registered = record {
  id = registered.client_id;
  secret_hash = registered.secret_hash;
  redirect_uris = registered.redirect_uris;
  post_logout_redirect_uris = registered.post_logout_redirect_uris;
  first_party = registered.first_party;
  id_token_lifetime = id_token_lifetime configured;
  clock_skew_tolerance = 0;
}

-- What the registry does when the configured client is not the one asked for
unfoldable pub registered_or :
    Option StaticClient → String → String → Result StaticClient → M StaticClient
unfolding adapted
registered_or configured tenant_id client_id (ok c) = pure c
registered_or configured tenant_id client_id (err e) = do
  registered ← Clients.read tenant_id client_id
  fail_if (not registered.first_party) (client_not_first_party client_id)
  pure (adapted configured registered)

-- RegistryClientRegistry: the configured client first, then the clients of the tenant
unfoldable pub registry_client : Option StaticClient → String → String → M StaticClient
unfolding registered_or
registry_client configured tenant_id client_id =
    registered_or configured tenant_id client_id (static_client configured client_id)

unfoldable pub registry_authenticate : Option StaticClient → String → String → String → M (Unit {0})
registry_authenticate configured tenant_id client_id secret = do
  c ← registry_client configured tenant_id client_id
  check_secret c secret

unfoldable pub registry_post_logout_redirect :
    Option StaticClient → String → String → String → M (Unit {0})
registry_post_logout_redirect configured tenant_id client_id redirect_uri =
    if client_id == ""
    then lift (static_post_logout_redirect configured client_id redirect_uri)
    else do
      c ← registry_client configured tenant_id client_id
      lift (check_redirect client_id redirect_uri (some c))
