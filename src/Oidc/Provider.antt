-- ===== src/Oidc/Provider.antt =====
-- internal/oidc/storage.go and client.go: the clients and the keys that the provider library asks for.
use an.Prelude.{ℕ, String, Bool, true, false, Option, none, some, List, [], ◌∷◌, map}
use an.Error.{untyped}
use an.World.{LoadedKeys}
use an.Exec.{M, pure, throw, ◌>>=◌}
use an.Oidc.{TokenRequest, subject_of, UserInfo, set_userinfo, tenant_from, provider_key_set}
use an.Oidc.Clients.{StaticClient, registry_client, registry_authenticate, is_scope_allowed}

-- What providerClient answers to the library: its fields are the methods of op.Client.
pub record ProviderClient : Type 0 where
  pub id : String
  pub redirect_uris : List String
  pub post_logout_redirect_uris : List String
  pub application_type : String
  pub auth_method : String
  pub login_url : String → String
  pub id_token_lifetime : ℕ
  pub dev_mode : Bool
  pub clock_skew : ℕ
  pub id_token_userinfo_claims_assertion : Bool
  pub access_token_type : String
  pub response_types : List String
  pub grant_types : List String
  pub scope_allowed : String → Bool
  pub restrict_id_token_scopes : List String → List String
  pub restrict_access_token_scopes : List String → List String

unfoldable pub provider_client : (String → String) → StaticClient → ProviderClient
provider_client login_url client = record {
  id = client.id;
  redirect_uris = client.redirect_uris;
  post_logout_redirect_uris = client.post_logout_redirect_uris;
  application_type = "web";
  auth_method = "client_secret_basic";
  login_url = login_url;
  id_token_lifetime = client.id_token_lifetime;
  dev_mode = false;
  clock_skew = client.clock_skew_tolerance;
  id_token_userinfo_claims_assertion = true;
  access_token_type = "bearer";
  response_types = "code" ∷ [];
  grant_types = "authorization_code" ∷ "refresh_token" ∷ [];
  scope_allowed = is_scope_allowed;
  restrict_id_token_scopes = λ scopes. scopes;
  restrict_access_token_scopes = λ scopes. scopes;
}

-- `login_url` is the function of the tenant and the authorization request that the storage is given.
unfoldable pub get_client_by_client_id :
    Option StaticClient → (String → String → String) → String → String → M ProviderClient
unfolding provider_client
get_client_by_client_id configured login_url tenant client_id = do
  tenant_id ← tenant_from tenant
  client ← registry_client configured tenant_id client_id
  pure (provider_client (login_url tenant_id) client)

unfoldable pub authorize_client_id_secret :
    Option StaticClient → String → String → String → M (Unit {0})
authorize_client_id_secret configured tenant client_id secret = do
  tenant_id ← tenant_from tenant
  registry_authenticate configured tenant_id client_id secret

-- The claims of the id_token
unfoldable pub set_userinfo_from_request : String → TokenRequest → List String → M UserInfo
set_userinfo_from_request tenant request scopes = set_userinfo tenant (subject_of request) scopes

-- What the interfaces SigningKey and Key of the library ask of a key; a signing key has no use.
pub record KeyEntry : Type 0 where
  pub algorithm : String
  pub kid : String
  pub key_use : String
  pub key : String

abbrev signing_entry : Option LoadedKeys → Option KeyEntry
signing_entry none = none
signing_entry (some keys) =
    some
      (record { algorithm = "RS256"; kid = keys.signing_kid; key_use = ""; key = keys.signing_key })

unfoldable pub public_entry : String × String → KeyEntry
public_entry (kid, key) = record { algorithm = "RS256"; kid = kid; key_use = "sig"; key = key }

abbrev public_entries : Option LoadedKeys → List KeyEntry
public_entries none = []
public_entries (some keys) = map public_entry keys.public_keys

unfoldable pub signing_key : M (Option KeyEntry)
signing_key = do keys ← provider_key_set; pure (signing_entry keys)

unfoldable pub key_set : M (List KeyEntry)
unfolding public_entry
key_set = do keys ← provider_key_set; pure (public_entries keys)

abbrev pub signature_algorithms : List String
signature_algorithms = "RS256" ∷ []

unfoldable pub validate_jwt_profile_scopes : List String → M (List String)
validate_jwt_profile_scopes scopes = pure scopes

-- No client has keys of its own.
unfoldable pub get_key_by_id_and_client_id : String → String → M String
get_key_by_id_and_client_id key_id client_id = throw (untyped "invalid_refresh_token")
