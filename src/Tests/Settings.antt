-- ===== src/Tests/Settings.antt =====
-- The theorems on the configuration, the clients and the guards at concrete inputs.
use an.Prelude.{
  ◌↔◌, String, ◌==◌, Bool, true, false, Option, none, some, [], ◌∷◌, ◌≡◌, refl, ◌≤◌, len,
  if◌then◌else◌,
}
use an.Error.{ok}
use an.Utils.Text.{
  trim_space, trim_left, trim_right, is_space, has_char, trim_slash, split, add_char,
}
use an.Gateway.{Context, effective_tenant, tenant_or}
use an.Api.Clients
use an.Api.Clients.{
  Url, CreateClientRequest, CreateClientResponse, client_forbidden, validate_client, validate_uris,
  validate_redirect_uri, check_scheme, no_uris,
}
use an.Api.Clients.Stored.{create-AllAcceptable}
use an.Api.Problem.{bound, json, reply, answer, bind_request}
use an.Api.ApiKeys.{root_only}
use an.Store.Clients as ClientStore
use an.Utils.Secrets.{random_token, sha256_hex}
use an.Utils.Hex.{hex_encode, hex_digit}
use an.Utils.{tenant_or_default}
use an.Exec.{◌>>=◌}
use an.Table
use an.AppConfig.{
  AppConfig, read_config, new_app_config, enabled, get_env, get_env_as_string_slice, trimmed,
}
use an.AppConfig.Surface.{Open, Admits, gate-Open}
use an.Tests.{env, world, different}
use an.Gateway.{is_root}
use an.AppConfig.Provider.{Given, new_app_config-Given}

abbrev key : String
key = "0123456789abcdef0123456789abcdef"

-- The environment of a process with the provider
lookup : String → Option String
lookup name =
    if name == "PUBLIC_BASE_URL"
    then some "https://id.x"
    else if name == "OIDC_CLIENT_ID"
    then some "web"
    else if name == "OIDC_CLIENT_SECRET"
    then some "secret"
    else if name == "OIDC_CRYPTO_KEY"
    then some key
    else if name == "OIDC_REDIRECT_URIS"
    then some "https://web.x/back, https://web.x/other"
    else none

abbrev mounted_config : AppConfig
mounted_config = record (read_config lookup) { oidc_enabled = true }

accepted : new_app_config lookup ≡ ok mounted_config
unfolding new_app_config enabled read_config get_env get_env_as_string_slice lookup trimmed split
    add_char trim_space trim_left trim_right is_space trim_slash
accepted = refl

new_app_config-Given_example :
    Given lookup "PUBLIC_BASE_URL"
    × Given lookup "OIDC_CLIENT_ID"
    × Given lookup "OIDC_CLIENT_SECRET"
    × Given lookup "OIDC_REDIRECT_URIS"
    × ((key : String) × (lookup "OIDC_CRYPTO_KEY" ≡ some key)
        × (32 ≤ len key)
        × (mounted_config.oidc_crypto_key ≡ key))
new_app_config-Given_example = new_app_config-Given lookup {config = mounted_config} accepted refl

abbrev login_page : String
login_page = "/t/acme/login"

gate-Open_example :
    Admits login_page mounted_config "root" env world ↔ Open mounted_config login_page
gate-Open_example = gate-Open login_page mounted_config "root" env world (different "root" "" refl)

-- A parser that knows two URIs
parse : String → Option Url
parse uri =
    if uri == "https://web.x/back"
    then some (record { scheme = "https"; host = "web.x"; hostname = "web.x" })
    else if uri == "http://localhost:3000/"
    then some (record { scheme = "http"; host = "localhost:3000"; hostname = "localhost" })
    else none

abbrev no_address : String → Bool
no_address host = false

abbrev request : CreateClientRequest
request = record {
  tenant_id = "t";
  client_id = " console ";
  name = "Console";
  redirect_uris = "https://web.x/back" ∷ [];
  post_logout_redirect_uris = "http://localhost:3000/" ∷ [];
}

abbrev root : Context
root = record { tenant = none; root = true }

abbrev response : CreateClientResponse
response = record {
  tenant_id = "t";
  client_id = "console";
  client_secret = "0000000000000000000000000000000000000000000000000000000000000000";
  redirect_uris = "https://web.x/back" ∷ [];
}

registers :
    (Clients.create parse no_address "web" root (bound request) env world).0
    ≡ ok (json 201 response)
unfolding Clients.create root_only bind_request reply answer validate_client validate_uris
    validate_redirect_uri check_scheme Clients.is_loopback parse trim_space trim_left trim_right
    is_space has_char Clients.store_client Clients.registered Clients.created effective_tenant
    tenant_or tenant_or_default is_root ClientStore.create ClientStore.insert random_token
    sha256_hex hex_encode hex_digit Table.any ◌>>=◌
registers = refl

create-AllAcceptable_example : response.client_id ≡ trim_space request.client_id
create-AllAcceptable_example =
    (create-AllAcceptable parse no_address "web" request root env world {response = response}
      registers).0
