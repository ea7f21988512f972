-- ===== src/AppConfig.antt =====
-- cmd/an/config.go: the configuration from the environment of the process, and what cmd/an/main.go makes
-- of it for the provider, CORS and the gate (oidcSetting, corsSetting, apiKeySetting).
pub mod Provider
pub mod Surface
use an.Prelude.{
  ℕ, String, ◌==◌, ◌<>◌, len, Bool, true, not, ◌&&◌, Option, none, some, List, [], ◌∷◌, ◌++◌, ltb,
  if◌then◌else◌,
}
use an.Error.{Result, ok, err, untyped}
use an.World.{Env}
use an.Utils.Text.{ℤ, pos, trim_space, trim_slash, split, atoi}
use an.Utils.Secrets.{sha256_hex}
use an.Oidc.Clients.{StaticClient}
use an.Api.Mount.{is_provider_path}

pub record AppConfig : Type 0 where
  pub access_token_expire_in_seconds : ℤ
  pub allowed_origins : List String
  pub audience : String
  pub bootstrap_api_key : String
  pub cors_enabled : Bool
  pub db_connection : String
  pub default_tenant_id : String
  pub domain : String
  pub google_client_id : String
  pub issuer : String
  pub lockout_duration_in_seconds : ℤ
  pub magic_code_expire_in_seconds : ℤ
  pub max_failed_attempts : ℤ
  pub oidc_auth_code_expire_in_seconds : ℤ
  pub oidc_client_id : String
  pub oidc_client_secret : String
  pub oidc_crypto_key : String
  pub oidc_enabled : Bool
  pub oidc_insecure : Bool
  pub oidc_post_logout_redirect_uris : List String
  pub oidc_redirect_uris : List String
  pub oidc_session_expire_in_seconds : ℤ
  pub password_cost : ℤ
  pub port : ℤ
  pub public_base_url : String
  pub refresh_token_expire_in_seconds : ℤ
  pub requests_per_second : ℤ
  pub reset_token_expire_in_seconds : ℤ

abbrev pub min_crypto_key_length : ℕ
min_crypto_key_length = 32

abbrev weak_key : String
weak_key =
    "OIDC_CRYPTO_KEY must be at least 32 characters of random data; it encrypts "
    <> ("authorization codes and bearer tokens, and hashing does not rescue a guessable "
        <> "value (generate one with: openssl rand -hex 32)")

abbrev pub or_default {ℓ} : {A : Type ℓ} → A → Option A → A
or_default default none = default
or_default default (some value) = value

-- The texts that are not empty, each without the white space around it
unfoldable pub trimmed : List String → List String
unfolding trim_space
trimmed [] = []
trimmed (value ∷ values) =
    let rest = trimmed values in
    let text = trim_space value in if not (text == "") then text ∷ rest else rest

abbrev pub is_empty : List String → Bool
is_empty [] = true
is_empty (x ∷ xs) = Bool.false

-- `lookup` is os.LookupEnv.
module _ (lookup : String → Option String) where
  unfoldable pub get_env : String → String → String
  get_env key default = or_default default (lookup key)

  unfoldable pub get_env_as_int : String → ℕ → ℤ
  unfolding get_env atoi
  get_env_as_int key default =
      let text = get_env key "" in
      if text == "" then pos default else or_default (pos default) (atoi text)

  unfoldable pub get_env_as_string_slice : String → List String → List String
  unfolding get_env trimmed split
  get_env_as_string_slice key default =
      let text = get_env key "" in if text == "" then default else trimmed (split b',' text)

  -- The predicate that mounts the provider
  unfoldable pub enabled : AppConfig → Bool
  enabled config =
      not (config.public_base_url == "")
      && (not (config.oidc_client_id == "")
          && (not (config.oidc_client_secret == "")
              && (not (config.oidc_crypto_key == "") && not (is_empty config.oidc_redirect_uris))))

  -- The fields that are read one by one, before the predicate
  unfoldable pub read_config : AppConfig
  unfolding get_env get_env_as_int get_env_as_string_slice trim_slash
  read_config = record {
    access_token_expire_in_seconds = get_env_as_int "ACCESS_TOKEN_EXPIRE_IN_SECONDS" 3600;
    allowed_origins = get_env_as_string_slice "ALLOWED_WEB_ORIGINS" [];
    audience = get_env "AUDIENCE" "an";
    bootstrap_api_key = get_env "BOOTSTRAP_API_KEY" "";
    cors_enabled = get_env "CORS_ENABLED" "false" == "true";
    db_connection = get_env "DB_CONNECTION" "postgres://an:an@localhost:5432/an?sslmode=disable";
    default_tenant_id = get_env "DEFAULT_TENANT_ID" "default";
    domain = get_env "DOMAIN" "";
    google_client_id = get_env "GOOGLE_CLIENT_ID" "";
    issuer = get_env "ISSUER" "an";
    lockout_duration_in_seconds = get_env_as_int "LOCKOUT_DURATION_IN_SEC" 900;
    magic_code_expire_in_seconds = get_env_as_int "MAGIC_CODE_EXPIRE_IN_SECONDS" 600;
    max_failed_attempts = get_env_as_int "MAX_FAILED_ATTEMPTS" 5;
    oidc_auth_code_expire_in_seconds = get_env_as_int "OIDC_AUTH_CODE_EXPIRE_IN_SECONDS" 300;
    oidc_client_id = get_env "OIDC_CLIENT_ID" "";
    oidc_client_secret = get_env "OIDC_CLIENT_SECRET" "";
    oidc_crypto_key = get_env "OIDC_CRYPTO_KEY" "";
    oidc_enabled = Bool.false;
    oidc_insecure = get_env "OIDC_INSECURE" "false" == "true";
    oidc_post_logout_redirect_uris = get_env_as_string_slice "OIDC_POST_LOGOUT_REDIRECT_URIS" [];
    oidc_redirect_uris = get_env_as_string_slice "OIDC_REDIRECT_URIS" [];
    oidc_session_expire_in_seconds = get_env_as_int "OIDC_SESSION_EXPIRE_IN_SECONDS" 43200;
    password_cost = get_env_as_int "PASSWORD_COST" 12;
    port = get_env_as_int "PORT" 8080;
    public_base_url = trim_slash (get_env "PUBLIC_BASE_URL" "");
    refresh_token_expire_in_seconds = get_env_as_int "REFRESH_TOKEN_EXPIRE_IN_SECONDS" 86400;
    requests_per_second = get_env_as_int "REQUESTS_PER_SECOND" 20;
    reset_token_expire_in_seconds = get_env_as_int "RESET_TOKEN_EXPIRE_IN_SECONDS" 3600;
  }

  -- The key must carry its own entropy.
  unfoldable pub new_app_config : Result AppConfig
  unfolding enabled read_config
  new_app_config =
      let config = record read_config { oidc_enabled = enabled read_config } in
      if config.oidc_enabled && ltb (len config.oidc_crypto_key) min_crypto_key_length
      then err (untyped weak_key)
      else ok config

-- The client of the configuration; `lifetime` is the expiry of access tokens as a duration.
unfoldable pub configured_client : Env → ℕ → AppConfig → Option StaticClient
unfolding sha256_hex
configured_client env lifetime config =
    if not config.oidc_enabled
    then none
    else some (record {
      id = config.oidc_client_id;
      secret_hash = sha256_hex env config.oidc_client_secret;
      redirect_uris = config.oidc_redirect_uris;
      post_logout_redirect_uris = config.oidc_post_logout_redirect_uris;
      first_party = true;
      id_token_lifetime = lifetime;
      clock_skew_tolerance = 0;
    })

-- The origins that CORS allows, `none` where it is off
unfoldable pub cors_origins : AppConfig → Option (List String)
cors_origins config =
    if not config.cors_enabled
    then none
    else if not (config.domain == "")
    then some (config.allowed_origins ++ (("https://" <> config.domain) ∷ []))
    else some config.allowed_origins

-- The predicates that the gate is given
unfoldable pub public_paths : AppConfig → List (String → Bool)
unfolding is_provider_path
public_paths config = if config.oidc_enabled then is_provider_path ∷ [] else []
