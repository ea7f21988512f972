-- ===== src/AppConfig/Provider.antt =====
-- What turns the provider on (NewAppConfig and oidcEnabled of cmd/an/config.go).
use an.Prelude.{
  ◌≡◌, ◌≢◌, ◌≤◌, String, ◌==◌, len, true, false, Option, none, some, [], arith, eq_iff, refl, ap,
  subst, eq_refl, true_eq, Bool-cases, inl, inr,
}
use an.Error.{ok}
use an.Utils.Text.{trim_slash}
use an.AppConfig.{
  AppConfig, or_default, new_app_config, enabled, read_config, get_env, get_env_as_string_slice,
  is_empty,
}

too_short : 32 ≤ len "" → ⊥
too_short h = omega arith

some_text : ("" == "") ≡ false → ⊥
some_text h = ground (arith, eq_refl "")

base_text : (text : String) → (trim_slash text == "") ≡ false → (text == "") ≡ false
unfolding trim_slash
base_text text h = elim (Bool-cases (text == "")) [
  | inl e ↦ absurd (some_text (subst (λ t. (trim_slash t == "") ≡ false) (true_eq text "" e) h))
  | inr e ↦ e
]

module _ (lookup : String → Option String) where
  -- The variable is set, and to some text
  abbrev pub Given : String → Type 0
  Given name = (value : String) × (lookup name ≡ some value) × (value ≢ "")

  get_env_lem :
      (name : String) (found : Option String)
      → lookup name ≡ found
      → get_env lookup name "" ≡ or_default "" found
  unfolding get_env
  get_env_lem name found e = ap (or_default "") e

  given :
      (name : String) (found : Option String)
      → lookup name ≡ found
      → (get_env lookup name "" == "") ≡ false
      → Given name
  given name none e h =
      absurd (some_text (subst (λ t. (t == "") ≡ false) (get_env_lem name none e) h))
  given name (some value) e h =
      (value, e, λ empty. ground (arith, get_env_lem name (some value) e, eq_iff value ""))

  given_base :
      (trim_slash (get_env lookup "PUBLIC_BASE_URL" "") == "") ≡ false → Given "PUBLIC_BASE_URL"
  given_base h =
      given "PUBLIC_BASE_URL" (lookup "PUBLIC_BASE_URL") refl
        (base_text (get_env lookup "PUBLIC_BASE_URL" "") h)

  given_uris :
      is_empty (get_env_as_string_slice lookup "OIDC_REDIRECT_URIS" []) ≡ false
      → Given "OIDC_REDIRECT_URIS"
  unfolding get_env_as_string_slice
  given_uris h = given "OIDC_REDIRECT_URIS" (lookup "OIDC_REDIRECT_URIS") refl (ground arith)

  fields :
      {config : AppConfig}
      → new_app_config lookup ≡ ok config
      → config.oidc_enabled ≡ true
      → (enabled lookup (read_config lookup) ≡ true)
        × (config.oidc_crypto_key ≡ get_env lookup "OIDC_CRYPTO_KEY" "")
        × (32 ≤ len (get_env lookup "OIDC_CRYPTO_KEY" ""))
  unfolding new_app_config read_config
  fields {config} h k = ground arith

  parts :
      enabled lookup (read_config lookup) ≡ true
      → ((trim_slash (get_env lookup "PUBLIC_BASE_URL" "") == "") ≡ false)
        × ((get_env lookup "OIDC_CLIENT_ID" "" == "") ≡ false)
        × ((get_env lookup "OIDC_CLIENT_SECRET" "" == "") ≡ false)
        × (is_empty (get_env_as_string_slice lookup "OIDC_REDIRECT_URIS" []) ≡ false)
  unfolding enabled read_config
  parts h = ground arith

  key_given :
      (found : Option String)
      → lookup "OIDC_CRYPTO_KEY" ≡ found
      → 32 ≤ len (get_env lookup "OIDC_CRYPTO_KEY" "")
      → (key : String) × (lookup "OIDC_CRYPTO_KEY" ≡ some key)
        × (32 ≤ len key)
        × (get_env lookup "OIDC_CRYPTO_KEY" "" ≡ key)
  key_given none e h =
      absurd (too_short (subst (λ t. 32 ≤ len t) (get_env_lem "OIDC_CRYPTO_KEY" none e) h))
  key_given (some key) e h = (
    key,
    e,
    subst (λ t. 32 ≤ len t) (get_env_lem "OIDC_CRYPTO_KEY" (some key) e) h,
    get_env_lem "OIDC_CRYPTO_KEY" (some key) e,
  )

  -- A configuration that is accepted has the provider on only if the environment of the process gives a base URL,
  -- the id and the secret of a client, its redirect URIs, and a crypto key of at least 32 bytes, which is the one
  -- that the provider gets.
  pub new_app_config-Given :
      {config : AppConfig}
      → new_app_config lookup ≡ ok config
      → config.oidc_enabled ≡ true
      → Given "PUBLIC_BASE_URL"
        × Given "OIDC_CLIENT_ID"
        × Given "OIDC_CLIENT_SECRET"
        × Given "OIDC_REDIRECT_URIS"
        × ((key : String) × (lookup "OIDC_CRYPTO_KEY" ≡ some key)
            × (32 ≤ len key)
            × (config.oidc_crypto_key ≡ key))
  new_app_config-Given {config} h k =
      let (on, key, long) = fields {config = config} h k in
      let (base, id, secret, uris) = parts on in
      let (value, found, enough, same) = key_given (lookup "OIDC_CRYPTO_KEY") refl long in
      (
        given_base base,
        given "OIDC_CLIENT_ID" (lookup "OIDC_CLIENT_ID") refl id,
        given "OIDC_CLIENT_SECRET" (lookup "OIDC_CLIENT_SECRET") refl secret,
        given_uris uris,
        (value, found, enough, cc),
      )
