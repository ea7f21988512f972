-- ===== src/AppConfig/Surface.antt =====
-- What the gate opens, as main.go wires it (cmd/an/main.go, api/auth/auth.go, api/oidc/oidc_routes.go).
use an.Prelude.{
  ◌≡◌, ◌≢◌, ◌↔◌, ◌⊎◌, inl, inr, String, ◌==◌, ◌<>◌, Bool, true, false, Option, none, some, List, [],
  ◌∷◌, arith, true_eq, eq_iff, Bool-cases, sym, ap, ◌∙◌, subst, refl, starts_with, if◌then◌else◌,
}
use Prim.Native.Char.{Char}
use text.Mathlib.TextEquality.{starts_with_iff}
use text.Mathlib.TextLemmas.{nil-append, cons-append}
use an.Error.{ok}
use an.World.{World, Env}
use an.Exec.{◌>>=◌}
use an.Utils.Text.{cut, has_char}
use an.Utils.Text.Laws.{cut_sound, slice-suffix}
use an.Gateway.{Context, anonymous, next, is_public, gate, middleware, check_token}
use an.Api.Mount.{remainder, with_rest, split_tenant_path, is_provider_path, provider_paths}
use an.Api.Mount.Paths.{is_provider_path_lem, split-tenant_path}
use an.Oidc.Clients.{contains}
use an.AppConfig.{AppConfig, public_paths}

-- The pages of the provider that a browser or a client asks for without a key
abbrev pub OneOf : List String → String → Type 0
OneOf [] text = ⊥
OneOf (x ∷ xs) text = (text ≡ x) ⊎ OneOf xs text

abbrev pub Page : String → Type 0
Page = OneOf (
    "/.well-known/openid-configuration" ∷ "/authorize" ∷ "/authorize/callback" ∷ "/oauth/token"
    ∷ "/oauth/introspect" ∷ "/userinfo" ∷ "/revoke" ∷ "/end_session" ∷ "/keys" ∷ "/login"
    ∷ "/logout" ∷ [])

-- /t/ and a tenant, and a page of the provider
abbrev pub TenantPage : String → Type 0
TenantPage path =
    (tenant_id rest : String) × (path ≡ "/t/" <> (tenant_id <> ("/" <> rest)))
    × (tenant_id ≢ "")
    × (has_char b'/' tenant_id ≡ false)
    × Page ("/" <> rest)

abbrev pub Open : AppConfig → String → Type 0
Open config path =
    (path ≡ "/health")
    ⊎ ((starts_with path "/.well-known/" ≡ true) ⊎ ((config.oidc_enabled ≡ true) × TenantPage path))

OneOf-contains : (xs : List String) (s : String) → contains xs s ≡ true → OneOf xs s
unfolding contains
OneOf-contains [] s h = cc
OneOf-contains (x ∷ xs) s h = elim (Bool-cases (x == s)) [
  | inl e ↦ inl (sym (true_eq x s e))
  | inr e ↦ inr (OneOf-contains xs s (ground arith))
]

contains-OneOf : (xs : List String) (s : String) → OneOf xs s → contains xs s ≡ true
unfolding contains
contains-OneOf [] s h = elim h [ ]
contains-OneOf (x ∷ xs) s (inl e) = ground (arith, eq_iff x s)
contains-OneOf (x ∷ xs) s (inr h) = ground (arith, contains-OneOf xs s h)

-- The character of the separator
abbrev slash : Char
slash = "/"

slash-append : (rest : String) → String.◌∷◌ slash rest ≡ "/" <> rest
slash-append rest = sym (cons-append slash "" rest ∙ ap (λ r. String.◌∷◌ slash r) (nil-append rest))

module _ (path : String) where
  prefixed_path : starts_with path "/t/" ≡ true → path ≡ "/t/" <> remainder path
  prefixed_path h =
      let (rest, e) = (starts_with_iff path "/t/").0 h in
      subst (λ p. p ≡ "/t/" <> remainder p) e (ap (λ r. "/t/" <> r) (sym (slice-suffix "/t/" rest)))

  split_facts :
      (parts : String × String)
      → split_tenant_path path ≡ parts
      → is_provider_path path ≡ true
      → ((parts.0 == "") ≡ false) × (contains provider_paths parts.1 ≡ true)
  split_facts parts e h =
      let (_, named, listed) = is_provider_path_lem path h in
      (
        subst (λ (q : String × String). (q.0 == "") ≡ false) e named,
        subst (λ (q : String × String). contains provider_paths q.1 ≡ true) e listed,
      )

  split_found :
      (found : Option (String × String))
      → starts_with path "/t/" ≡ true
      → cut b'/' (remainder path) ≡ found
      → split_tenant_path path ≡ with_rest (remainder path) found
  unfolding split_tenant_path
  split_found found h e = rw (h, e)

  abbrev parts_if : Bool → String × String → String × String
  parts_if b parts = if b then ("", "") else parts

  no_page :
      (b : Bool) (whole : String) → contains provider_paths (parts_if b (whole, "/")).1 ≡ true → ⊥
  unfolding contains
  no_page true whole h = cc
  no_page false whole h = cc

  tenant_page :
      (b : Bool) (tenant_id rest : String)
      → (tenant_id == "") ≡ b
      → path ≡ "/t/" <> (tenant_id <> ("/" <> rest))
      → has_char b'/' tenant_id ≡ false
      → ((parts_if b (tenant_id, "/" <> rest)).0 == "") ≡ false
      → contains provider_paths (parts_if b (tenant_id, "/" <> rest)).1 ≡ true
      → TenantPage path
  tenant_page true tenant_id rest e whole clear named listed = cc
  tenant_page false tenant_id rest e whole clear named listed = (
    tenant_id,
    rest,
    whole,
    λ same. ground (arith, eq_iff tenant_id ""),
    clear,
    OneOf-contains provider_paths ("/" <> rest) listed,
  )

  with_page :
      (found : Option (String × String))
      → starts_with path "/t/" ≡ true
      → cut b'/' (remainder path) ≡ found
      → is_provider_path path ≡ true
      → TenantPage path
  with_page none h e k = absurd (
      no_page (remainder path == "") (remainder path)
        (split_facts (with_rest (remainder path) none) (split_found none h e) k).1)
  with_page (some (tenant_id, rest)) h e k =
      let (named, listed) =
        split_facts (with_rest (remainder path) (some (tenant_id, rest)))
          (split_found (some (tenant_id, rest)) h e) k in
      let (whole, clear) =
        cut_sound b'/' slash (remainder path) {before = tenant_id} {after = rest} refl e in
      tenant_page (tenant_id == "") tenant_id rest refl
        (prefixed_path h
          ∙ ap (λ r. "/t/" <> r) (whole ∙ ap (λ r. tenant_id <> r) (slash-append rest)))
        clear named listed

  provider_page : is_provider_path path ≡ true → TenantPage path
  provider_page h = with_page (cut b'/' (remainder path)) (is_provider_path_lem path h).0 refl h

  split_public :
      (tenant_id rest : String)
      → split_tenant_path path ≡ (tenant_id, "/" <> rest)
      → (tenant_id == "") ≡ false
      → contains provider_paths ("/" <> rest) ≡ true
      → is_provider_path path ≡ true
  unfolding is_provider_path
  split_public tenant_id rest e named listed = rw (e, named, listed)

  page_provider : TenantPage path → is_provider_path path ≡ true
  page_provider (tenant_id, rest, e, some_tenant, one_segment, page) =
      split_public tenant_id rest
        (ap split_tenant_path e ∙ split-tenant_path tenant_id rest some_tenant one_segment)
        (ground (arith, eq_iff tenant_id "")) (contains-OneOf provider_paths ("/" <> rest) page)

  fixed_paths :
      is_public [] path ≡ true → (path ≡ "/health") ⊎ (starts_with path "/.well-known/" ≡ true)
  unfolding is_public
  fixed_paths h = ground (arith, true_eq path "/health")

  with_provider :
      is_public (is_provider_path ∷ []) path ≡ true
      → (is_provider_path path ≡ true) ⊎ (is_public [] path ≡ true)
  unfolding is_public
  with_provider h = ground arith

  module _ (config : AppConfig) where
    fixed_Open : is_public [] path ≡ true → Open config path
    fixed_Open h = elim (fixed_paths h) [ inl a ↦ inl a | inr b ↦ inr (inl b) ]

    is_public-Open : is_public (public_paths config) path ≡ true → Open config path
    unfolding public_paths
    is_public-Open h = elim (Bool-cases config.oidc_enabled) [
      | inl on ↦ elim (with_provider (ground arith)) [
        | inl k ↦ inr (inr (on, provider_page k))
        | inr k ↦ fixed_Open k
      ]
      | inr off ↦ fixed_Open (ground arith)
    ]

    always_public :
        (paths : List (String → Bool)) → is_public [] path ≡ true → is_public paths path ≡ true
    unfolding is_public
    always_public [] h = h
    always_public (p ∷ ps) h = ground (arith, always_public ps h)

    fixed_public :
        (path ≡ "/health") ⊎ (starts_with path "/.well-known/" ≡ true) → is_public [] path ≡ true
    unfolding is_public
    fixed_public h = ground (arith, eq_iff path "/health")

    listed_public :
        config.oidc_enabled ≡ true
        → is_provider_path path ≡ true
        → is_public (public_paths config) path ≡ true
    unfolding public_paths is_public
    listed_public on listed = rw (on, listed)

    Open-is_public : Open config path → is_public (public_paths config) path ≡ true
    Open-is_public (inl e) = always_public (public_paths config) (fixed_public (inl e))
    Open-is_public (inr (inl e)) = always_public (public_paths config) (fixed_public (inr e))
    Open-is_public (inr (inr (on, page))) = listed_public on (page_provider page)

    abbrev pub Admits : String → Env → World → Type 0
    Admits bootstrap_key env w =
        (context : Context) × ((gate bootstrap_key (public_paths config) path "" env w).0
          ≡ ok (next context))

    Admits-is_public :
        (bootstrap_key : String) (env : Env) (w : World)
        → (bootstrap_key == "") ≡ false
        → Admits bootstrap_key env w ↔ (is_public (public_paths config) path ≡ true)
    unfolding gate middleware check_token ◌>>=◌
    Admits-is_public bootstrap_key env w set =
        (λ a. ground (arith, a.1), λ open_path. (anonymous, ground arith))

    -- With a bootstrap key, the gate as it is wired lets a request without a key through exactly on these paths:
    -- the health check, what is below /.well-known/, and, with the provider on, the listed pages of the provider
    -- below /t/ and a tenant.
    pub gate-Open :
        (bootstrap_key : String) (env : Env) (w : World)
        → bootstrap_key ≢ ""
        → Admits bootstrap_key env w ↔ Open config path
    gate-Open bootstrap_key env w set =
        let (sound, complete) =
          Admits-is_public bootstrap_key env w (ground (arith, eq_iff bootstrap_key "")) in
        (λ a. is_public-Open (sound a), λ p. complete (Open-is_public p))
