-- ===== src/Api/Mount/Paths.antt =====
-- The paths of the provider and the tenants in them (api/oidc/oidc_provider.go, oidc_routes.go).
use an.Prelude.{
  ◌≡◌, ◌≢◌, ap, ◌∙◌, String, ◌==◌, ◌<>◌, starts_with, true, false, some, arith, true_eq, Bool-cases,
  inl, inr,
}
use text.Mathlib.TextPositions.{starts_with-append}
use text.Mathlib.TextLemmas.{nil-append, cons-append}
use an.Utils.Text.{cut, has_char, prefixed}
use an.Utils.Text.Laws.{slice-suffix, cut-append}
use an.Oidc.Clients.{contains}
use an.Api.Mount.{
  tenant_path_prefix, provider_paths, split_tenant_path, is_provider_path, tenant_handler, serve,
  issuer, remainder,
}

-- The path of a tenant's page: what issuer appends to the public base URL, and a path below it
abbrev pub tenant_path : String → String → String
tenant_path tenant_id rest = tenant_path_prefix <> (tenant_id <> ("/" <> rest))

not_empty : (s : String) → s ≢ "" → (s == "") ≡ false
not_empty s h = elim (Bool-cases (s == "")) [ inl e ↦ elim (h (true_eq s "" e)) [ ] | inr e ↦ e ]

cut_slash : (rest : String) → cut b'/' ("/" <> rest) ≡ some ("", rest)
unfolding cut prefixed
cut_slash rest = ap (cut b'/') (cons-append _ "" rest) ∙ ap (λ s. some ("", s)) (nil-append rest)

split_found :
    (path whole tenant_id rest : String)
    → starts_with path tenant_path_prefix ≡ true
    → remainder path ≡ whole
    → cut b'/' whole ≡ some (tenant_id, rest)
    → (tenant_id == "") ≡ false
    → split_tenant_path path ≡ (tenant_id, "/" <> rest)
unfolding split_tenant_path
split_found path whole tenant_id rest h k found some_tenant = rw (h, k, found, some_tenant)

pub split-tenant_path :
    (tenant_id rest : String)
    → tenant_id ≢ ""
    → has_char b'/' tenant_id ≡ false
    → split_tenant_path (tenant_path tenant_id rest) ≡ (tenant_id, "/" <> rest)
split-tenant_path tenant_id rest some_tenant one_segment =
    split_found (tenant_path tenant_id rest) (tenant_id <> ("/" <> rest)) tenant_id rest
      (starts_with-append tenant_path_prefix _) (slice-suffix tenant_path_prefix _)
      (cut-append b'/' tenant_id rest ("/" <> rest) one_segment (cut_slash rest))
      (not_empty tenant_id some_tenant)

-- A path below the prefix of a tenant is served for that tenant, at its issuer, as the path below it, if the
-- tenant's id is not empty and has no slash.
pub tenant_handler_lem :
    (base tenant_id rest : String)
    → tenant_id ≢ ""
    → has_char b'/' tenant_id ≡ false
    → tenant_handler base (tenant_path tenant_id rest)
      ≡ serve tenant_id (issuer base tenant_id) ("/" <> rest)
unfolding tenant_handler
tenant_handler_lem base tenant_id rest some_tenant one_segment =
    rw (split-tenant_path tenant_id rest some_tenant one_segment, not_empty tenant_id some_tenant)

module _ (path : String) where
  no_tenant : starts_with path tenant_path_prefix ≡ false → split_tenant_path path ≡ ("", "")
  unfolding split_tenant_path
  no_tenant h = rw h

  off_surface : split_tenant_path path ≡ ("", "") → is_provider_path path ≡ false
  unfolding is_provider_path
  off_surface h = rw h

  on_list :
      is_provider_path path ≡ true
      → (((split_tenant_path path).0 == "") ≡ false)
        × (contains provider_paths (split_tenant_path path).1 ≡ true)
  unfolding is_provider_path
  on_list h = ground arith

  -- A path of the surface is below the prefix, names a tenant, and continues with a listed path.
  pub is_provider_path_lem :
      is_provider_path path ≡ true
      → (starts_with path tenant_path_prefix ≡ true)
        × (((split_tenant_path path).0 == "") ≡ false)
        × (contains provider_paths (split_tenant_path path).1 ≡ true)
  unfolding is_provider_path
  is_provider_path_lem h = elim (Bool-cases (starts_with path tenant_path_prefix)) [
    | inl e ↦ let on = on_list h in (e, on.0, on.1)
    | inr e ↦ let off = off_surface (no_tenant e) in cc
  ]
