-- ===== src/Gateway.antt =====
-- api/auth/auth.go: the gate in front of every handler, and what the handlers learn from it; and the
-- wiring of it in cmd/an/main.go (apiKeySetting).
pub mod Confined
use an.Prelude.{
  String, ◌==◌, Bool, true, false, not, ◌||◌, Option, none, some, List, [], ◌∷◌, if◌then◌else◌,
  starts_with,
}
use an.Error.{Result, ok, err}
use an.Exec.{M, pure, try, ◌>>=◌}
use an.Utils.{tenant_or_default}
use an.Utils.Secrets.{safe_compare}
use an.ApiKeys

-- The two values that the gate leaves in the context of a request
pub record Context : Type 0 where
  pub tenant : Option String
  pub root : Bool

-- The request goes on to its handler, or is answered 401.
pub data Admission : Type 0 where
  next : Context → Admission
  unauthorized : Admission

abbrev pub anonymous : Context
anonymous = record { tenant = none; root = false }

-- The paths that need no key, the predicates that were injected included
unfoldable pub is_public : List (String → Bool) → String → Bool
is_public [] path = path == "/health" || starts_with path "/.well-known/"
is_public (predicate ∷ rest) path = if predicate path then true else is_public rest path

-- What the gate makes of the answer of the api key service
unfoldable pub admit_key : Result String → Admission
admit_key (ok tenant_id) = next (record { tenant = some tenant_id; root = false })
admit_key (err e) = unauthorized

unfoldable pub check_token : String → String → M Admission
unfolding admit_key
check_token bootstrap_key token =
    if token == ""
    then pure unauthorized
    else if safe_compare token bootstrap_key
    then pure (next (record { tenant = none; root = true }))
    else do found ← try (ApiKeys.authenticate token); pure (admit_key found)

-- `token` is the header X-AN-API-KEY, "" when it is missing.
unfoldable pub middleware : String → List (String → Bool) → String → String → M Admission
middleware bootstrap_key public path token =
    if is_public public path then pure (next anonymous) else check_token bootstrap_key token

-- Without a bootstrap key the gate is not mounted, and every endpoint is open.
unfoldable pub gate : String → List (String → Bool) → String → String → M Admission
unfolding middleware
gate bootstrap_key public path token =
    if bootstrap_key == ""
    then pure (next anonymous)
    else middleware bootstrap_key public path token

-- The tenant of a key, if it is there and not empty
unfoldable pub tenant_or : Option String → String → String
tenant_or none requested = tenant_or_default requested
tenant_or (some tenant_id) requested =
    if not (tenant_id == "") then tenant_id else tenant_or_default requested

-- A tenant key forces its own tenant; otherwise the requested one is used, with its default.
unfoldable pub effective_tenant : Context → String → String
unfolding tenant_or
effective_tenant context requested = tenant_or context.tenant requested

unfoldable pub is_root : Context → Bool
is_root context = context.root
