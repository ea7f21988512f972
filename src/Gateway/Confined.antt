-- ===== src/Gateway/Confined.antt =====
-- Who gets past the gate of api/auth/auth.go, and the tenant of the requests.
use an.Prelude.{
  String, ◌==◌, Bool, true, false, ◌≡◌, ◌≢◌, arith, if◌then◌else◌, some, ◌⊎◌, inl, inr, Bool-cases,
  true_eq, List,
}
use an.Error.{ok, Result-cases}
use an.World.{World, Env}
use an.Rows.{ApiKey}
use an.Table
use an.Exec.{◌>>=◌}
use an.Utils.{tenant_or_default}
use an.Utils.Secrets.{sha256_hex, safe_compare}
use an.Store.ApiKeys.{has_prefix}
use an.ApiKeys
use an.ApiKeys.{prefix_of}
use an.ApiKeys.RoundTrip.{authenticate-ok}
use an.Gateway.{
  Context, next, check_token, middleware, gate, is_public, effective_tenant, is_root, tenant_or,
  admit_key,
}

-- A root request operates on the tenant that it asks for.
abbrev pub IsRootRequest : Context → String → Type 0
IsRootRequest context requested =
    (is_root context ≡ true) × (effective_tenant context requested ≡ tenant_or_default requested)

-- A request with a key of the table that the token hashes to is not root, and operates on the tenant of
-- the key, whatever it asks for; a key without a tenant leaves the choice to the request.
abbrev pub IsKeyRequest : Env → World → String → Context → String → Type 0
IsKeyRequest env w token context requested =
    (key : ApiKey) × (Table.find (has_prefix (prefix_of token)) w.db.api_keys ≡ some key)
    × (key.hash ≡ sha256_hex env token)
    × (is_root context ≡ false)
    × (effective_tenant context requested
        ≡ (if key.tenant_id == "" then tenant_or_default requested else key.tenant_id))

check_token-next :
    (env : Env) (w : World) (bootstrap_key token requested : String) {context : Context}
    → (check_token bootstrap_key token env w).0 ≡ ok (next context)
    → ((token ≡ bootstrap_key) × IsRootRequest context requested)
      ⊎ IsKeyRequest env w token context requested
unfolding check_token safe_compare effective_tenant is_root admit_key tenant_or ◌>>=◌
check_token-next env w bootstrap_key token requested {context} h =
    elim (Bool-cases (token == bootstrap_key)) [
      | inl e ↦ inl (true_eq token bootstrap_key e, (ground arith, ground arith))
      | inr e ↦ elim (Result-cases (ApiKeys.authenticate token env w).0) [
        | inl (tenant_id, k) ↦
            let (key, found, hash, of_tenant, marked) = authenticate-ok env w token tenant_id k in
            inr (key, found, hash, ground arith, ground arith)
        | inr (e', k) ↦ ground arith
      ]
    ]

-- Whatever calls of the driver fail: with a bootstrap key, the gate lets a request on a path that is not
-- public through only with the bootstrap key, as root, or with a key of the table, confined to the
-- tenant of that key.
pub gate-next :
    (env : Env) (w : World) (bootstrap_key : String) (public : List (String → Bool))
    (path token requested : String) {context : Context}
    → bootstrap_key ≢ ""
    → is_public public path ≡ false
    → (gate bootstrap_key public path token env w).0 ≡ ok (next context)
    → ((token ≡ bootstrap_key) × IsRootRequest context requested)
      ⊎ IsKeyRequest env w token context requested
unfolding gate middleware ◌>>=◌
gate-next env w bootstrap_key public path token requested {context} set private h =
    check_token-next env w bootstrap_key token requested {context = context}
      (ground (arith, true_eq bootstrap_key ""))
