-- ===== src/Api/ApiKeys.antt =====
-- api/apikeys/apikey_handlers.go.
use an.Prelude.{String, List, not, if◌then◌else◌}
use an.Error.{Error, untyped}
use an.Rows.{ApiKey}
use an.World.{Env}
use an.Exec.{M, asks}
use an.Gateway.{Context, effective_tenant, is_root}
use an.ApiKeys
use an.ApiKeys.{CreatedApiKey}
use an.Api.Problem.{
  Details, Response, json, problem, Bound, bind_request, reply, new_problem, server_error,
}
use an.Api.Accounts.{done}

pub record CreateApiKeyRequest : Type 0 where
  pub tenant_id : String
  pub name : String

pub record ListApiKeysRequest : Type 0 where
  pub tenant_id : String

pub record RevokeApiKeyRequest : Type 0 where
  pub tenant_id : String
  pub id : String

unfoldable pub api_key_problem : Env → Error → Details
unfolding new_problem server_error
api_key_problem env (Error.api_key_not_found v) =
    new_problem "Api key not found" 404 env (Error.api_key_not_found v)
api_key_problem env (Error.api_key_duplicate v) =
    new_problem "Duplicate api key" 409 env (Error.api_key_duplicate v)
api_key_problem env (Error.invalid_api_key_request v) =
    new_problem "Invalid api key request" 400 env (Error.invalid_api_key_request v)
api_key_problem env e = server_error

unfoldable pub forbidden : Env → Details
unfolding new_problem
forbidden env =
    new_problem "Forbidden" 403 env (untyped "api key management requires the bootstrap key")

-- The guard of the handlers that need the bootstrap key
unfoldable pub root_only :
    {A : Type 0} → (Env → Details) → Context → M (Response A) → M (Response A)
root_only refusal context serve =
    if not (is_root context) then asks (λ env. problem (refusal env)) else serve

unfoldable pub create : Context → Bound CreateApiKeyRequest → M (Response CreatedApiKey)
unfolding root_only forbidden
create context body = root_only forbidden context (
    bind_request body λ request.
      reply (json 201) api_key_problem
        (ApiKeys.create (effective_tenant context request.tenant_id) request.name))

unfoldable pub list : Context → Bound ListApiKeysRequest → M (Response (List ApiKey))
unfolding root_only forbidden
list context body = root_only forbidden context (
    bind_request body λ request.
      reply (json 200) api_key_problem (ApiKeys.list (effective_tenant context request.tenant_id)))

unfoldable pub revoke : Context → Bound RevokeApiKeyRequest → M (Response (Unit {0}))
unfolding root_only forbidden
revoke context body = root_only forbidden context (
    bind_request body λ request.
      reply done api_key_problem
        (ApiKeys.revoke (effective_tenant context request.tenant_id) request.id))
