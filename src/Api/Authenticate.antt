-- ===== src/Api/Authenticate.antt =====
-- api/authenticate: the handlers of password logons and sessions, of logon codes and of social logons.
use an.Prelude.{String, List}
use an.Error.{Error}
use an.World.{Env, Claims}
use an.Exec.{M}
use an.Gateway.{Context, effective_tenant}
use an.Authn
use an.Authn.{Authenticated}
use an.LogonCode
use an.LogonCode.{IssuedCode}
use an.Social
use an.Social.{Validator}
use an.Api.Problem.{Details, Response, json, Bound, bind_request, reply, new_problem, server_error}
use an.Api.Accounts.{done}

-- AuthenticateRequest, and CodeLogonRequest with the code as its secret
pub record LogonRequest : Type 0 where
  pub tenant_id : String
  pub email : String
  pub client_id : String
  pub secret : String

pub record AcknowledgeRequest : Type 0 where
  pub tenant_id : String
  pub access_token : String
  pub refresh_token : String

-- RenewRequest and ValidateRequest
pub record TokenRequest : Type 0 where
  pub tenant_id : String
  pub token : String

pub record RevokeRequest : Type 0 where
  pub tenant_id : String
  pub email : String
  pub client_id : String

pub record CodeRequest : Type 0 where
  pub tenant_id : String
  pub email : String

pub record SocialLogonRequest : Type 0 where
  pub tenant_id : String
  pub provider : String
  pub id_token : String
  pub client_id : String

unfoldable pub authenticate_problem : Env → Error → Details
unfolding new_problem server_error
authenticate_problem env (Error.account_locked v until) =
    new_problem "Account locked" 423 env (Error.account_locked v until)
authenticate_problem env Error.authentication_failed =
    new_problem "Unauthorized" 401 env Error.authentication_failed
authenticate_problem env (Error.token_invalid v) =
    new_problem "Unauthorized" 401 env (Error.token_invalid v)
authenticate_problem env Error.token_not_acknowledged =
    new_problem "Unauthorized" 401 env Error.token_not_acknowledged
authenticate_problem env Error.token_tenant_mismatch =
    new_problem "Unauthorized" 401 env Error.token_tenant_mismatch
authenticate_problem env (Error.account_not_verified v) =
    new_problem "Forbidden" 403 env (Error.account_not_verified v)
authenticate_problem env (Error.account_disabled v) =
    new_problem "Forbidden" 403 env (Error.account_disabled v)
authenticate_problem env (Error.account_not_found v) =
    new_problem "Unauthorized" 401 env (Error.account_not_found v)
authenticate_problem env (Error.session_not_found v) =
    new_problem "Session not found" 404 env (Error.session_not_found v)
authenticate_problem env e = server_error

unfoldable pub logon_code_problem : Env → Error → Details
unfolding new_problem authenticate_problem
logon_code_problem env Error.logon_code_invalid =
    new_problem "Unauthorized" 401 env Error.logon_code_invalid
logon_code_problem env Error.logon_code_expired =
    new_problem "Unauthorized" 401 env Error.logon_code_expired
logon_code_problem env e = authenticate_problem env e

unfoldable pub social_problem : Env → Error → Details
unfolding new_problem authenticate_problem
social_problem env (Error.provider_not_configured v) =
    new_problem "Provider not configured" 400 env (Error.provider_not_configured v)
social_problem env (Error.social_token_invalid v) =
    new_problem "Unauthorized" 401 env (Error.social_token_invalid v)
social_problem env (Error.email_not_verified v) =
    new_problem "Forbidden" 403 env (Error.email_not_verified v)
social_problem env (Error.social_already_linked v) =
    new_problem "Social identity conflict" 409 env (Error.social_already_linked v)
social_problem env e = authenticate_problem env e

unfoldable pub authenticate : Context → Bound LogonRequest → M (Response Authenticated)
authenticate context body = bind_request body λ request. reply (json 200) authenticate_problem (
    Authn.authenticate (effective_tenant context request.tenant_id) request.email request.client_id
      request.secret)

unfoldable pub acknowledge : Context → Bound AcknowledgeRequest → M (Response (Unit {0}))
acknowledge context body = bind_request body λ request. reply done authenticate_problem (
    Authn.acknowledge (effective_tenant context request.tenant_id)
      (record { access_token = request.access_token; refresh_token = request.refresh_token }))

unfoldable pub renew : Context → Bound TokenRequest → M (Response Authenticated)
renew context body = bind_request body λ request.
    reply (json 200) authenticate_problem
      (Authn.renew (effective_tenant context request.tenant_id) request.token)

unfoldable pub revoke : Context → Bound RevokeRequest → M (Response (Unit {0}))
revoke context body = bind_request body λ request.
    reply done authenticate_problem
      (Authn.revoke (effective_tenant context request.tenant_id) request.email request.client_id)

-- The answer flattens the claims.
unfoldable pub validate : Context → Bound TokenRequest → M (Response Claims)
validate context body = bind_request body λ request.
    reply (json 200) authenticate_problem
      (Authn.validate (effective_tenant context request.tenant_id) request.token)

unfoldable pub request_code : Context → Bound CodeRequest → M (Response IssuedCode)
request_code context body = bind_request body λ request.
    reply (json 200) logon_code_problem
      (LogonCode.request (effective_tenant context request.tenant_id) request.email)

unfoldable pub code_logon : Context → Bound LogonRequest → M (Response Authenticated)
code_logon context body = bind_request body λ request. reply (json 200) logon_code_problem (
    LogonCode.authenticate (effective_tenant context request.tenant_id) request.email
      request.client_id request.secret)

unfoldable pub social_logon :
    List Validator → Context → Bound SocialLogonRequest → M (Response Authenticated)
social_logon validators context body = bind_request body λ request.
    reply (json 200) social_problem (
      Social.authenticate validators (effective_tenant context request.tenant_id) request.provider
        request.id_token request.client_id)
