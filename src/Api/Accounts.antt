-- ===== src/Api/Accounts.antt =====
-- api/accounts/account_handlers.go.
use an.Prelude.{String, List}
use an.Error.{Error}
use an.World.{Env}
use an.Exec.{M}
use an.Gateway.{Context, effective_tenant}
use an.Accounts
use an.Accounts.{Revoker, RegisteredAccount, ResetToken}
use an.Api.Problem.{
  Details, Response, json, no_content, Bound, bind_request, reply, new_problem, server_error,
}

pub record RegisterAccountRequest : Type 0 where
  pub tenant_id : String
  pub email : String
  pub password : String
  pub name : String

pub record UpdateNameRequest : Type 0 where
  pub tenant_id : String
  pub email : String
  pub name : String

pub record VerifyAccountRequest : Type 0 where
  pub tenant_id : String
  pub email : String
  pub verification_token : String

-- ResendVerificationRequest, ForgotPasswordRequest and DeleteAccountRequest
pub record AccountRequest : Type 0 where
  pub tenant_id : String
  pub email : String

pub record ResetPasswordRequest : Type 0 where
  pub tenant_id : String
  pub email : String
  pub reset_token : String
  pub new_password : String

pub record UpdatePasswordRequest : Type 0 where
  pub tenant_id : String
  pub email : String
  pub current_password : String
  pub new_password : String

unfoldable pub account_problem : Env → Error → Details
unfolding new_problem server_error
account_problem env (Error.account_not_found v) =
    new_problem "Account not found" 404 env (Error.account_not_found v)
account_problem env (Error.account_duplicate v) =
    new_problem "Duplicate account" 409 env (Error.account_duplicate v)
account_problem env (Error.invalid_account v) =
    new_problem "Invalid account request" 400 env (Error.invalid_account v)
account_problem env (Error.verification_failed v) =
    new_problem "Verification failed" 401 env (Error.verification_failed v)
account_problem env Error.reset_token_invalid =
    new_problem "Invalid reset token" 401 env Error.reset_token_invalid
account_problem env Error.reset_token_expired =
    new_problem "Reset token expired" 401 env Error.reset_token_expired
account_problem env e = server_error

-- c.NoContent(http.StatusNoContent)
abbrev pub done {ℓ} : {A : Type ℓ} → A → Response (Unit {0})
done a = no_content

unfoldable pub register : Context → Bound RegisterAccountRequest → M (Response RegisteredAccount)
register context body = bind_request body λ request. reply (json 201) account_problem (
    Accounts.register (effective_tenant context request.tenant_id) request.email request.password
      request.name)

unfoldable pub update_name : Context → Bound UpdateNameRequest → M (Response (Unit {0}))
update_name context body = bind_request body λ request.
    reply done account_problem
      (Accounts.update_name (effective_tenant context request.tenant_id) request.email request.name)

unfoldable pub verify : Context → Bound VerifyAccountRequest → M (Response (Unit {0}))
verify context body = bind_request body λ request. reply done account_problem (
    Accounts.verify (effective_tenant context request.tenant_id) request.email
      request.verification_token)

unfoldable pub resend_verification : Context → Bound AccountRequest → M (Response String)
resend_verification context body = bind_request body λ request.
    reply (json 200) account_problem
      (Accounts.resend_verification (effective_tenant context request.tenant_id) request.email)

unfoldable pub forgot : Context → Bound AccountRequest → M (Response ResetToken)
forgot context body = bind_request body λ request.
    reply (json 200) account_problem
      (Accounts.forgot (effective_tenant context request.tenant_id) request.email)

module _ (revokers : List Revoker) where
  unfoldable pub reset : Context → Bound ResetPasswordRequest → M (Response (Unit {0}))
  reset context body = bind_request body λ request. reply done account_problem (
      Accounts.reset revokers (effective_tenant context request.tenant_id) request.email
        request.reset_token request.new_password)

  unfoldable pub update_password : Context → Bound UpdatePasswordRequest → M (Response (Unit {0}))
  update_password context body = bind_request body λ request. reply done account_problem (
      Accounts.update_password revokers (effective_tenant context request.tenant_id) request.email
        request.current_password request.new_password)

  unfoldable pub delete : Context → Bound AccountRequest → M (Response (Unit {0}))
  delete context body = bind_request body λ request.
      reply done account_problem
        (Accounts.delete revokers (effective_tenant context request.tenant_id) request.email)
