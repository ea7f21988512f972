-- ===== src/Api/Login.antt =====
-- api/oidc/oidc_handlers.go: LoginHandler, the sign-in page of the provider. What c.Param, c.FormValue,
-- c.QueryParam and the cookies give is a record of texts; a missing cookie is `none`.
pub mod Silent
pub mod Oracle
use an.Prelude.{
  ℕ, ◌+◌, String, ◌==◌, ◌<>◌, Bool, true, false, not, ◌||◌, Option, none, some, List, [], ◌∷◌,
  if◌then◌else◌,
}
use an.Error.{Error, Result, ok, err, browser_session_not_found}
use an.Rows.{Account, BrowserSession}
use an.Exec.{M, pure, lift, now, try, ◌>>=◌}
use an.Utils.Secrets.{random_token, safe_compare}
use an.Authn
use an.Store.Accounts
use an.Store.BrowserSessions
use an.Oidc
use an.Oidc.Clients.{StaticClient, registry_post_logout_redirect}
use an.Api.Mount.{Cookie, session_cookie, issuer, login_path}

abbrev pub session_cookie_name : String
session_cookie_name = "an_session"

abbrev pub csrf_cookie_name : String
csrf_cookie_name = "an_login_csrf"

-- time.Hour
abbrev pub hour : ℕ
hour = 3600000000000

-- loginPage, which the template is given
pub record LoginPage : Type 0 where
  pub action : String
  pub auth_request_id : String
  pub csrf : String
  pub email : String
  pub error : String

-- c.String, the page, or c.Redirect with 302
pub data Answer : Type 0 where
  text : ℕ → String → Answer
  page : ℕ → LoginPage → Answer
  redirect : String → Answer

-- The cookies that are set, in order, and the answer
pub record Reply : Type 0 where
  pub cookies : List Cookie
  pub body : Answer

pub record LoginRequest : Type 0 where
  pub tenant_id : String
  pub auth_request_id : String
  pub session : Option String

pub record SubmitRequest : Type 0 where
  pub tenant_id : String
  pub auth_request_id : String
  pub email : String
  pub password : String
  pub csrf : String
  pub csrf_cookie : Option String

pub record LogoutRequest : Type 0 where
  pub tenant_id : String
  pub session : Option String
  pub client_id : String
  pub post_logout_redirect_uri : String
  pub state : String

unfoldable pub login_error_message : Error → String
login_error_message (Error.account_locked value until) =
    "Too many failed attempts. Try again later."
login_error_message e = "Incorrect email or password."

abbrev plain : ℕ → String → M Reply
plain status message = pure (record { cookies = []; body = text status message })

-- The account of a session must be there, enabled and not deleted.
unfoldable pub covered : BrowserSession → Result Account → Option BrowserSession
covered session (err e) = none
covered session (ok account) = if account.deleted || not account.enabled then none else some session

unfoldable pub live_account : String → Result BrowserSession → M (Option BrowserSession)
unfolding covered
live_account tenant_id (err e) = pure none
live_account tenant_id (ok session) = do
  account ← try (Accounts.read_by_id tenant_id session.account_id)
  pure (covered session account)

-- The value of a cookie; a missing one and an empty one are the same.
abbrev pub cookie_value : Option String → String
cookie_value none = ""
cookie_value (some value) = value

unfoldable pub live_session : String → Option String → M (Option BrowserSession)
unfolding live_account
live_session tenant_id cookie =
    let value = cookie_value cookie in
    if value == ""
    then pure none
    else do session ← try (BrowserSessions.read tenant_id value); live_account tenant_id session

-- LoginHandler. `configured` is the client behind which the registry looks; `callback_url` is
-- op.AuthCallbackURL of the library for an issuer and an authorization request; `parse_target` is
-- url.Parse and `set_state` writes a state into the query; `execute_template` is ExecuteTemplate of the page
-- "login".
pub record LoginHandler : Type 0 where
  pub public_base_url : String
  pub secure_cookies : Bool
  pub session_expiry : ℕ
  pub configured : Option StaticClient
  pub callback_url : String → String → String
  pub parse_target : String → Option String
  pub set_state : String → String → String
  pub execute_template : LoginPage → Result (Unit {0})

module _ (h : LoginHandler) where
  unfoldable pub login_page : String → String → String → String → String → LoginPage
  unfolding issuer
  login_page tenant_id auth_request_id csrf email message = record {
    action = issuer h.public_base_url tenant_id <> login_path;
    auth_request_id = auth_request_id;
    csrf = csrf;
    email = email;
    error = message;
  }

  abbrev executed : ℕ → LoginPage → Result (Unit {0}) → Result Answer
  executed status given (ok done) = ok (page status given)
  executed status given (err e) = err e

  -- The error is that of the template, which the handler returns.
  unfoldable pub render : ℕ → String → String → String → String → String → Result Answer
  unfolding login_page
  render status tenant_id auth_request_id csrf email message =
      let given = login_page tenant_id auth_request_id csrf email message in
      executed status given (h.execute_template given)

  unfoldable pub completed : List Cookie → String → String → Result (Unit {0}) → Reply
  unfolding issuer
  completed cookies tenant_id auth_request_id (ok done) = record {
    cookies = cookies;
    body = redirect (h.callback_url (issuer h.public_base_url tenant_id) auth_request_id);
  }
  completed cookies tenant_id auth_request_id (err e) = record {
    cookies = cookies;
    body = text 400 "unknown or expired authorization request";
  }

  -- The cookies are those that were set before.
  unfoldable pub complete : List Cookie → String → String → String → ℕ → M Reply
  unfolding completed
  complete cookies tenant_id auth_request_id account_id auth_time = do
    outcome ←
        try (Oidc.authenticate_request tenant_id auth_request_id account_id auth_time ("pwd" ∷ []))
    pure (completed cookies tenant_id auth_request_id outcome)

  -- The page with a new csrf token, or the failure to draw one
  unfoldable pub fresh_page : ℕ → String → String → String → String → Result String → M Reply
  unfolding session_cookie render
  fresh_page status tenant_id auth_request_id email message (err e) =
      plain 500 "could not start login"
  fresh_page status tenant_id auth_request_id email message (ok csrf) = do
    time ← now
    body ← lift (render status tenant_id auth_request_id csrf email message)
    pure (record {
      cookies = session_cookie csrf_cookie_name csrf h.secure_cookies (time + hour) ∷ [];
      body = body;
    })

  unfoldable pub sign_in : LoginRequest → Option BrowserSession → M Reply
  unfolding complete fresh_page
  sign_in request (some session) =
      complete [] request.tenant_id request.auth_request_id session.account_id session.auth_time
  sign_in request none = do
    csrf ← try random_token
    fresh_page 200 request.tenant_id request.auth_request_id "" "" csrf

  unfoldable pub login : LoginRequest → M Reply
  unfolding live_session sign_in
  login request =
      if (request.tenant_id == "") || (request.auth_request_id == "")
      then plain 400 "missing tenant or authorization request"
      else do session ← live_session request.tenant_id request.session; sign_in request session

  unfoldable pub signed_in :
      SubmitRequest → Account → ℕ → Result (BrowserSession × String) → M Reply
  unfolding session_cookie complete
  signed_in request account auth_time (err e) = plain 500 "could not start session"
  signed_in request account auth_time (ok (session, plaintext)) =
      complete
        (session_cookie session_cookie_name plaintext h.secure_cookies session.expires
          ∷ session_cookie csrf_cookie_name "" h.secure_cookies 0
          ∷ [])
        request.tenant_id request.auth_request_id account.id auth_time

  unfoldable pub start_session : SubmitRequest → Result Account → M Reply
  unfolding render login_error_message signed_in
  start_session request (err e) = do
    body ← lift (
        render 401 request.tenant_id request.auth_request_id (cookie_value request.csrf_cookie)
          request.email (login_error_message e))
    pure (record { cookies = []; body = body })
  start_session request (ok account) = do
    auth_time ← now
    session ← try (
        BrowserSessions.create (record {
          id = "";
          token_hash = "";
          tenant_id = request.tenant_id;
          account_id = account.id;
          auth_time = auth_time;
          expires = auth_time + h.session_expiry;
          created = 0;
        }))
    signed_in request account auth_time session

  -- The double-submit check of the form
  unfoldable pub csrf_holds : SubmitRequest → Bool
  csrf_holds request =
      let value = cookie_value request.csrf_cookie in
      not (value == "" || not (safe_compare value request.csrf))

  unfoldable pub submit : SubmitRequest → M Reply
  unfolding csrf_holds fresh_page start_session
  submit request =
      if not (csrf_holds request)
      then try random_token
        >>= fresh_page 400 request.tenant_id request.auth_request_id request.email
            "Your sign-in session expired. Try again."
      else try (Authn.verify_password request.tenant_id request.email request.password)
        >>= start_session request

  -- Does the deletion of a browser session fail; one that is gone is deleted.
  unfoldable pub still_there : Result (Unit {0}) → Bool
  still_there (ok done) = false
  still_there (err browser_session_not_found) = false
  still_there (err e) = true

  abbrev failed : Result (Unit {0}) → Bool
  failed (ok done) = false
  failed (err e) = true

  -- The grants of the subject of the session, if it could be read; is this a failure
  unfoldable pub end_grants : LogoutRequest → Result BrowserSession → M Bool
  end_grants request (err e) = pure false
  end_grants request (ok session) = do
    ended ← try (Oidc.terminate_session request.tenant_id session.account_id request.client_id)
    pure (failed ended)

  -- Is ending the session a failure
  unfoldable pub end_session : LogoutRequest → M Bool
  unfolding still_there end_grants
  end_session request =
      let value = cookie_value request.session in
      if value == "" then pure false else do
        session ← try (BrowserSessions.read request.tenant_id value)
        deleted ← try (BrowserSessions.delete request.tenant_id value)
        if still_there deleted then pure true else end_grants request session

  unfoldable pub target : String → Option String → Answer
  target state none = text 400 "invalid redirect"
  target state (some url) = redirect (if state == "" then url else h.set_state url state)

  unfoldable pub allowed : LogoutRequest → Result (Unit {0}) → Answer
  unfolding target
  allowed request (err e) = text 400 "redirect uri not allowed"
  allowed request (ok done) = target request.state (h.parse_target request.post_logout_redirect_uri)

  unfoldable pub farewell : LogoutRequest → M Answer
  unfolding allowed
  farewell request =
      if request.post_logout_redirect_uri == "" then pure (text 200 "Signed out.") else do
        outcome ← try (
            registry_post_logout_redirect h.configured request.tenant_id request.client_id
              request.post_logout_redirect_uri)
        pure (allowed request outcome)

  unfoldable pub logout : LogoutRequest → M Reply
  unfolding session_cookie end_session farewell
  logout request = do
    failure ← end_session request
    if failure then plain 500 "could not end session" else do
      answer ← farewell request
      pure (record {
        cookies = session_cookie session_cookie_name "" h.secure_cookies 0 ∷ [];
        body = answer;
      })
