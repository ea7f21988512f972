-- ===== src/Tests/Pages.antt =====
-- The theorems on the pages, the handlers and the configuration at concrete inputs.
use an.Prelude.{◌<>◌, true, false, none, some, [], ◌∷◌, ◌≡◌, refl}
use an.Error.{ok, err, authentication_failed}
use an.Rows.{BrowserSession, AuthRequest}
use an.World.{World}
use an.Table
use an.Exec.{affect, ◌>>=◌}
use an.Utils.Text.{has_char, trim_slash}
use an.Utils.Secrets.{sha256_hex, safe_compare}
use an.Utils.Hex.{hex_encode, hex_digit}
use an.Authn
use an.Store.Accounts
use an.Store.Attempts
use an.Store.BrowserSessions
use an.Store.AuthRequests
use an.Oidc.{authenticate_request, tenant_from}
use an.Api.Mount.{serve, tenant_handler, issuer}
use an.Api.Mount.Paths.{tenant_path, tenant_handler_lem}
use an.Api.Login.{
  LoginHandler, LoginRequest, SubmitRequest, LogoutRequest, redirect, login, submit, live_session,
  live_account, covered, sign_in, complete, completed, csrf_holds,
}
use an.Api.Login.Silent.{IsLive, login-silent}
use an.Api.Login.Oracle.{submit-generic, failed_page}
use an.Tests.{env, world_of, db, empty, different}

abbrev pub browser_session : BrowserSession
browser_session = record {
  id = "sid";
  token_hash = "06";
  tenant_id = "t";
  account_id = "id-ann";
  auth_time = 1;
  expires = 900;
  created = 1;
}

abbrev pub pending : AuthRequest
pending = record {
  id = "req";
  tenant_id = "t";
  client_id = "web";
  subject = "";
  redirect_uri = "https://web.x/back";
  response_type = "code";
  response_mode = "";
  scopes = "openid" ∷ [];
  state = "s";
  nonce = "n";
  code_challenge = "";
  code_challenge_method = "";
  code_hash = none;
  amr = [];
  auth_time = none;
  complete = false;
  expires = 900;
  created = 1;
  modified = 1;
}

abbrev pub browsing : World
browsing =
    world_of (record db { browser_sessions = browser_session ∷ []; auth_requests = pending ∷ [] })

abbrev handler : LoginHandler
handler = record {
  public_base_url = "https://id.x";
  secure_cookies = true;
  session_expiry = 500;
  configured = none;
  callback_url = λ issuer id. issuer <> ("/authorize/callback?id=" <> id);
  parse_target = λ uri. some uri;
  set_state = λ uri state. uri <> ("?state=" <> state);
  execute_template = λ given. ok tt;
}

abbrev opened : LoginRequest
opened = record { tenant_id = "t"; auth_request_id = "req"; session = some "cookie" }

abbrev sent : SubmitRequest
sent = record {
  tenant_id = "t";
  auth_request_id = "req";
  email = "ann@x.io";
  password = "wrong";
  csrf = "token";
  csrf_cookie = some "token";
}

abbrev left : LogoutRequest
left = record {
  tenant_id = "t";
  session = some "cookie";
  client_id = "";
  post_logout_redirect_uri = "";
  state = "";
}

silent_reply :
    (login handler opened env browsing).0
    ≡ ok (record { cookies = []; body = redirect "https://id.x/t/t/authorize/callback?id=req" })
unfolding login live_session live_account covered sign_in complete completed authenticate_request
    tenant_from BrowserSessions.read Accounts.read_by_id AuthRequests.authenticate
    AuthRequests.update affect sha256_hex hex_encode hex_digit issuer trim_slash Table.find
    Table.count Table.update ◌>>=◌
silent_reply = refl

login-silent_example : (session : BrowserSession) × IsLive "t" env "cookie" browsing session
login-silent_example =
    login-silent handler env browsing opened [] "https://id.x/t/t/authorize/callback?id=req"
      silent_reply

unknown_fails :
    (Authn.verify_password "t" "ann@x.io" "wrong" env empty).0 ≡ err authentication_failed
unfolding Authn.verify_password Authn.gate_logon Authn.check_lockout Authn.check_attempt
    Attempts.get Accounts.read Authn.hide_missing Table.find ◌>>=◌
unknown_fails = refl

form_holds : csrf_holds handler sent ≡ true
unfolding csrf_holds safe_compare
form_holds = refl

submit-generic_example : (submit handler sent env empty).0 ≡ failed_page handler sent
submit-generic_example = submit-generic handler sent env empty form_holds unknown_fails refl

tenant_handler_example :
    tenant_handler "https://id.x/" (tenant_path "acme" "login")
    ≡ serve "acme" (issuer "https://id.x/" "acme") "/login"
unfolding has_char
tenant_handler_example =
    tenant_handler_lem "https://id.x/" "acme" "login" (different "acme" "" refl) refl
