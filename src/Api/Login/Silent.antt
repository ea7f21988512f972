-- ===== src/Api/Login/Silent.antt =====
-- When the sign-in page completes a request without asking for a password (Login and liveSession of
-- api/oidc/oidc_handlers.go).
use an.Prelude.{
  suc, String, ◌==◌, Bool, true, false, Option, none, some, List, ◌||◌, ◌≡◌, refl, ap, ◌∙◌, subst,
  arith, ltb, true_eq, Bool-cases, inl, inr, if◌then◌else◌,
}
use an.Error.{Result, ok, err}
use an.World.{Db, World, Env}
use an.Rows.{BrowserSession}
use an.Table
use an.Exec.{lift, pure, ◌>>=◌, M, pure, try}
use an.Exec.Rules.{bind-ok}
use an.Utils.Secrets.{sha256_hex, random_token}
use an.Store.Accounts
use an.Store.Accounts.{has_id, scan_account, scanned}
use an.Store.BrowserSessions
use an.Store.BrowserSessions.{has_hash}
use an.Authn.Lifecycle.{IsActive}
use an.Api.Mount.{Cookie}
use an.Api.Login.{
  LoginPage, executed, render, login_page, LoginHandler, Reply, redirect, LoginRequest, login,
  live_session, live_account, sign_in, covered, cookie_value, fresh_page,
}

module _ (tenant_id : String) (env : Env) where
  read-ok :
      (value : String) (w : World) {session : BrowserSession}
      → (BrowserSessions.read tenant_id value env w).0 ≡ ok session
      → (Table.find (has_hash (sha256_hex env value)) w.db.browser_sessions ≡ some session)
        × ((session.tenant_id == tenant_id) ≡ true)
        × (ltb session.expires (env.clock (suc w.step)) ≡ false)
  unfolding BrowserSessions.read sha256_hex ◌>>=◌
  read-ok value w h = ground arith

  db-read : (value : String) (w : World) → (BrowserSessions.read tenant_id value env w).1.db ≡ w.db
  unfolding BrowserSessions.read sha256_hex ◌>>=◌
  db-read value w = ground arith

  account-ok :
      (found : BrowserSession) (w : World) {session : BrowserSession}
      → (live_account tenant_id (ok found) env w).0 ≡ ok (some session)
      → (found ≡ session) × IsActive (Table.find (has_id tenant_id found.account_id) w.db.accounts)
  unfolding live_account covered Accounts.read_by_id scan_account ◌>>=◌
  account-ok found w h = ground arith

  live_account-some :
      (found : Result BrowserSession) (w : World) {session : BrowserSession}
      → (live_account tenant_id found env w).0 ≡ ok (some session)
      → (found ≡ ok session)
        × IsActive (Table.find (has_id tenant_id session.account_id) w.db.accounts)
  unfolding live_account ◌>>=◌
  live_account-some (ok found) w h =
      let (same, active) = account-ok found w h in
      (
        ap ok same,
        subst
            (λ (x : BrowserSession).
              IsActive (Table.find (has_id tenant_id x.account_id) w.db.accounts))
            same active,
      )
  live_account-some (err e) w h = cc

  -- The session of a cookie is stored, not expired, and of a live account.
  abbrev pub IsLive : String → World → BrowserSession → Type 0
  IsLive value w session =
      (Table.find (has_hash (sha256_hex env value)) w.db.browser_sessions ≡ some session)
      × (session.tenant_id ≡ tenant_id)
      × (ltb session.expires (env.clock (suc w.step)) ≡ false)
      × IsActive (Table.find (has_id tenant_id session.account_id) w.db.accounts)

  after_read :
      (value : String) (w : World) {session : BrowserSession}
      → (live_account tenant_id
          (BrowserSessions.read tenant_id value env w).0
          env
          (BrowserSessions.read tenant_id value env w).1).0
        ≡ ok (some session)
      → IsLive value w session
  after_read value w {session} h =
      let (found, active) =
        live_account-some (BrowserSessions.read tenant_id value env w).0
          (BrowserSessions.read tenant_id value env w).1 h in
      let (stored, tenant, in_time) = read-ok value w found in
      (
        stored,
        true_eq session.tenant_id tenant_id tenant,
        in_time,
        subst (λ (db : Db). IsActive (Table.find (has_id tenant_id session.account_id) db.accounts))
            (db-read value w) active,
      )

  with_cookie :
      (b : Bool) (value : String) (w : World) {session : BrowserSession}
      → ((if b
            then pure none
            else try (BrowserSessions.read tenant_id value) >>= live_account tenant_id)
          env w).0
        ≡ ok (some session)
      → IsLive value w session
  unfolding ◌>>=◌
  with_cookie true value w h = cc
  with_cookie false value w h = after_read value w h

  live_session-some :
      (cookie : Option String) (w : World) {session : BrowserSession}
      → (live_session tenant_id cookie env w).0 ≡ ok (some session)
      → IsLive (cookie_value cookie) w session
  unfolding live_session
  live_session-some cookie w h = with_cookie (cookie_value cookie == "") (cookie_value cookie) w h

module _ (h : LoginHandler) where
  -- A redirect is the end of a request that a session covers.
  abbrev Redirects : Result Reply → String → Type 0
  Redirects r url =
      (cookies : List Cookie) × (r ≡ ok (record { cookies = cookies; body = redirect url }))

  -- A page that is rendered redirects nowhere.
  no_redirect :
      (cookies : List Cookie) (outcome : Result (Unit {0})) (given : LoginPage) (env : Env)
      (w : World) (url : String)
      → Redirects
          ((lift (executed h 200 given outcome) >>= λ body.
              pure (record { cookies = cookies; body = body }))
            env w).0
          url
      → ⊥
  unfolding ◌>>=◌
  no_redirect cookies (ok done) given env w url (others, e) = cc
  no_redirect cookies (err x) given env w url (others, e) = cc

  asks_password :
      (csrf : Result String) (request : LoginRequest) (env : Env) (w : World) (url : String)
      → Redirects
          (fresh_page h 200 request.tenant_id request.auth_request_id "" "" csrf env w).0
          url
      → ⊥
  unfolding fresh_page render ◌>>=◌
  asks_password (ok csrf) request env w url redirects =
      no_redirect _
        (h.execute_template (login_page h request.tenant_id request.auth_request_id csrf "" ""))
        (login_page h request.tenant_id request.auth_request_id csrf "" "") env _ url redirects
  asks_password (err x) request env w url (cookies, e) = cc

  sign_in-redirect :
      (found : Option BrowserSession) (request : LoginRequest) (env : Env) (w : World)
      (url : String)
      → Redirects (sign_in h request found env w).0 url
      → (session : BrowserSession) × (found ≡ some session)
  unfolding sign_in ◌>>=◌
  sign_in-redirect none request env w url e =
      elim (asks_password (random_token env w).0 request env (random_token env w).1 url e) [ ]
  sign_in-redirect (some session) request env w url e = (session, refl)

  module _ (request : LoginRequest) where
    missing : Bool
    missing = (request.tenant_id == "") || (request.auth_request_id == "")

    refused :
        (env : Env) (w : World) (url : String)
        → missing ≡ true
        → Redirects (login h request env w).0 url
        → ⊥
    unfolding login missing ◌>>=◌
    refused env w url e (cookies, k) = ground arith

    goes_on :
        missing ≡ false
        → login h request ≡ live_session request.tenant_id request.session >>= sign_in h request
    unfolding login missing
    goes_on e = rw e

  -- Whatever calls of the driver fail: the sign-in page completes a request without a password only with
  -- the cookie of a stored browser session of the tenant that is not expired, whose account is stored,
  -- enabled and not deleted.
  pub login-silent :
      (env : Env) (w : World) (request : LoginRequest) (cookies : List Cookie) (url : String)
      → (login h request env w).0 ≡ ok (record { cookies = cookies; body = redirect url })
      → (session : BrowserSession) × IsLive request.tenant_id env
          (cookie_value request.session)
          w
          session
  login-silent env w request cookies url e = elim (Bool-cases (missing request)) [
    | inl m ↦ elim (refused request env w url m (cookies, e)) [ ]
    | inr m ↦
        let (found, first, second, _) =
          bind-ok (live_session request.tenant_id request.session) (sign_in h request) env w (
            subst
              (λ (run : M Reply).
                (run env w).0 ≡ ok (record { cookies = cookies; body = redirect url }))
              (goes_on request m) e) in
        let (session, same) =
          sign_in-redirect found request env
            (live_session request.tenant_id request.session env w).1 url (cookies, second) in
        (session, live_session-some request.tenant_id env request.session w (first ∙ ap ok same))
  ]
