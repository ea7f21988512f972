-- ===== src/Api/Login/Oracle.antt =====
-- What a sign-in that fails tells (Submit and loginErrorMessage of api/oidc/oidc_handlers.go).
use an.Prelude.{String, Bool, true, false, ◌≡◌, ap, ◌∙◌, arith, [], inl, inr}
use an.Error.{Error, Result, ok, err, Result-cases}
use an.World.{World, Env}
use an.Exec.{◌>>=◌, try}
use an.Authn
use an.Api.Login.{
  LoginHandler, Answer, Reply, SubmitRequest, submit, csrf_holds, start_session,
  login_error_message, render, cookie_value,
}

-- Is the error that of a locked account
abbrev pub is_locked : Error → Bool
is_locked (Error.account_locked value until) = true
is_locked e = false

abbrev pub generic : String
generic = "Incorrect email or password."

generic_message : (e : Error) → is_locked e ≡ false → login_error_message e ≡ generic
unfolding login_error_message
generic_message e h = ground arith

-- The page without a cookie, or the error of its template
abbrev pub no_cookies : Result Answer → Result Reply
no_cookies (ok body) = ok (record { cookies = []; body = body })
no_cookies (err e) = err e

module _ (h : LoginHandler) (request : SubmitRequest) where
  -- The page of a sign-in that fails
  abbrev pub failed_page : Result Reply
  failed_page = no_cookies (
      render h 401 request.tenant_id request.auth_request_id (cookie_value request.csrf_cookie)
        request.email generic)

  submit_checks :
      csrf_holds h request ≡ true
      → submit h request
        ≡ try (Authn.verify_password request.tenant_id request.email request.password)
          >>= start_session h request
  unfolding submit
  submit_checks e = rw e

  start_session-err :
      (env : Env) (w : World) (e : Error)
      → is_locked e ≡ false
      → (start_session h request (err e) env w).0 ≡ failed_page
  unfolding start_session ◌>>=◌
  start_session-err env w e other =
      elim (Result-cases (
        render h 401 request.tenant_id request.auth_request_id (cookie_value request.csrf_cookie)
          request.email generic)) [
            | inl (body, rendered) ↦ rw (generic_message e other, rendered)
            | inr (f, failed) ↦ rw (generic_message e other, failed)
          ]

  run_checks :
      (env : Env) (w : World) {e : Error}
      → (Authn.verify_password request.tenant_id request.email request.password env w).0 ≡ err e
      → is_locked e ≡ false
      → ((try (Authn.verify_password request.tenant_id request.email request.password)
            >>= start_session h request)
          env w).0
        ≡ failed_page
  unfolding ◌>>=◌
  run_checks env w {e} failed other =
      let after : World =
        (Authn.verify_password request.tenant_id request.email request.password env w).1 in
      ap (λ r. (start_session h request r env after).0) failed ∙ start_session-err env after e other

  -- Whatever is stored and whatever fails: a sign-in with a good csrf token that the check of the
  -- password refuses is answered with the same page, or the same error of its template, which depends on nothing but the form, unless the
  -- account is locked; no cookie is set.
  pub submit-generic :
      (env : Env) (w : World) {e : Error}
      → csrf_holds h request ≡ true
      → (Authn.verify_password request.tenant_id request.email request.password env w).0 ≡ err e
      → is_locked e ≡ false
      → (submit h request env w).0 ≡ failed_page
  submit-generic env w form failed other =
      ap (λ run. (run env w).0) (submit_checks form) ∙ run_checks env w failed other
