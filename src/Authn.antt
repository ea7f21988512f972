-- ===== src/Authn.antt =====
-- internal/authn/authn.go: DefaultAuthenticationService.
pub mod Lockout
pub mod Renewal
pub mod Lifecycle
pub mod Gate
use an.Prelude.{ℕ, String, ◌==◌, not, ◌||◌, Option, none, some, ltb, if◌then◌else◌}
use an.Error.{
  Error, Result, ok, err, account_not_found, authentication_failed, account_disabled,
  account_not_verified, account_locked, session_not_found, token_not_acknowledged,
  token_tenant_mismatch, token_invalid,
}
use an.Rows.{Account, Session, FailedAttempt}
use an.World.{Claims}
use an.Exec.{M, pure, throw, lift, asks, now, try, fail_if, ◌>>=◌, ◌>>◌}
use an.Utils.Secrets.{bcrypt_verify}
use an.Store.Accounts
use an.Store.Sessions
use an.Store.Attempts
use an.Tokens

pub record Authenticated : Type 0 where
  pub access_token : String
  pub refresh_token : String

-- What checkLockout does with the record of attempts: an expired lock is forgotten.
unfoldable pub check_attempt : String → String → Option FailedAttempt → M (Unit {0})
check_attempt tenant_id email none = pure tt
check_attempt tenant_id email (some attempt) = elim attempt.locked_until [
  | none ↦ pure tt
  | some until ↦ do
    time ← now
    if ltb time until then throw (account_locked email until) else Attempts.clear tenant_id email
]

unfoldable pub check_lockout : String → String → M (Unit {0})
unfolding check_attempt
check_lockout tenant_id email = do
  attempt ← Attempts.get tenant_id email
  check_attempt tenant_id email attempt

-- A missing account becomes the generic failure, any other error passes.
unfoldable pub hide_missing : Result Account → Result Account
hide_missing (ok account) = ok account
hide_missing (err (account_not_found email)) = err authentication_failed
hide_missing (err e) = err e

unfoldable pub gate_logon : String → String → M Account
unfolding hide_missing
gate_logon tenant_id email = do
  check_lockout tenant_id email
  found ← try (Accounts.read tenant_id email)
  account ← lift (hide_missing found)
  fail_if account.deleted authentication_failed
  fail_if (not account.enabled) (account_disabled email)
  fail_if (not account.verified) (account_not_verified email)
  pure account

-- The error that a failure reports: the lock that it set, or the generic one
unfoldable pub failure_of : String → ℕ → Option ℕ → Error
failure_of email time none = authentication_failed
failure_of email time (some until) =
    if ltb time until then account_locked email until else authentication_failed

-- Counts a failed logon and reports it. It never returns a value.
unfoldable pub count_failure : {A : Type 0} → String → String → M A
unfolding failure_of
count_failure tenant_id email = do
  max ← asks (λ env. env.config.max_attempts)
  lock_for ← asks (λ env. env.config.lockout_duration)
  locked_until ← Attempts.increment_and_lock tenant_id email max lock_for
  time ← now
  throw (failure_of email time locked_until)

unfoldable pub verify_password : String → String → String → M Account
verify_password tenant_id email password = do
  account ← gate_logon tenant_id email
  match ← bcrypt_verify account.password_hash password
  if not match
      then count_failure tenant_id email
      else do Attempts.clear tenant_id email; pure account

-- A token pair and the claims of its refresh token. The session store is not touched.
unfoldable pub issue : String → String → String → M (Authenticated × Claims)
issue tenant_id email client_id = do
  access ← Tokens.create_access_token tenant_id email client_id
  refresh ← Tokens.create_refresh_token tenant_id email client_id
  pure (record { access_token = access.0; refresh_token = refresh.0 }, refresh.1)

unfoldable pub authenticate : String → String → String → String → M Authenticated
authenticate tenant_id email client_id password = do
  verify_password tenant_id email password
  issued ← issue tenant_id email client_id
  pure issued.0

-- The session that Acknowledge stores
unfoldable pub session_of : String → Claims → Sessions.NewSession
session_of tenant_id claims = record {
  tenant_id = tenant_id;
  email = claims.subject;
  client_id = claims.client_id;
  refresh_jti = claims.id;
  expires = claims.expires_at;
}

unfoldable pub acknowledge : String → Authenticated → M (Unit {0})
unfolding session_of
acknowledge tenant_id authenticated = do
  access ← Tokens.validate_access_token authenticated.access_token
  refresh ← Tokens.validate_refresh_token authenticated.refresh_token
  fail_if (not (access.tenant_id == tenant_id) || not (refresh.tenant_id == tenant_id))
      token_tenant_mismatch
  fail_if (not (access.client_id == refresh.client_id) || not (access.subject == refresh.subject))
      (token_invalid "access and refresh tokens do not belong together")
  Sessions.upsert (session_of tenant_id refresh)

unfoldable pub hide_session : Result Session → Result Session
hide_session (ok session) = ok session
hide_session (err (session_not_found key)) = err token_not_acknowledged
hide_session (err e) = err e

unfoldable pub read_session : String → String → String → M Session
unfolding hide_session
read_session tenant_id email client_id = do
  found ← try (Sessions.read tenant_id email client_id)
  lift (hide_session found)

unfoldable pub live_account : String → String → M Account
live_account tenant_id email = do
  account ← Accounts.read tenant_id email
  fail_if (account.deleted || not account.enabled) authentication_failed
  pure account

unfoldable pub validate : String → String → M Claims
validate tenant_id access_token = do
  claims ← Tokens.validate_access_token access_token
  fail_if (not (claims.tenant_id == tenant_id)) token_tenant_mismatch
  read_session tenant_id claims.subject claims.client_id
  live_account tenant_id claims.subject
  pure claims

-- What Renew does with a valid refresh token: only the latest one of a session rotates it.
unfoldable pub rotate_session : String → Claims → M Authenticated
rotate_session tenant_id claims = do
  live_account tenant_id claims.subject
  issued ← issue tenant_id claims.subject claims.client_id
  rotated ←
      Sessions.rotate tenant_id claims.subject claims.client_id claims.id issued.1.id
        issued.1.expires_at
  fail_if (not rotated) token_not_acknowledged
  pure issued.0

unfoldable pub renew : String → String → M Authenticated
renew tenant_id refresh_token = do
  claims ← Tokens.validate_refresh_token refresh_token
  fail_if (not (claims.tenant_id == tenant_id)) token_tenant_mismatch
  rotate_session tenant_id claims

unfoldable pub revoke : String → String → String → M (Unit {0})
revoke tenant_id email client_id =
    if client_id == ""
    then Sessions.delete_all tenant_id email
    else Sessions.delete tenant_id email client_id
