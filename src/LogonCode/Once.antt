-- ===== src/LogonCode/Once.antt =====
-- Authenticate of internal/authn/logon_code.go: the stored code, and the lock.
use an.Prelude.{String, not, Bool, true, false, ◌≡◌, arith, some, ℕ, suc, ◌<◌}
use an.Error.{ok, err, account_locked}
use an.World.{Db, World, Env}
use an.Rows.{FailedAttempt}
use an.Table
use an.Table.Laws.{any-delete_self}
use an.Exec.{◌>>=◌}
use an.Exec.Rules.{reliable, ReadOnly-pure, ReadOnly-bind}
use an.Exec.Makes.{
  Makes, Keeps, Makes-then, Makes-first, Makes-throw, Makes-if, Keeps-bind, Makes-exec, Keeps-exec,
  Keeps-affect, Keeps-ReadOnly,
}
use an.Store.Accounts
use an.Store.Attempts
use an.Store.Attempts.Laws.{recorded}
use an.Store.Codes
use an.Authn
use an.Authn.{Authenticated}
use an.Authn.Renewal.{ReadOnly-issue}
use an.LogonCode.{accept_code, authenticate, verify_unless}

-- While a lock is in force, a code is refused whatever it is, no call of the driver failing.
pub authenticate-locked :
    (env : Env) (w : World) (tenant_id email client_id text : String) {row : FailedAttempt}
    {until : ℕ}
    → recorded tenant_id email w.db ≡ some row
    → row.locked_until ≡ some until
    → env.clock (suc w.step) < until
    → (authenticate tenant_id email client_id text (reliable env) w).0
      ≡ err (account_locked email until)
unfolding authenticate Authn.check_lockout Attempts.get ◌>>=◌
authenticate-locked env w tenant_id email client_id text found locked before = ground arith

module _ (tenant_id email client_id text : String) where
  -- Is a logon code stored for the account
  abbrev pub has_code : Db → Bool
  has_code db = Table.any (Codes.is_code tenant_id email) db.logon_codes

  Makes-code : Makes (Codes.delete tenant_id email) (λ db. has_code db ≡ false)
  unfolding Codes.delete
  Makes-code = Makes-exec _ λ time db. any-delete_self _ db.logon_codes

  Keeps-verify_unless :
      (verified : Bool) → Keeps (verify_unless verified tenant_id email) (λ db. has_code db ≡ false)
  unfolding verify_unless Accounts.set_verified Accounts.update
  Keeps-verify_unless true = Keeps-ReadOnly _ (ReadOnly-pure tt)
  Keeps-verify_unless false = Keeps-affect _ _ _ λ time db h. h

  Makes-accept_code :
      (verified : Bool)
      → Makes (accept_code tenant_id email client_id verified) (λ db. has_code db ≡ false)
  unfolding accept_code Attempts.clear
  Makes-accept_code verified = Makes-first _ _ Makes-code λ _.
      Keeps-bind _ _ (Keeps-exec _ λ time db h. h) λ _.
        Keeps-bind _ _ (Keeps-verify_unless verified) λ _.
          Keeps-ReadOnly _
            (ReadOnly-bind _ _ (ReadOnly-issue tenant_id email client_id) λ issued. ReadOnly-pure _)

  Makes-count_failure :
      {q : Db → Type 0} → Makes (Authn.count_failure {A = Authenticated} tenant_id email) q
  unfolding Authn.count_failure
  Makes-count_failure =
      Makes-then _ _ λ max.
        Makes-then _ _ λ lock_for. Makes-then _ _ λ until. Makes-then _ _ λ time. Makes-throw _

  Makes-authenticate :
      Makes (authenticate tenant_id email client_id text) (λ db. has_code db ≡ false)
  unfolding authenticate
  Makes-authenticate = Makes-then _ _ λ _. Makes-then _ _ λ _. Makes-then _ _ λ found.
      Makes-then _ _ λ account. Makes-then _ _ λ _. Makes-then _ _ λ _. Makes-then _ _ λ stored.
        Makes-then _ _
          λ match. Makes-if (not match) _ _ Makes-count_failure (Makes-accept_code account.verified)

  -- Whatever calls of the driver fail: after a logon by code that succeeds, no code is stored for the
  -- account.
  pub authenticate-has_code :
      (env : Env) (w : World) {issued : Authenticated}
      → (authenticate tenant_id email client_id text env w).0 ≡ ok issued
      → has_code (authenticate tenant_id email client_id text env w).1.db ≡ false
  authenticate-has_code env w h = Makes-authenticate.at env w h
