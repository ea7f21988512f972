-- ===== src/Authn/Gate.antt =====
-- The gate of a password logon (gateLogon of internal/authn/authn.go).
use an.Prelude.{
  ℕ, suc, ◌≤◌, ◌≡◌, String, true, false, none, some, arith, subst, sym, Option-cases, inl, inr,
}
use an.Error.{ok, err, authentication_failed}
use an.Rows.{Account}
use an.Table
use an.Table.Laws.{find-delete_self}
use an.World.{World, Env, same}
use an.Exec.{◌>>=◌, exec}
use an.Exec.Rules.{reliable}
use an.Utils.Secrets.{bcrypt_verify}
use an.Store.Accounts
use an.Store.Accounts.{is_account, scan_account, scanned}
use an.Store.Attempts
use an.Store.Attempts.{is_attempt}
use an.Store.Attempts.Laws.{recorded, lock_of, IsOver}
use an.Authn.{verify_password, gate_logon, check_lockout, count_failure}

module _ (env : Env) (w : World) (tenant_id email : String) where
  accounts-check_lockout : (check_lockout tenant_id email env w).1.db.accounts ≡ w.db.accounts
  unfolding exec check_lockout Attempts.get Attempts.clear ◌>>=◌
  accounts-check_lockout = ground arith

  check_lockout-ok :
      (until : ℕ)
      → (check_lockout tenant_id email env w).0 ≡ ok tt
      → lock_of (recorded tenant_id email w.db) ≡ some until
      → until ≤ env.clock (suc w.step)
  unfolding check_lockout Attempts.get Attempts.clear ◌>>=◌
  check_lockout-ok until h locked = ground arith

  check_lockout-IsOver :
      (check_lockout tenant_id email env w).0 ≡ ok tt
      → IsOver (lock_of (recorded tenant_id email w.db)) (env.clock (suc w.step))
  check_lockout-IsOver h = elim (Option-cases (lock_of (recorded tenant_id email w.db))) [
    | inl e ↦ subst (λ lock. IsOver lock (env.clock (suc w.step))) (sym e) tt
    | inr (until, e) ↦
        subst (λ lock. IsOver lock (env.clock (suc w.step))) (sym e) (check_lockout-ok until h e)
  ]

  -- What a passed gate says of the account
  pub gate_logon-ok :
      {account : Account}
      → (gate_logon tenant_id email env w).0 ≡ ok account
      → (scanned (Table.find (is_account tenant_id email) w.db.accounts) ≡ some account)
        × (account.deleted ≡ false)
        × (account.enabled ≡ true)
        × (account.verified ≡ true)
        × ((check_lockout tenant_id email env w).0 ≡ ok tt)
  unfolding gate_logon Accounts.read ◌>>=◌
  gate_logon-ok {account = account} h = ground (arith, accounts-check_lockout)

  -- What follows the gate of a successful logon
  verify_password-tail :
      (password : String) {account : Account}
      → (verify_password tenant_id email password env w).0 ≡ ok account
      → ((gate_logon tenant_id email env w).0 ≡ ok account)
        × (env.bcrypt_compare account.password_hash password ≡ same)
        × (recorded tenant_id email (verify_password tenant_id email password env w).1.db ≡ none)
  unfolding exec verify_password bcrypt_verify count_failure Attempts.clear ◌>>=◌
  verify_password-tail password {account = account} h = ground (
    arith,
    find-delete_self (is_attempt tenant_id email)
        (gate_logon tenant_id email env w).1.db.failed_attempts,
  )

  -- Whatever calls of the driver fail: a password logon succeeds only for an account that is stored,
  -- not deleted, enabled and verified, whose stored hash the password matches, while no lock is in
  -- force; and then no failures are recorded any more.
  pub verify_password-ok :
      (password : String) {account : Account}
      → (verify_password tenant_id email password env w).0 ≡ ok account
      → (scanned (Table.find (is_account tenant_id email) w.db.accounts) ≡ some account)
        × (account.deleted ≡ false)
        × (account.enabled ≡ true)
        × (account.verified ≡ true)
        × (env.bcrypt_compare account.password_hash password ≡ same)
        × IsOver (lock_of (recorded tenant_id email w.db)) (env.clock (suc w.step))
        × (recorded tenant_id email (verify_password tenant_id email password env w).1.db ≡ none)
  verify_password-ok password {account = account} h =
      let (passed, matches, cleared) = verify_password-tail password {account = account} h in
      let (stored, live, enabled, verified, open_) = gate_logon-ok {account = account} passed in
      (stored, live, enabled, verified, matches, check_lockout-IsOver open_, cleared)

  -- An unknown account without recorded failures, no call of the driver failing: a logon fails with
  -- the generic error and changes nothing in the database.
  pub verify_password-unknown :
      (password : String)
      → Table.find (is_account tenant_id email) w.db.accounts ≡ none
      → recorded tenant_id email w.db ≡ none
      → ((verify_password tenant_id email password (reliable env) w).0 ≡ err authentication_failed)
        × ((verify_password tenant_id email password (reliable env) w).1.db ≡ w.db)
  unfolding verify_password gate_logon check_lockout Attempts.get Accounts.read ◌>>=◌
  verify_password-unknown password missing clean = ground arith
