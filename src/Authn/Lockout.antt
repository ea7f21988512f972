-- ===== src/Authn/Lockout.antt =====
-- Lockout after failed logons: VerifyPassword of internal/authn/authn.go.
use an.Prelude.{
  ℕ, zero, suc, ◌+◌, ◌<◌, ◌≡◌, String, true, false, Option, none, some, arith, leb, if◌then◌else◌,
}
use an.Error.{ok, err, account_locked}
use an.Rows.{FailedAttempt, AccountRow}
use an.Table
use an.World.{World, Env, mismatch}
use an.Exec.{◌>>=◌}
use an.Exec.Rules.{reliable}
use an.Utils.Secrets.{bcrypt_verify}
use an.Store.Accounts.{is_account, scan_account}
use an.Store.Accounts
use an.Store.Attempts
use an.Store.Attempts.{lock}
use an.Store.Attempts.Laws.{
  recorded, next_record, failures, recorded-increment, increment_result, failures-next_record,
  lock-next_record, accounts-increment, lock_of,
}
use an.Authn.{check_lockout, verify_password, gate_logon, count_failure, failure_of}

-- No call of the driver failing: while a recorded lock is in force, a logon is refused whatever the
-- password.
pub verify_password-locked :
    (env : Env) (w : World) (tenant_id email password : String) {row : FailedAttempt} {until : ℕ}
    → recorded tenant_id email w.db ≡ some row
    → row.locked_until ≡ some until
    → env.clock (suc w.step) < until
    → (verify_password tenant_id email password (reliable env) w).0
      ≡ err (account_locked email until)
unfolding verify_password gate_logon check_lockout Attempts.get ◌>>=◌
verify_password-locked env w tenant_id email password found locked before = ground arith

-- A live account: enabled, verified, and not deleted.
pub record IsLive (row : AccountRow) : Type 0 where
  pub live : row.deleted ≡ false
  pub enabled : row.enabled ≡ true
  pub verified : row.verified ≡ true

module _ (env : Env) (tenant_id email : String) (row : AccountRow) where
  gate_logon-live :
      (w : World)
      → IsLive row
      → Table.find (is_account tenant_id email) w.db.accounts ≡ some row
      → lock_of (recorded tenant_id email w.db) ≡ none
      → gate_logon tenant_id email (reliable env) w
        ≡ (ok (scan_account row), record w { step = suc (suc w.step) })
  unfolding gate_logon check_lockout Attempts.get Accounts.read scan_account ◌>>=◌
  gate_logon-live w live found unlocked = ground arith

module _ (env : Env) (tenant_id email password : String) (row : AccountRow) where
  -- A wrong password against a live account that is not locked, no call of the driver failing: the
  -- failure is counted, and nothing else in the database changes.
  pub verify_password-mismatch :
      (w : World)
      → IsLive row
      → env.bcrypt_compare row.password_hash password ≡ mismatch
      → Table.find (is_account tenant_id email) w.db.accounts ≡ some row
      → lock_of (recorded tenant_id email w.db) ≡ none
      → verify_password tenant_id email password (reliable env) w ≡ (
        err (
            failure_of email
              (env.clock (suc (suc (suc w.step))))
              (next_record tenant_id email env.config.max_attempts env.config.lockout_duration
                (env.clock (suc (suc w.step)))
                (recorded tenant_id email w.db)).locked_until),
        record w {
          db =
              (Attempts.increment tenant_id email env.config.max_attempts
                env.config.lockout_duration
                (env.clock (suc (suc w.step)))
                w.db).1;
          step = suc (suc (suc (suc w.step)));
        },
      )
  unfolding verify_password bcrypt_verify count_failure Attempts.increment_and_lock scan_account
      ◌>>=◌
  verify_password-mismatch w live wrong found unlocked = ground (
    arith,
    gate_logon-live env tenant_id email row w live found unlocked,
    increment_result tenant_id email env.config.max_attempts env.config.lockout_duration
        (env.clock (suc (suc w.step))) w.db,
  )

  -- Logons one after another, all with the same wrong password
  pub tries : ℕ → World → World
  tries zero w = w
  tries (suc n) w = (verify_password tenant_id email password (reliable env) (tries n w)).1

  record Counts (n : ℕ) (w : World) : Type 0 where
    exists : Table.find (is_account tenant_id email) w.db.accounts ≡ some row
    counted : failures (recorded tenant_id email w.db) ≡ n
    unlocked : lock_of (recorded tenant_id email w.db) ≡ none

  -- One more failure, at a world that counts `n` of them.
  Counts-verify_password :
      (n : ℕ) (w : World)
      → IsLive row
      → env.bcrypt_compare row.password_hash password ≡ mismatch
      → suc n < env.config.max_attempts
      → Counts n w
      → Counts (suc n) (verify_password tenant_id email password (reliable env) w).1
  unfolding lock
  Counts-verify_password n w live wrong below c =
      rw (verify_password-mismatch w live wrong c.exists c.unlocked) (
        ground (
          arith,
          accounts-increment tenant_id email max lock_for time w.db,
          recorded-increment tenant_id email max lock_for time w.db,
          failures-next_record tenant_id email max lock_for time w.db old,
          lock-next_record tenant_id email max lock_for time w.db old,
        ))
    where
      max : ℕ
      max = env.config.max_attempts

      lock_for : ℕ
      lock_for = env.config.lockout_duration

      time : ℕ
      time = env.clock (suc (suc w.step))

      old : Option FailedAttempt
      old = recorded tenant_id email w.db

  Counts-tries :
      (n : ℕ) (w : World)
      → IsLive row
      → env.bcrypt_compare row.password_hash password ≡ mismatch
      → n < env.config.max_attempts
      → Counts 0 w
      → Counts n (tries n w)
  unfolding tries
  Counts-tries zero w live wrong below c = c
  Counts-tries (suc n) w live wrong below c =
      Counts-verify_password n (tries n w) live wrong below
        (Counts-tries n w live wrong (omega arith) c)

  -- Logons with a wrong password against a live account without failures, no call of the driver
  -- failing: up to the limit of attempts there is no lock before the last of them, and the last one
  -- sets the lock, from its own time on, exactly if it is the one that reaches the limit.
  pub lock-tries :
      (n : ℕ) (w : World)
      → IsLive row
      → env.bcrypt_compare row.password_hash password ≡ mismatch
      → n < env.config.max_attempts
      → Table.find (is_account tenant_id email) w.db.accounts ≡ some row
      → recorded tenant_id email w.db ≡ none
      → (lock_of (recorded tenant_id email (tries n w).db) ≡ none)
        × (lock_of (recorded tenant_id email (tries (suc n) w).db) ≡ (
            if leb env.config.max_attempts (suc n)
            then some (env.clock (suc (suc (tries n w).step)) + env.config.lockout_duration)
            else none))
  unfolding tries lock
  lock-tries n w live wrong below found clean =
      let c =
        Counts-tries n w live wrong below
          (record { exists = found; counted = ground arith; unlocked = ground arith }) in
      (
        c.unlocked,
        rw (verify_password-mismatch (tries n w) live wrong c.exists c.unlocked, tries)
            (ground (
              arith,
              c.counted,
              c.unlocked,
              recorded-increment tenant_id email max lock_for time (tries n w).db,
              lock-next_record tenant_id email max lock_for time (tries n w).db old,
            )),
      )
    where
      max : ℕ
      max = env.config.max_attempts

      lock_for : ℕ
      lock_for = env.config.lockout_duration

      time : ℕ
      time = env.clock (suc (suc (tries n w).step))

      old : Option FailedAttempt
      old = recorded tenant_id email (tries n w).db
