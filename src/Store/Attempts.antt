-- ===== src/Store/Attempts.antt =====
-- internal/authn/failed_attempt_repository.go: PostgresFailedAttemptRepository.
pub mod Laws
pub mod Refines
use an.Prelude.{
  ℕ, suc, ◌+◌, String, ◌==◌, Bool, ◌&&◌, Option, none, some, ◌∷◌, ltb, leb, if◌then◌else◌,
}
use an.Error.{Result, ok}
use an.Rows.{FailedAttempt}
use an.Table
use an.World.{Db}
use an.Exec.{M, query, statement, exec, exec_count}

abbrev pub is_attempt : String → String → FailedAttempt → Bool
is_attempt tenant_id email row = row.tenant_id == tenant_id && row.email == email

-- PRIMARY KEY (tenant_id, email)
abbrev pub same_attempt : FailedAttempt → FailedAttempt → Bool
same_attempt row = is_attempt row.tenant_id row.email

-- `none` when no attempts are recorded
unfoldable pub get : String → String → M (Option FailedAttempt)
get tenant_id email =
    query (λ _ db. ok (Table.find (is_attempt tenant_id email) db.failed_attempts))

-- CASE WHEN count >= max THEN now() + lock_for ELSE old END
unfoldable pub lock : ℕ → ℕ → ℕ → ℕ → Option ℕ → Option ℕ
lock count max lock_for time old = if leb max count then some (time + lock_for) else old

-- The row after one more failure
unfoldable pub counted : ℕ → ℕ → ℕ → FailedAttempt → FailedAttempt
unfolding lock
counted max lock_for time row = record row {
  count = suc row.count;
  locked_until = lock (suc row.count) max lock_for time row.locked_until;
  modified = time;
}

unfoldable pub first_attempt : String → String → ℕ → ℕ → ℕ → FailedAttempt
unfolding lock
first_attempt tenant_id email max lock_for time = record {
  tenant_id = tenant_id;
  email = email;
  count = 1;
  locked_until = lock 1 max lock_for time none;
  modified = time;
}

-- INSERT … ON CONFLICT DO UPDATE … RETURNING locked_until
unfoldable pub increment : String → String → ℕ → ℕ → ℕ → Db → Result (Option ℕ) × Db
unfolding counted first_attempt
increment tenant_id email max lock_for time db =
    elim (Table.find (is_attempt tenant_id email) db.failed_attempts) [
      | none ↦
          let row = first_attempt tenant_id email max lock_for time in
          (ok row.locked_until, record db { failed_attempts = row ∷ db.failed_attempts })
      | some old ↦ (
        ok (counted max lock_for time old).locked_until,
        record db {
          failed_attempts =
              Table.update (is_attempt tenant_id email) (counted max lock_for time)
                db.failed_attempts;
        },
      )
    ]

unfoldable pub increment_and_lock : String → String → ℕ → ℕ → M (Option ℕ)
unfolding increment
increment_and_lock tenant_id email max lock_for = statement (increment tenant_id email max lock_for)

unfoldable pub clear : String → String → M (Unit {0})
clear tenant_id email = exec λ _ db. record db {
  failed_attempts = Table.delete (is_attempt tenant_id email) db.failed_attempts;
}

-- WHERE modified < now() - older_than
abbrev pub is_stale : ℕ → ℕ → FailedAttempt → Bool
is_stale older_than time row = ltb (row.modified + older_than) time

unfoldable pub delete_stale : ℕ → M ℕ
delete_stale older_than =
    exec_count (λ time db. Table.count (is_stale older_than time) db.failed_attempts)
      (λ time db. record db {
        failed_attempts = Table.delete (is_stale older_than time) db.failed_attempts;
      })
