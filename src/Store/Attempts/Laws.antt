-- ===== src/Store/Attempts/Laws.antt =====
-- What counting a failure leaves in the table of failed attempts.
use an.Prelude.{
  ◌≤◌, ℕ, suc, ◌≡◌, refl, String, eq_refl, true, Option, none, some, arith, Option-cases, inl, inr,
}
use an.Error.{ok}
use an.Rows.{FailedAttempt}
use an.Table
use an.Table.Laws.{find-update_self, find_sound}
use an.World.{Db}
use an.Store.Attempts.{is_attempt, counted, first_attempt, increment, lock}

-- The failures that the record counts, and the lock that it holds
abbrev pub failures : Option FailedAttempt → ℕ
failures none = 0
failures (some row) = row.count

abbrev pub lock_of : Option FailedAttempt → Option ℕ
lock_of none = none
lock_of (some row) = row.locked_until

-- Is a lock, if there is one, over at a time
abbrev pub IsOver : Option ℕ → ℕ → Type 0
IsOver none time = Unit
IsOver (some until) time = until ≤ time

abbrev pub recorded : String → String → Db → Option FailedAttempt
recorded tenant_id email db = Table.find (is_attempt tenant_id email) db.failed_attempts

-- The record after one more failure
abbrev pub next_record : String → String → ℕ → ℕ → ℕ → Option FailedAttempt → FailedAttempt
next_record tenant_id email max lock_for time none = first_attempt tenant_id email max lock_for time
next_record tenant_id email max lock_for time (some row) = counted max lock_for time row

module _ (tenant_id email : String) (max lock_for time : ℕ) (db : Db) where
  is_attempt-counted :
      (row : FailedAttempt)
      → is_attempt tenant_id email row ≡ true
      → is_attempt tenant_id email (counted max lock_for time row) ≡ true
  unfolding counted
  is_attempt-counted row h = h

  is_attempt-first_attempt :
      is_attempt tenant_id email (first_attempt tenant_id email max lock_for time) ≡ true
  unfolding first_attempt
  is_attempt-first_attempt = ground (arith, eq_refl tenant_id, eq_refl email)

  pub recorded-increment :
      recorded tenant_id email (increment tenant_id email max lock_for time db).1
      ≡ some (next_record tenant_id email max lock_for time (recorded tenant_id email db))
  unfolding increment Table.find
  recorded-increment = elim (Option-cases (recorded tenant_id email db)) [
    | inl e ↦ rw (e, increment) (ground (arith, is_attempt-first_attempt))
    | inr (row, e) ↦
        rw (e, increment)
          (find-update_self (is_attempt tenant_id email) (counted max lock_for time)
            db.failed_attempts
            (is_attempt-counted row (find_sound (is_attempt tenant_id email) db.failed_attempts e))
            e)
  ]

  pub increment_result :
      (increment tenant_id email max lock_for time db).0
      ≡ ok
          (next_record tenant_id email max lock_for time (recorded tenant_id email db)).locked_until
  unfolding increment
  increment_result = ground arith

  pub failures-next_record :
      (o : Option FailedAttempt)
      → (next_record tenant_id email max lock_for time o).count ≡ suc (failures o)
  unfolding counted first_attempt
  failures-next_record none = refl
  failures-next_record (some row) = refl

  -- The lock is set exactly from the `max`th failure on.
  pub lock-next_record :
      (o : Option FailedAttempt)
      → (next_record tenant_id email max lock_for time o).locked_until
        ≡ lock (suc (failures o)) max lock_for time (lock_of o)
  unfolding counted first_attempt
  lock-next_record none = refl
  lock-next_record (some row) = refl

  pub accounts-increment : (increment tenant_id email max lock_for time db).1.accounts ≡ db.accounts
  unfolding increment
  accounts-increment = ground arith
