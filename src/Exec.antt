-- ===== src/Exec.antt =====
-- The actions of the program: they read the environment, change the world, and return a value or an
-- error. What an action wrote before it returned an error stays written, but for the database
-- inside `with_transaction` (internal/utils/tx_manager.go).
pub mod Rules
pub mod Makes
pub mod Yields
pub mod Preserves
use an.Prelude.{ℕ, suc, String, ◌==◌, Bool, true, false, Option, none, some, ◌=ℕ=◌, if◌then◌else◌}
use an.Error.{Error, Result, ok, err, driver_failure, pg_error, untyped}
use an.World.{Db, World, Env}

abbrev pub M : Type 0 → Type 0
M A = Env → World → Result A × World

abbrev pub tick : World → World
tick w = record w { step = suc w.step }

abbrev pub pg_unique_violation : String
pg_unique_violation = "23505"

abbrev pub pg_foreign_key_violation : String
pg_foreign_key_violation = "23503"

-- `errors.As(err, &pgErr) && pgErr.Code == pgUniqueViolation`
unfoldable pub on_unique : Error → Error → Error
on_unique e (pg_error c) = if c == pg_unique_violation then e else pg_error c
on_unique e other = other

renamed {ℓ} : {A : Type ℓ} → (Error → Error) → Result A → Result A
renamed f (ok a) = ok a
renamed f (err e) = err (f e)

module _ {A : Type 0} where
  pub pure : A → M A
  pure a env w = (ok a, w)

  pub throw : Error → M A
  throw e env w = (err e, w)

  pub lift : Result A → M A
  lift r env w = (r, w)

  pub asks : (Env → A) → M A
  asks f env w = (ok (f env), w)

  -- A value that depends on the step, as a reading of a clock or a draw does.
  pub draw : (Env → ℕ → Result A) → M A
  draw f env w = (f env w.step, tick w)

  -- The error is a value for the code that follows.
  pub try : M A → M (Result A)
  try m env w = let (r, w') = m env w in (ok r, w')

  -- A SELECT.
  pub query : (ℕ → Db → Result A) → M A
  query f env w =
      if env.fault w.step then (err driver_failure, tick w) else (f (env.clock w.step) w.db, tick w)

  abbrev written : Result A × Db → World → Result A × World
  written (r, db) w = (r, record w { db = db; step = suc w.step })

  -- An INSERT, UPDATE or DELETE, which sees the time as now(). A statement that fails leaves the
  -- database alone.
  pub statement : (ℕ → Db → Result A × Db) → M A
  statement f env w =
      if env.fault w.step
      then (err driver_failure, tick w)
      else written (f (env.clock w.step) w.db) w

  -- An error of `m` is replaced by another one.
  pub rename_error : (Error → Error) → M A → M A
  unfolding renamed
  rename_error f m env w = let (r, w') = m env w in (renamed f r, w')

  -- Commit on success, roll back on an error.
  pub finish : Result A → Db → M A
  finish (err e) db env w = (err e, record w { db = db })
  finish (ok a) db env w =
      if env.fault w.step
      then (err driver_failure, record w { db = db; step = suc w.step })
      else (ok a, tick w)

  -- The transaction travels in the context, so the statements of `m` are its statements. On an
  -- error of `m`, or of the commit, the database is rolled back.
  unfoldable pub with_transaction : M A → M A
  unfolding finish
  with_transaction m env w =
      if env.fault w.step
      then (err driver_failure, tick w)
      else let (r, w') = m env (tick w) in finish r w.db env w'

-- time.Now()
pub now : M ℕ
now = draw (λ env n. ok (env.clock n))

-- `if b { return e }`
pub fail_if : Bool → Error → M (Unit {0})
unfolding pure throw
fail_if true e = throw e
fail_if false e = pure tt

pub from_option {ℓ} : {A : Type ℓ} → Error → Option A → Result A
from_option e none = err e
from_option e (some a) = ok a

module _ {A B : Type 0} where
  abbrev pub continue : Result A → (A → M B) → M B
  continue (ok a) f env w = f a env w
  continue (err e) f env w = (err e, w)

  infixl 10 ◌>>=◌ ◌>>◌
  unfoldable pub ◌>>=◌ : M A → (A → M B) → M B
  unfolding pure throw lift asks draw try query statement now fail_if from_option rename_error
  ◌>>=◌ m f env w = let (r, w') = m env w in continue r f env w'

  abbrev pub ◌>>◌ : M A → M B → M B
  m >> n = m >>= λ _. n

-- A statement that reports `e` if it affected no row.
unfoldable pub affect : Error → (Db → ℕ) → (ℕ → Db → Db) → M (Unit {0})
unfolding ◌>>=◌
affect e rows f = do
  affected ← statement (λ time db. (ok (rows db), f time db))
  fail_if (affected =ℕ= 0) e

-- A statement with no result.
unfoldable pub exec : (ℕ → Db → Db) → M (Unit {0})
unfolding statement
exec f = statement (λ time db. (ok tt, f time db))

-- A statement that returns the number of rows that it affected.
unfoldable pub exec_count : (ℕ → Db → ℕ) → (ℕ → Db → Db) → M ℕ
unfolding statement
exec_count rows f = statement (λ time db. (ok (rows time db), f time db))

-- uuid.NewV7
unfoldable pub new_uuid : M String
unfolding draw from_option
new_uuid = draw (λ env n. from_option (untyped "uuid") (env.uuid_v7 n))
