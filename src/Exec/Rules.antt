-- ===== src/Exec/Rules.antt =====
-- Rules for the actions: which leave the database alone, which do so when they fail, and what a
-- successful chain of actions says of its parts.
use an.Prelude.{ℕ, ◌≡◌, refl, ◌∙◌, ap, Bool, true, false, arith}
use an.Error.{Error, Result, ok, err}
use an.World.{Db, World, Env}
use an.Exec.{
  M, pure, throw, lift, asks, draw, try, query, now, fail_if, with_transaction, continue, ◌>>=◌,
}

-- An environment in which no call of the driver fails.
abbrev pub reliable : Env → Env
reliable env = record env { fault = λ _. false }

-- `m` does not change the database, whether it returns or fails.
pub record ReadOnly {A : Type 0} (m : M A) : Type 0 where
  pub at : (env : Env) (w : World) → (m env w).1.db ≡ w.db

-- If `m` fails, the database is as it was.
pub record FailsClean {A : Type 0} (m : M A) : Type 0 where
  pub at : (env : Env) (w : World) {e : Error} → (m env w).0 ≡ err e → (m env w).1.db ≡ w.db

module _ {A : Type 0} where
  pub ReadOnly-pure : (a : A) → ReadOnly (pure a)
  unfolding ◌>>=◌
  ReadOnly-pure a = record { at = λ env w. refl }

  pub ReadOnly-throw : (e : Error) → ReadOnly (throw {A = A} e)
  unfolding ◌>>=◌
  ReadOnly-throw e = record { at = λ env w. refl }

  pub ReadOnly-lift : (r : Result A) → ReadOnly (lift r)
  unfolding ◌>>=◌
  ReadOnly-lift r = record { at = λ env w. refl }

  pub ReadOnly-asks : (f : Env → A) → ReadOnly (asks f)
  unfolding ◌>>=◌
  ReadOnly-asks f = record { at = λ env w. refl }

  pub ReadOnly-draw : (f : Env → ℕ → Result A) → ReadOnly (draw f)
  unfolding ◌>>=◌
  ReadOnly-draw f = record { at = λ env w. refl }

  pub ReadOnly-query : (f : ℕ → Db → Result A) → ReadOnly (query f)
  unfolding ◌>>=◌
  ReadOnly-query f = record { at = λ env w. ground arith }

  pub ReadOnly-try : (m : M A) → ReadOnly m → ReadOnly (try m)
  unfolding ◌>>=◌
  ReadOnly-try m h = record { at = λ env w. h.at env w }

  pub ReadOnly-FailsClean : (m : M A) → ReadOnly m → FailsClean m
  ReadOnly-FailsClean m h = record { at = λ env w _. h.at env w }

  -- The transaction is all or nothing.
  pub FailsClean-with_transaction : (m : M A) → FailsClean (with_transaction m)
  unfolding with_transaction
  FailsClean-with_transaction m = record { at = λ env w f. ground arith }

pub ReadOnly-now : ReadOnly now
unfolding ◌>>=◌
ReadOnly-now = record { at = λ env w. refl }

pub ReadOnly-fail_if : (b : Bool) (e : Error) → ReadOnly (fail_if b e)
unfolding ◌>>=◌
ReadOnly-fail_if true e = record { at = λ env w. refl }
ReadOnly-fail_if false e = record { at = λ env w. refl }

module _ {A B : Type 0} where
  continue-ReadOnly :
      (r : Result A) (f : A → M B)
      → ((a : A) → ReadOnly (f a))
      → (env : Env) (w : World) → (continue r f env w).1.db ≡ w.db
  continue-ReadOnly (ok a) f k env w = (k a).at env w
  continue-ReadOnly (err e) f k env w = refl

  pub ReadOnly-bind :
      (m : M A) (f : A → M B) → ReadOnly m → ((a : A) → ReadOnly (f a)) → ReadOnly (m >>= f)
  unfolding ◌>>=◌
  ReadOnly-bind m f h k = record {
    at = λ env w. continue-ReadOnly (m env w).0 f k env (m env w).1 ∙ h.at env w;
  }

  continue-FailsClean :
      (r : Result A) (f : A → M B)
      → ((a : A) → FailsClean (f a))
      → (env : Env) (w : World) {e : Error} → (continue r f env w).0 ≡ err e
      → (continue r f env w).1.db ≡ w.db
  continue-FailsClean (ok a) f k env w h = (k a).at env w h
  continue-FailsClean (err e) f k env w h = refl

  -- A chain fails clean if what comes before its last step only reads.
  pub FailsClean-bind :
      (m : M A) (f : A → M B) → ReadOnly m → ((a : A) → FailsClean (f a)) → FailsClean (m >>= f)
  unfolding ◌>>=◌
  FailsClean-bind m f h k = record {
    at = λ env w e. continue-FailsClean (m env w).0 f k env (m env w).1 e ∙ h.at env w;
  }

  continue-pure-err :
      (r : Result A) (f : A → B) (env : Env) (w : World) {e : Error}
      → (continue r (λ a. pure (f a)) env w).0 ≡ err e
      → (r ≡ err e) × ((continue r (λ a. pure (f a)) env w).1 ≡ w)
  unfolding ◌>>=◌
  continue-pure-err (ok a) f env w h = cc
  continue-pure-err (err e) f env w h = (cc, refl)

  -- It also does if nothing can fail after its last write.
  pub FailsClean-bind-pure :
      (m : M A) (f : A → B) → FailsClean m → FailsClean (m >>= λ a. pure (f a))
  unfolding ◌>>=◌
  FailsClean-bind-pure m f h = record {
    at = λ env w e.
        let (failed, same) = continue-pure-err (m env w).0 f env (m env w).1 e in
        ap (λ (v : World). v.db) same ∙ h.at env w failed;
  }

  continue-ok :
      (r : Result A) (f : A → M B) (env : Env) (w : World) {b : B}
      → (continue r f env w).0 ≡ ok b
      → (a : A) × (r ≡ ok a) × ((f a env w).0 ≡ ok b) × ((continue r f env w).1 ≡ (f a env w).1)
  continue-ok (ok a) f env w h = (a, refl, h, refl)
  continue-ok (err e) f env w h = cc

  -- A chain that succeeds: its parts succeed, one after the other.
  pub bind-ok :
      (m : M A) (f : A → M B) (env : Env) (w : World) {b : B}
      → ((m >>= f) env w).0 ≡ ok b
      → (a : A) × ((m env w).0 ≡ ok a)
        × ((f a env (m env w).1).0 ≡ ok b)
        × (((m >>= f) env w).1 ≡ (f a env (m env w).1).1)
  unfolding ◌>>=◌
  bind-ok m f env w h = continue-ok (m env w).0 f env (m env w).1 h

  -- A chain whose first part returns a value goes on with it; one whose first part fails, fails.
  pub bind_step :
      (m : M A) (f : A → M B) (env : Env) (w : World) {a : A}
      → (m env w).0 ≡ ok a
      → (m >>= f) env w ≡ f a env (m env w).1
  unfolding ◌>>=◌
  bind_step m f env w h = rw h

  pub bind_stop :
      (m : M A) (f : A → M B) (env : Env) (w : World) {e : Error}
      → (m env w).0 ≡ err e
      → (m >>= f) env w ≡ (err e, (m env w).1)
  unfolding ◌>>=◌
  bind_stop m f env w h = rw h

pub ruleset read_rules = (
  ReadOnly-pure, ReadOnly-throw, ReadOnly-lift, ReadOnly-asks, ReadOnly-draw, ReadOnly-query,
  ReadOnly-try, ReadOnly-now, ReadOnly-fail_if, ReadOnly-bind,
)

pub ruleset clean_rules = (
  read_rules, ReadOnly-FailsClean, FailsClean-with_transaction, FailsClean-bind,
  FailsClean-bind-pure,
)
