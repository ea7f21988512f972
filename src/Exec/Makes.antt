-- ===== src/Exec/Makes.antt =====
-- Rules for what holds of the database once an action has succeeded.
use an.Prelude.{ℕ, ◌≡◌, subst, sym, Bool, true, false, ◌=ℕ=◌, arith, if◌then◌else◌}
use an.Error.{Error, ok, Result-cases}
use an.World.{Db, World, Env}
use an.Exec.{M, throw, with_transaction, finish, tick, exec, affect, ◌>>=◌}
use an.Exec.Rules.{ReadOnly, bind-ok}

-- If `m` succeeds, the database then has the property.
pub record Makes {A : Type 0} (m : M A) (q : Db → Type 0) : Type 0 where
  pub at : (env : Env) (w : World) {a : A} → (m env w).0 ≡ ok a → q (m env w).1.db

-- If the database has the property and `m` succeeds, it has it still.
pub record Keeps {A : Type 0} (m : M A) (q : Db → Type 0) : Type 0 where
  pub at : (env : Env) (w : World) {a : A} → q w.db → (m env w).0 ≡ ok a → q (m env w).1.db

module _ {A : Type 0} where
  -- A transaction that succeeds is its body.
  pub with_transaction-ok :
      (m : M A) (env : Env) (w : World) {a : A}
      → (with_transaction m env w).0 ≡ ok a
      → ((m env (tick w)).0 ≡ ok a) × ((with_transaction m env w).1.db ≡ (m env (tick w)).1.db)
  unfolding with_transaction finish
  with_transaction-ok m env w h = ground (arith, Result-cases (m env (tick w)).0)

module _ {A : Type 0} {q : Db → Type 0} where
  pub Makes-throw : (e : Error) → Makes (throw {A = A} e) q
  unfolding ◌>>=◌
  Makes-throw e = record { at = λ env w h. cc }

  pub Makes-if : (b : Bool) (m n : M A) → Makes m q → Makes n q → Makes (if b then m else n) q
  Makes-if true m n h k = h
  Makes-if false m n h k = k

  pub Keeps-ReadOnly : (m : M A) → ReadOnly m → Keeps m q
  Keeps-ReadOnly m h = record { at = λ env w k e. subst q (sym (h.at env w)) k }

  pub Makes-with_transaction : (m : M A) → Makes m q → Makes (with_transaction m) q
  Makes-with_transaction m h = record {
    at = λ env w e.
        let (done, same) = with_transaction-ok m env w e in
        subst q (sym same) (h.at env (tick w) done);
  }

module _ {A B : Type 0} {q : Db → Type 0} where
  -- The property is made by the rest of the chain.
  pub Makes-then : (m : M A) (f : A → M B) → ((a : A) → Makes (f a) q) → Makes (m >>= f) q
  Makes-then m f k = record {
    at = λ env w h.
        let (a, first, second, same) = bind-ok m f env w h in
        subst (λ (v : World). q v.db) (sym same) ((k a).at env (m env w).1 second);
  }

  -- It is made by the first part, and kept by the rest.
  pub Makes-first :
      (m : M A) (f : A → M B) → Makes m q → ((a : A) → Keeps (f a) q) → Makes (m >>= f) q
  Makes-first m f l k = record {
    at = λ env w h.
        let (a, first, second, same) = bind-ok m f env w h in
        subst (λ (v : World). q v.db) (sym same)
          ((k a).at env (m env w).1 (l.at env w first) second);
  }

  pub Keeps-bind :
      (m : M A) (f : A → M B) → Keeps m q → ((a : A) → Keeps (f a) q) → Keeps (m >>= f) q
  Keeps-bind m f l k = record {
    at = λ env w p h.
        let (a, first, second, same) = bind-ok m f env w h in
        subst (λ (v : World). q v.db) (sym same)
          ((k a).at env (m env w).1 (l.at env w p first) second);
  }

module _ (f : ℕ → Db → Db) where
  pub exec_run :
      (env : Env) (w : World) {a : Unit {0}}
      → (exec f env w).0 ≡ ok a
      → (exec f env w).1.db ≡ f (env.clock w.step) w.db
  unfolding exec ◌>>=◌
  exec_run env w h = ground arith

module _ {q : Db → Type 0} (f : ℕ → Db → Db) where
  pub Makes-exec : ((time : ℕ) (db : Db) → q (f time db)) → Makes (exec f) q
  Makes-exec h = record {
    at = λ env w e. subst q (sym (exec_run f env w e)) (h (env.clock w.step) w.db);
  }

  pub Keeps-exec : ((time : ℕ) (db : Db) → q db → q (f time db)) → Keeps (exec f) q
  Keeps-exec h = record {
    at = λ env w p e. subst q (sym (exec_run f env w e)) (h (env.clock w.step) w.db p);
  }

module _ (e : Error) (rows : Db → ℕ) (f : ℕ → Db → Db) where
  pub affect_run :
      (env : Env) (w : World) {a : Unit {0}}
      → (affect e rows f env w).0 ≡ ok a
      → ((rows w.db =ℕ= 0) ≡ false) × ((affect e rows f env w).1.db ≡ f (env.clock w.step) w.db)
  unfolding affect ◌>>=◌
  affect_run env w h = ground arith

module _ {q : Db → Type 0} (e : Error) (rows : Db → ℕ) (f : ℕ → Db → Db) where
  pub Makes-affect : ((time : ℕ) (db : Db) → q (f time db)) → Makes (affect e rows f) q
  Makes-affect h = record {
    at = λ env w k. subst q (sym (affect_run e rows f env w k).1) (h (env.clock w.step) w.db);
  }

  pub Keeps-affect : ((time : ℕ) (db : Db) → q db → q (f time db)) → Keeps (affect e rows f) q
  Keeps-affect h = record {
    at = λ env w p k. subst q (sym (affect_run e rows f env w k).1) (h (env.clock w.step) w.db p);
  }
