-- ===== src/Exec/Preserves.antt =====
-- Rules for what an action leaves true of the database, whether it returns or fails.
use an.Prelude.{
  ℕ, ◌=ℕ=◌, ◌≡◌, refl, subst, sym, ◌⊎◌, inl, inr, Bool, true, false, arith, if◌then◌else◌,
}
use an.Error.{Error, Result, ok, err}
use an.World.{Db, World, Env}
use an.Exec.{
  M, lift, try, statement, rename_error, with_transaction, finish, exec, exec_count, affect,
  continue, tick, ◌>>=◌,
}
use an.Exec.Rules.{ReadOnly, ReadOnly-fail_if, read_rules}

pub record Preserves {A : Type 0} (m : M A) (q : Db → Type 0) : Type 0 where
  pub at : (env : Env) (w : World) → q w.db → q (m env w).1.db

module _ {A : Type 0} where
  db-statement :
      (f : ℕ → Db → Result A × Db) (env : Env) (w : World)
      → ((statement f env w).1.db ≡ w.db)
        ⊎ ((statement f env w).1.db ≡ (f (env.clock w.step) w.db).1)
  unfolding ◌>>=◌
  db-statement f env w = ground arith

  db-finish :
      (r : Result A) (db : Db) (env : Env) (w : World)
      → ((finish r db env w).1.db ≡ db) ⊎ ((finish r db env w).1.db ≡ w.db)
  unfolding finish
  db-finish (ok a) db env w = ground arith
  db-finish (err e) db env w = inl refl

  db-with_transaction :
      (m : M A) (env : Env) (w : World)
      → ((with_transaction m env w).1.db ≡ w.db)
        ⊎ ((with_transaction m env w).1.db ≡ (m env (tick w)).1.db)
  unfolding with_transaction
  db-with_transaction m env w =
      ground (arith, db-finish (m env (tick w)).0 w.db env (m env (tick w)).1)

module _ {A : Type 0} {q : Db → Type 0} where
  pub Preserves-ReadOnly : (m : M A) → ReadOnly m → Preserves m q
  Preserves-ReadOnly m h = record { at = λ env w k. subst q (sym (h.at env w)) k }

  pub Preserves-try : (m : M A) → Preserves m q → Preserves (try m) q
  unfolding ◌>>=◌
  Preserves-try m h = record { at = λ env w k. h.at env w k }

  pub Preserves-rename_error :
      (f : Error → Error) (m : M A) → Preserves m q → Preserves (rename_error f m) q
  unfolding ◌>>=◌
  Preserves-rename_error f m h = record { at = λ env w k. h.at env w k }

  pub Preserves-if :
      (b : Bool) (m n : M A) → Preserves m q → Preserves n q → Preserves (if b then m else n) q
  Preserves-if true m n h k = h
  Preserves-if false m n h k = k

  pub Preserves-statement :
      (f : ℕ → Db → Result A × Db)
      → ((time : ℕ) (db : Db) → q db → q (f time db).1)
      → Preserves (statement f) q
  Preserves-statement f h = record {
    at = λ env w k. elim (db-statement f env w) [
      | inl e ↦ subst q (sym e) k
      | inr e ↦ subst q (sym e) (h (env.clock w.step) w.db k)
    ];
  }

  -- A transaction that is rolled back leaves the database that it found.
  pub Preserves-with_transaction : (m : M A) → Preserves m q → Preserves (with_transaction m) q
  Preserves-with_transaction m h = record {
    at = λ env w k. elim (db-with_transaction m env w) [
      | inl e ↦ subst q (sym e) k
      | inr e ↦ subst q (sym e) (h.at env (tick w) k)
    ];
  }

module _ {A B : Type 0} {q : Db → Type 0} where
  continue-Preserves :
      (r : Result A) (f : A → M B)
      → ((a : A) → Preserves (f a) q)
      → (env : Env) (w : World) → q w.db
      → q (continue r f env w).1.db
  continue-Preserves (ok a) f k env w p = (k a).at env w p
  continue-Preserves (err e) f k env w p = p

  pub Preserves-bind :
      (m : M A) (f : A → M B)
      → Preserves m q
      → ((a : A) → Preserves (f a) q)
      → Preserves (m >>= f) q
  unfolding ◌>>=◌
  Preserves-bind m f h k = record {
    at = λ env w p. continue-Preserves (m env w).0 f k env (m env w).1 (h.at env w p);
  }

  known-Preserves :
      (r : Result A) (f : A → M B)
      → ((a : A) → r ≡ ok a → Preserves (f a) q)
      → (env : Env) (w : World) → q w.db
      → q (continue r f env w).1.db
  known-Preserves (ok a) f k env w p = (k a refl).at env w p
  known-Preserves (err e) f k env w p = p

  -- The value of the first part is known.
  pub Preserves-lift :
      (r : Result A) (f : A → M B)
      → ((a : A) → r ≡ ok a → Preserves (f a) q)
      → Preserves (lift r >>= f) q
  unfolding ◌>>=◌
  Preserves-lift r f k = record { at = λ env w p. known-Preserves r f k env w p }

module _ {q : Db → Type 0} where
  pub Preserves-exec :
      (f : ℕ → Db → Db) → ((time : ℕ) (db : Db) → q db → q (f time db)) → Preserves (exec f) q
  unfolding exec
  Preserves-exec f h = Preserves-statement (λ time db. (ok tt, f time db)) λ time db k. h time db k

  pub Preserves-exec_count :
      (rows : ℕ → Db → ℕ) (f : ℕ → Db → Db)
      → ((time : ℕ) (db : Db) → q db → q (f time db))
      → Preserves (exec_count rows f) q
  unfolding exec_count
  Preserves-exec_count rows f h =
      Preserves-statement (λ time db. (ok (rows time db), f time db)) λ time db k. h time db k

  pub Preserves-affect :
      (e : Error) (rows : Db → ℕ) (f : ℕ → Db → Db)
      → ((time : ℕ) (db : Db) → q db → q (f time db))
      → Preserves (affect e rows f) q
  unfolding affect
  Preserves-affect e rows f h =
      Preserves-bind _ _
        (Preserves-statement (λ time db. (ok (rows db), f time db)) λ time db k. h time db k)
        λ affected. Preserves-ReadOnly _ (ReadOnly-fail_if (affected =ℕ= 0) e)

-- A chain of parts that only read, and of parts that preserve
pub ruleset preserve_rules = (
  read_rules, Preserves-ReadOnly, Preserves-try, Preserves-if, Preserves-with_transaction,
  Preserves-bind,
)
