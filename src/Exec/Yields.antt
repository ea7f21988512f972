-- ===== src/Exec/Yields.antt =====
-- Rules for how the result of an action that succeeds and the database after it depend on the database
-- before it, in a fixed environment.
use an.Prelude.{◌=ℕ=◌, false, ℕ, ◌≡◌, refl, sym, ◌∙◌, subst, arith}
use an.Error.{Error, Result, ok, Result-cases}
use an.World.{Db, World, Env}
use an.Exec.Makes.{affect_run}
use an.Exec.{affect, M, pure, asks, statement, rename_error, ◌>>=◌}
use an.Exec.Rules.{ReadOnly, bind-ok}

pub record Yields {A : Type 0} (env : Env) (m : M A) (r : Db → A → Db → Type 0) : Type 0 where
  pub at : (w : World) {a : A} → (m env w).0 ≡ ok a → r w.db a (m env w).1.db

module _ {B : Type 0} (b : B) (env : Env) (w : World) where
  pure_world : (pure b env w).1 ≡ w
  unfolding ◌>>=◌
  pure_world = refl

  pub pure-ok : {c : B} → (pure b env w).0 ≡ ok c → b ≡ c
  unfolding ◌>>=◌
  pure-ok h = cc

module _ {A B : Type 0} {env : Env} {r : Db → B → Db → Type 0} where
  -- A part that only reads
  pub Yields-read :
      (m : M A) (f : A → M B) → ReadOnly m → ((a : A) → Yields env (f a) r) → Yields env (m >>= f) r
  Yields-read m f l k = record {
    at = λ w {a = b} h.
        let (a, first, second, same) = bind-ok m f env w h in
        subst (λ (v : World). r w.db b v.db) (sym same)
          (subst (λ (db : Db). r db b (f a env (m env w).1).1.db) (l.at env w)
            ((k a).at (m env w).1 second));
  }

  -- What an action reads of the environment is known.
  pub Yields-asks :
      (g : Env → A) (f : A → M B) → Yields env (f (g env)) r → Yields env (asks g >>= f) r
  unfolding ◌>>=◌
  Yields-asks g f h = record { at = λ w e. h.at w e }

  -- A pure end
  pub Yields-pure :
      (m : M A) (f : A → B)
      → Yields env m (λ before a after. r before (f a) after)
      → Yields env (m >>= λ a. pure (f a)) r
  Yields-pure m f h = record {
    at = λ w {a = b} e.
        let (a, first, second, same) = bind-ok m (λ a. pure (f a)) env w e in
        subst (λ (v : World). r w.db b v.db) (sym (same ∙ pure_world (f a) env (m env w).1))
          (subst (λ x. r w.db x (m env w).1.db) (pure-ok (f a) env (m env w).1 second)
            (h.at w first));
  }

module _ {A : Type 0} (g : Error → Error) (f : ℕ → Db → Result A × Db) where
  -- A statement whose errors are renamed, when it succeeds
  pub statement-ok :
      (env : Env) (w : World) {a : A}
      → (rename_error g (statement f) env w).0 ≡ ok a
      → ((f (env.clock w.step) w.db).0 ≡ ok a)
        × ((rename_error g (statement f) env w).1.db ≡ (f (env.clock w.step) w.db).1)
  unfolding ◌>>=◌
  statement-ok env w h = ground (arith, Result-cases (f (env.clock w.step) w.db).0)

  pub Yields-statement :
      {env : Env} {r : Db → A → Db → Type 0}
      → ((time : ℕ) (db : Db) (a : A) → (f time db).0 ≡ ok a → r db a (f time db).1)
      → Yields env (rename_error g (statement f)) r
  Yields-statement {r = r} h = record {
    at = λ w {a} e.
        let (done, same) = statement-ok _ w e in subst (r w.db a) (sym same) (h _ w.db a done);
  }

module _ {A B : Type 0} {env : Env} {r : Db → B → Db → Type 0} where
  -- A part that only reads, and what its success says of its value
  pub Yields-known :
      (m : M A) (f : A → M B)
      → ReadOnly m
      → ((a : A) (w : World) → (m env w).0 ≡ ok a → Yields env (f a) r)
      → Yields env (m >>= f) r
  Yields-known m f l k = record {
    at = λ w {a = b} h.
        let (a, first, second, same) = bind-ok m f env w h in
        subst (λ (v : World). r w.db b v.db) (sym same)
          (subst (λ (db : Db). r db b (f a env (m env w).1).1.db) (l.at env w)
            ((k a w first).at (m env w).1 second));
  }

module _ {A B : Type 0} {env : Env} {r : Db → B → Db → Type 0} where
  -- Two parts, one after the other
  pub Yields-then :
      (s : Db → A → Db → Type 0) (t : Db → B → Db → Type 0) (m : M A) (f : A → M B)
      → Yields env m s
      → ((a : A) → Yields env (f a) t)
      → ((before mid after : Db) (a : A) (b : B)
          → s before a mid
          → t mid b after
          → r before b after)
      → Yields env (m >>= f) r
  Yields-then s t m f l k join = record {
    at = λ w {a = b} h.
        let (a, first, second, same) = bind-ok m f env w h in
        subst (λ (v : World). r w.db b v.db) (sym same)
          (join w.db (m env w).1.db (f a env (m env w).1).1.db a b (l.at w first)
            ((k a).at (m env w).1 second));
  }

-- A statement that must affect a row
pub Yields-affect :
    {env : Env} {r : Db → Unit {0} → Db → Type 0} (e : Error) (rows : Db → ℕ) (f : ℕ → Db → Db)
    → ((time : ℕ) (db : Db) → (rows db =ℕ= 0) ≡ false → r db tt (f time db))
    → Yields env (affect e rows f) r
Yields-affect {r = r} e rows f h = record {
  at = λ w {a} k.
      let (some_row, same) = affect_run e rows f _ w k in
      subst (r w.db a) (sym same) (h _ w.db some_row);
}
