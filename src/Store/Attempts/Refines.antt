-- ===== src/Store/Attempts/Refines.antt =====
-- The table of failed attempts as a map from accounts to what is recorded of them
-- (internal/authn/failed_attempt_repository.go).
use an.Prelude.{
  ℕ, suc, ◌+◌, ◌≡◌, refl, sym, ap, ◌∙◌, subst, String, ◌==◌, Bool, true, false, ◌&&◌, Option, none,
  some, List, ◌∷◌, arith, ltb, leb, if◌then◌else◌, eq_iff, eq_refl, Option-cases, inl, inr,
}
use an.Error.{ok}
use an.Rows.{FailedAttempt}
use an.World.{Db, World, Env}
use an.Table
use an.Table.Laws.{
  find-delete_self, find-delete_other, find-update_self, find-update_other, find_sound,
}
use an.Table.Unique.{unique, unless, find-delete-unique}
use an.Exec.{M, pure, exec, exec_count, ◌>>=◌}
use an.Store.Attempts
use an.Store.Attempts.{is_attempt, is_stale, same_attempt, lock, counted, first_attempt, increment}

-- What is recorded of an account
pub record Status : Type 0 where
  pub count : ℕ
  pub locked_until : Option ℕ
  pub modified : ℕ

abbrev Recorded : Type 0
Recorded = String → String → Option Status

status : Option FailedAttempt → Option Status
status none = none
status (some row) =
    some (record { count = row.count; locked_until = row.locked_until; modified = row.modified })

-- The map that the table stands for
unfoldable pub recorded : List FailedAttempt → Recorded
unfolding status
recorded rows tenant_id email = status (Table.find (is_attempt tenant_id email) rows)

-- A statement of the repository
pub data Step : Type 0 where
  increments : String → String → ℕ → ℕ → Step
  clears : String → String → Step
  forgets : ℕ → Step

unfoldable pub perform : Step → M (Unit {0})
perform (increments tenant_id email max lock_for) =
    Attempts.increment_and_lock tenant_id email max lock_for >>= λ _. pure tt
perform (clears tenant_id email) = Attempts.clear tenant_id email
perform (forgets older_than) = Attempts.delete_stale older_than >>= λ _. pure tt

-- One more failure: the count goes up by one, and from the limit on the account is locked.
one_more : ℕ → ℕ → ℕ → Option Status → Status
one_more max lock_for time none = record {
  count = 1;
  locked_until = if leb max 1 then some (time + lock_for) else none;
  modified = time;
}
one_more max lock_for time (some old) = record {
  count = suc old.count;
  locked_until = if leb max (suc old.count) then some (time + lock_for) else old.locked_until;
  modified = time;
}

kept : ℕ → ℕ → Option Status → Option Status
kept older_than time none = none
kept older_than time (some old) = if ltb (old.modified + older_than) time then none else some old

-- What the statement does to the map at a time
unfoldable pub effect : Step → ℕ → Recorded → Recorded
unfolding one_more kept
effect (increments tenant_id email max lock_for) time before t e =
    if tenant_id == t && email == e
    then some (one_more max lock_for time (before t e))
    else before t e
effect (clears tenant_id email) time before t e =
    if tenant_id == t && email == e then none else before t e
effect (forgets older_than) time before t e = kept older_than time (before t e)

-- Two tests for different accounts exclude each other.
apart :
    (tenant_id email t e : String)
    → (tenant_id == t && email == e) ≡ false
    → (row : FailedAttempt) → is_attempt tenant_id email row ≡ true
    → is_attempt t e row ≡ false
apart tenant_id email t e h row k = ground (
  arith,
  eq_iff row.tenant_id tenant_id,
  eq_iff row.email email,
  eq_iff row.tenant_id t,
  eq_iff row.email e,
  eq_iff tenant_id t,
  eq_iff email e,
)

same_key :
    (tenant_id email t e : String)
    → (tenant_id == t && email == e) ≡ true
    → (tenant_id ≡ t) × (email ≡ e)
same_key tenant_id email t e h = ground (arith, eq_iff tenant_id t, eq_iff email e)

at_key :
    (p : String → String → Type 0) {tenant_id email t e : String}
    → (tenant_id == t && email == e) ≡ true
    → p tenant_id email
    → p t e
at_key p {tenant_id} {email} {t} {e} h k =
    let (same_tenant, same_email) = same_key tenant_id email t e h in
    subst (λ x. p t x) same_email (subst (λ x. p x email) same_tenant k)

module _ (rows : List FailedAttempt) (tenant_id email : String) where
  recorded-clear :
      (t e : String) (b : Bool)
      → (tenant_id == t && email == e) ≡ b
      → recorded (Table.delete (is_attempt tenant_id email) rows) t e
        ≡ (if b then none else recorded rows t e)
  unfolding recorded
  recorded-clear t e true h =
      at_key (λ t e. recorded (Table.delete (is_attempt tenant_id email) rows) t e ≡ none) h
        (ap status (find-delete_self (is_attempt tenant_id email) rows))
  recorded-clear t e false h = ap status (
      find-delete_other (is_attempt tenant_id email) (is_attempt t e) (apart tenant_id email t e h)
        rows)

  keys_agree :
      (x y : FailedAttempt)
      → is_attempt tenant_id email x ≡ true
      → is_attempt tenant_id email y ≡ true
      → same_attempt x y ≡ true
  keys_agree x y h k = ground (
    arith,
    eq_iff x.tenant_id tenant_id,
    eq_iff x.email email,
    eq_iff y.tenant_id tenant_id,
    eq_iff y.email email,
    eq_iff y.tenant_id x.tenant_id,
    eq_iff y.email x.email,
  )

  status-unless :
      (older_than time : ℕ) (found : Option FailedAttempt)
      → status (unless (is_stale older_than time) found) ≡ kept older_than time (status found)
  unfolding status unless kept
  status-unless older_than time none = refl
  status-unless older_than time (some row) = ground arith

  recorded-forget :
      (older_than time : ℕ)
      → unique same_attempt rows ≡ true
      → recorded (Table.delete (is_stale older_than time) rows) tenant_id email
        ≡ kept older_than time (recorded rows tenant_id email)
  unfolding recorded
  recorded-forget older_than time h =
      ap status (
        find-delete-unique same_attempt (is_stale older_than time) (is_attempt tenant_id email)
          keys_agree rows h)
      ∙ status-unless older_than time (Table.find (is_attempt tenant_id email) rows)

-- The table after one more failure
grown : String → String → ℕ → ℕ → ℕ → Db → List FailedAttempt
grown tenant_id email max lock_for time db =
    (increment tenant_id email max lock_for time db).1.failed_attempts

counted_status :
    (max lock_for time : ℕ) (old : FailedAttempt)
    → status (some (counted max lock_for time old))
      ≡ some (one_more max lock_for time (status (some old)))
unfolding status counted one_more lock
counted_status max lock_for time old = refl

module _ (tenant_id email : String) (max lock_for time : ℕ) (db : Db) where
  abbrev mine : FailedAttempt → Bool
  mine = is_attempt tenant_id email

  grown-new :
      Table.find mine db.failed_attempts ≡ none
      → grown tenant_id email max lock_for time db
        ≡ first_attempt tenant_id email max lock_for time ∷ db.failed_attempts
  unfolding grown increment
  grown-new h = rw (h, grown, increment) refl

  grown-old :
      {old : FailedAttempt}
      → Table.find mine db.failed_attempts ≡ some old
      → grown tenant_id email max lock_for time db
        ≡ Table.update mine (counted max lock_for time) db.failed_attempts
  unfolding grown increment
  grown-old h = rw (h, grown, increment) refl

  first_status :
      recorded
        (first_attempt tenant_id email max lock_for time ∷ db.failed_attempts)
        tenant_id
        email
      ≡ some (one_more max lock_for time none)
  unfolding recorded status first_attempt one_more lock Table.find
  first_status = rw (eq_refl tenant_id, eq_refl email) refl

  grown_self :
      recorded (grown tenant_id email max lock_for time db) tenant_id email
      ≡ some (one_more max lock_for time (recorded db.failed_attempts tenant_id email))
  unfolding recorded counted
  grown_self = elim (Option-cases (Table.find mine db.failed_attempts)) [
    | inl new ↦
        ap (λ rows. recorded rows tenant_id email) (grown-new new)
        ∙ first_status
        ∙ ap (λ o. some (one_more max lock_for time (status o))) (sym new)
    | inr (old, found) ↦
        ap (λ rows. recorded rows tenant_id email) (grown-old found)
        ∙ ap status (
            find-update_self mine (counted max lock_for time) db.failed_attempts {x = old}
              (find_sound mine db.failed_attempts found) found)
        ∙ counted_status max lock_for time old
        ∙ ap (λ o. some (one_more max lock_for time (status o))) (sym found)
  ]

  module _ (t e : String) (h : (tenant_id == t && email == e) ≡ false) where
    first_other :
        recorded (first_attempt tenant_id email max lock_for time ∷ db.failed_attempts) t e
        ≡ recorded db.failed_attempts t e
    unfolding recorded first_attempt Table.find
    first_other = rw h refl

    grown-other :
        recorded (grown tenant_id email max lock_for time db) t e ≡ recorded db.failed_attempts t e
    unfolding recorded counted
    grown-other = elim (Option-cases (Table.find mine db.failed_attempts)) [
      | inl new ↦ ap (λ rows. recorded rows t e) (grown-new new) ∙ first_other
      | inr (old, found) ↦
          ap (λ rows. recorded rows t e) (grown-old found)
          ∙ ap status (
              find-update_other mine (is_attempt t e) (counted max lock_for time)
                (apart tenant_id email t e h) (apart tenant_id email t e h) db.failed_attempts)
    ]

  grown_lem :
      (t e : String) (b : Bool)
      → (tenant_id == t && email == e) ≡ b
      → recorded (grown tenant_id email max lock_for time db) t e ≡ (
          if b
          then some (one_more max lock_for time (recorded db.failed_attempts t e))
          else recorded db.failed_attempts t e)
  grown_lem t e true h =
      at_key
        (λ t e.
          recorded (grown tenant_id email max lock_for time db) t e
          ≡ some (one_more max lock_for time (recorded db.failed_attempts t e)))
        h grown_self
  grown_lem t e false h = grown-other t e h

-- The table after a statement that succeeds
module _ (env : Env) (w : World) where
  after_increment :
      (tenant_id email : String) (max lock_for : ℕ)
      → (perform (increments tenant_id email max lock_for) env w).0 ≡ ok tt
      → (perform (increments tenant_id email max lock_for) env w).1.db.failed_attempts
        ≡ grown tenant_id email max lock_for (env.clock w.step) w.db
  unfolding perform Attempts.increment_and_lock grown ◌>>=◌
  after_increment tenant_id email max lock_for h = ground arith

  after_clear :
      (tenant_id email : String)
      → (perform (clears tenant_id email) env w).0 ≡ ok tt
      → (perform (clears tenant_id email) env w).1.db.failed_attempts
        ≡ Table.delete (is_attempt tenant_id email) w.db.failed_attempts
  unfolding perform Attempts.clear exec ◌>>=◌
  after_clear tenant_id email h = ground arith

  after_forget :
      (older_than : ℕ)
      → (perform (forgets older_than) env w).0 ≡ ok tt
      → (perform (forgets older_than) env w).1.db.failed_attempts
        ≡ Table.delete (is_stale older_than (env.clock w.step)) w.db.failed_attempts
  unfolding perform Attempts.delete_stale exec_count ◌>>=◌
  after_forget older_than h = ground arith

-- A statement on a well-formed table that succeeds has exactly its effect on the map: one more failure of
-- one account, with the lock at the limit; none recorded of one account; or the loss of what is stale.
pub perform-effect :
    (step : Step) (env : Env) (w : World) (tenant_id email : String)
    → unique same_attempt w.db.failed_attempts ≡ true
    → (perform step env w).0 ≡ ok tt
    → recorded (perform step env w).1.db.failed_attempts tenant_id email
      ≡ effect step (env.clock w.step) (recorded w.db.failed_attempts) tenant_id email
unfolding effect
perform-effect (increments tenant_id email max lock_for) env w t e h done =
    ap (λ rows. recorded rows t e) (after_increment env w tenant_id email max lock_for done)
    ∙ grown_lem tenant_id email max lock_for (env.clock w.step) w.db t e
        (tenant_id == t && email == e) refl
perform-effect (clears tenant_id email) env w t e h done =
    ap (λ rows. recorded rows t e) (after_clear env w tenant_id email done)
    ∙ recorded-clear w.db.failed_attempts tenant_id email t e (tenant_id == t && email == e) refl
perform-effect (forgets older_than) env w t e h done =
    ap (λ rows. recorded rows t e) (after_forget env w older_than done)
    ∙ recorded-forget w.db.failed_attempts t e older_than (env.clock w.step) h
