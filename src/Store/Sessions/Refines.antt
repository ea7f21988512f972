-- ===== src/Store/Sessions/Refines.antt =====
-- The statements on the sessions act on the map that the table stands for, with compare-and-swap
-- (internal/authn/session_repository.go).
use an.Prelude.{
  ℕ, suc, ◌≡◌, refl, ap, ◌∙◌, String, ◌==◌, Bool, true, false, ◌&&◌, none, some, arith,
  if◌then◌else◌, Option-cases, inl, inr, ◌=ℕ=◌,
}
use an.Error.{ok}
use an.World.{World, Env}
use an.Table
use an.Table.Unique.{unique}
use an.Exec.{exec, exec_count, affect, ◌>>=◌}
use an.Store.Sessions
use an.Store.Sessions.{
  NewSession, is_session, is_owned, is_current, is_expired, refreshed, same_session, put,
}
use an.Store.Sessions.Race.{Request, upserts, rotates, deletes, deletes_all, sweeps, perform}
use an.Store.Sessions.Renewals.{
  Renewals, renewals, holds, swapped, kept, renewals-update, renewals-put, renewals-delete,
  renewals-delete_all, renewals-sweep, count_lem,
}

-- The answer of a statement: a rotation wins when the map holds the token that it presents.
unfoldable pub answer : Request → Renewals → Bool
unfolding holds
answer (rotates tenant_id email client_id current next expires) before =
    holds current (before tenant_id email client_id)
answer _ before = false

-- What the statement does to the map at a time
unfoldable pub effect : Request → ℕ → Renewals → Renewals
unfolding swapped kept
effect (upserts new) time before t e c =
    if new.tenant_id == t && new.email == e && new.client_id == c
    then some (record { refresh_jti = new.refresh_jti; expires = new.expires })
    else before t e c
effect (rotates tenant_id email client_id current next expires) time before t e c =
    if tenant_id == t && email == e && client_id == c
    then swapped current next expires (before t e c)
    else before t e c
effect (deletes tenant_id email client_id) time before t e c =
    if tenant_id == t && email == e && client_id == c then none else before t e c
effect (deletes_all tenant_id email) time before t e c =
    if tenant_id == t && email == e then none else before t e c
effect sweeps time before t e c = kept time (before t e c)

-- The table and the answer after a statement that succeeds
module _ (env : Env) (w : World) {b : Bool} where
  after_upsert :
      (new : NewSession)
      → (perform (upserts new) env w).0 ≡ ok b
      → (id : String) × (b ≡ false)
        × ((perform (upserts new) env w).1.db.sessions
            ≡ put new id (env.clock (suc w.step)) w.db.sessions)
  unfolding perform Sessions.upsert exec ◌>>=◌
  after_upsert new h = elim (Option-cases (env.uuid_v7 w.step)) [
    | inl e ↦ ground arith
    | inr (id, e) ↦ (id, ground arith, ground arith)
  ]

  after_rotate :
      (tenant_id email client_id current next : String) (expires : ℕ)
      → (perform (rotates tenant_id email client_id current next expires) env w).0 ≡ ok b
      → (b ≡ (Table.count (is_current tenant_id email client_id current) w.db.sessions =ℕ= 1))
        × ((perform (rotates tenant_id email client_id current next expires) env w).1.db.sessions
            ≡ Table.update
                (is_current tenant_id email client_id current)
                (refreshed next expires (env.clock w.step))
                w.db.sessions)
  unfolding perform Sessions.rotate exec_count ◌>>=◌
  after_rotate tenant_id email client_id current next expires h = ground arith

  after_delete :
      (tenant_id email client_id : String)
      → (perform (deletes tenant_id email client_id) env w).0 ≡ ok b
      → (b ≡ false)
        × ((perform (deletes tenant_id email client_id) env w).1.db.sessions
            ≡ Table.delete (is_session tenant_id email client_id) w.db.sessions)
  unfolding perform Sessions.delete affect ◌>>=◌
  after_delete tenant_id email client_id h = ground arith

  after_delete_all :
      (tenant_id email : String)
      → (perform (deletes_all tenant_id email) env w).0 ≡ ok b
      → (b ≡ false)
        × ((perform (deletes_all tenant_id email) env w).1.db.sessions
            ≡ Table.delete (is_owned tenant_id email) w.db.sessions)
  unfolding perform Sessions.delete_all exec ◌>>=◌
  after_delete_all tenant_id email h = ground arith

  after_sweep :
      (perform sweeps env w).0 ≡ ok b
      → (b ≡ false)
        × ((perform sweeps env w).1.db.sessions
            ≡ Table.delete (is_expired (env.clock w.step)) w.db.sessions)
  unfolding perform Sessions.delete_expired exec_count ◌>>=◌
  after_sweep h = ground arith

-- A statement on a table with one session at most for an account and a client, when it succeeds, has
-- exactly its effect on the map from these to what renews the session, and its answer is that of the map:
-- a rotation wins, and replaces the token, exactly when the map holds the token that it presents.
pub perform_lem :
    (r : Request) (env : Env) (w : World) (t e c : String) {b : Bool}
    → unique same_session w.db.sessions ≡ true
    → (perform r env w).0 ≡ ok b
    → (b ≡ answer r (renewals w.db.sessions))
      × (renewals (perform r env w).1.db.sessions t e c
          ≡ effect r (env.clock w.step) (renewals w.db.sessions) t e c)
unfolding effect answer
perform_lem (upserts new) env w t e c h done =
    let (id, none_won, rows) = after_upsert env w new done in
    (
      none_won,
      ap (λ rows. renewals rows t e c) rows
          ∙ renewals-put w.db.sessions t e c new id (env.clock (suc w.step))
              (Table.any (is_session new.tenant_id new.email new.client_id) w.db.sessions) refl,
    )
perform_lem (rotates tenant_id email client_id current next expires) env w t e c h done =
    let (won, rows) = after_rotate env w tenant_id email client_id current next expires done in
    (
      won ∙ count_lem tenant_id email client_id current w.db.sessions h,
      ap (λ rows. renewals rows t e c) rows
          ∙ renewals-update w.db.sessions t e c tenant_id email client_id current next expires
              (env.clock w.step),
    )
perform_lem (deletes tenant_id email client_id) env w t e c h done =
    let (none_won, rows) = after_delete env w tenant_id email client_id done in
    (
      none_won,
      ap (λ rows. renewals rows t e c) rows
          ∙ renewals-delete w.db.sessions t e c h tenant_id email client_id,
    )
perform_lem (deletes_all tenant_id email) env w t e c h done =
    let (none_won, rows) = after_delete_all env w tenant_id email done in
    (
      none_won,
      ap (λ rows. renewals rows t e c) rows
          ∙ renewals-delete_all w.db.sessions t e c h tenant_id email,
    )
perform_lem sweeps env w t e c h done =
    let (none_won, rows) = after_sweep env w done in
    (
      none_won,
      ap (λ rows. renewals rows t e c) rows
          ∙ renewals-sweep w.db.sessions t e c h (env.clock w.step),
    )
