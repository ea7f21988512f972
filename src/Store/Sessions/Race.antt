-- ===== src/Store/Sessions/Race.antt =====
-- Renewals that race for one session: each is a single conditional update, so any interleaving of
-- requests is a sequence of these statements.
use an.Prelude.{
  ℕ, suc, ◌≤◌, ◌+◌, ◌≡◌, ◌≢◌, refl, String, Bool, true, false, ◌&&◌, ◌==◌, List, [], ◌∷◌, arith,
  Option-cases, ◌⊎◌, eq_iff, inl, inr, if◌then◌else◌,
}
use an.Error.{Result, ok, err}
use an.World.{World, Env}
use an.Exec.{exec, affect, exec_count, M, pure, ◌>>=◌, ◌>>◌}
use an.Store.Sessions.{
  NewSession, upsert, rotate, delete, delete_all, delete_expired, is_session, is_owned, is_current,
  is_expired,
}
use an.Store.Sessions.Laws.{Spent, Spent-rotate, Spent-count, Spent-update, Spent-delete, Spent-put}

-- A statement on the table of sessions, with its arguments
pub data Request : Type 0 where
  upserts : NewSession → Request
  rotates : String → String → String → String → String → ℕ → Request
  deletes : String → String → String → Request
  deletes_all : String → String → Request
  sweeps : Request

-- Runs it; the answer is whether it rotated a session.
unfoldable pub perform : Request → M Bool
perform (upserts new) = upsert new >> pure false
perform (rotates tenant_id email client_id current next expires) =
    rotate tenant_id email client_id current next expires
perform (deletes tenant_id email client_id) = delete tenant_id email client_id >> pure false
perform (deletes_all tenant_id email) = delete_all tenant_id email >> pure false
perform sweeps = delete_expired >> pure false

abbrev won : Result Bool → ℕ
won (ok true) = 1
won (ok false) = 0
won (err e) = 0

module _ (tenant_id email client_id jti : String) where
  -- Does the request present `jti` to renew the session
  abbrev presents : Request → Bool
  presents (rotates t e c current next expires) =
      t == tenant_id && e == email && c == client_id && current == jti
  presents _ = false

  -- No request gives a session the token `jti` anew.
  abbrev Moves : Request → Type 0
  Moves (upserts new) = new.refresh_jti ≢ jti
  Moves (rotates t e c current next expires) = next ≢ jti
  Moves _ = Unit

  abbrev AllMove : List Request → Type 0
  AllMove [] = Unit
  AllMove (r ∷ rs) = Moves r × AllMove rs

  -- How many of the requests renew the session by `jti`
  pub winners : List Request → Env → World → ℕ
  winners [] env w = 0
  winners (r ∷ rs) env w =
      let rest = winners rs env (perform r env w).1 in
      if presents r then won (perform r env w).0 + rest else rest

  Spent-perform :
      (r : Request) (env : Env) (w : World)
      → Moves r
      → Spent tenant_id email client_id jti w.db.sessions
      → Spent tenant_id email client_id jti (perform r env w).1.db.sessions
  unfolding exec exec_count affect perform upsert rotate delete delete_all delete_expired ◌>>=◌
  Spent-perform (upserts new) env w m h = elim (Option-cases (env.uuid_v7 w.step)) [
    | inl e ↦ ground arith
    | inr (id, e) ↦ ground (
      arith,
      Spent-put tenant_id email client_id jti new id (env.clock (suc w.step)) w.db.sessions m h,
    )
  ]
  Spent-perform (rotates t e c current next expires) env w m h = ground (
    arith,
    Spent-update tenant_id email client_id jti (is_current t e c current) next expires
        (env.clock w.step) w.db.sessions m h,
  )
  Spent-perform (deletes t e c) env w m h =
      ground (arith, Spent-delete tenant_id email client_id jti (is_session t e c) w.db.sessions h)
  Spent-perform (deletes_all t e) env w m h =
      ground (arith, Spent-delete tenant_id email client_id jti (is_owned t e) w.db.sessions h)
  Spent-perform sweeps env w m h = ground (
    arith,
    Spent-delete tenant_id email client_id jti (is_expired (env.clock w.step)) w.db.sessions h,
  )

  -- A spent token wins nothing, and one that wins is spent.
  won-Spent :
      (next : String) (expires : ℕ) (env : Env) (w : World)
      → Spent tenant_id email client_id jti w.db.sessions
      → won (rotate tenant_id email client_id jti next expires env w).0 ≡ 0
  unfolding exec_count rotate ◌>>=◌
  won-Spent next expires env w h =
      ground (arith, Spent-count tenant_id email client_id jti w.db.sessions h)

  Spent-won :
      (next : String) (expires : ℕ) (env : Env) (w : World)
      → next ≢ jti
      → (won (rotate tenant_id email client_id jti next expires env w).0 ≡ 0)
        ⊎ ((won (rotate tenant_id email client_id jti next expires env w).0 ≡ 1)
            × Spent tenant_id email client_id jti
                (rotate tenant_id email client_id jti next expires env w).1.db.sessions)
  unfolding exec_count rotate ◌>>=◌
  Spent-won next expires env w fresh = ground (
    arith,
    Spent-rotate tenant_id email client_id jti next expires (env.clock w.step) w.db.sessions fresh,
  )

  winners-Spent :
      (rs : List Request) (env : Env) (w : World)
      → AllMove rs
      → Spent tenant_id email client_id jti w.db.sessions
      → winners rs env w ≡ 0
  unfolding winners perform
  winners-Spent [] env w m h = refl
  winners-Spent (rotates t e c current next expires ∷ rs) env w m h = ground (
    arith,
    eq_iff t tenant_id,
    eq_iff e email,
    eq_iff c client_id,
    eq_iff current jti,
    winners-Spent rs env (perform (rotates t e c current next expires) env w).1 m.1
        (Spent-perform (rotates t e c current next expires) env w m.0 h),
    won-Spent next expires env w h,
  )
  winners-Spent (r ∷ rs) env w m h =
      winners-Spent rs env (perform r env w).1 m.1 (Spent-perform r env w m.0 h)

  -- Of any sequence of requests on the sessions, with any failures of the driver among them, at most
  -- one renews a session by one refresh token, unless a request gives a session that token anew.
  pub winners-le-one :
      (rs : List Request) (env : Env) (w : World) → AllMove rs → winners rs env w ≤ 1
  unfolding winners perform
  winners-le-one [] env w m = omega arith
  winners-le-one (rotates t e c current next expires ∷ rs) env w m = ground (
    arith,
    eq_iff t tenant_id,
    eq_iff e email,
    eq_iff c client_id,
    eq_iff current jti,
    Spent-won next expires env w m.0,
    winners-Spent rs env (perform (rotates t e c current next expires) env w).1 m.1,
    winners-le-one rs env (perform (rotates t e c current next expires) env w).1 m.1,
  )
  winners-le-one (r ∷ rs) env w m = winners-le-one rs env (perform r env w).1 m.1
