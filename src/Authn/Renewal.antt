-- ===== src/Authn/Renewal.antt =====
-- Renew and Acknowledge of internal/authn/authn.go.
use an.Prelude.{
  ap, false, ℕ, suc, ◌≡◌, ◌≢◌, ◌∙◌, subst, sym, String, true, eq_iff, some, arith, inl, inr,
  Bool-cases,
}
use an.Error.{Succeeds, Result-cases, ok}
use an.Table
use an.Table.{any}
use an.World.{Db, World, Env, Claims}
use an.Exec.{exec_count, ◌>>=◌}
use an.Exec.Rules.{reliable, bind-ok, ReadOnly, read_rules}
use an.Tokens
use an.Tokens.{registered_claims, create_access_token, create_refresh_token}
use an.Tokens.ReadOnly.{
  ReadOnly-create_access_token, ReadOnly-create_refresh_token, ReadOnly-validate_access_token,
  ReadOnly-validate_refresh_token,
}
use an.Store.Sessions
use an.Store.Sessions.{is_session, is_current, upsert, put, has_id, store, id_taken}
use an.Store.Sessions.Laws.{Spent, Spent-rotate, Spent-count, jti_of, jti-put}
use an.Authn.{rotate_session, live_account, issue, acknowledge, session_of, Authenticated}
use an.Authn.Lifecycle.{db-live_account}

pub ReadOnly-issue :
    (tenant_id email client_id : String) → ReadOnly (issue tenant_id email client_id)
unfolding issue
ReadOnly-issue tenant_id email client_id =
    search (read_rules, ReadOnly-create_access_token, ReadOnly-create_refresh_token)

-- The identifier of an issued refresh token is a fresh uuid.
module _ (env : Env) (jti : String) (fresh : (n : ℕ) → env.uuid_v7 n ≢ some jti) where
  id-registered_claims :
      (w : World) (tenant_id email client_id : String) (expiry : ℕ) {claims : Claims}
      → (registered_claims tenant_id email client_id expiry env w).0 ≡ ok claims
      → claims.id ≢ jti
  unfolding registered_claims ◌>>=◌
  id-registered_claims w tenant_id email client_id expiry {claims = claims} h same =
      ground (arith, fresh (suc w.step))

  id-create_refresh_token :
      (w : World) (tenant_id email client_id : String) {issued : String × Claims}
      → (create_refresh_token tenant_id email client_id env w).0 ≡ ok issued
      → issued.1.id ≢ jti
  unfolding create_refresh_token ◌>>=◌
  id-create_refresh_token w tenant_id email client_id {issued = issued} h = ground (
    arith,
    id-registered_claims w tenant_id email client_id env.config.refresh_expiry {claims = issued.1},
  )

  id-issue :
      (w : World) (tenant_id email client_id : String) {issued : Authenticated × Claims}
      → (issue tenant_id email client_id env w).0 ≡ ok issued
      → issued.1.id ≢ jti
  unfolding issue ◌>>=◌
  id-issue w tenant_id email client_id {issued = issued} h =
      let (access, made, h', _) =
        bind-ok (create_access_token tenant_id email client_id) _ env w h in
      let (refresh, made', h'', _) =
        bind-ok (create_refresh_token tenant_id email client_id) _ env
          (create_access_token tenant_id email client_id env w).1 h' in
      ground (
        arith,
        id-create_refresh_token (create_access_token tenant_id email client_id env w).1 tenant_id
            email client_id {issued = refresh} made',
      )

module _ (env : Env) (w : World) (tenant_id : String) (claims : Claims) where
  -- The world when a renewal rotates the session
  abbrev before_rotate : World
  before_rotate =
      (issue tenant_id claims.subject claims.client_id env
        (live_account tenant_id claims.subject env w).1).1

  db-before_rotate : before_rotate.db ≡ w.db
  db-before_rotate =
      (ReadOnly-issue tenant_id claims.subject claims.client_id).at env
        (live_account tenant_id claims.subject env w).1
      ∙ db-live_account env w tenant_id claims.subject claims.client_id

  -- A renewal that succeeds has issued a pair and rotated the session.
  rotate_session-parts :
      Succeeds (rotate_session tenant_id claims env w).0
      → (issued : Authenticated × Claims) × ((issue tenant_id claims.subject claims.client_id env
            (live_account tenant_id claims.subject env w).1).0
          ≡ ok issued)
        × ((Sessions.rotate tenant_id claims.subject claims.client_id claims.id issued.1.id
              issued.1.expires_at env before_rotate).0
            ≡ ok true)
        × ((rotate_session tenant_id claims env w).1
            ≡ (Sessions.rotate tenant_id claims.subject claims.client_id claims.id issued.1.id
                issued.1.expires_at env before_rotate).1)
  unfolding rotate_session ◌>>=◌
  rotate_session-parts h =
      elim (Result-cases
        (issue tenant_id claims.subject claims.client_id env
          (live_account tenant_id claims.subject env w).1).0) [
            | inl (issued, e) ↦ (issued, e, ground arith, ground arith)
            | inr (e, failed) ↦ absurd (ground arith)
          ]

  -- A rotation that succeeds found the presented token, and spends it.
  rotate-ok :
      (next : String) (expires : ℕ) (v : World)
      → (Sessions.rotate tenant_id claims.subject claims.client_id claims.id next expires env v).0
        ≡ ok true
      → (any (is_current tenant_id claims.subject claims.client_id claims.id) v.db.sessions ≡ true)
        × (next ≢ claims.id
            → Spent tenant_id claims.subject claims.client_id claims.id
                (Sessions.rotate tenant_id claims.subject claims.client_id claims.id next expires
                  env v).1.db.sessions)
  unfolding exec_count Sessions.rotate ◌>>=◌
  rotate-ok next expires v h =
      elim (Bool-cases
        (any (is_current tenant_id claims.subject claims.client_id claims.id) v.db.sessions)) [
          | inl found ↦ (
            found,
            λ other. ground (
              arith,
              Spent-rotate tenant_id claims.subject claims.client_id claims.id next expires
                  (env.clock v.step) v.db.sessions other,
            ),
          )
          | inr spent ↦ absurd (
              ground (
                arith,
                Spent-count tenant_id claims.subject claims.client_id claims.id v.db.sessions spent,
              ))
        ]

  -- Whatever calls of the driver fail: only the refresh token that is the current one of its session
  -- renews it.
  pub rotate_session-current :
      Succeeds (rotate_session tenant_id claims env w).0
      → any (is_current tenant_id claims.subject claims.client_id claims.id) w.db.sessions ≡ true
  rotate_session-current h =
      let (issued, _, rotated, _) = rotate_session-parts h in
      subst
        (λ (db : Db).
          any (is_current tenant_id claims.subject claims.client_id claims.id) db.sessions ≡ true)
        db-before_rotate (rotate-ok issued.1.id issued.1.expires_at before_rotate rotated).0

  rotate_session-Spent :
      ((n : ℕ) → env.uuid_v7 n ≢ some claims.id)
      → Succeeds (rotate_session tenant_id claims env w).0
      → Spent tenant_id claims.subject claims.client_id claims.id
          (rotate_session tenant_id claims env w).1.db.sessions
  rotate_session-Spent fresh h =
      let (issued, made, rotated, after) = rotate_session-parts h in
      subst (λ (v : World). Spent tenant_id claims.subject claims.client_id claims.id v.db.sessions)
        (sym after)
        ((rotate-ok issued.1.id issued.1.expires_at before_rotate rotated).1 (
          id-issue env claims.id fresh (live_account tenant_id claims.subject env w).1 tenant_id
            claims.subject claims.client_id {issued = issued} made))

-- Whatever calls of the driver fail: after a renewal that succeeds, the same refresh token renews
-- its session no more, in any environment and at any world whose sessions are those that the
-- renewal left. The uuids that the renewal draws differ from the token's.
pub rotate_session_once :
    (env env' : Env) (w w' : World) (tenant_id : String) (claims : Claims)
    → ((n : ℕ) → env.uuid_v7 n ≢ some claims.id)
    → Succeeds (rotate_session tenant_id claims env w).0
    → w'.db.sessions ≡ (rotate_session tenant_id claims env w).1.db.sessions
    → ¬ Succeeds (rotate_session tenant_id claims env' w').0
rotate_session_once env env' w w' tenant_id claims fresh h same again =
    let spent = rotate_session-Spent env w tenant_id claims fresh h in
    let current = rotate_session-current env' w' tenant_id claims again in cc (spent, current, same)

-- No call of the driver failing: Acknowledge accepts every pair of an access and a refresh token that
-- validate and agree on the tenant, the client and the subject, whether their session is stored, is
-- another one or was revoked, and makes the refresh token the current one of its session. The id of the
-- refresh token is a uuid, and every draw of a uuid gives one that is the id of no session.
pub acknowledge_revives :
    (env : Env) (w : World) (tenant_id : String) (pair : Authenticated) {access refresh : Claims}
    → (Tokens.validate_access_token pair.access_token (reliable env) w).0 ≡ ok access
    → (Tokens.validate_refresh_token pair.refresh_token
        (reliable env)
        (Tokens.validate_access_token pair.access_token (reliable env) w).1).0
      ≡ ok refresh
    → access.tenant_id ≡ tenant_id
    → refresh.tenant_id ≡ tenant_id
    → access.client_id ≡ refresh.client_id
    → access.subject ≡ refresh.subject
    → env.uuid_cast refresh.id ≡ true
    → ((n : ℕ)
        → (id : String) × (env.uuid_v7 n ≡ some id) × (any (has_id id) w.db.sessions ≡ false))
    → ((acknowledge tenant_id pair (reliable env) w).0 ≡ ok tt)
      × (jti_of (
            Table.find
              (is_session tenant_id refresh.subject refresh.client_id)
              (acknowledge tenant_id pair (reliable env) w).1.db.sessions)
          ≡ some refresh.id)
unfolding store id_taken acknowledge upsert ◌>>=◌
acknowledge_revives env w tenant_id pair {access = access} {refresh = refresh} a r ta tr c s is_uuid
      uuids =
    let (id, drawn, new_id) = uuids stored.step in
    ground (
      arith,
      unread,
      new_id_stored id new_id,
      eq_iff access.tenant_id tenant_id,
      eq_iff refresh.tenant_id tenant_id,
      eq_iff access.client_id refresh.client_id,
      eq_iff access.subject refresh.subject,
      jti-put (session_of tenant_id refresh) id (env.clock (suc stored.step)) stored.db.sessions,
    )
  where
    -- the world when the session is stored
    stored : World
    stored =
        (Tokens.validate_refresh_token pair.refresh_token (reliable env)
          (Tokens.validate_access_token pair.access_token (reliable env) w).1).1

    unread : stored.db ≡ w.db
    unread =
        (ReadOnly-validate_refresh_token pair.refresh_token).at (reliable env)
          (Tokens.validate_access_token pair.access_token (reliable env) w).1
        ∙ (ReadOnly-validate_access_token pair.access_token).at (reliable env) w

    new_id_stored :
        (id : String)
        → any (has_id id) w.db.sessions ≡ false
        → any (has_id id) stored.db.sessions ≡ false
    new_id_stored id h = ap (λ (db : Db). any (has_id id) db.sessions) unread ∙ h
