-- ===== src/Store/Sessions.antt =====
-- internal/authn/session_repository.go: PostgresSessionRepository.
pub mod Keys
pub mod Laws
pub mod Race
pub mod Refines
pub mod Renewals
use an.Prelude.{ℕ, String, ◌==◌, ◌<>◌, Bool, not, ◌&&◌, List, ◌∷◌, ltb, ◌=ℕ=◌, if◌then◌else◌}
use an.Error.{Result, ok, err, session_not_found, driver_failure, pg_error}
use an.World.{Db}
use an.Rows.{Session}
use an.Table
use an.Exec.{
  M, pure, query, exec, exec_count, affect, asks, throw, statement, pg_unique_violation, new_uuid,
  from_option, ◌>>=◌,
}

-- WHERE tenant_id = $1 AND email = $2 AND client_id = $3
abbrev pub is_session : String → String → String → Session → Bool
is_session tenant_id email client_id row =
    row.tenant_id == tenant_id && row.email == email && row.client_id == client_id

-- UNIQUE (tenant_id, email, client_id)
abbrev pub same_session : Session → Session → Bool
same_session row = is_session row.tenant_id row.email row.client_id

-- WHERE tenant_id = $1 AND email = $2
abbrev pub is_owned : String → String → Session → Bool
is_owned tenant_id email row = row.tenant_id == tenant_id && row.email == email

-- The session that Acknowledge hands to Upsert
pub record NewSession : Type 0 where
  pub tenant_id : String
  pub email : String
  pub client_id : String
  pub refresh_jti : String
  pub expires : ℕ

-- SET refresh_jti, expires, modified
abbrev pub refreshed : String → ℕ → ℕ → Session → Session
refreshed jti expires time row = record row {
  refresh_jti = jti;
  expires = expires;
  modified = time;
}

-- The rows after INSERT … ON CONFLICT (tenant_id, email, client_id) DO UPDATE, where no other constraint is
-- violated
unfoldable pub put : NewSession → String → ℕ → List Session → List Session
put new id time rows =
    let same = is_session new.tenant_id new.email new.client_id in
    if Table.any same rows
    then Table.update same (refreshed new.refresh_jti new.expires time) rows
    else (record {
      id = id;
      tenant_id = new.tenant_id;
      email = new.email;
      client_id = new.client_id;
      refresh_jti = new.refresh_jti;
      expires = new.expires;
      created = time;
      modified = time;
    })
      ∷ rows

abbrev pub has_id : String → Session → Bool
has_id id row = row.id == id

-- A new row whose id is taken, PRIMARY KEY (id)
unfoldable pub id_taken : NewSession → String → List Session → Bool
id_taken new id rows =
    not (Table.any (is_session new.tenant_id new.email new.client_id) rows)
    && Table.any (has_id id) rows

-- `is_uuid`: does the column of refresh_jti take the text
unfoldable pub store : NewSession → String → Bool → ℕ → Db → Result (Unit {0}) × Db
unfolding put id_taken
store new id is_uuid time db =
    if not is_uuid
    then (err driver_failure, db)
    else if id_taken new id db.sessions
    then (err (pg_error pg_unique_violation), db)
    else (ok tt, record db { sessions = put new id time db.sessions })

unfoldable pub upsert : NewSession → M (Unit {0})
unfolding store new_uuid
upsert new = do
  id ← new_uuid
  is_uuid ← asks (λ env. env.uuid_cast new.refresh_jti)
  statement (store new id is_uuid)

unfoldable pub read : String → String → String → M Session
read tenant_id email client_id = query λ _ db.
    from_option (session_not_found (email <> ("/" <> client_id)))
      (Table.find (is_session tenant_id email client_id) db.sessions)

-- WHERE tenant_id = $1 AND email = $2 AND client_id = $3 AND refresh_jti = $4
abbrev pub is_current : String → String → String → String → Session → Bool
is_current tenant_id email client_id jti row =
    is_session tenant_id email client_id row && row.refresh_jti == jti

-- One conditional update, which fails on a text that is no uuid; the answer is whether it changed a row.
unfoldable pub rotate : String → String → String → String → String → ℕ → M Bool
rotate tenant_id email client_id current_jti next_jti expires = do
  casts ← asks (λ env. env.uuid_cast current_jti && env.uuid_cast next_jti)
  affected ←
      if not casts
      then throw driver_failure
      else exec_count
          (λ _ db. Table.count (is_current tenant_id email client_id current_jti) db.sessions)
          (λ time db. record db {
            sessions =
                Table.update (is_current tenant_id email client_id current_jti)
                  (refreshed next_jti expires time) db.sessions;
          })
  pure (affected =ℕ= 1)

unfoldable pub delete : String → String → String → M (Unit {0})
delete tenant_id email client_id =
    affect (session_not_found (email <> ("/" <> client_id)))
      (λ db. Table.count (is_session tenant_id email client_id) db.sessions)
      (λ _ db. record db {
        sessions = Table.delete (is_session tenant_id email client_id) db.sessions;
      })

unfoldable pub delete_all : String → String → M (Unit {0})
delete_all tenant_id email =
    exec λ _ db. record db { sessions = Table.delete (is_owned tenant_id email) db.sessions }

-- WHERE expires < now()
abbrev pub is_expired : ℕ → Session → Bool
is_expired time row = ltb row.expires time

unfoldable pub delete_expired : M ℕ
delete_expired =
    exec_count (λ time db. Table.count (is_expired time) db.sessions)
      (λ time db. record db { sessions = Table.delete (is_expired time) db.sessions })
