-- ===== src/Store/AuthRequests.antt =====
-- internal/oidc/auth_request_repository.go: PostgresAuthRequestRepository.
use an.Prelude.{
  ℕ, ◌=ℕ=◌, String, ◌==◌, Bool, true, false, not, ◌&&◌, Option, none, some, List, ◌∷◌, ltb,
  if◌then◌else◌,
}
use an.Error.{
  Error, Result, ok, err, pg_error, auth_request_not_found, tenant_mismatch, duplicate, reference,
  driver_failure,
}
use an.Rows.{AuthRequest}
use an.Table
use an.World.{Db}
use an.Exec.{
  M, pure, throw, asks, query, statement, exec_count, affect, rename_error, new_uuid, from_option,
  now, fail_if, pg_unique_violation, pg_foreign_key_violation, ◌>>=◌, ◌>>◌,
}
use an.Utils.Secrets.{sha256_hex}

-- constraintError: a constraint that a statement violates, as a typed error
unfoldable pub constraint_error : String → Error → Error
constraint_error what (pg_error c) =
    if c == pg_unique_violation
    then duplicate what
    else if c == pg_foreign_key_violation
    then reference what
    else pg_error c
constraint_error what e = e

abbrev pub has_id : String → AuthRequest → Bool
has_id id row = row.id == id

abbrev same_text : Option String → String → Bool
same_text none s = false
same_text (some t) s = t == s

abbrev pub has_code : String → AuthRequest → Bool
has_code hash row = same_text row.code_hash hash

-- WHERE tenant_id = $1 AND id = $2
abbrev pub is_request : String → String → AuthRequest → Bool
is_request tenant_id id row = row.tenant_id == tenant_id && row.id == id

-- PRIMARY KEY (id). A new request has no code.
unfoldable pub insert : AuthRequest → ℕ → Db → Result AuthRequest × Db
insert request time db =
    if Table.any (has_id request.id) db.auth_requests
    then (err (pg_error pg_unique_violation), db)
    else let row = record request { code_hash = none; created = time; modified = time } in
      (ok row, record db { auth_requests = row ∷ db.auth_requests })

unfoldable pub create : AuthRequest → M AuthRequest
unfolding insert constraint_error new_uuid
create request = do
  id ← new_uuid
  rename_error (constraint_error "auth request") (statement (insert (record request { id = id })))

-- The tenant is checked after the read, and a stale row reads as a miss.
unfoldable pub read_row : (AuthRequest → Bool) → String → String → M AuthRequest
read_row p tenant_id not_found = do
  request ←
      query (λ _ db. from_option (auth_request_not_found not_found) (Table.find p db.auth_requests))
  fail_if (not (request.tenant_id == tenant_id)) tenant_mismatch
  time ← now
  fail_if (ltb request.expires time) (auth_request_not_found not_found)
  pure request

unfoldable pub read : String → String → M AuthRequest
read tenant_id id = do
  parses ← asks (λ env. env.uuid_parse id)
  if parses then read_row (has_id id) tenant_id id else throw (auth_request_not_found id)

unfoldable pub read_by_code : String → String → M AuthRequest
read_by_code tenant_id text = do
  hash ← asks (λ env. sha256_hex env text)
  read_row (has_code hash) tenant_id "code"

-- An id that is no uuid fails as the driver casts it.
unfoldable pub update : String → String → (ℕ → AuthRequest → AuthRequest) → M (Unit {0})
update tenant_id id change = do
  casts ← asks (λ env. env.uuid_cast id)
  if not casts
      then throw driver_failure
      else affect (auth_request_not_found id)
          (λ db. Table.count (is_request tenant_id id) db.auth_requests)
          (λ time db. record db {
            auth_requests = Table.update (is_request tenant_id id) (change time) db.auth_requests;
          })

-- Marks the request done for a subject.
unfoldable pub authenticate : String → String → String → ℕ → List String → M (Unit {0})
unfolding update
authenticate tenant_id id subject auth_time amr = update tenant_id id λ time row. record row {
  subject = subject;
  auth_time = some auth_time;
  amr = amr;
  complete = true;
  modified = time;
}

-- UNIQUE (code_hash): another request holds the hash
unfoldable pub store_code : String → String → String → ℕ → Db → Result ℕ × Db
store_code tenant_id id hash time db =
    if Table.any (λ row. has_code hash row && not (is_request tenant_id id row)) db.auth_requests
      && Table.any (is_request tenant_id id) db.auth_requests
    then (err (pg_error pg_unique_violation), db)
    else (
      ok (Table.count (is_request tenant_id id) db.auth_requests),
      record db {
        auth_requests =
            Table.update (is_request tenant_id id)
              (λ row. record row { code_hash = some hash; modified = time }) db.auth_requests;
      },
    )

unfoldable pub save_code : String → String → String → M (Unit {0})
unfolding store_code constraint_error
save_code tenant_id id text = do
  hash ← asks (λ env. sha256_hex env text)
  casts ← asks (λ env. env.uuid_cast id)
  affected ←
      if not casts
      then throw driver_failure
      else rename_error (constraint_error "auth request") (statement (store_code tenant_id id hash))
  fail_if (affected =ℕ= 0) (auth_request_not_found id)

unfoldable pub delete : String → String → M (Unit {0})
delete tenant_id id = do
  parses ← asks (λ env. env.uuid_parse id)
  if not parses
      then throw (auth_request_not_found id)
      else affect (auth_request_not_found id)
          (λ db. Table.count (is_request tenant_id id) db.auth_requests)
          (λ _ db. record db {
            auth_requests = Table.delete (is_request tenant_id id) db.auth_requests;
          })

abbrev pub is_expired : ℕ → AuthRequest → Bool
is_expired time row = ltb row.expires time

unfoldable pub delete_expired : M ℕ
delete_expired =
    exec_count (λ time db. Table.count (is_expired time) db.auth_requests)
      (λ time db. record db { auth_requests = Table.delete (is_expired time) db.auth_requests })
