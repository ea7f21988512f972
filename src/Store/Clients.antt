-- ===== src/Store/Clients.antt =====
-- internal/oidc/client_repository.go: PostgresClientRepository.
use an.Prelude.{String, ◌==◌, Bool, ◌&&◌, ◌∷◌, if◌then◌else◌}
use an.Error.{Result, ok, err, pg_error, client_not_found}
use an.Rows.{RegisteredClient}
use an.Table
use an.World.{Db}
use an.Exec.{
  M, pure, asks, query, statement, affect, rename_error, from_option, now, pg_unique_violation,
  ◌>>=◌, ◌>>◌,
}
use an.Utils.Secrets.{sha256_hex, random_token}
use an.Store.AuthRequests.{constraint_error}

-- WHERE tenant_id = $1 AND client_id = $2
abbrev pub is_client : String → String → RegisteredClient → Bool
is_client tenant_id client_id row = row.tenant_id == tenant_id && row.client_id == client_id

unfoldable pub insert : RegisteredClient → Db → Result (Unit {0}) × Db
insert client db =
    if Table.any (is_client client.tenant_id client.client_id) db.clients
    then (err (pg_error pg_unique_violation), db)
    else (ok tt, record db { clients = client ∷ db.clients })

-- The stored client and its plaintext secret
unfoldable pub create : RegisteredClient → M (RegisteredClient × String)
unfolding insert constraint_error
create client = do
  secret ← random_token
  hash ← asks (λ env. sha256_hex env secret)
  time ← now
  let stored = record client { secret_hash = hash; created_at = time }
  rename_error (constraint_error client.client_id) (statement (λ _ db. insert stored db))
  pure (stored, secret)

unfoldable pub read : String → String → M RegisteredClient
read tenant_id client_id = query λ _ db.
    from_option (client_not_found client_id) (Table.find (is_client tenant_id client_id) db.clients)

unfoldable pub delete : String → String → M (Unit {0})
delete tenant_id client_id =
    affect (client_not_found client_id)
      (λ db. Table.count (is_client tenant_id client_id) db.clients)
      (λ _ db. record db { clients = Table.delete (is_client tenant_id client_id) db.clients })
