-- ===== src/Store/ApiKeys.antt =====
-- internal/apikeys/apikey_repository.go: PostgresApiKeyRepository.
use an.Prelude.{ℕ, String, ◌==◌, Bool, ◌&&◌, ◌||◌, List, ◌∷◌, if◌then◌else◌}
use an.Error.{Result, ok, err, pg_error, api_key_duplicate, api_key_not_found, invalid_api_key}
use an.Rows.{ApiKey}
use an.Table
use an.World.{Db}
use an.Exec.{
  M, query, statement, affect, rename_error, on_unique, new_uuid, from_option, pg_unique_violation,
  ◌>>=◌,
}
use an.Store.ApiKeys.Order.{sort_by_name}
pub mod Order

-- WHERE prefix = $1
abbrev pub has_prefix : String → ApiKey → Bool
has_prefix prefix row = row.prefix == prefix

-- PRIMARY KEY (id), UNIQUE (prefix) and UNIQUE (tenant_id, name)
unfoldable pub clashes : ApiKey → ApiKey → Bool
clashes new row =
    row.id == new.id
    || row.prefix == new.prefix
    || (row.tenant_id == new.tenant_id && row.name == new.name)

unfoldable pub insert : ApiKey → ℕ → Db → Result ApiKey × Db
unfolding clashes
insert new time db =
    if Table.any (clashes new) db.api_keys
    then (err (pg_error pg_unique_violation), db)
    else let row = record new { created = time } in
      (ok row, record db { api_keys = row ∷ db.api_keys })

unfoldable pub create : String → String → String → String → M ApiKey
unfolding insert on_unique new_uuid
create tenant_id name prefix hash = do
  id ← new_uuid
  rename_error (on_unique (api_key_duplicate name)) (
      statement (
        insert (record {
          id = id;
          tenant_id = tenant_id;
          name = name;
          prefix = prefix;
          hash = hash;
          created = 0;
        })))

-- WHERE tenant_id = $1 ORDER BY name
unfoldable pub read_all : String → M (List ApiKey)
read_all tenant_id =
    query λ _ db. ok (sort_by_name (Table.select (λ row. row.tenant_id == tenant_id) db.api_keys))

-- The tenant and the stored hash for a prefix
unfoldable pub read_by_prefix : String → M ApiKey
read_by_prefix prefix =
    query (λ _ db. from_option invalid_api_key (Table.find (has_prefix prefix) db.api_keys))

unfoldable pub delete : String → String → M (Unit {0})
delete tenant_id id =
    affect (api_key_not_found id)
      (λ db. Table.count (λ row. row.tenant_id == tenant_id && row.id == id) db.api_keys)
      (λ _ db. record db {
        api_keys = Table.delete (λ row. row.tenant_id == tenant_id && row.id == id) db.api_keys;
      })
