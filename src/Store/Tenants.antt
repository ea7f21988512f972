-- ===== src/Store/Tenants.antt =====
-- internal/tenants/tenants.go: PostgresTenantRepository.
use an.Prelude.{String, ◌==◌, Bool, List, ◌∷◌, if◌then◌else◌}
use an.Error.{ok, err, pg_error, tenant_not_found}
use an.Rows.{Tenant}
use an.Table
use an.Exec.{M, query, statement, from_option, pg_unique_violation}

abbrev pub is_tenant : String → Tenant → Bool
is_tenant id row = row.id == id

unfoldable pub read_all : M (List Tenant)
read_all = query (λ _ db. ok db.tenants)

unfoldable pub read : String → M Tenant
read id = query (λ _ db. from_option (tenant_not_found id) (Table.find (is_tenant id) db.tenants))

-- Creates the default tenant.
unfoldable pub create : M (Unit {0})
create = statement λ time db.
    if Table.any (is_tenant "default") db.tenants
    then (err (pg_error pg_unique_violation), db)
    else (
      ok tt,
      record db {
        tenants =
            (record { id = "default"; name = "default"; created = time; modified = time })
            ∷ db.tenants;
      },
    )
