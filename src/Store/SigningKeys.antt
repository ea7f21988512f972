-- ===== src/Store/SigningKeys.antt =====
-- internal/tokens/signing_key_repository.go: PostgresSigningKeyRepository.
use an.Prelude.{◌==◌, Option, none, some, List, [], ◌∷◌, leb, if◌then◌else◌}
use an.Error.{ok, err, pg_error, no_signing_key}
use an.Rows.{SigningKey}
use an.Table
use an.Exec.{M, query, statement, from_option, pg_unique_violation}

unfoldable pub create : SigningKey → M (Unit {0})
create key = statement λ time db.
    if Table.any (λ row. row.kid == key.kid) db.signing_keys
    then (err (pg_error pg_unique_violation), db)
    else (ok tt, record db { signing_keys = record key { created = time } ∷ db.signing_keys })

-- ORDER BY created: a key goes behind those that were created no later.
unfoldable pub place : SigningKey → List SigningKey → List SigningKey
place key [] = key ∷ []
place key (row ∷ rows) =
    if leb row.created key.created then row ∷ place key rows else key ∷ row ∷ rows

unfoldable pub sort_by_created : List SigningKey → List SigningKey
unfolding place
sort_by_created [] = []
sort_by_created (row ∷ rows) = place row (sort_by_created rows)

unfoldable pub last : List SigningKey → Option SigningKey
last [] = none
last (row ∷ []) = some row
last (row ∷ next ∷ rows) = last (next ∷ rows)

unfoldable pub read_all : M (List SigningKey)
unfolding sort_by_created
read_all = query (λ _ db. ok (sort_by_created db.signing_keys))

-- ORDER BY created DESC LIMIT 1
unfoldable pub read_latest : M SigningKey
unfolding sort_by_created last
read_latest = query (λ _ db. from_option no_signing_key (last (sort_by_created db.signing_keys)))
