-- ===== src/Store/Accounts.antt =====
-- internal/accounts/account_repository.go: PostgresAccountRepository.
use an.Prelude.{
  ℕ, String, ◌==◌, Bool, true, false, ◌&&◌, ◌||◌, Option, none, some, List, ◌∷◌, if◌then◌else◌,
}
use an.Error.{Result, ok, err, pg_error, account_not_found, account_duplicate}
use an.Rows.{Account, AccountRow}
use an.Table
use an.World.{Db}
use an.Exec.{
  M, throw, asks, query, statement, affect, rename_error, on_unique, new_uuid, from_option,
  pg_unique_violation, ◌>>=◌,
}

-- WHERE tenant_id = $1 AND email = $2
abbrev pub is_account : String → String → AccountRow → Bool
is_account tenant_id email row = row.tenant_id == tenant_id && row.email == email

-- WHERE tenant_id = $1 AND id = $2
abbrev pub has_id : String → String → AccountRow → Bool
has_id tenant_id id row = row.tenant_id == tenant_id && row.id == id

-- An unset name is NULL.
unfoldable pub nullable_name : String → Option String
nullable_name name = if name == "" then none else some name

abbrev pub text_or_empty : Option String → String
text_or_empty none = ""
text_or_empty (some s) = s

-- `Scan` into an Account
unfoldable pub scan_account : AccountRow → Account
scan_account row = record {
  id = row.id;
  tenant_id = row.tenant_id;
  email = row.email;
  name = text_or_empty row.name;
  verified = row.verified;
  enabled = row.enabled;
  deleted = row.deleted;
  created = row.created;
  modified = row.modified;
  password_hash = row.password_hash;
  verification_hash = text_or_empty row.verification_hash;
}

abbrev pub scanned : Option AccountRow → Option Account
scanned none = none
scanned (some row) = some (scan_account row)

-- The row of the INSERT; `enabled` and `deleted` have their defaults.
unfoldable pub inserted : Account → Bool → String → ℕ → AccountRow
unfolding nullable_name
inserted account verified id time = record {
  id = id;
  tenant_id = account.tenant_id;
  email = account.email;
  name = nullable_name account.name;
  verified = verified;
  enabled = true;
  deleted = false;
  created = time;
  modified = time;
  password_hash = account.password_hash;
  verification_hash = if verified then none else some account.verification_hash;
}

-- The row violates PRIMARY KEY (id) or UNIQUE (tenant_id, email).
unfoldable pub clashes : AccountRow → List AccountRow → Bool
clashes new rows =
    Table.any (λ row. row.id == new.id) rows || Table.any (is_account new.tenant_id new.email) rows

-- What `create` returns: the account it was given, with what RETURNING gave.
unfoldable pub returned : Account → AccountRow → Account
returned account row = record account {
  id = row.id;
  verified = row.verified;
  enabled = row.enabled;
  deleted = row.deleted;
  created = row.created;
  modified = row.modified;
}

unfoldable pub insert : Account → Bool → String → ℕ → Db → Result Account × Db
unfolding inserted clashes returned
insert account verified id time db =
    let row = inserted account verified id time in
    if clashes row db.accounts
    then (err (pg_error pg_unique_violation), db)
    else (ok (returned account row), record db { accounts = row ∷ db.accounts })

unfoldable pub create_row : Account → Bool → M Account
unfolding insert on_unique new_uuid
create_row account verified = do
  id ← new_uuid
  rename_error (on_unique (account_duplicate account.email))
      (statement (insert account verified id))

unfoldable pub create : Account → M Account
unfolding create_row
create account = create_row account false

unfoldable pub create_verified : Account → M Account
unfolding create_row
create_verified account = create_row account true

-- Loads one account by the test; `not_found` is echoed in the error.
unfoldable pub read_row : (AccountRow → Bool) → String → M Account
unfolding scan_account
read_row p not_found =
    query (λ _ db. from_option (account_not_found not_found) (scanned (Table.find p db.accounts)))

unfoldable pub read : String → String → M Account
unfolding read_row
read tenant_id email = read_row (is_account tenant_id email) email

-- A malformed id is a miss.
unfoldable pub read_by_id : String → String → M Account
unfolding read_row
read_by_id tenant_id id = do
  parses ← asks (λ env. env.uuid_parse id)
  if parses then read_row (has_id tenant_id id) id else throw (account_not_found id)

unfoldable pub update : String → String → (ℕ → AccountRow → AccountRow) → M (Unit {0})
update tenant_id email change =
    affect (account_not_found email) (λ db. Table.count (is_account tenant_id email) db.accounts)
      (λ time db. record db {
        accounts = Table.update (is_account tenant_id email) (change time) db.accounts;
      })

abbrev pub verified_now : ℕ → AccountRow → AccountRow
verified_now time row = record row { verified = true; verification_hash = none; modified = time }

unfoldable pub set_verified : String → String → M (Unit {0})
unfolding update
set_verified tenant_id email = update tenant_id email verified_now

abbrev pub with_verification_hash : String → ℕ → AccountRow → AccountRow
with_verification_hash hash time row = record row { verification_hash = some hash; modified = time }

unfoldable pub update_verification_hash : String → String → String → M (Unit {0})
unfolding update
update_verification_hash tenant_id email hash = update tenant_id email (with_verification_hash hash)

abbrev pub with_password_hash : String → ℕ → AccountRow → AccountRow
with_password_hash hash time row = record row { password_hash = hash; modified = time }

unfoldable pub update_password_hash : String → String → String → M (Unit {0})
unfolding update
update_password_hash tenant_id email hash = update tenant_id email (with_password_hash hash)

unfoldable pub update_name : String → String → String → M (Unit {0})
unfolding update nullable_name
update_name tenant_id email name =
    update tenant_id email (λ time row. record row { name = nullable_name name; modified = time })

abbrev pub deleted_now : ℕ → AccountRow → AccountRow
deleted_now time row = record row { deleted = true; modified = time }

unfoldable pub soft_delete : String → String → M (Unit {0})
unfolding update
soft_delete tenant_id email = update tenant_id email deleted_now
