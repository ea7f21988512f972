-- ===== src/Accounts/Atomic.antt =====
-- The transactions of Reset, UpdatePassword and Delete (internal/accounts/accounts.go).
use an.Error.{Error, err}
use an.World.{Env, World}
use an.Prelude.{◌≡◌, String, List}
use an.Exec.Rules.{FailsClean, clean_rules}
use an.Utils.Secrets.{bcrypt_hash, bcrypt_verify}
use an.Store.Accounts
use an.Store.Resets
use an.Accounts.{Revoker, valid_or, read_live, reset, update_password, delete}
use an.Exec.Rules.{ReadOnly, read_rules}
use an.Prelude.{Option, none, some}

pub ReadOnly-valid_or : (o : Option String) → ReadOnly (valid_or o)
unfolding valid_or
ReadOnly-valid_or none = search read_rules depth 4
ReadOnly-valid_or (some text) = search read_rules depth 4

pub ReadOnly-read_live : (tenant_id email : String) → ReadOnly (read_live tenant_id email)
unfolding read_live Accounts.read Accounts.read_row
ReadOnly-read_live tenant_id email = search read_rules depth 8

pub ReadOnly-resets : (tenant_id email : String) → ReadOnly (Resets.read tenant_id email)
unfolding Resets.read
ReadOnly-resets tenant_id email = search read_rules depth 12

pub ReadOnly-bcrypt_hash : (value : String) → ReadOnly (bcrypt_hash value)
unfolding bcrypt_hash
ReadOnly-bcrypt_hash value = search read_rules depth 4

pub ReadOnly-bcrypt_verify : (hash value : String) → ReadOnly (bcrypt_verify hash value)
unfolding bcrypt_verify
ReadOnly-bcrypt_verify hash value = search read_rules depth 6

pub ruleset account_rules = (
  clean_rules, ReadOnly-valid_or, ReadOnly-read_live, ReadOnly-resets, ReadOnly-bcrypt_hash,
  ReadOnly-bcrypt_verify,
)

reset-FailsClean :
    (revokers : List Revoker) (tenant_id email token new_password : String)
    → FailsClean (reset revokers tenant_id email token new_password)
unfolding reset
reset-FailsClean revokers tenant_id email token new_password = search account_rules depth 24

update_password-FailsClean :
    (revokers : List Revoker) (tenant_id email current_password new_password : String)
    → FailsClean (update_password revokers tenant_id email current_password new_password)
unfolding update_password
update_password-FailsClean revokers tenant_id email current_password new_password =
    search account_rules depth 24

delete-FailsClean :
    (revokers : List Revoker) (tenant_id email : String)
    → FailsClean (delete revokers tenant_id email)
unfolding delete
delete-FailsClean revokers tenant_id email = search account_rules depth 16

-- Reset is all or nothing: whatever calls of the driver fail, if it returns an error, the database is as it
-- was, for any session revokers.
pub reset_atomic :
    (revokers : List Revoker) (tenant_id email token new_password : String) (env : Env) (w : World)
    {e : Error}
    → (reset revokers tenant_id email token new_password env w).0 ≡ err e
    → (reset revokers tenant_id email token new_password env w).1.db ≡ w.db
reset_atomic revokers tenant_id email token new_password env w h =
    (reset-FailsClean revokers tenant_id email token new_password).at env w h

-- UpdatePassword is all or nothing: whatever calls of the driver fail, if it returns an error, the database is as it
-- was, for any session revokers.
pub update_password_atomic :
    (revokers : List Revoker) (tenant_id email current_password new_password : String) (env : Env)
    (w : World) {e : Error}
    → (update_password revokers tenant_id email current_password new_password env w).0 ≡ err e
    → (update_password revokers tenant_id email current_password new_password env w).1.db ≡ w.db
update_password_atomic revokers tenant_id email current_password new_password env w h =
    (update_password-FailsClean revokers tenant_id email current_password new_password).at env w h

-- Delete is all or nothing: whatever calls of the driver fail, if it returns an error, the database is as it
-- was, for any session revokers.
pub delete_atomic :
    (revokers : List Revoker) (tenant_id email : String) (env : Env) (w : World) {e : Error}
    → (delete revokers tenant_id email env w).0 ≡ err e
    → (delete revokers tenant_id email env w).1.db ≡ w.db
delete_atomic revokers tenant_id email env w h =
    (delete-FailsClean revokers tenant_id email).at env w h
