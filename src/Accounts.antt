-- ===== src/Accounts.antt =====
-- internal/accounts/accounts.go: DefaultAccountService. `revokers` are the session revokers that
-- main wires in, one for each surface on which an account can be signed in.
pub mod Atomic
pub mod Revoked
pub mod SignOut
pub mod Closed
pub mod Verification
use an.Prelude.{ℕ, ◌+◌, String, ◌==◌, false, not, ◌||◌, Option, none, some, List, [], ◌∷◌}
use an.Error.{invalid_account, account_not_found, verification_failed, reset_token_invalid}
use an.Rows.{Account}
use an.Exec.{M, pure, throw, asks, now, fail_if, with_transaction, ◌>>=◌, ◌>>◌}
use an.Utils.Validation.{validate_email, validate_name, validate_password}
use an.Utils.Secrets.{bcrypt_hash, bcrypt_verify, sha256_hex, random_token, safe_compare}
use an.Store.Accounts
use an.Store.Resets
use an.Store.Attempts

-- `if err := utils.ValidateX(…); err != nil { return InvalidAccountError{…} }`
unfoldable pub valid_or : Option String → M (Unit {0})
valid_or none = pure tt
valid_or (some text) = throw (invalid_account text)

-- accounts.SessionRevoker: DeleteAll of one surface
abbrev pub Revoker : Type 0
Revoker = String → String → M (Unit {0})

-- The first failure ends the loop.
unfoldable pub revoke_sessions : List Revoker → String → String → M (Unit {0})
revoke_sessions [] tenant_id email = pure tt
revoke_sessions (revoker ∷ rest) tenant_id email =
    revoker tenant_id email >> revoke_sessions rest tenant_id email

-- A deleted account reads as not found.
unfoldable pub read_live : String → String → M Account
read_live tenant_id email = do
  account ← Accounts.read tenant_id email
  fail_if account.deleted (account_not_found email)
  pure account

-- RegisteredAccount: the hashes are blanked, the one-time token is added.
pub record RegisteredAccount : Type 0 where
  pub account : Account
  pub verification_token : String

-- accounts.Account{…}, the fields left out at their zero values
unfoldable pub new_account : String → String → String → String → String → Account
new_account tenant_id email name password_hash verification_hash = record {
  id = "";
  tenant_id = tenant_id;
  email = email;
  name = name;
  verified = false;
  enabled = false;
  deleted = false;
  created = 0;
  modified = 0;
  password_hash = password_hash;
  verification_hash = verification_hash;
}

unfoldable pub register : String → String → String → String → M RegisteredAccount
unfolding new_account
register tenant_id email password name = do
  valid_or (validate_email email)
  valid_or (validate_name name)
  valid_or (validate_password password)
  password_hash ← bcrypt_hash password
  verification_token ← random_token
  verification_hash ← asks (λ env. sha256_hex env verification_token)
  account ← Accounts.create (new_account tenant_id email name password_hash verification_hash)
  pure (record {
    account = record account { password_hash = ""; verification_hash = "" };
    verification_token = verification_token;
  })

unfoldable pub verify : String → String → String → M (Unit {0})
verify tenant_id email token = do
  account ← read_live tenant_id email
  fail_if account.verified (verification_failed "account already verified")
  token_hash ← asks (λ env. sha256_hex env token)
  fail_if
      (account.verification_hash == "" || not (safe_compare token_hash account.verification_hash))
      (verification_failed "wrong verification token")
  Accounts.set_verified tenant_id email

unfoldable pub resend_verification : String → String → M String
resend_verification tenant_id email = do
  account ← read_live tenant_id email
  fail_if account.verified (verification_failed "account already verified")
  verification_token ← random_token
  hash ← asks (λ env. sha256_hex env verification_token)
  Accounts.update_verification_hash tenant_id email hash
  pure verification_token

pub record ResetToken : Type 0 where
  pub token : String
  pub expires : ℕ

unfoldable pub forgot : String → String → M ResetToken
forgot tenant_id email = do
  read_live tenant_id email
  token ← random_token
  time ← now
  lifetime ← asks (λ env. env.config.reset_expiry)
  hash ← asks (λ env. sha256_hex env token)
  Resets.upsert tenant_id email hash (time + lifetime)
  pure (record { token = token; expires = time + lifetime })

unfoldable pub update_name : String → String → String → M (Unit {0})
update_name tenant_id email name = do
  valid_or (validate_name name)
  read_live tenant_id email
  Accounts.update_name tenant_id email name

module _ (revokers : List Revoker) where
  -- The transaction of Reset
  unfoldable pub apply_reset : String → String → String → M (Unit {0})
  apply_reset tenant_id email password_hash = do
    Accounts.update_password_hash tenant_id email password_hash
    Resets.delete tenant_id email
    revoke_sessions revokers tenant_id email
    Attempts.clear tenant_id email

  unfoldable pub reset : String → String → String → String → M (Unit {0})
  reset tenant_id email token new_password = do
    valid_or (validate_password new_password)
    read_live tenant_id email
    token_hash ← Resets.read tenant_id email
    presented ← asks (λ env. sha256_hex env token)
    fail_if (not (safe_compare presented token_hash)) reset_token_invalid
    password_hash ← bcrypt_hash new_password
    with_transaction (apply_reset tenant_id email password_hash)

  -- The transaction of UpdatePassword
  unfoldable pub apply_password : String → String → String → M (Unit {0})
  apply_password tenant_id email password_hash = do
    Accounts.update_password_hash tenant_id email password_hash
    revoke_sessions revokers tenant_id email

  unfoldable pub update_password : String → String → String → String → M (Unit {0})
  update_password tenant_id email current_password new_password = do
    valid_or (validate_password new_password)
    account ← read_live tenant_id email
    match ← bcrypt_verify account.password_hash current_password
    fail_if (not match) (invalid_account "wrong password")
    password_hash ← bcrypt_hash new_password
    with_transaction (apply_password tenant_id email password_hash)

  -- The transaction of Delete
  unfoldable pub apply_delete : String → String → M (Unit {0})
  apply_delete tenant_id email = do
    Accounts.soft_delete tenant_id email
    revoke_sessions revokers tenant_id email

  unfoldable pub delete : String → String → M (Unit {0})
  delete tenant_id email = do
    read_live tenant_id email
    with_transaction (apply_delete tenant_id email)
