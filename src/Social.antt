-- ===== src/Social.antt =====
-- internal/social/social.go: DefaultSocialService.
pub mod Google
use an.Prelude.{String, ◌==◌, Bool, not, Option, none, some, List, [], ◌∷◌, if◌then◌else◌}
use an.Error.{
  Result, ok, err, account_not_found, account_disabled, authentication_failed,
  provider_not_configured, social_token_invalid, email_not_verified,
}
use an.Rows.{Account}
use an.Exec.{M, pure, throw, lift, try, fail_if, from_option, with_transaction, ◌>>=◌, ◌>>◌}
use an.Utils.Secrets.{bcrypt_hash, random_token}
use an.Store.Accounts
use an.Store.SocialLogins
use an.Accounts.{new_account}
use an.Authn
use an.Authn.{Authenticated}
use an.LogonCode.{verify_unless}

pub record Identity : Type 0 where
  pub provider : String
  pub subject : String
  pub email : String
  pub email_verified : Bool

-- Validator: its name, and what it makes of an ID token
pub record Validator : Type 0 where
  pub name : String
  pub validate : String → M Identity

-- A validator replaces the one of the same name.
unfoldable pub add_validator : Validator → List Validator → List Validator
add_validator new [] = new ∷ []
add_validator new (old ∷ rest) =
    let added = add_validator new rest in if old.name == new.name then new ∷ rest else old ∷ added

unfoldable pub validator_of : String → List Validator → Option Validator
validator_of provider [] = none
validator_of provider (v ∷ rest) = if v.name == provider then some v else validator_of provider rest

-- An account that is missing is created, born verified with an unusable random password.
unfoldable pub create_on_miss : String → String → Result Account → M Account
create_on_miss tenant_id email (ok account) = pure account
create_on_miss tenant_id email (err (account_not_found value)) = do
  random_password ← random_token
  password_hash ← bcrypt_hash random_password
  Accounts.create_verified (new_account tenant_id email "" password_hash "")
create_on_miss tenant_id email (err e) = throw e

unfoldable pub find_or_create : String → String → M Account
unfolding create_on_miss
find_or_create tenant_id email = do
  found ← try (Accounts.read tenant_id email)
  create_on_miss tenant_id email found

-- The transaction of Authenticate
unfoldable pub sign_on : String → Identity → M (Unit {0})
unfolding find_or_create
sign_on tenant_id identity = do
  account ← find_or_create tenant_id identity.email
  fail_if account.deleted authentication_failed
  fail_if (not account.enabled) (account_disabled identity.email)
  verify_unless account.verified tenant_id identity.email
  SocialLogins.link account.id identity.provider identity.subject

unfoldable pub authenticate : List Validator → String → String → String → String → M Authenticated
unfolding validator_of sign_on
authenticate validators tenant_id provider id_token client_id = do
  validator ←
      lift (from_option (provider_not_configured provider) (validator_of provider validators))
  identity ← validator.validate id_token
  fail_if (identity.email == "") (social_token_invalid "no email in ID token")
  fail_if (not identity.email_verified) (email_not_verified identity.email)
  with_transaction (sign_on tenant_id identity)
  issued ← Authn.issue tenant_id identity.email client_id
  pure issued.0
