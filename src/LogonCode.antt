-- ===== src/LogonCode.antt =====
-- internal/authn/logon_code.go: DefaultLogonCodeService.
pub mod Once
use an.Prelude.{ℕ, ◌+◌, String, Bool, true, false, not, Option, none, some, if◌then◌else◌}
use an.Error.{account_not_found, authentication_failed, account_disabled, logon_code_invalid}
use an.Exec.{M, pure, lift, asks, now, try, fail_if, ◌>>=◌, ◌>>◌}
use an.Utils.Validation.{validate_code}
use an.Utils.Secrets.{bcrypt_hash, bcrypt_verify, random_digits}
use an.Store.Accounts
use an.Store.Attempts
use an.Store.Codes
use an.Authn
use an.Authn.{Authenticated}

abbrev pub logon_code_length : ℕ
logon_code_length = 6

pub record IssuedCode : Type 0 where
  pub text : String
  pub expires : ℕ

unfoldable pub request : String → String → M IssuedCode
request tenant_id email = do
  account ← Accounts.read tenant_id email
  fail_if account.deleted (account_not_found email)
  fail_if (not account.enabled) (account_disabled email)
  text ← random_digits logon_code_length
  code_hash ← bcrypt_hash text
  time ← now
  lifetime ← asks (λ env. env.config.code_expiry)
  Codes.upsert tenant_id email code_hash (time + lifetime)
  pure (record { text = text; expires = time + lifetime })

abbrev is_some : Option String → Bool
is_some none = false
is_some (some text) = true

-- SetVerified, for an account that is not verified
unfoldable pub verify_unless : Bool → String → String → M (Unit {0})
verify_unless true tenant_id email = pure tt
verify_unless false tenant_id email = Accounts.set_verified tenant_id email

-- What a matching code does
unfoldable pub accept_code : String → String → String → Bool → M Authenticated
unfolding verify_unless
accept_code tenant_id email client_id verified = do
  Codes.delete tenant_id email
  Attempts.clear tenant_id email
  verify_unless verified tenant_id email
  issued ← Authn.issue tenant_id email client_id
  pure issued.0

unfoldable pub authenticate : String → String → String → String → M Authenticated
authenticate tenant_id email client_id text = do
  Authn.check_lockout tenant_id email
  fail_if (is_some (validate_code text logon_code_length)) logon_code_invalid
  found ← try (Accounts.read tenant_id email)
  account ← lift (Authn.hide_missing found)
  fail_if account.deleted authentication_failed
  fail_if (not account.enabled) (account_disabled email)
  code_hash ← Codes.read tenant_id email
  match ← bcrypt_verify code_hash text
  if not match
      then Authn.count_failure tenant_id email
      else accept_code tenant_id email client_id account.verified
