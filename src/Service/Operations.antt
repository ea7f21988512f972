-- ===== src/Service/Operations.antt =====
-- The keys of the tables while the services work (internal/accounts, internal/authn, internal/social).
use an.Prelude.{
  ℕ, zero, suc, String, Bool, true, false, Option, none, some, List, [], ◌∷◌, subst, ◌≡◌, arith,
  Option-cases, inl, inr,
}
use an.Error.{Result, ok, err, account_not_found, provider_not_configured}
use an.Rows.{Account, FailedAttempt}
use an.World.{Claims}
use an.Exec.{from_option, ◌>>=◌}
use an.Exec.Rules.{ReadOnly, ReadOnly-bind, ReadOnly-draw, ReadOnly-pure, read_rules}
use an.Exec.Preserves.{preserve_rules, Preserves-lift, Preserves-bind, Preserves-ReadOnly}
use an.Utils.Secrets.{random_token, random_digits}
use an.Store.Accounts as Rows
use an.Store.Attempts
use an.Store.Codes
use an.Tokens.ReadOnly.{ReadOnly-validate_access_token, ReadOnly-validate_refresh_token}
use an.Accounts
use an.Accounts.{Revoker, revoke_sessions}
use an.Accounts.Atomic.{account_rules}
use an.Authn
use an.Authn.{Authenticated}
use an.Authn.Renewal.{ReadOnly-issue}
use an.LogonCode
use an.Social
use an.Social.{Identity, Validator}
use an.Social.Google.{Outcome, IdToken, google_validator}
use an.LogonCode.{verify_unless}
use an.Service.Preserved.{Safe, keep_rules}

ReadOnly-random_token : ReadOnly random_token
unfolding random_token
ReadOnly-random_token = search read_rules depth 6

ReadOnly-random_digits : (n : ℕ) → ReadOnly (random_digits n)
unfolding random_digits
ReadOnly-random_digits zero = search read_rules depth 4
ReadOnly-random_digits (suc n) =
    ReadOnly-bind _ _ (ReadOnly-draw _)
      λ d. ReadOnly-bind _ _ (ReadOnly-random_digits n) λ rest. ReadOnly-pure _

ruleset service_rules = (keep_rules, account_rules, ReadOnly-random_token, ReadOnly-issue)

module _ (tenant_id email : String) where
  pub Safe-register :
      (password name : String) → Safe (Accounts.register tenant_id email password name)
  unfolding Accounts.register Rows.create
  Safe-register password name = search service_rules depth 24

  pub Safe-verify : (token : String) → Safe (Accounts.verify tenant_id email token)
  unfolding Accounts.verify
  Safe-verify token = search service_rules depth 16

  pub Safe-resend : Safe (Accounts.resend_verification tenant_id email)
  unfolding Accounts.resend_verification
  Safe-resend = search service_rules depth 16

  pub Safe-forgot : Safe (Accounts.forgot tenant_id email)
  unfolding Accounts.forgot
  Safe-forgot = search service_rules depth 20

  pub Safe-update_name : (name : String) → Safe (Accounts.update_name tenant_id email name)
  unfolding Accounts.update_name
  Safe-update_name name = search service_rules depth 12

-- Each revoker is safe.
abbrev pub AllSafe : List Revoker → Type 0
AllSafe [] = Unit
AllSafe (revoker ∷ rest) =
    ((tenant_id email : String) → Safe (revoker tenant_id email)) × AllSafe rest

pub Safe-revoke_sessions :
    (tenant_id email : String) (revokers : List Revoker)
    → AllSafe revokers
    → Safe (revoke_sessions revokers tenant_id email)
unfolding revoke_sessions
Safe-revoke_sessions tenant_id email [] h = search preserve_rules depth 3
Safe-revoke_sessions tenant_id email (revoker ∷ rest) h =
    Preserves-bind _ _ (h.0 tenant_id email) λ _. Safe-revoke_sessions tenant_id email rest h.1

module _ (revokers : List Revoker) (tenant_id email : String)
    (revoking : Safe (revoke_sessions revokers tenant_id email)) where
  pub Safe-reset :
      (token password : String) → Safe (Accounts.reset revokers tenant_id email token password)
  unfolding Accounts.reset Accounts.apply_reset
  Safe-reset token password = search service_rules depth 24

  pub Safe-update_password :
      (old new : String) → Safe (Accounts.update_password revokers tenant_id email old new)
  unfolding Accounts.update_password Accounts.apply_password
  Safe-update_password old new = search service_rules depth 24

  pub Safe-delete : Safe (Accounts.delete revokers tenant_id email)
  unfolding Accounts.delete Accounts.apply_delete
  Safe-delete = search service_rules depth 16

ReadOnly-rows : (tenant_id email : String) → ReadOnly (Rows.read tenant_id email)
unfolding Rows.read Rows.read_row
ReadOnly-rows tenant_id email = search read_rules depth 4

ReadOnly-live_account : (tenant_id email : String) → ReadOnly (Authn.live_account tenant_id email)
unfolding Authn.live_account
ReadOnly-live_account tenant_id email = search (read_rules, ReadOnly-rows) depth 8

module _ (tenant_id email : String) where
  Safe-check_attempt :
      (found : Option FailedAttempt) → Safe (Authn.check_attempt tenant_id email found)
  unfolding Authn.check_attempt
  Safe-check_attempt none = search keep_rules depth 3
  Safe-check_attempt (some attempt) = elim (Option-cases attempt.locked_until) [
    | inl e ↦ rw (e, Authn.check_attempt) search keep_rules depth 3
    | inr (until, e) ↦ rw (e, Authn.check_attempt) search keep_rules depth 8
  ]

  Safe-check_lockout : Safe (Authn.check_lockout tenant_id email)
  unfolding Authn.check_lockout Attempts.get
  Safe-check_lockout = search (keep_rules, Safe-check_attempt) depth 8

  Safe-count_failure : {A : Type 0} → Safe (Authn.count_failure {A = A} tenant_id email)
  unfolding Authn.count_failure
  Safe-count_failure = search keep_rules depth 16

  Safe-verify_password : (password : String) → Safe (Authn.verify_password tenant_id email password)
  unfolding Authn.verify_password Authn.gate_logon
  Safe-verify_password password =
      search (service_rules, ReadOnly-rows, Safe-check_lockout, Safe-count_failure) depth 24

  pub Safe-authenticate :
      (client_id password : String) → Safe (Authn.authenticate tenant_id email client_id password)
  unfolding Authn.authenticate
  Safe-authenticate client_id password = search (service_rules, Safe-verify_password) depth 10

  pub Safe-revoke : (client_id : String) → Safe (Authn.revoke tenant_id email client_id)
  unfolding Authn.revoke
  Safe-revoke client_id = search keep_rules depth 6

  pub Safe-request : Safe (LogonCode.request tenant_id email)
  unfolding LogonCode.request
  Safe-request = search (service_rules, ReadOnly-rows, ReadOnly-random_digits) depth 24

  Safe-verify_unless : (verified : Bool) → Safe (verify_unless verified tenant_id email)
  unfolding verify_unless
  Safe-verify_unless true = search keep_rules depth 3
  Safe-verify_unless false = search keep_rules depth 3

  Safe-accept_code :
      (client_id : String) (verified : Bool)
      → Safe (LogonCode.accept_code tenant_id email client_id verified)
  unfolding LogonCode.accept_code
  Safe-accept_code client_id verified = search (service_rules, Safe-verify_unless) depth 16

  pub Safe-code_logon :
      (client_id text : String) → Safe (LogonCode.authenticate tenant_id email client_id text)
  unfolding LogonCode.authenticate Codes.read
  Safe-code_logon client_id text =
      search
        (service_rules, ReadOnly-rows, Safe-check_lockout, Safe-count_failure, Safe-accept_code)
        depth 30

pub Safe-acknowledge :
    (tenant_id : String) (tokens : Authenticated) → Safe (Authn.acknowledge tenant_id tokens)
unfolding Authn.acknowledge
Safe-acknowledge tenant_id tokens =
    search (service_rules, ReadOnly-validate_access_token, ReadOnly-validate_refresh_token) depth 16

Safe-rotate_session :
    (tenant_id : String) (claims : Claims) → Safe (Authn.rotate_session tenant_id claims)
unfolding Authn.rotate_session
Safe-rotate_session tenant_id claims = search (service_rules, ReadOnly-live_account) depth 16

pub Safe-renew : (tenant_id token : String) → Safe (Authn.renew tenant_id token)
unfolding Authn.renew
Safe-renew tenant_id token =
    search (service_rules, ReadOnly-validate_refresh_token, Safe-rotate_session) depth 12

Safe-create_on_miss :
    (tenant_id email : String) (found : Result Account)
    → Safe (Social.create_on_miss tenant_id email found)
unfolding Social.create_on_miss Rows.create_verified
Safe-create_on_miss tenant_id email (ok account) = search service_rules depth 3
Safe-create_on_miss tenant_id email (err (account_not_found value)) = search service_rules depth 10
Safe-create_on_miss tenant_id email (err e) = search service_rules depth 3

Safe-sign_on : (tenant_id : String) (identity : Identity) → Safe (Social.sign_on tenant_id identity)
unfolding Social.sign_on Social.find_or_create
Safe-sign_on tenant_id identity =
    search (service_rules, ReadOnly-rows, Safe-create_on_miss, Safe-verify_unless) depth 24

module _ (verify : ℕ → String → Outcome IdToken) where
  only_google :
      (provider : String) {validator : Validator}
      → from_option
          (provider_not_configured provider)
          (Social.validator_of provider (google_validator verify ∷ []))
        ≡ ok validator
      → google_validator verify ≡ validator
  unfolding Social.validator_of ◌>>=◌
  only_google provider h = ground arith

  ReadOnly-google : (id_token : String) → ReadOnly ((google_validator verify).validate id_token)
  unfolding google_validator
  ReadOnly-google id_token = search read_rules depth 3

  pub Safe-social :
      (tenant_id provider id_token client_id : String)
      → Safe
          (Social.authenticate (google_validator verify ∷ []) tenant_id provider id_token client_id)
  unfolding Social.authenticate
  Safe-social tenant_id provider id_token client_id = Preserves-lift _ _ λ validator known.
      Preserves-bind _ _
        (subst (λ (v : Validator). Safe (v.validate id_token)) (only_google provider known)
          (Preserves-ReadOnly _ (ReadOnly-google id_token)))
        λ identity. search (service_rules, Safe-sign_on) depth 12
