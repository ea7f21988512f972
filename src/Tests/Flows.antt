-- ===== src/Tests/Flows.antt =====
-- The theorems on the flows of accounts, keys, codes and the gate at concrete inputs.
use an.Prelude.{
  ℕ, ◌≡◌, ◌≢◌, refl, String, true, false, Option, none, some, List, [], ◌∷◌, ap, sym, length, ◌⊎◌,
  starts_with,
}
use an.Error.{ok, err, Succeeds, driver_failure}
use an.Rows.{AccountRow}
use an.World.{World}
use an.Table
use an.Exec.{◌>>=◌, exec, affect, with_transaction}
use an.Exec.Rules.{reliable}
use an.Authn
use an.Authn.{verify_password, rotate_session, acknowledge, Authenticated, count_failure, issue}
use an.ApiKeys
use an.ApiKeys.{CreatedApiKey, token_marker}
use an.ApiKeys.RoundTrip.{create-authenticate, authenticate-ok}
use an.Store.ApiKeys as ApiKeyStore
use an.Store.Accounts.{scan_account}
use an.Gateway.{gate, middleware, check_token, admit_key, is_public, Context, next}
use an.Gateway.Confined.{gate-next, IsRootRequest, IsKeyRequest}
use an.Tests.{ann, ann_claims, different, world_of, env, failing, world, empty}
use an.Accounts.{
  update_password, apply_password, register, verify, reset, delete, RegisteredAccount, apply_reset,
  apply_delete, revoke_sessions, read_live, valid_or,
}
use an.Accounts.Revoked.{SignedOut}
use an.Accounts.SignOut.{update_password-SignedOut, reset-SignedOut, has_reset, has_attempts}
use an.Accounts.Closed.{delete-closes}
use an.Accounts.Atomic.{update_password_atomic, reset_atomic}
use an.Accounts.Verification.{register-verify, verify_once}
use an.Service.{revokers}
use an.Oidc.Revoker
use an.Store.Accounts as AccountStore
use an.Store.Resets
use an.Store.Attempts
use an.Store.Sessions
use an.Store.BrowserSessions
use an.Store.OidcTokens
use an.Utils.Secrets.{bcrypt_verify, bcrypt_hash, random_token, sha256_hex, safe_compare}
use an.Utils.Validation.{validate_email, validate_name, validate_password}

abbrev token : String
token = "token"

ann_resets : (reset (revokers true) "t" "ann@x.io" token "battery staple" env world).0 ≡ ok tt
unfolding safe_compare reset valid_or validate_password read_live AccountStore.read Resets.read
    sha256_hex bcrypt_hash with_transaction apply_reset AccountStore.update_password_hash
    AccountStore.update affect Resets.delete revoke_sessions revokers Sessions.delete_all
    Revoker.delete_all BrowserSessions.delete_all_for_email OidcTokens.delete_grants_for_email
    Attempts.clear exec Table.find Table.count ◌>>=◌
ann_resets = refl

reset-SignedOut_example :
    SignedOut "t" "ann@x.io"
      (reset (revokers true) "t" "ann@x.io" token "battery staple" env world).1.db
    × (has_reset "t" "ann@x.io"
          (reset (revokers true) "t" "ann@x.io" token "battery staple" env world).1.db
        ≡ false)
    × (has_attempts "t" "ann@x.io"
          (reset (revokers true) "t" "ann@x.io" token "battery staple" env world).1.db
        ≡ false)
reset-SignedOut_example = reset-SignedOut "t" "ann@x.io" token "battery staple" env world ann_resets

-- A call of the driver fails within the transaction.
ann_fails :
    (reset (revokers true) "t" "ann@x.io" token "battery staple" failing world).0
    ≡ err driver_failure
unfolding safe_compare reset valid_or validate_password read_live AccountStore.read Resets.read
    sha256_hex bcrypt_hash with_transaction apply_reset AccountStore.update_password_hash
    AccountStore.update affect Resets.delete revoke_sessions revokers Sessions.delete_all
    Revoker.delete_all BrowserSessions.delete_all_for_email OidcTokens.delete_grants_for_email
    Attempts.clear exec Table.find Table.count ◌>>=◌
ann_fails = refl

reset_atomic_example :
    (reset (revokers true) "t" "ann@x.io" token "battery staple" failing world).1.db ≡ world.db
reset_atomic_example =
    reset_atomic (revokers true) "t" "ann@x.io" token "battery staple" failing world ann_fails

ann_leaves : (delete (revokers true) "t" "ann@x.io" env world).0 ≡ ok tt
unfolding delete read_live AccountStore.read with_transaction apply_delete AccountStore.soft_delete
    AccountStore.update affect revoke_sessions revokers Sessions.delete_all Revoker.delete_all
    BrowserSessions.delete_all_for_email OidcTokens.delete_grants_for_email exec Table.find
    Table.count ◌>>=◌
ann_leaves = refl

-- The world after the Delete
abbrev left : World
left = (delete (revokers true) "t" "ann@x.io" env world).1

delete-closes_example :
    ((verify_password "t" "ann@x.io" "correct horse" env left).0 ≢ ok (scan_account ann))
    × (¬ Succeeds (rotate_session "t" ann_claims env left).0)
    × ((Authn.validate "t" token env left).0 ≢ ok ann_claims)
delete-closes_example =
    delete-closes "t" "ann@x.io" true env env world left "correct horse" token (scan_account ann)
      ann_claims ann_leaves refl refl

-- A new account
abbrev new_row : AccountRow
new_row = record {
  id = "fresh";
  tenant_id = "t";
  email = "bob@x.io";
  name = some "Bob";
  verified = false;
  enabled = true;
  deleted = false;
  created = 103;
  modified = 103;
  password_hash = "hcorrect horse";
  verification_hash = some "40";
}

abbrev registered : RegisteredAccount
registered = record {
  account = record (scan_account new_row) { password_hash = ""; verification_hash = "" };
  verification_token = "0000000000000000000000000000000000000000000000000000000000000000";
}

bob_registers : (register "t" "bob@x.io" "correct horse" "Bob" env empty).0 ≡ ok registered
unfolding register valid_or validate_email validate_name validate_password bcrypt_hash random_token
    sha256_hex AccountStore.create AccountStore.create_row scan_account Table.any ◌>>=◌
bob_registers = refl

abbrev after_register : World
after_register = (register "t" "bob@x.io" "correct horse" "Bob" env empty).1

register-verify_example :
    (verify "t" "bob@x.io" registered.verification_token (reliable env) after_register).0 ≡ ok tt
unfolding sha256_hex
register-verify_example =
    register-verify "t" "bob@x.io" env empty after_register "correct horse" "Bob"
      {registered = registered} (different (sha256_hex env registered.verification_token) "" refl)
      bob_registers refl

abbrev with_bob : World
with_bob = world_of (record empty.db { accounts = new_row ∷ [] })

bob_verifies : (verify "t" "bob@x.io" registered.verification_token env with_bob).0 ≡ ok tt
unfolding verify read_live AccountStore.read scan_account sha256_hex safe_compare
    AccountStore.set_verified AccountStore.update affect Table.find Table.count ◌>>=◌
bob_verifies = refl

verify_once_example :
    (verify "t" "bob@x.io" "again" env
      (verify "t" "bob@x.io" registered.verification_token env with_bob).1).0
    ≢ ok tt
unfolding Table.find
verify_once_example =
    verify_once "t" "bob@x.io" env env with_bob
      (verify "t" "bob@x.io" registered.verification_token env with_bob).1
      registered.verification_token "again" {row = new_row} refl bob_verifies refl

abbrev created : CreatedApiKey
created = record {
  api_key = record {
    id = "fresh";
    tenant_id = "t";
    name = "ci";
    prefix = "ank_00000000";
    hash = "44";
    created = 102;
  };
  key = "ank_0000000000000000000000000000000000000000000000000000000000000000";
}

key_made : (ApiKeys.create "t" "ci" env world).0 ≡ ok created
unfolding ApiKeys.create ApiKeyStore.create sha256_hex Table.any ◌>>=◌
key_made = refl

abbrev size : Option (List ℕ) → ℕ
size none = 32
size (some bytes) = length bytes

create-authenticate_example :
    (ApiKeys.authenticate created.key (reliable env) (ApiKeys.create "t" "ci" env world).1).0
    ≡ ok "t"
create-authenticate_example =
    create-authenticate env world (ApiKeys.create "t" "ci" env world).1 "t" "ci" {created = created}
      (λ n bytes e. sym (ap size e)) key_made refl

abbrev with_key : World
with_key = world_of (record empty.db { api_keys = created.api_key ∷ [] })

key_works : (ApiKeys.authenticate created.key env with_key).0 ≡ ok "t"
unfolding ApiKeys.authenticate ApiKeyStore.read_by_prefix sha256_hex safe_compare Table.find ◌>>=◌
key_works = refl

authenticate-ok_example : starts_with created.key token_marker ≡ true
authenticate-ok_example = (authenticate-ok env with_key created.key "t" key_works).4

abbrev context : Context
context = record { tenant = some "t"; root = false }

key_passes : (gate "root" [] "/accounts" created.key env with_key).0 ≡ ok (next context)
unfolding gate middleware is_public check_token admit_key ApiKeys.authenticate
    ApiKeyStore.read_by_prefix sha256_hex safe_compare Table.find ◌>>=◌
key_passes = refl

gate-next_example :
    ((created.key ≡ "root") × IsRootRequest context "other")
    ⊎ IsKeyRequest env with_key created.key context "other"
unfolding is_public
gate-next_example =
    gate-next env with_key "root" [] "/accounts" created.key "other" {context = context}
      (different "root" "" refl) refl key_passes

ann_changes :
    (update_password (revokers true) "t" "ann@x.io" "correct horse" "battery staple" env world).0
    ≡ ok tt
unfolding update_password valid_or validate_password read_live AccountStore.read scan_account
    bcrypt_verify bcrypt_hash with_transaction apply_password AccountStore.update_password_hash
    AccountStore.update affect revoke_sessions revokers Sessions.delete_all Revoker.delete_all
    BrowserSessions.delete_all_for_email OidcTokens.delete_grants_for_email exec Table.find
    Table.count ◌>>=◌
ann_changes = refl

update_password-SignedOut_example :
    SignedOut "t" "ann@x.io"
      (update_password
        (revokers true)
        "t"
        "ann@x.io"
        "correct horse"
        "battery staple"
        env
        world).1.db
update_password-SignedOut_example =
    update_password-SignedOut "t" "ann@x.io" "correct horse" "battery staple" env world ann_changes

ann_keeps :
    (update_password
      (revokers true)
      "t"
      "ann@x.io"
      "correct horse"
      "battery staple"
      failing
      world).0
    ≡ err driver_failure
unfolding update_password valid_or validate_password read_live AccountStore.read scan_account
    bcrypt_verify bcrypt_hash with_transaction apply_password AccountStore.update_password_hash
    AccountStore.update affect revoke_sessions revokers Sessions.delete_all Revoker.delete_all
    BrowserSessions.delete_all_for_email OidcTokens.delete_grants_for_email exec Table.find
    Table.count ◌>>=◌
ann_keeps = refl

update_password_atomic_example :
    (update_password
      (revokers true)
      "t"
      "ann@x.io"
      "correct horse"
      "battery staple"
      failing
      world).1.db
    ≡ world.db
update_password_atomic_example =
    update_password_atomic (revokers true) "t" "ann@x.io" "correct horse" "battery staple" failing
      world ann_keeps
