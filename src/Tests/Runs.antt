-- ===== src/Tests/Runs.antt =====
-- The theorems at concrete inputs.
use an.Prelude.{
  ◌=ℕ=◌, len, true, suc, ◌+◌, ◌≤◌, ◌≡◌, ◌≢◌, refl, String, false, Option, none, some, List, [], ◌∷◌,
  arith, ap,
}
use an.Error.{ok, err, Succeeds, account_locked, authentication_failed}
use an.World.{same, Env, Claims, parsed}
use an.Table
use an.Exec.{◌>>=◌, exec, exec_count}
use an.Exec.Rules.{reliable}
use an.Authn.{
  hide_missing, verify_password, gate_logon, check_lockout, rotate_session, live_account, issue,
  acknowledge, Authenticated, validate, read_session,
}
use an.Authn.Lockout.{verify_password-locked, lock-tries, tries}
use an.Authn.Gate.{verify_password-ok, verify_password-unknown}
use an.Authn.Lifecycle.{validate-ok}
use an.Authn.Renewal.{rotate_session_once, acknowledge_revives}
use an.Store.Codes
use an.Utils.Validation.{validate_code}
use an.LogonCode
use an.LogonCode.Once.{authenticate-locked, authenticate-has_code, has_code}
use an.Store.Sessions.Race.{Request, rotates, sweeps, winners, winners-le-one}
use an.Tests.{different, signed_out, env, world, locked, locked_row, ann, ann_claims}
use an.Store.Accounts
use an.Store.Accounts.{scan_account}
use an.Store.Attempts.Laws.{recorded, lock_of}
use an.Store.Attempts
use an.Store.Sessions
use an.Tokens
use an.Utils.Secrets.{bcrypt_verify}

verify_password-locked_example :
    (verify_password "t" "ann@x.io" "correct horse" (reliable env) locked).0
    ≡ err (account_locked "ann@x.io" 500)
unfolding Table.find
verify_password-locked_example =
    verify_password-locked env locked "t" "ann@x.io" "correct horse" {row = locked_row}
      {until = 500} refl refl (omega arith)

-- A logon with a wrong password, twice
lock-tries_example :
    (lock_of (recorded "t" "ann@x.io" (tries env "t" "ann@x.io" "wrong" ann 2 world).db) ≡ none)
    × (lock_of (recorded "t" "ann@x.io" (tries env "t" "ann@x.io" "wrong" ann 3 world).db)
        ≡ some (
            env.clock (suc (suc (tries env "t" "ann@x.io" "wrong" ann 2 world).step))
            + env.config.lockout_duration))
unfolding Table.find
lock-tries_example =
    lock-tries env "t" "ann@x.io" "wrong" ann 2 world
      (record { live = refl; enabled = refl; verified = refl }) refl (omega arith) refl refl

ann_logs_on : (verify_password "t" "ann@x.io" "correct horse" env world).0 ≡ ok (scan_account ann)
unfolding verify_password gate_logon check_lockout Attempts.get Attempts.clear exec Accounts.read
    scan_account bcrypt_verify Table.find ◌>>=◌
ann_logs_on = refl

verify_password-ok_example :
    (env.bcrypt_compare (scan_account ann).password_hash "correct horse" ≡ same)
unfolding scan_account
verify_password-ok_example =
    (verify_password-ok env world "t" "ann@x.io" "correct horse" {account = scan_account ann}
      ann_logs_on).4

verify_password-unknown_example :
    ((verify_password "t" "bob@x.io" "secret" (reliable env) world).0 ≡ err authentication_failed)
    × ((verify_password "t" "bob@x.io" "secret" (reliable env) world).1.db ≡ world.db)
unfolding Table.find
verify_password-unknown_example =
    verify_password-unknown env world "t" "bob@x.io" "secret" refl refl

some_text : Option String → String
some_text none = ""
some_text (some s) = s

abbrev fresh : Option String
fresh = some "fresh"

abbrev jti : Option String
jti = some "jti"

not_fresh : fresh ≢ jti
unfolding some_text
not_fresh e = different "fresh" "jti" refl (ap some_text e)

ann_validates : (validate "t" "token" env world).0 ≡ ok ann_claims
unfolding validate Tokens.validate_access_token Tokens.validate read_session live_account
    Sessions.read Accounts.read Table.find ◌>>=◌
ann_validates = refl

ann_renews : Succeeds (rotate_session "t" ann_claims env world).0
unfolding rotate_session live_account issue Tokens.create_access_token Tokens.create_refresh_token
    Sessions.rotate exec_count Accounts.read Table.find Table.count Table.update ◌>>=◌
ann_renews = tt

rotate_session_once_example :
    ¬ Succeeds (rotate_session "t" ann_claims env (rotate_session "t" ann_claims env world).1).0
rotate_session_once_example =
    rotate_session_once env env world (rotate_session "t" ann_claims env world).1 "t" ann_claims
      (λ n e. not_fresh e) ann_renews refl

validate-ok_example : ann_claims.tenant_id ≡ "t"
validate-ok_example = (validate-ok env world "t" "token" {claims = ann_claims} ann_validates).1

-- Two requests present the same refresh token, with a sweep between them.
abbrev requests : List Request
requests =
    rotates "t" "ann@x.io" "web" "jti" "one" 900
    ∷ sweeps
    ∷ rotates "t" "ann@x.io" "web" "jti" "two" 900
    ∷ []

winners-le-one_example : winners "t" "ann@x.io" "web" "jti" requests env world ≤ 1
winners-le-one_example =
    winners-le-one "t" "ann@x.io" "web" "jti" requests env world
      (different "one" "jti" refl, (tt, (different "two" "jti" refl, tt)))

abbrev pair : Authenticated
pair = record { access_token = "access"; refresh_token = "refresh" }

abbrev uuid_claims : Claims
uuid_claims = record ann_claims { id = "0190f5a0-0000-7000-8000-000000000001" }

-- An environment in which ids are uuids
abbrev uuids : Env
uuids = record env {
  uuid_cast = λ s. len s =ℕ= 36;
  uuid_v7 = λ n. some "0190f5a0-0000-7000-8000-000000000002";
  jwt_parse = λ time token key issuer audience. parsed uuid_claims true;
}

ann_access : (Tokens.validate_access_token "access" (reliable uuids) signed_out).0 ≡ ok uuid_claims
unfolding Tokens.validate_access_token Tokens.validate ◌>>=◌
ann_access = refl

ann_refresh :
    (Tokens.validate_refresh_token "refresh"
      (reliable uuids)
      (Tokens.validate_access_token "access" (reliable uuids) signed_out).1).0
    ≡ ok uuid_claims
unfolding Tokens.validate_access_token Tokens.validate_refresh_token Tokens.validate ◌>>=◌
ann_refresh = refl

-- The session of ann was revoked.
acknowledge_revives_example : (acknowledge "t" pair (reliable uuids) signed_out).0 ≡ ok tt
unfolding Table.any
acknowledge_revives_example =
    (acknowledge_revives uuids signed_out "t" pair {access = uuid_claims} {refresh = uuid_claims}
      ann_access ann_refresh refl refl refl refl refl
      (λ n. ("0190f5a0-0000-7000-8000-000000000002", refl, refl))).0

authenticate-locked_example :
    (LogonCode.authenticate "t" "ann@x.io" "web" "123456" (reliable env) locked).0
    ≡ err (account_locked "ann@x.io" 500)
unfolding Table.find
authenticate-locked_example =
    authenticate-locked env locked "t" "ann@x.io" "web" "123456" {row = locked_row} {until = 500}
      refl refl (omega arith)

abbrev issued : Authenticated
issued = record { access_token = "fresh"; refresh_token = "fresh" }

ann_presents : (LogonCode.authenticate "t" "ann@x.io" "web" "123456" env world).0 ≡ ok issued
unfolding hide_missing LogonCode.authenticate LogonCode.accept_code check_lockout Attempts.get
    Attempts.clear exec Accounts.read Codes.read Codes.delete validate_code bcrypt_verify issue
    Tokens.create_access_token Tokens.create_refresh_token Table.find ◌>>=◌
ann_presents = refl

authenticate-has_code_example :
    has_code "t" "ann@x.io" "web" "123456"
      (LogonCode.authenticate "t" "ann@x.io" "web" "123456" env world).1.db
    ≡ false
authenticate-has_code_example =
    authenticate-has_code "t" "ann@x.io" "web" "123456" env world ann_presents
