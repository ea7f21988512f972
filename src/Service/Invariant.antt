-- ===== src/Service/Invariant.antt =====
-- Sequences of calls of the account, logon, session and social services and of the janitor, and the keys of
-- the tables that they write (cmd/an/main.go wires the services that are called).
use an.Prelude.{ℕ, String, Bool, true, false, [], ◌∷◌}
use an.World.{World, Env}
use an.Exec.{M, pure, ◌>>=◌}
use an.Exec.Preserves.{preserve_rules, Preserves-bind}
use an.Accounts
use an.Authn
use an.Authn.{Authenticated}
use an.LogonCode
use an.Social
use an.Social.Google.{Outcome, IdToken, google_validator}
use an.Service.{revokers, sweep}
use an.Service.Sweep.{Safe-sweep}
use an.Service.WellFormed.{WellFormed}
use an.Service.Preserved.{Safe, Safe-delete_sessions, Safe-revoker}
use an.Service.Operations.{
  Safe-register, Safe-verify, Safe-resend, Safe-forgot, Safe-update_name, Safe-reset,
  Safe-update_password, Safe-delete, Safe-authenticate, Safe-acknowledge, Safe-renew, Safe-revoke,
  Safe-request, Safe-code_logon, Safe-social, Safe-revoke_sessions,
}

-- A call of a service, with its arguments
pub data Call : Type 0 where
  registers : String → String → String → String → Call
  verifies : String → String → String → Call
  resends forgets requests_code : String → String → Call
  renames : String → String → String → Call
  resets : String → String → String → String → Call
  changes_password : String → String → String → String → Call
  deletes : String → String → Call
  logs_on logs_on_by_code : String → String → String → String → Call
  acknowledges : String → Authenticated → Call
  renews : String → String → Call
  revokes : String → String → String → Call
  sweeps : Call
  logs_on_by_google : (ℕ → String → Outcome IdToken) → String → String → String → Call

abbrev drop : {A : Type 0} → M A → M (Unit {0})
drop m = m >>= λ _. pure tt

-- The call, with the provider on or off
unfoldable pub run : Bool → Call → M (Unit {0})
run oidc_enabled (registers t email password name) = drop (Accounts.register t email password name)
run oidc_enabled (verifies t email token) = Accounts.verify t email token
run oidc_enabled (resends t email) = drop (Accounts.resend_verification t email)
run oidc_enabled (forgets t email) = drop (Accounts.forgot t email)
run oidc_enabled (requests_code t email) = drop (LogonCode.request t email)
run oidc_enabled (renames t email name) = Accounts.update_name t email name
run oidc_enabled (resets t email token password) =
    Accounts.reset (revokers oidc_enabled) t email token password
run oidc_enabled (changes_password t email old new) =
    Accounts.update_password (revokers oidc_enabled) t email old new
run oidc_enabled (deletes t email) = Accounts.delete (revokers oidc_enabled) t email
run oidc_enabled (logs_on t email client_id password) =
    drop (Authn.authenticate t email client_id password)
run oidc_enabled (logs_on_by_code t email client_id text) =
    drop (LogonCode.authenticate t email client_id text)
run oidc_enabled (acknowledges t tokens) = Authn.acknowledge t tokens
run oidc_enabled (renews t token) = drop (Authn.renew t token)
run oidc_enabled (revokes t email client_id) = Authn.revoke t email client_id
run oidc_enabled sweeps = sweep oidc_enabled
run oidc_enabled (logs_on_by_google verify t id_token client_id) =
    drop (Social.authenticate (google_validator verify ∷ []) t "google" id_token client_id)

-- The worlds that calls lead to, each in an environment of its own, whether it succeeds or fails
pub data Reachable (oidc_enabled : Bool) (start : World) : World → Type 0 where
  begin : Reachable oidc_enabled start start
  call :
      (env : Env) (w : World) (c : Call)
      → Reachable oidc_enabled start w
      → Reachable oidc_enabled start (run oidc_enabled c env w).1

Safe-drop : {A : Type 0} (m : M A) → Safe m → Safe (drop m)
Safe-drop m h = Preserves-bind _ _ h λ _. search preserve_rules depth 3

revoking :
    (oidc_enabled : Bool) (tenant_id email : String)
    → Safe (Accounts.revoke_sessions (revokers oidc_enabled) tenant_id email)
unfolding revokers
revoking true t email = Safe-revoke_sessions t email _ (Safe-delete_sessions, (Safe-revoker, tt))
revoking false t email = Safe-revoke_sessions t email _ (Safe-delete_sessions, tt)

Safe-run : (oidc_enabled : Bool) (c : Call) → Safe (run oidc_enabled c)
unfolding run
Safe-run b (registers t email password name) = Safe-drop _ (Safe-register t email password name)
Safe-run b (verifies t email token) = Safe-verify t email token
Safe-run b (resends t email) = Safe-drop _ (Safe-resend t email)
Safe-run b (forgets t email) = Safe-drop _ (Safe-forgot t email)
Safe-run b (requests_code t email) = Safe-drop _ (Safe-request t email)
Safe-run b (renames t email name) = Safe-update_name t email name
Safe-run b (resets t email token password) =
    Safe-reset _ t email (revoking b t email) token password
Safe-run b (changes_password t email old new) =
    Safe-update_password _ t email (revoking b t email) old new
Safe-run b (deletes t email) = Safe-delete _ t email (revoking b t email)
Safe-run b (logs_on t email client_id password) =
    Safe-drop _ (Safe-authenticate t email client_id password)
Safe-run b (logs_on_by_code t email client_id text) =
    Safe-drop _ (Safe-code_logon t email client_id text)
Safe-run b (acknowledges t tokens) = Safe-acknowledge t tokens
Safe-run b (renews t token) = Safe-drop _ (Safe-renew t token)
Safe-run b (revokes t email client_id) = Safe-revoke t email client_id
Safe-run b sweeps = Safe-sweep b
Safe-run b (logs_on_by_google verify t id_token client_id) =
    Safe-drop _ (Safe-social verify t "google" id_token client_id)

-- In every world that calls lead to from a well-formed database, no two accounts have the same tenant
-- and email or the same id, and no two sessions, failed attempts, logon codes or password resets have the
-- same key, whatever fails on the way.
pub Reachable-WellFormed :
    (oidc_enabled : Bool) (start : World) {w : World}
    → WellFormed start.db
    → Reachable oidc_enabled start w
    → WellFormed w.db
Reachable-WellFormed b start h begin = h
Reachable-WellFormed b start h (call env w c r) =
    (Safe-run b c).at env w (Reachable-WellFormed b start h r)
