-- ===== src/Service.antt =====
-- cmd/an/main.go: the first tenant, the session revokers that the account service is given, and one
-- sweep of the janitor.
pub mod WellFormed
pub mod Sweep
pub mod Swept
pub mod Invariant
pub mod Operations
pub mod Preserved
use an.Prelude.{ℕ, Bool, true, false, List, [], ◌∷◌, String, ◌==◌, not, if◌then◌else◌}
use an.Rows.{Tenant}
use an.Exec.{M, pure, try, ◌>>=◌, ◌>>◌}
use an.Tokens
use an.Store.Tenants
use an.Store.Sessions
use an.Store.Resets
use an.Store.Codes
use an.Store.Attempts
use an.Store.AuthRequests
use an.Store.OidcTokens
use an.Store.BrowserSessions
use an.Accounts.{Revoker}
use an.Social.{Validator, add_validator}
use an.Social.Google.{Outcome, IdToken, google_validator}
use an.Oidc
use an.Oidc.Revoker

unfoldable pub create_if_none : List Tenant → M (Unit {0})
create_if_none [] = Tenants.create
create_if_none (tenant ∷ rest) = pure tt

unfoldable pub create_default_tenant : M (Unit {0})
unfolding create_if_none
create_default_tenant = Tenants.read_all >>= create_if_none

-- The surfaces on which an account can be signed in
unfoldable pub revokers : Bool → List Revoker
revokers oidc_enabled = Sessions.delete_all ∷ (if oidc_enabled then Revoker.delete_all ∷ [] else [])

-- A failure is logged, and the sweep goes on. The counts are only logged, and left out.
unfoldable pub sweep_oidc : Bool → M (Unit {0})
sweep_oidc false = pure tt
sweep_oidc true = do
  try AuthRequests.delete_expired
  try OidcTokens.delete_expired
  try BrowserSessions.delete_expired
  pure tt

unfoldable pub reload_provider : Bool → M (Unit {0})
reload_provider oidc_enabled = if oidc_enabled then (try Oidc.reload_keys >> pure tt) else pure tt

-- A day, in nanoseconds
abbrev pub day : ℕ
day = 86400000000000

unfoldable pub sweep : Bool → M (Unit {0})
unfolding sweep_oidc reload_provider
sweep oidc_enabled = do
  try Tokens.reload_keys
  reload_provider oidc_enabled
  try Sessions.delete_expired
  try Codes.delete_expired
  try Resets.delete_expired
  try (Attempts.delete_stale day)
  sweep_oidc oidc_enabled
  pure tt

-- What main does with the database before it serves: the first tenant, the first signing key, and the keys
-- of the tokenizer and of the provider. A failure ends the process.
unfoldable pub start : Bool → M (Unit {0})
unfolding create_default_tenant
start oidc_enabled = do
  create_default_tenant
  Tokens.initialize
  Tokens.reload_keys
  if oidc_enabled then Oidc.reload_keys else pure tt

-- The validators that main adds
unfoldable pub validators : String → (ℕ → String → Outcome IdToken) → List Validator
unfolding add_validator google_validator
validators google_client_id verify =
    if not (google_client_id == "") then add_validator (google_validator verify) [] else []
