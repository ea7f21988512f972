-- ===== src/Oidc/Revoker.antt =====
-- internal/oidc/revoker.go: SessionRevoker, which ends everything that the OIDC surface holds for one
-- account.
use an.Prelude.{String}
use an.Exec.{M, ◌>>◌}
use an.Store.BrowserSessions
use an.Store.OidcTokens

unfoldable pub delete_all : String → String → M (Unit {0})
delete_all tenant_id email = do
  BrowserSessions.delete_all_for_email tenant_id email
  OidcTokens.delete_grants_for_email tenant_id email
