-- ===== src/Oidc/Grants.antt =====
-- What an authorization request and a sign-out leave behind (DeleteAuthRequest, AuthRequestByCode and
-- TerminateSession of internal/oidc/storage.go).
use an.Prelude.{
  ◌≡◌, ◌≢◌, ap, ◌∙◌, sym, String, ◌==◌, Bool, true, false, ◌&&◌, some, List, [], ◌∷◌, arith, eq_iff,
  eq_true,
}
use an.Error.{ok}
use an.Rows.{AuthRequest}
use an.World.{World, Env}
use an.Table
use an.Table.Laws.{find-delete_other}
use an.Exec.{affect, exec, ◌>>=◌}
use an.Utils.Secrets.{sha256_hex}
use an.Store.AuthRequests
use an.Store.AuthRequests.{is_request, has_code}
use an.Store.OidcTokens
use an.Store.OidcTokens.{grants_refresh}
use an.Oidc.{
  delete_auth_request, auth_request_by_code, terminate_session, tenant_from, gone_is_done,
}

module _ {ℓ} {A : Type ℓ} (p q : A → Bool) where
  -- What a deletion leaves does not meet its test.
  find-deleted : (xs : List A) {x : A} → Table.find q (Table.delete p xs) ≡ some x → p x ≡ false
  unfolding Table.find Table.delete
  find-deleted [] h = cc
  find-deleted (y ∷ xs) {x} h = ground (arith, find-deleted xs {x = x})

module _ (tenant id : String) where
  deleted :
      (env : Env) (w : World)
      → env.uuid_parse id ≡ true
      → (delete_auth_request tenant id env w).0 ≡ ok tt
      → (delete_auth_request tenant id env w).1.db.auth_requests
        ≡ Table.delete (is_request tenant id) w.db.auth_requests
  unfolding delete_auth_request tenant_from gone_is_done AuthRequests.delete affect ◌>>=◌
  deleted env w parses h = ground arith

  by_code-ok :
      (text : String) (env : Env) (w : World) {request : AuthRequest}
      → (auth_request_by_code tenant text env w).0 ≡ ok request
      → (Table.find (has_code (sha256_hex env text)) w.db.auth_requests ≡ some request)
        × ((request.tenant_id == tenant) ≡ true)
  unfolding auth_request_by_code tenant_from AuthRequests.read_by_code AuthRequests.read_row
      sha256_hex ◌>>=◌
  by_code-ok text env w {request} h = ground arith

  -- Once DeleteAuthRequest has succeeded for a request, as the token endpoint asks for after an exchange,
  -- no code gives that request again, at any later world with the requests that it left, in any
  -- environment. The id of the request is a uuid.
  pub code_once :
      (env env' : Env) (w w' : World) (text : String) {request : AuthRequest}
      → env.uuid_parse id ≡ true
      → (delete_auth_request tenant id env w).0 ≡ ok tt
      → w'.db.auth_requests ≡ (delete_auth_request tenant id env w).1.db.auth_requests
      → (auth_request_by_code tenant text env' w').0 ≡ ok request
      → request.id ≢ id
  code_once env env' w w' text {request} parses done same found e =
      let (stored, of_tenant) = by_code-ok text env' w' {request = request} found in
      let here =
        ap (Table.find (has_code (sha256_hex env' text)))
          (sym (deleted env w parses done) ∙ sym same)
        ∙ stored in
      let gone =
        find-deleted (is_request tenant id) (has_code (sha256_hex env' text)) w.db.auth_requests
          {x = request} here in
      let same_id = eq_true e in ground arith

module _ (tenant subject : String) (env : Env) (w : World) where
  terminated :
      (terminate_session tenant subject "" env w).0 ≡ ok tt
      → (terminate_session tenant subject "" env w).1.db.refresh_tokens
        ≡ Table.delete (grants_refresh tenant subject "") w.db.refresh_tokens
  unfolding terminate_session tenant_from OidcTokens.delete_grants OidcTokens.drop_refresh exec
      ◌>>=◌
  terminated done = ground arith

  -- A TerminateSession without a client id, which is what the sign-out page asks for when its query has
  -- none, leaves every refresh token of every client as it was.
  pub terminate_nothing :
      (token_id client_id : String)
      → client_id ≢ ""
      → (terminate_session tenant subject "" env w).0 ≡ ok tt
      → Table.find
          (λ row. row.id == token_id && row.client_id == client_id)
          (terminate_session tenant subject "" env w).1.db.refresh_tokens
        ≡ Table.find (λ row. row.id == token_id && row.client_id == client_id) w.db.refresh_tokens
  terminate_nothing token_id client_id named done =
      ap (Table.find (λ row. row.id == token_id && row.client_id == client_id)) (terminated done)
      ∙ find-delete_other (grants_refresh tenant subject "")
          (λ row. row.id == token_id && row.client_id == client_id)
          (λ row h. ground (arith, eq_iff row.client_id "", eq_iff row.client_id client_id))
          w.db.refresh_tokens
