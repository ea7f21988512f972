-- ===== src/Accounts/SignOut.antt =====
-- The sign-ins of an account after Reset, UpdatePassword and Delete (internal/accounts/accounts.go).
use an.Prelude.{String, Bool, true, false, ◌≡◌}
use an.Error.{ok}
use an.World.{Db, Env, World}
use an.Table
use an.Table.Laws.{any-delete_self}
use an.Exec.{◌>>◌}
use an.Exec.Rules.{ReadOnly-pure}
use an.Exec.Makes.{
  Makes, Keeps, Makes-then, Makes-first, Keeps-bind, Makes-exec, Keeps-exec, Makes-with_transaction,
  Keeps-ReadOnly,
}
use an.Store.Resets
use an.Store.Attempts
use an.Store.Sessions
use an.Store.BrowserSessions
use an.Store.OidcTokens
use an.Store.OidcTokens.{is_subject, drop_refresh}
use an.Accounts.{
  revoke_sessions, reset, update_password, delete, apply_reset, apply_password, apply_delete,
}
use an.Oidc.Revoker
use an.Service.{revokers}
use an.Accounts.Revoked.{SignedOut, Makes-revoke_sessions}

module _ (tenant_id email : String) where
  Makes-update_password :
      (current_password new_password : String)
      → Makes
          (update_password (revokers true) tenant_id email current_password new_password)
          (SignedOut tenant_id email)
  unfolding update_password apply_password
  Makes-update_password current_password new_password = Makes-then _ _ λ _.
      Makes-then _ _ λ account. Makes-then _ _ λ match. Makes-then _ _ λ _. Makes-then _ _ λ hash.
        Makes-with_transaction _ (Makes-then _ _ λ _. (Makes-revoke_sessions tenant_id email))

  Makes-delete : Makes (delete (revokers true) tenant_id email) (SignedOut tenant_id email)
  unfolding delete apply_delete
  Makes-delete =
      Makes-then _ _
        λ _. Makes-with_transaction _ (Makes-then _ _ λ _. (Makes-revoke_sessions tenant_id email))

  -- What Reset leaves besides: no reset token, and no failed attempts
  abbrev pub has_reset : Db → Bool
  has_reset db = Table.any (Resets.is_reset tenant_id email) db.password_resets

  abbrev pub has_attempts : Db → Bool
  has_attempts db = Table.any (Attempts.is_attempt tenant_id email) db.failed_attempts

  Keeps-clear : Keeps (Attempts.clear tenant_id email) (SignedOut tenant_id email)
  unfolding Attempts.clear
  Keeps-clear = Keeps-exec _ λ time db h. h

  Makes-clear : Makes (Attempts.clear tenant_id email) (λ db. has_attempts db ≡ false)
  unfolding Attempts.clear
  Makes-clear = Makes-exec _ λ time db. any-delete_self _ db.failed_attempts

  Makes-reset_row :
      Makes
        (Resets.delete tenant_id email
          >> (revoke_sessions (revokers true) tenant_id email >> Attempts.clear tenant_id email))
        (λ db. has_reset db ≡ false)
  unfolding Resets.delete revoke_sessions revokers Attempts.clear Sessions.delete_all
      Revoker.delete_all BrowserSessions.delete_all_for_email OidcTokens.delete_grants_for_email
      drop_refresh
  Makes-reset_row =
      Makes-first _ _ (Makes-exec _ λ time db. any-delete_self _ db.password_resets) λ _.
        Keeps-bind _ _
          (Keeps-bind _ _ (Keeps-exec _ λ time db h. h) λ _.
            Keeps-bind _ _
              (Keeps-bind _ _ (Keeps-exec _ λ time db h. h) λ _.
                Keeps-bind _ _ (Keeps-exec _ λ time db h. h) λ _.
                  Keeps-bind _ _ (Keeps-exec _ λ time db h. h) λ _. Keeps-exec _ λ time db h. h)
              λ _. Keeps-ReadOnly _ (ReadOnly-pure tt))
          λ _. Keeps-exec _ λ time db h. h

  -- What the transaction of Reset leaves, it leaves after the checks before it.
  Makes-reset :
      (token new_password : String) (q : Db → Type 0)
      → ((hash : String) → Makes (apply_reset (revokers true) tenant_id email hash) q)
      → Makes (reset (revokers true) tenant_id email token new_password) q
  unfolding reset
  Makes-reset token new_password q h = Makes-then _ _ λ _. Makes-then _ _ λ account.
      Makes-then _ _ λ stored.
        Makes-then _ _
          λ presented. Makes-then _ _ λ _. Makes-then _ _ λ hash. Makes-with_transaction _ (h hash)

  Makes-reset_all :
      (token new_password : String)
      → Makes
          (reset (revokers true) tenant_id email token new_password)
          (λ db. SignedOut tenant_id email db × (has_reset db ≡ false) × (has_attempts db ≡ false))
  unfolding apply_reset
  Makes-reset_all token new_password = record {
    at = λ env w h. (
      (Makes-reset token new_password _ λ hash. Makes-then _ _ λ _.
            Makes-then _ _
              λ _. Makes-first _ _ (Makes-revoke_sessions tenant_id email) λ _. Keeps-clear).at
          env w h,
      (Makes-reset token new_password _ λ hash. Makes-then _ _ λ _. Makes-reset_row).at env w h,
      (Makes-reset token new_password _
            λ hash. Makes-then _ _ λ _. Makes-then _ _ λ _. Makes-then _ _ λ _. Makes-clear).at
          env w h,
    );
  }

  -- Whatever calls of the driver fail, with the provider enabled: an UpdatePassword that succeeds leaves
  -- the account no session, browser session, refresh token, access token or pending authorization
  -- request.
  pub update_password-SignedOut :
      (current_password new_password : String) (env : Env) (w : World)
      → (update_password (revokers true) tenant_id email current_password new_password env w).0
        ≡ ok tt
      → SignedOut tenant_id email
          (update_password (revokers true) tenant_id email current_password new_password env w).1.db
  update_password-SignedOut current_password new_password env w h =
      (Makes-update_password current_password new_password).at env w h

  -- Whatever calls of the driver fail, with the provider enabled: a Delete that succeeds leaves the
  -- account no session, browser session, refresh token, access token or pending authorization request.
  pub delete-SignedOut :
      (env : Env) (w : World)
      → (delete (revokers true) tenant_id email env w).0 ≡ ok tt
      → SignedOut tenant_id email (delete (revokers true) tenant_id email env w).1.db
  delete-SignedOut env w h = Makes-delete.at env w h

  -- Whatever calls of the driver fail, with the provider enabled: a Reset that succeeds leaves the
  -- account no session, browser session, refresh token, access token, pending authorization request,
  -- reset token or failed attempts.
  pub reset-SignedOut :
      (token new_password : String) (env : Env) (w : World)
      → (reset (revokers true) tenant_id email token new_password env w).0 ≡ ok tt
      → SignedOut tenant_id email
          (reset (revokers true) tenant_id email token new_password env w).1.db
        × (has_reset (reset (revokers true) tenant_id email token new_password env w).1.db ≡ false)
        × (has_attempts (reset (revokers true) tenant_id email token new_password env w).1.db
            ≡ false)
  reset-SignedOut token new_password env w h = (Makes-reset_all token new_password).at env w h
