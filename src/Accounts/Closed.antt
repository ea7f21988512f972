-- ===== src/Accounts/Closed.antt =====
-- Delete of internal/accounts/accounts.go, and the logons, renewals and validations of
-- internal/authn/authn.go after it.
use an.Prelude.{
  String, ◌&&◌, not, Bool, true, false, ◌≡◌, ◌≢◌, refl, List, [], ◌∷◌, arith, some, ℕ, inl, inr,
  Option-cases, subst, sym, ap, ◌∙◌,
}
use an.Error.{ok, Result-cases, Succeeds}
use an.World.{Db, World, Env, Claims}
use an.Rows.{AccountRow, Account}
use an.Table
use an.Exec.Rules.{ReadOnly-pure, bind_stop}
use an.Exec.Makes.{
  Makes, Keeps, Makes-then, Makes-first, Keeps-bind, Keeps-exec, Makes-affect,
  Makes-with_transaction, Keeps-ReadOnly,
}
use an.Store.Accounts
use an.Store.Accounts.{is_account, deleted_now, scanned, scan_account}
use an.Store.Sessions
use an.Store.BrowserSessions
use an.Store.OidcTokens
use an.Store.OidcTokens.{drop_refresh}
use an.Oidc.Revoker
use an.Accounts.{revoke_sessions, delete, apply_delete}
use an.Authn.{verify_password, live_account, rotate_session, validate}
use an.Authn.Gate.{verify_password-ok}
use an.Authn.Lifecycle.{live_account-ok, IsActive, validate-ok}
use an.Service.{revokers}

-- Is there an account of this tenant and email that is not deleted
abbrev pub has_live : String → String → Db → Bool
has_live tenant_id email db =
    Table.any (λ row. is_account tenant_id email row && not row.deleted) db.accounts

module _ (tenant_id email : String) where
  deleted-all :
      (time : ℕ) (rows : List AccountRow)
      → Table.any
          (λ row. is_account tenant_id email row && not row.deleted)
          (Table.update (is_account tenant_id email) (deleted_now time) rows)
        ≡ false
  unfolding Table.any Table.update
  deleted-all time [] = refl
  deleted-all time (row ∷ rows) = ground (arith, deleted-all time rows)

  -- A row that is found is not deleted only if there is such a row.
  live-any :
      (rows : List AccountRow) {row : AccountRow}
      → Table.find (is_account tenant_id email) rows ≡ some row
      → Table.any (λ row. is_account tenant_id email row && not row.deleted) rows ≡ false
      → row.deleted ≡ true
  unfolding Table.any Table.find
  live-any [] h k = cc
  live-any (x ∷ rows) {row} h k = ground (arith, live-any rows {row = row})

  Makes-deleted :
      Makes (Accounts.soft_delete tenant_id email) (λ db. has_live tenant_id email db ≡ false)
  unfolding Accounts.soft_delete Accounts.update
  Makes-deleted = Makes-affect _ _ _ λ time db. deleted-all time db.accounts

  -- The revokers touch no account.
  Keeps-revoke_sessions :
      (oidc_enabled : Bool)
      → Keeps
          (revoke_sessions (revokers oidc_enabled) tenant_id email)
          (λ db. has_live tenant_id email db ≡ false)
  unfolding revoke_sessions revokers Sessions.delete_all Revoker.delete_all
      BrowserSessions.delete_all_for_email OidcTokens.delete_grants_for_email drop_refresh
  Keeps-revoke_sessions true = Keeps-bind _ _ (Keeps-exec _ λ time db h. h) λ _.
      Keeps-bind _ _
        (Keeps-bind _ _ (Keeps-exec _ λ time db h. h) λ _.
          Keeps-bind _ _ (Keeps-exec _ λ time db h. h)
            λ _. Keeps-bind _ _ (Keeps-exec _ λ time db h. h) λ _. Keeps-exec _ λ time db h. h)
        λ _. Keeps-ReadOnly _ (ReadOnly-pure tt)
  Keeps-revoke_sessions false =
      Keeps-bind _ _ (Keeps-exec _ λ time db h. h) λ _. Keeps-ReadOnly _ (ReadOnly-pure tt)

  delete-Makes :
      (oidc_enabled : Bool)
      → Makes
          (delete (revokers oidc_enabled) tenant_id email)
          (λ db. has_live tenant_id email db ≡ false)
  unfolding delete apply_delete
  delete-Makes oidc_enabled = Makes-then _ _ λ _.
      Makes-with_transaction _
        (Makes-first _ _ Makes-deleted λ _. Keeps-revoke_sessions oidc_enabled)

  module _ (env : Env) (w : World) (dead : has_live tenant_id email w.db ≡ false) where
    dead-IsActive : ¬ IsActive (Table.find (is_account tenant_id email) w.db.accounts)
    dead-IsActive h = elim (Option-cases (Table.find (is_account tenant_id email) w.db.accounts)) [
      | inl e ↦ subst IsActive e h
      | inr (row, e) ↦
          let active = subst IsActive e h in
          let gone = live-any w.db.accounts {row = row} e dead in ground arith
    ]

    dead-verify_password :
        (password : String) {account : Account}
        → (verify_password tenant_id email password env w).0 ≢ ok account
    unfolding scan_account
    dead-verify_password password {account} h =
        let ok_parts = verify_password-ok env w tenant_id email password {account = account} h in
        elim (Option-cases (Table.find (is_account tenant_id email) w.db.accounts)) [
          | inl e ↦ let stored = ok_parts.0 in ground arith
          | inr (row, e) ↦
              let stored = ok_parts.0 in
              let live = ok_parts.1 in
              let gone = live-any w.db.accounts {row = row} e dead in ground arith
        ]

    dead-rotate_session :
        (claims : Claims)
        → claims.subject ≡ email
        → ¬ Succeeds (rotate_session tenant_id claims env w).0
    unfolding rotate_session
    dead-rotate_session claims same h =
        elim (Result-cases (live_account tenant_id claims.subject env w).0) [
          | inl (a, e) ↦ dead-IsActive (
              subst (λ s. IsActive (Table.find (is_account tenant_id s) w.db.accounts)) same
                (live_account-ok env w tenant_id claims.subject "" (subst Succeeds (sym e) tt)))
          | inr (e, k) ↦ subst (λ r. Succeeds r.0) (bind_stop _ _ env w k) h
        ]

    dead-validate :
        (token : String) {claims : Claims}
        → (validate tenant_id token env w).0 ≡ ok claims
        → claims.subject ≢ email
    dead-validate token {claims} h same = dead-IsActive (
        subst (λ s. IsActive (Table.find (is_account tenant_id s) w.db.accounts)) same
          (validate-ok env w tenant_id token {claims = claims} h).3)

  -- Whatever calls of the driver fail, and whether the provider is enabled or not: once a Delete has
  -- succeeded, at any later world whose accounts are those that it left and in any environment, no
  -- password logs the account on, no refresh token of it renews a session, and no access token of it is
  -- valid.
  pub delete-closes :
      (oidc_enabled : Bool) (env env' : Env) (w w' : World) (password token : String)
      (account : Account) (claims : Claims)
      → (delete (revokers oidc_enabled) tenant_id email env w).0 ≡ ok tt
      → w'.db.accounts ≡ (delete (revokers oidc_enabled) tenant_id email env w).1.db.accounts
      → claims.subject ≡ email
      → ((verify_password tenant_id email password env' w').0 ≢ ok account)
        × (¬ Succeeds (rotate_session tenant_id claims env' w').0)
        × ((validate tenant_id token env' w').0 ≢ ok claims)
  delete-closes oidc_enabled env env' w w' password token account claims done same of_account =
      let dead : has_live tenant_id email w'.db ≡ false =
        ap (Table.any λ (row : AccountRow). is_account tenant_id email row && not row.deleted) same
        ∙ (delete-Makes oidc_enabled).at env w done in
      (
        dead-verify_password env' w' dead password {account = account},
        dead-rotate_session env' w' dead claims of_account,
        λ h. dead-validate env' w' dead token {claims = claims} h of_account,
      )
