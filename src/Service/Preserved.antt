-- ===== src/Service/Preserved.antt =====
-- The keys of the tables while the repositories work on them (internal/accounts, internal/authn,
-- internal/social and internal/oidc).
use an.Prelude.{true, false, not, if◌then◌else◌, ℕ, String, ◌≡◌, refl, Bool, arith}
use an.Rows.{AccountRow, Account, Session}
use an.Table.Unique.{unique-delete, unique-update}
use an.World.{Db}
use an.Error.{driver_failure}
use an.Exec.{M, new_uuid, exec_count, throw}
use an.Table
use an.Exec.Preserves.{
  Preserves, preserve_rules, Preserves-exec, Preserves-exec_count, Preserves-affect,
  Preserves-statement, Preserves-rename_error, Preserves-bind, Preserves-ReadOnly,
}
use an.Store.Accounts
use an.Store.Accounts.{is_account}
use an.Store.SocialLogins
use an.Store.Sessions
use an.Store.Sessions.{NewSession, is_session, is_current, refreshed}
use an.Store.Attempts
use an.Store.Codes
use an.Store.Resets
use an.Store.BrowserSessions
use an.Store.OidcTokens
use an.Oidc.Revoker
use an.Service.WellFormed.{
  WellFormed, same_account, same_id, same_session, same_attempt, same_code, same_reset, put-unique,
  put_code-unique, put_reset-unique, increment-WellFormed, insert-WellFormed, put_link-WellFormed,
}

abbrev pub Safe : {A : Type 0} → M A → Type 0
Safe m = Preserves m WellFormed

pub Safe-new_uuid : Safe new_uuid
unfolding new_uuid
Safe-new_uuid = search preserve_rules depth 4

-- A change of an account that keeps its key and its id
pub Safe-update :
    (tenant_id email : String) (change : ℕ → AccountRow → AccountRow)
    → ((time : ℕ) (x y : AccountRow) → same_account (change time x) y ≡ same_account x y)
    → ((time : ℕ) (x y : AccountRow) → same_account x (change time y) ≡ same_account x y)
    → ((time : ℕ) (x y : AccountRow) → same_id (change time x) y ≡ same_id x y)
    → ((time : ℕ) (x y : AccountRow) → same_id x (change time y) ≡ same_id x y)
    → Safe (Accounts.update tenant_id email change)
unfolding Accounts.update
Safe-update tenant_id email change a b c d = Preserves-affect _ _ _ λ time db k. (
  unique-update same_account (change time) (a time) (b time) (is_account tenant_id email)
      db.accounts k.0,
  unique-update same_id (change time) (c time) (d time) (is_account tenant_id email) db.accounts
      k.1,
  k.2,
  k.3,
  k.4,
  k.5,
)

pub Safe-create_row :
    (account : Account) (verified : Bool) → Safe (Accounts.create_row account verified)
unfolding Accounts.create_row
Safe-create_row account verified =
    Preserves-bind _ _ Safe-new_uuid λ id.
      Preserves-rename_error _ _ (Preserves-statement _ (insert-WellFormed account verified id))

module _ (tenant_id email : String) where
  pub Safe-set_verified : Safe (Accounts.set_verified tenant_id email)
  unfolding Accounts.set_verified
  Safe-set_verified =
      Safe-update _ _ _ (λ t x y. refl) (λ t x y. refl) (λ t x y. refl) (λ t x y. refl)

  pub Safe-update_verification_hash :
      (hash : String) → Safe (Accounts.update_verification_hash tenant_id email hash)
  unfolding Accounts.update_verification_hash
  Safe-update_verification_hash hash =
      Safe-update _ _ _ (λ t x y. refl) (λ t x y. refl) (λ t x y. refl) (λ t x y. refl)

  pub Safe-update_password_hash :
      (hash : String) → Safe (Accounts.update_password_hash tenant_id email hash)
  unfolding Accounts.update_password_hash
  Safe-update_password_hash hash =
      Safe-update _ _ _ (λ t x y. refl) (λ t x y. refl) (λ t x y. refl) (λ t x y. refl)

  pub Safe-update_name : (name : String) → Safe (Accounts.update_name tenant_id email name)
  unfolding Accounts.update_name
  Safe-update_name name =
      Safe-update _ _ _ (λ t x y. refl) (λ t x y. refl) (λ t x y. refl) (λ t x y. refl)

  pub Safe-soft_delete : Safe (Accounts.soft_delete tenant_id email)
  unfolding Accounts.soft_delete
  Safe-soft_delete =
      Safe-update _ _ _ (λ t x y. refl) (λ t x y. refl) (λ t x y. refl) (λ t x y. refl)

  pub Safe-increment_and_lock :
      (max lock_for : ℕ) → Safe (Attempts.increment_and_lock tenant_id email max lock_for)
  unfolding Attempts.increment_and_lock
  Safe-increment_and_lock max lock_for =
      Preserves-statement _ (increment-WellFormed tenant_id email max lock_for)

  pub Safe-clear : Safe (Attempts.clear tenant_id email)
  unfolding Attempts.clear
  Safe-clear =
      Preserves-exec _
        λ time db k. (k.0, k.1, k.2, unique-delete same_attempt _ db.failed_attempts k.3, k.4, k.5)

  pub Safe-put_code :
      (hash : String) (expires : ℕ) → Safe (Codes.upsert tenant_id email hash expires)
  unfolding Codes.upsert
  Safe-put_code hash expires =
      Preserves-exec _ λ time db k. (k.0, k.1, k.2, k.3, put_code-unique _ db.logon_codes k.4, k.5)

  pub Safe-delete_code : Safe (Codes.delete tenant_id email)
  unfolding Codes.delete
  Safe-delete_code =
      Preserves-exec _
        λ time db k. (k.0, k.1, k.2, k.3, unique-delete same_code _ db.logon_codes k.4, k.5)

  pub Safe-put_reset :
      (hash : String) (expires : ℕ) → Safe (Resets.upsert tenant_id email hash expires)
  unfolding Resets.upsert
  Safe-put_reset hash expires =
      Preserves-exec _
        λ time db k. (k.0, k.1, k.2, k.3, k.4, put_reset-unique _ db.password_resets k.5)

  pub Safe-delete_reset : Safe (Resets.delete tenant_id email)
  unfolding Resets.delete
  Safe-delete_reset =
      Preserves-exec _
        λ time db k. (k.0, k.1, k.2, k.3, k.4, unique-delete same_reset _ db.password_resets k.5)

  pub Safe-delete_sessions : Safe (Sessions.delete_all tenant_id email)
  unfolding Sessions.delete_all
  Safe-delete_sessions =
      Preserves-exec _
        λ time db k. (k.0, k.1, unique-delete same_session _ db.sessions k.2, k.3, k.4, k.5)

  pub Safe-delete_session : (client_id : String) → Safe (Sessions.delete tenant_id email client_id)
  unfolding Sessions.delete
  Safe-delete_session client_id =
      Preserves-affect _ _ _
        λ time db k. (k.0, k.1, unique-delete same_session _ db.sessions k.2, k.3, k.4, k.5)

  Safe-unless :
      {A : Type 0} {m : M A} (b : Bool) → Safe m → Safe (if not b then throw driver_failure else m)
  Safe-unless true h = h
  Safe-unless false h = search preserve_rules depth 4

  -- The update of a rotation keeps the keys.
  Safe-refreshed :
      (p : Session → Bool) (next : String) (expires : ℕ)
      → Safe (
          exec_count
            (λ _ db. Table.count p db.sessions)
            (λ time db. record db {
              sessions = Table.update p (refreshed next expires time) db.sessions;
            }))
  Safe-refreshed p next expires = Preserves-exec_count _ _ λ time db k. (
    k.0,
    k.1,
    unique-update same_session (refreshed next expires time) (λ x y. refl) (λ x y. refl) p
        db.sessions k.2,
    k.3,
    k.4,
    k.5,
  )

  pub Safe-rotate :
      (client_id current next : String) (expires : ℕ)
      → Safe (Sessions.rotate tenant_id email client_id current next expires)
  unfolding Sessions.rotate
  Safe-rotate client_id current next expires =
      Preserves-bind _ _ (search preserve_rules depth 3) λ casts.
        Preserves-bind _ _
          (Safe-unless casts
            (Safe-refreshed (is_current tenant_id email client_id current) next expires))
          λ affected. search preserve_rules depth 3

  pub Safe-delete_browser_sessions : Safe (BrowserSessions.delete_all_for_email tenant_id email)
  unfolding BrowserSessions.delete_all_for_email
  Safe-delete_browser_sessions = Preserves-exec _ λ time db k. k

  pub Safe-delete_grants : Safe (OidcTokens.delete_grants_for_email tenant_id email)
  unfolding OidcTokens.delete_grants_for_email OidcTokens.drop_refresh
  Safe-delete_grants =
      Preserves-bind _ _ (Preserves-exec _ λ time db k. k) λ _.
        Preserves-bind _ _ (Preserves-exec _ λ time db k. k) λ _. Preserves-exec _ λ time db k. k

  pub Safe-revoker : Safe (Revoker.delete_all tenant_id email)
  unfolding Revoker.delete_all
  Safe-revoker = Preserves-bind _ _ Safe-delete_browser_sessions λ _. Safe-delete_grants

store-WellFormed :
    (new : NewSession) (id : String) (is_uuid : Bool) (time : ℕ) (db : Db)
    → WellFormed db
    → WellFormed (Sessions.store new id is_uuid time db).1
unfolding Sessions.store
store-WellFormed new id is_uuid time db k = ground (arith, put-unique new id time db.sessions k.2)

pub Safe-upsert : (new : NewSession) → Safe (Sessions.upsert new)
unfolding Sessions.upsert
Safe-upsert new = Preserves-bind _ _ Safe-new_uuid λ id.
    Preserves-bind _ _ (search preserve_rules depth 3)
      λ is_uuid. Preserves-statement _ (store-WellFormed new id is_uuid)

pub Safe-link :
    (account_id provider subject : String) → Safe (SocialLogins.link account_id provider subject)
unfolding SocialLogins.link
Safe-link account_id provider subject =
    Preserves-rename_error _ _
      (Preserves-statement _ (put_link-WellFormed account_id provider subject))

pub ruleset keep_rules = (
  preserve_rules, Safe-create_row, Safe-set_verified, Safe-update_verification_hash,
  Safe-update_password_hash, Safe-update_name, Safe-soft_delete, Safe-increment_and_lock,
  Safe-clear, Safe-put_code, Safe-delete_code, Safe-put_reset, Safe-delete_reset,
  Safe-delete_sessions, Safe-delete_session, Safe-rotate, Safe-revoker, Safe-upsert, Safe-link,
)
