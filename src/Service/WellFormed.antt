-- ===== src/Service/WellFormed.antt =====
-- The keys of the tables of accounts, sessions, failed attempts, logon codes and password resets, and the
-- statements of the repositories on them (internal/accounts, internal/authn).
use an.Prelude.{
  ℕ, ◌≡◌, refl, String, ◌==◌, Bool, true, false, List, arith, Option-cases, none, Bool-cases, inl,
  inr,
}
use an.Rows.{AccountRow, Account, Session, LogonCode, PasswordReset}
use an.World.{Db}
use an.Table
use an.Table.Laws.{any-find}
use an.Store.SocialLogins
use an.Table.Unique.{unique, unique-insert, unique-update}
use an.Store.Accounts
use an.Store.Accounts.{is_account, inserted, clashes}
use an.Store.Sessions
pub use an.Store.Sessions.{same_session}
use an.Store.Sessions.{is_session, NewSession}
use an.Store.Attempts
pub use an.Store.Attempts.{same_attempt}
use an.Store.Attempts.{is_attempt}
use an.Store.Codes
use an.Store.Codes.{is_code}
use an.Store.Resets
use an.Store.Resets.{is_reset}

-- Two rows with the same key
abbrev pub same_account : AccountRow → AccountRow → Bool
same_account row = is_account row.tenant_id row.email

abbrev pub same_id : AccountRow → AccountRow → Bool
same_id row other = other.id == row.id

abbrev pub same_code : LogonCode → LogonCode → Bool
same_code row = is_code row.tenant_id row.email

abbrev pub same_reset : PasswordReset → PasswordReset → Bool
same_reset row = is_reset row.tenant_id row.email

-- No two rows of a table have the same key.
abbrev pub WellFormed : Db → Type 0
WellFormed db =
    (unique same_account db.accounts ≡ true)
    × (unique same_id db.accounts ≡ true)
    × (unique same_session db.sessions ≡ true)
    × (unique same_attempt db.failed_attempts ≡ true)
    × (unique same_code db.logon_codes ≡ true)
    × (unique same_reset db.password_resets ≡ true)

pub put-unique :
    (new : NewSession) (id : String) (time : ℕ) (rows : List Session)
    → unique same_session rows ≡ true
    → unique same_session (Sessions.put new id time rows) ≡ true
unfolding Sessions.put
put-unique new id time rows h =
    elim (Bool-cases (Table.any (is_session new.tenant_id new.email new.client_id) rows)) [
      | inl old ↦
          rw (old, Sessions.put) (unique-update same_session _ (λ x y. refl) (λ x y. refl) _ rows h)
      | inr none_yet ↦ rw (none_yet, Sessions.put) (unique-insert same_session _ rows none_yet h)
    ]

pub put_code-unique :
    (new : LogonCode) (rows : List LogonCode)
    → unique same_code rows ≡ true
    → unique same_code (Codes.put new rows) ≡ true
unfolding Codes.put
put_code-unique new rows h = elim (Bool-cases (Table.any (is_code new.tenant_id new.email) rows)) [
  | inl old ↦ rw (old, Codes.put) (unique-update same_code _ (λ x y. refl) (λ x y. refl) _ rows h)
  | inr none_yet ↦ rw (none_yet, Codes.put) (unique-insert same_code _ rows none_yet h)
]

pub put_reset-unique :
    (new : PasswordReset) (rows : List PasswordReset)
    → unique same_reset rows ≡ true
    → unique same_reset (Resets.put new rows) ≡ true
unfolding Resets.put
put_reset-unique new rows h =
    elim (Bool-cases (Table.any (is_reset new.tenant_id new.email) rows)) [
      | inl old ↦
          rw (old, Resets.put) (unique-update same_reset _ (λ x y. refl) (λ x y. refl) _ rows h)
      | inr none_yet ↦ rw (none_yet, Resets.put) (unique-insert same_reset _ rows none_yet h)
    ]

module _ {ℓ} {A : Type ℓ} (p : A → Bool) (xs : List A) where
  absent : Table.find p xs ≡ none → Table.any p xs ≡ false
  absent h = elim (Bool-cases (Table.any p xs)) [ inl e ↦ elim (any-find p xs e h) [ ] | inr e ↦ e ]

pub increment-WellFormed :
    (tenant_id email : String) (max lock_for time : ℕ) (db : Db)
    → WellFormed db
    → WellFormed (Attempts.increment tenant_id email max lock_for time db).1
unfolding Attempts.increment Attempts.first_attempt Attempts.counted
increment-WellFormed tenant_id email max lock_for time db k =
    let mine = is_attempt tenant_id email in
    elim (Option-cases (Table.find mine db.failed_attempts)) [
      | inl new ↦
          let fresh =
            unique-insert same_attempt (Attempts.first_attempt tenant_id email max lock_for time)
              db.failed_attempts (absent mine db.failed_attempts new) k.3 in
          rw (new, Attempts.increment) (k.0, k.1, k.2, fresh, k.4, k.5)
      | inr (old, found) ↦
          let changed =
            unique-update same_attempt (Attempts.counted max lock_for time) (λ x y. refl)
              (λ x y. refl) mine db.failed_attempts k.3 in
          rw (found, Attempts.increment) (k.0, k.1, k.2, changed, k.4, k.5)
    ]

no_clash :
    (row : AccountRow) (rows : List AccountRow)
    → clashes row rows ≡ false
    → (Table.any (same_account row) rows ≡ false) × (Table.any (same_id row) rows ≡ false)
unfolding clashes
no_clash row rows h = ground arith

pub insert-WellFormed :
    (account : Account) (verified : Bool) (id : String) (time : ℕ) (db : Db)
    → WellFormed db
    → WellFormed (Accounts.insert account verified id time db).1
unfolding Accounts.insert
insert-WellFormed account verified id time db k =
    let row = inserted account verified id time in
    elim (Bool-cases (clashes row db.accounts)) [
      | inl e ↦ rw (e, Accounts.insert) k
      | inr e ↦
          let (key, by_id) = no_clash row db.accounts e in
          rw (e, Accounts.insert)
            (
              unique-insert same_account row db.accounts key k.0,
              unique-insert same_id row db.accounts by_id k.1,
              k.2,
              k.3,
              k.4,
              k.5,
            )
    ]

pub put_link-WellFormed :
    (account_id provider subject : String) (time : ℕ) (db : Db)
    → WellFormed db
    → WellFormed (SocialLogins.put account_id provider subject time db).1
unfolding SocialLogins.put
put_link-WellFormed account_id provider subject time db k = ground (arith, k)
