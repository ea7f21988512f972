-- ===== src/Store/SocialLogins.antt =====
-- internal/social/social_repository.go: PostgresSocialRepository.
use an.Prelude.{ℕ, String, ◌==◌, Bool, not, ◌&&◌, ◌∷◌, if◌then◌else◌}
use an.Error.{Result, ok, err, pg_error, social_already_linked}
use an.Rows.{SocialLogin}
use an.Table
use an.World.{Db}
use an.Exec.{M, statement, rename_error, on_unique, pg_unique_violation, pg_foreign_key_violation}

-- PRIMARY KEY (account_id, provider)
abbrev pub is_link : String → String → SocialLogin → Bool
is_link account_id provider row = row.account_id == account_id && row.provider == provider

-- UNIQUE (provider, subject), held by a row of another account
abbrev pub is_taken : String → String → String → SocialLogin → Bool
is_taken account_id provider subject row =
    row.provider == provider && row.subject == subject && not (row.account_id == account_id)

-- INSERT … ON CONFLICT (account_id, provider) DO UPDATE SET subject. The account is referenced.
unfoldable pub put : String → String → String → ℕ → Db → Result (Unit {0}) × Db
put account_id provider subject time db =
    if not (Table.any (λ row. row.id == account_id) db.accounts)
    then (err (pg_error pg_foreign_key_violation), db)
    else if Table.any (is_taken account_id provider subject) db.social_logins
    then (err (pg_error pg_unique_violation), db)
    else if Table.any (is_link account_id provider) db.social_logins
    then (
      ok tt,
      record db {
        social_logins =
            Table.update (is_link account_id provider) (λ row. record row { subject = subject })
              db.social_logins;
      },
    )
    else (
      ok tt,
      record db {
        social_logins =
            (record {
              account_id = account_id;
              provider = provider;
              subject = subject;
              created = time;
            })
            ∷ db.social_logins;
      },
    )

unfoldable pub link : String → String → String → M (Unit {0})
unfolding put on_unique
link account_id provider subject =
    rename_error (on_unique (social_already_linked provider))
      (statement (put account_id provider subject))
