-- ===== src/Store/Codes.antt =====
-- internal/authn/logon_code_repository.go: PostgresLogonCodeRepository.
use an.Prelude.{ℕ, String, ◌==◌, Bool, ◌&&◌, List, ◌∷◌, ltb, if◌then◌else◌}
use an.Error.{logon_code_invalid, logon_code_expired}
use an.Rows.{LogonCode}
use an.Table
use an.Exec.{M, pure, query, exec, exec_count, from_option, now, fail_if, ◌>>=◌, ◌>>◌}

abbrev pub is_code : String → String → LogonCode → Bool
is_code tenant_id email row = row.tenant_id == tenant_id && row.email == email

-- INSERT … ON CONFLICT (tenant_id, email) DO UPDATE
unfoldable pub put : LogonCode → List LogonCode → List LogonCode
put row rows =
    let same = is_code row.tenant_id row.email in
    if Table.any same rows
    then Table.update same
        (λ old. record old {
          code_hash = row.code_hash;
          expires = row.expires;
          created = row.created;
        })
        rows
    else row ∷ rows

unfoldable pub upsert : String → String → String → ℕ → M (Unit {0})
unfolding put
upsert tenant_id email code_hash expires = exec λ time db. record db {
  logon_codes =
      put
        (record {
          tenant_id = tenant_id;
          email = email;
          code_hash = code_hash;
          expires = expires;
          created = time;
        })
        db.logon_codes;
}

-- The stored hash; an expired row is an error.
unfoldable pub read : String → String → M String
read tenant_id email = do
  row ←
      query (λ _ db.
        from_option logon_code_invalid (Table.find (is_code tenant_id email) db.logon_codes))
  time ← now
  fail_if (ltb row.expires time) logon_code_expired
  pure row.code_hash

unfoldable pub delete : String → String → M (Unit {0})
delete tenant_id email =
    exec λ _ db. record db { logon_codes = Table.delete (is_code tenant_id email) db.logon_codes }

-- WHERE expires < now()
abbrev pub is_expired : ℕ → LogonCode → Bool
is_expired time row = ltb row.expires time

unfoldable pub delete_expired : M ℕ
delete_expired =
    exec_count (λ time db. Table.count (is_expired time) db.logon_codes)
      (λ time db. record db { logon_codes = Table.delete (is_expired time) db.logon_codes })
