-- ===== src/Accounts/Verification.antt =====
-- The verification tokens of Register and Verify (internal/accounts/accounts.go).
use an.Prelude.{
  String, ◌==◌, ◌||◌, not, false, ◌≡◌, ◌≢◌, List, ◌∷◌, arith, Option, none, some, ℕ, suc, eq_refl,
  true_eq, true, ap, sym, ◌∙◌, Bool-cases, inl, inr,
}
use an.Error.{ok}
use an.World.{Db, World, Env}
use an.Rows.{AccountRow, Account}
use an.Table
use an.Table.Laws.{find-update_self, find_sound}
use an.Exec.{◌>>=◌, affect, new_uuid}
use an.Exec.Rules.{reliable, ReadOnly, read_rules}
use an.Exec.Yields.{Yields, Yields-read, Yields-asks, Yields-pure, Yields-statement}
use an.Accounts.Atomic.{ReadOnly-valid_or, ReadOnly-bcrypt_hash}
use an.Utils.Secrets.{sha256_hex, safe_compare, random_token}
use an.Store.Accounts
use an.Store.Accounts.{is_account, scanned, scan_account, verified_now, text_or_empty, inserted}
use an.Accounts.{verify, read_live, register, RegisteredAccount, new_account}

-- The test of Verify: there is a hash, and it is that of the token.
hash_matches :
    (stored : Option String) (hash : String)
    → (text_or_empty stored == "" || not (hash == text_or_empty stored)) ≡ false
    → stored ≡ some hash
hash_matches none hash h = ground (arith, eq_refl "")
hash_matches (some s) hash h = elim (Bool-cases (hash == s)) [
  | inl e ↦ ap some (sym (true_eq hash s e))
  | inr e ↦ ground arith
]

ReadOnly-random_token : ReadOnly random_token
unfolding random_token
ReadOnly-random_token = search read_rules depth 6

ReadOnly-new_uuid : ReadOnly new_uuid
unfolding new_uuid
ReadOnly-new_uuid = search read_rules depth 6

module _ (tenant_id email : String) where
  abbrev stored : Db → Option AccountRow
  stored db = Table.find (is_account tenant_id email) db.accounts

  verify-checks :
      (env : Env) (w : World) (token : String) {row : AccountRow}
      → stored w.db ≡ some row
      → (verify tenant_id email token env w).0 ≡ ok tt
      → (row.deleted ≡ false)
        × (row.verified ≡ false)
        × (row.verification_hash ≡ some (sha256_hex env token))
        × ((time : ℕ) × (stored (verify tenant_id email token env w).1.db
              ≡ some (verified_now time row)))
  unfolding verify read_live Accounts.read scan_account Accounts.set_verified Accounts.update affect
      safe_compare ◌>>=◌
  verify-checks env w token {row} found h = (
    checked.0,
    checked.1,
    hash_matches row.verification_hash (sha256_hex env token) checked.2,
    (
      env.clock (suc w.step),
      ground (
        arith,
        find-update_self (is_account tenant_id email) (verified_now (env.clock (suc w.step)))
            w.db.accounts {x = row},
        find_sound (is_account tenant_id email) w.db.accounts {x = row},
      ),
    ),
  )
    where
      checked :
          (row.deleted ≡ false)
          × (row.verified ≡ false)
          × ((text_or_empty row.verification_hash == ""
                || not (sha256_hex env token == text_or_empty row.verification_hash))
              ≡ false)
      checked = ground arith

  -- The row is the one before but for the two fields that Verify sets, and the time of the change.
  abbrev pub IsVerified : AccountRow → AccountRow → Type 0
  IsVerified before after =
      (after.verified ≡ true)
      × (after.verification_hash ≡ none)
      × (after.id ≡ before.id)
      × (after.password_hash ≡ before.password_hash)
      × (after.enabled ≡ before.enabled)
      × (after.deleted ≡ false)

  -- Whatever calls of the driver fail: once a Verify has succeeded, no token verifies the account again,
  -- at any world whose accounts are those that it left and in any environment.
  pub verify_once :
      (env env' : Env) (w w' : World) (token token' : String) {row : AccountRow}
      → stored w.db ≡ some row
      → (verify tenant_id email token env w).0 ≡ ok tt
      → w'.db.accounts ≡ (verify tenant_id email token env w).1.db.accounts
      → (verify tenant_id email token' env' w').0 ≢ ok tt
  verify_once env env' w w' token token' {row} found first same again =
      let (time, now_stored) = (verify-checks env w token {row = row} found first).3 in
      let here : stored w'.db ≡ some (verified_now time row) =
        ap (Table.find (is_account tenant_id email)) same ∙ now_stored in
      let unverified = (verify-checks env' w' token' {row = verified_now time row} here again).1 in
      ground arith

  -- The database after a Register: the row of a new account, with the hash of the token.
  abbrev Stores : Env → Db → RegisteredAccount → Db → Type 0
  Stores env before registered after =
      (password_hash name id : String) × (time : ℕ) × (after.accounts
        ≡ inserted
            (new_account tenant_id email name password_hash
              (sha256_hex env registered.verification_token))
            false id time
          ∷ before.accounts)

  insert-accounts :
      (account created : Account) (id : String) (time : ℕ) (db : Db)
      → (Accounts.insert account false id time db).0 ≡ ok created
      → (Accounts.insert account false id time db).1.accounts
        ≡ inserted account false id time ∷ db.accounts
  unfolding Accounts.insert
  insert-accounts account created id time db h = ground arith

  register-Yields :
      (env : Env) (password name : String)
      → Yields env (register tenant_id email password name) (Stores env)
  unfolding register Accounts.create Accounts.create_row
  register-Yields env password name = Yields-read _ _ (ReadOnly-valid_or _) λ _.
      Yields-read _ _ (ReadOnly-valid_or _) λ _. Yields-read _ _ (ReadOnly-valid_or _) λ _.
        Yields-read _ _ (ReadOnly-bcrypt_hash _) λ hash.
          Yields-read _ _ ReadOnly-random_token λ token. Yields-asks _ _ (
            Yields-pure _ _ (
              Yields-read _ _ ReadOnly-new_uuid λ id. Yields-statement _ _ λ time db account h. (
                hash,
                name,
                id,
                time,
                insert-accounts (new_account tenant_id email name hash (sha256_hex env token))
                    account id time db h,
              )))

  -- The row of a new account passes the checks of Verify.
  verify_fresh :
      (env : Env) (w : World) (name password_hash id token : String) (time : ℕ)
      (rows : List AccountRow)
      → w.db.accounts
        ≡ inserted
            (new_account tenant_id email name password_hash (sha256_hex env token))
            false
            id
            time
          ∷ rows
      → sha256_hex env token ≢ ""
      → (verify tenant_id email token (reliable env) w).0 ≡ ok tt
  unfolding verify read_live Accounts.read scan_account Accounts.set_verified Accounts.update affect
      safe_compare Table.find Table.count inserted new_account sha256_hex ◌>>=◌
  verify_fresh env w name password_hash id token time rows here digest = rw here (
      ground (
        arith,
        eq_refl tenant_id,
        eq_refl email,
        eq_refl (sha256_hex env token),
        true_eq (sha256_hex env token) "",
      ))

  -- The account that Register stores is verified by the token that Register returns, no call of the
  -- driver failing, at any world whose accounts are those that Register left. The hex digest of the token
  -- is not empty.
  pub register-verify :
      (env : Env) (w w' : World) (password name : String) {registered : RegisteredAccount}
      → sha256_hex env registered.verification_token ≢ ""
      → (register tenant_id email password name env w).0 ≡ ok registered
      → w'.db.accounts ≡ (register tenant_id email password name env w).1.db.accounts
      → (verify tenant_id email registered.verification_token (reliable env) w').0 ≡ ok tt
  register-verify env w w' password name {registered} digest done same =
      let (password_hash, stored_name, id, time, kept) =
        (register-Yields env password name).at w done in
      verify_fresh env w' stored_name password_hash id registered.verification_token time
        w.db.accounts (same ∙ kept) digest
