-- ===== src/Oidc/Rotation.antt =====
-- The rotation of refresh tokens in internal/oidc/storage.go.
use an.Prelude.{
  ℕ, String, ◌==◌, Bool, true, false, ◌≡◌, ◌≢◌, subst, sym, ◌∙◌, ap, arith, some, inl, inr, true_eq,
  Bool-cases, if◌then◌else◌,
}
use an.Error.{ok, Succeeds, Result-cases}
use an.Rows.{RefreshToken, AccessToken}
use an.World.{Db, World, Env}
use an.Table
use an.Table.Laws.{any-delete_self, count-any}
use an.Exec.{M, pure, new_uuid, ◌>>=◌, ◌>>◌}
use an.Exec.Rules.{ReadOnly, ReadOnly-pure, ReadOnly-now, ReadOnly-fail_if, read_rules}
use an.Exec.Yields.{
  pure-ok, Yields, Yields-read, Yields-known, Yields-asks, Yields-pure, Yields-statement,
  Yields-then, Yields-affect,
}
use an.Utils.Secrets.{random_token}
use an.Store.OidcTokens
use an.Store.OidcTokens.{is_refresh, drop_refresh, insert_refresh, insert_access}
use an.Oidc.{
  by_refresh, Minted, tenant_from, spend, spent_token, mint_refresh_token, mint_access_token,
  create_access_and_refresh_tokens,
}

ReadOnly-tenant_from : (tenant : String) → ReadOnly (tenant_from tenant)
unfolding tenant_from ◌>>=◌
ReadOnly-tenant_from tenant = record { at = λ env w. ground arith }

ReadOnly-random_token : ReadOnly random_token
unfolding random_token
ReadOnly-random_token = search read_rules depth 6

ReadOnly-new_uuid : ReadOnly new_uuid
unfolding new_uuid
ReadOnly-new_uuid = search read_rules depth 6

module _ (env : Env) (tenant : String) (token : RefreshToken) where
  -- Is the token still stored for the tenant
  abbrev pub has_token : Db → Bool
  has_token db = Table.any (is_refresh tenant token.id) db.refresh_tokens

  -- The token was stored, and is not stored any more.
  abbrev Spends {ℓ} : {A : Type ℓ} → Db → A → Db → Type 0
  Spends before a after = (has_token before ≡ true) × (has_token after ≡ false)

  -- A token that is not stored does not come back.
  abbrev StaysSpent {ℓ} : {A : Type ℓ} → Db → A → Db → Type 0
  StaysSpent before a after = has_token before ≡ false → has_token after ≡ false

  delete_refresh_token-Spends : Yields env (OidcTokens.delete_refresh_token tenant token.id) Spends
  unfolding OidcTokens.delete_refresh_token drop_refresh
  delete_refresh_token-Spends = Yields-asks _ _ (
      Yields-read _ _ (ReadOnly-fail_if _ _) λ _. Yields-affect _ _ _ λ time db some_row. (
        ground (arith, count-any (is_refresh tenant token.id) db.refresh_tokens),
        any-delete_self (is_refresh tenant token.id) db.refresh_tokens,
      ))

  spend-Spends :
      (current : String)
      → current ≢ ""
      → Yields env (spend tenant (by_refresh token) current) Spends
  unfolding spend spent_token
  spend-Spends current given = elim (Bool-cases (current == "")) [
    | inl e ↦ absurd (given (true_eq current "" e))
    | inr e ↦
        subst
          (λ b.
            Yields env
              (if b
                then pure tt
                else (pure token >>= λ t. OidcTokens.delete_refresh_token tenant t.id))
              Spends)
          (sym e)
          (Yields-known _ _ (ReadOnly-pure token) λ t w got.
            subst (λ t. Yields env (OidcTokens.delete_refresh_token tenant t.id) Spends)
              (pure-ok token env w got) delete_refresh_token-Spends)
  ]

  uuid-fresh :
      ((n : ℕ) → env.uuid_v7 n ≢ some token.id)
      → (w : World) {id : String} → (new_uuid env w).0 ≡ ok id
      → (id == token.id) ≡ false
  unfolding new_uuid ◌>>=◌
  uuid-fresh fresh w {id} h = elim (Bool-cases (id == token.id)) [
    | inl e ↦
        let same = true_eq id token.id e in
        let drawn : env.uuid_v7 w.step ≡ some id = ground arith in
        absurd (fresh w.step (drawn ∙ ap some same))
    | inr e ↦ e
  ]

  insert_refresh-StaysSpent :
      (new created : RefreshToken) (time : ℕ) (db : Db)
      → (new.id == token.id) ≡ false
      → (insert_refresh new time db).0 ≡ ok created
      → StaysSpent db created (insert_refresh new time db).1
  unfolding insert_refresh Table.any
  insert_refresh-StaysSpent new created time db apart h spent = ground arith

  mint_refresh_token-StaysSpent :
      ((n : ℕ) → env.uuid_v7 n ≢ some token.id)
      → Yields env (mint_refresh_token tenant (by_refresh token)) StaysSpent
  unfolding mint_refresh_token OidcTokens.create_refresh_token
  mint_refresh_token-StaysSpent fresh = Yields-read _ _ ReadOnly-now λ auth_time.
      Yields-read _ _ ReadOnly-now λ time. Yields-asks _ _ (
        Yields-known _ _ ReadOnly-new_uuid λ id w got.
          Yields-read _ _ ReadOnly-random_token λ plaintext. Yields-asks _ _ (
            Yields-pure _ _ (
              Yields-statement _ _ λ time db created h.
                insert_refresh-StaysSpent _ created time db (uuid-fresh fresh w {id = id} got) h)))

  insert_access-StaysSpent :
      (new created : AccessToken) (time : ℕ) (db : Db)
      → (insert_access new time db).0 ≡ ok created
      → StaysSpent db created (insert_access new time db).1
  unfolding insert_access
  insert_access-StaysSpent new created time db h spent = ground arith

  mint_access_token-StaysSpent :
      (id : String) → Yields env (mint_access_token tenant (by_refresh token) id) StaysSpent
  unfolding mint_access_token OidcTokens.create_access_token
  mint_access_token-StaysSpent id = Yields-read _ _ ReadOnly-now λ time. Yields-asks _ _ (
      Yields-read _ _ ReadOnly-new_uuid λ id'.
        Yields-statement _ _ λ time db created h. insert_access-StaysSpent _ created time db h)

  tenant_from-ok : (w : World) {t : String} → (tenant_from tenant env w).0 ≡ ok t → tenant ≡ t
  unfolding tenant_from ◌>>=◌
  tenant_from-ok w h = ground arith

  -- A rotation after its tenant is known
  unfoldable rotate : String → String → M Minted
  rotate current t = do
    spend t (by_refresh token) current
    refresh ← mint_refresh_token t (by_refresh token)
    access ← mint_access_token t (by_refresh token) refresh.0.id
    pure (record {
      access_token_id = access.id;
      refresh_token = refresh.1;
      expires = access.expires;
    })

  module _ (current : String) (given : current ≢ "") where
    -- What holds of the rest of a rotation holds of the rotation.
    rotate-Yields :
        (r : Db → Minted → Db → Type 0)
        → Yields env (rotate current tenant) r
        → Yields env (create_access_and_refresh_tokens tenant (by_refresh token) current) r
    unfolding create_access_and_refresh_tokens rotate
    rotate-Yields r h =
        Yields-known _ _ (ReadOnly-tenant_from tenant)
          λ t w got. subst (λ t. Yields env (rotate current t) r) (tenant_from-ok w got) h

    rotate-stored :
        Yields env
          (create_access_and_refresh_tokens tenant (by_refresh token) current)
          (λ before minted after. has_token before ≡ true)
    unfolding rotate
    rotate-stored = rotate-Yields _ (
        Yields-then Spends (λ before a after. Unit {0}) _ _ (spend-Spends current given)
          (λ _. record { at = λ w h. tt }) λ before mid after a b first second. first.0)

    rotate-Spends :
        ((n : ℕ) → env.uuid_v7 n ≢ some token.id)
        → Yields env (create_access_and_refresh_tokens tenant (by_refresh token) current) Spends
    unfolding rotate
    rotate-Spends fresh = rotate-Yields _ (
        Yields-then Spends StaysSpent _ _ (spend-Spends current given)
          (λ _.
            Yields-then StaysSpent StaysSpent _ _ (mint_refresh_token-StaysSpent fresh)
              (λ refresh. Yields-pure _ _ (mint_access_token-StaysSpent refresh.0.id))
              λ before mid after a b first second spent. second (first spent))
          λ before mid after a b first second. (first.0, second first.1))

-- Whatever calls of the driver fail: once a rotation of a loaded refresh token has succeeded, no second
-- rotation of the same token does, in any environment and at any world with the refresh tokens that the
-- first left, if the uuids that the first draws differ from the id of the token.
pub rotation_once :
    (env env' : Env) (w w' : World) (tenant current current' : String) (token : RefreshToken)
    {minted : Minted}
    → current ≢ ""
    → current' ≢ ""
    → ((n : ℕ) → env.uuid_v7 n ≢ some token.id)
    → (create_access_and_refresh_tokens tenant (by_refresh token) current env w).0 ≡ ok minted
    → w'.db.refresh_tokens
      ≡ (create_access_and_refresh_tokens tenant
          (by_refresh token)
          current
          env
          w).1.db.refresh_tokens
    → ¬ Succeeds (create_access_and_refresh_tokens tenant (by_refresh token) current' env' w').0
rotation_once env env' w w' tenant current current' token {minted} given given' fresh done same
      again =
    elim (Result-cases
      (create_access_and_refresh_tokens tenant (by_refresh token) current' env' w').0) [
        | inl (second, e) ↦
            let spent = ((rotate-Spends env tenant token current given fresh).at w done).1 in
            let present = (rotate-stored env' tenant token current' given').at w' e in
            let absent : has_token env tenant token w'.db ≡ false =
              ap (Table.any (is_refresh tenant token.id)) same ∙ spent in
            ground arith
        | inr (e, k) ↦ subst Succeeds k again
      ]
