-- ===== src/ApiKeys/RoundTrip.antt =====
-- Create and Authenticate of internal/apikeys/apikeys.go.
use an.Prelude.{
  String, ◌==◌, ◌<>◌, len, starts_with, true, false, ◌≡◌, refl, List, [], ◌∷◌, arith, some, ℕ, zero,
  suc, ◌≤◌, ◌<◌, ◌%◌, ◌/◌, ltb, length, eq_true, true_eq, ◌∙◌, subst, Option-cases, inl, inr,
}
use an.Error.{ok}
use an.World.{Db, World, Env}
use an.Rows.{ApiKey}
use text.Mathlib.TextPositions.{len-append, starts_with-append}
use an.Table
use an.Exec.{◌>>=◌, new_uuid}
use an.Exec.Rules.{reliable, ReadOnly, read_rules, ReadOnly-fail_if}
use an.Exec.Yields.{Yields, Yields-read, Yields-known, Yields-asks, Yields-pure, Yields-statement}
use an.Utils.Hex.{hex_digit, hex_encode}
use an.Utils.Secrets.{sha256_hex, safe_compare}
use an.Store.ApiKeys
use an.Store.ApiKeys.{has_prefix}
use an.ApiKeys.{
  create, authenticate, fresh_token, prefix_of, prefix_length, token_marker, CreatedApiKey,
}

-- Whatever calls of the driver fail: Authenticate accepts a token only if it has the marker and there is
-- a key with its prefix whose stored hash is that of the token, and the tenant is that of the key.
pub authenticate-ok :
    (env : Env) (w : World) (token tenant_id : String)
    → (authenticate token env w).0 ≡ ok tenant_id
    → (key : ApiKey) × (Table.find (has_prefix (prefix_of token)) w.db.api_keys ≡ some key)
      × (key.hash ≡ sha256_hex env token)
      × (key.tenant_id ≡ tenant_id)
      × (starts_with token token_marker ≡ true)
unfolding authenticate ApiKeys.read_by_prefix safe_compare ◌>>=◌
authenticate-ok env w token tenant_id h =
    elim (Option-cases (Table.find (has_prefix (prefix_of token)) w.db.api_keys)) [
      | inl e ↦ ground arith
      | inr (key, e) ↦
          let (same_hash, same_tenant, marked) = accepted key e in
          (key, e, true_eq key.hash (sha256_hex env token) same_hash, same_tenant, marked)
    ]
  where
    accepted :
        (key : ApiKey)
        → Table.find (has_prefix (prefix_of token)) w.db.api_keys ≡ some key
        → ((key.hash == sha256_hex env token) ≡ true)
          × (key.tenant_id ≡ tenant_id)
          × (starts_with token token_marker ≡ true)
    accepted key e = ground arith

hex_digit-len : (n : ℕ) → n < 16 → len (hex_digit n) ≡ 1
unfolding hex_digit
hex_digit-len zero h = refl
hex_digit-len (suc zero) h = refl
hex_digit-len (suc (suc zero)) h = refl
hex_digit-len (suc (suc (suc zero))) h = refl
hex_digit-len (suc (suc (suc (suc zero)))) h = refl
hex_digit-len (suc (suc (suc (suc (suc zero))))) h = refl
hex_digit-len (suc (suc (suc (suc (suc (suc zero)))))) h = refl
hex_digit-len (suc (suc (suc (suc (suc (suc (suc zero))))))) h = refl
hex_digit-len (suc (suc (suc (suc (suc (suc (suc (suc zero)))))))) h = refl
hex_digit-len (suc (suc (suc (suc (suc (suc (suc (suc (suc zero))))))))) h = refl
hex_digit-len (suc (suc (suc (suc (suc (suc (suc (suc (suc (suc zero)))))))))) h = refl
hex_digit-len (suc (suc (suc (suc (suc (suc (suc (suc (suc (suc (suc zero))))))))))) h = refl
hex_digit-len (suc (suc (suc (suc (suc (suc (suc (suc (suc (suc (suc (suc zero)))))))))))) h = refl
hex_digit-len (suc (suc (suc (suc (suc (suc (suc (suc (suc (suc (suc (suc (suc zero))))))))))))) h =
    refl
hex_digit-len
      (suc (suc (suc (suc (suc (suc (suc (suc (suc (suc (suc (suc (suc (suc zero)))))))))))))) h =
    refl
hex_digit-len
      (suc (suc (suc (suc (suc (suc (suc (suc (suc (suc (suc (suc (suc (suc (suc zero)))))))))))))))
      h =
    refl
hex_digit-len
      (suc
        (suc (suc (suc (suc (suc (suc (suc (suc (suc (suc (suc (suc (suc (suc (suc n))))))))))))))))
      h =
    omega arith

-- At least one digit for each byte
hex_encode-len : (bytes : List ℕ) → length bytes ≤ len (hex_encode bytes)
unfolding hex_encode
hex_encode-len [] = omega arith
hex_encode-len (b ∷ bs) =
    rw
      (
        len-append (hex_digit (b / 16)) (hex_digit (b % 16) <> hex_encode bs),
        len-append (hex_digit (b % 16)) (hex_encode bs),
        hex_digit-len (b % 16) (omega arith),
      )
      (omega (arith, hex_encode-len bs))

-- The token of a fresh secret of at least four bytes passes the checks of Authenticate.
fresh_token-ok :
    (env : Env)
    → ((n : ℕ) (bytes : List ℕ) → env.random_bytes n 32 ≡ some bytes → length bytes ≡ 32)
    → (w : World) {token : String} → (fresh_token env w).0 ≡ ok token
    → (starts_with token token_marker ≡ true) × (ltb (len token) prefix_length ≡ false)
unfolding fresh_token ◌>>=◌
fresh_token-ok env long w {token} h = elim (Option-cases (env.random_bytes w.step 32)) [
  | inl e ↦ ground arith
  | inr (bytes, e) ↦
      let same : token_marker <> hex_encode bytes ≡ token = ground arith in
      let enough = hex_encode-len bytes in
      let all = long w.step bytes e in
      subst (λ t. (starts_with t token_marker ≡ true) × (ltb (len t) prefix_length ≡ false)) same
        (
          starts_with-append token_marker (hex_encode bytes),
          rw (len-append token_marker (hex_encode bytes)) (ground arith),
        )
]

ReadOnly-fresh_token : ReadOnly fresh_token
unfolding fresh_token
ReadOnly-fresh_token = search read_rules depth 6

ReadOnly-new_uuid : ReadOnly new_uuid
unfolding new_uuid
ReadOnly-new_uuid = search read_rules depth 6

-- What Create leaves: a key of the tenant with the prefix and the hash of the secret.
abbrev Keyed : Env → String → Db → CreatedApiKey → Db → Type 0
Keyed env tenant_id before created after =
    (key : ApiKey) × (after.api_keys ≡ key ∷ before.api_keys)
    × (key.tenant_id ≡ tenant_id)
    × (key.prefix ≡ prefix_of created.key)
    × (key.hash ≡ sha256_hex env created.key)
    × (starts_with created.key token_marker ≡ true)
    × (ltb (len created.key) prefix_length ≡ false)

inserted-ok :
    (new created : ApiKey) (time : ℕ) (db : Db)
    → (ApiKeys.insert new time db).0 ≡ ok created
    → (ApiKeys.insert new time db).1.api_keys ≡ record new { created = time } ∷ db.api_keys
unfolding ApiKeys.insert
inserted-ok new created time db h = ground arith

create-Yields :
    (env : Env) (tenant_id name : String)
    → ((n : ℕ) (bytes : List ℕ) → env.random_bytes n 32 ≡ some bytes → length bytes ≡ 32)
    → Yields env (create tenant_id name) (Keyed env tenant_id)
unfolding create ApiKeys.create
create-Yields env tenant_id name long = Yields-read _ _ (ReadOnly-fail_if _ _) λ _.
    Yields-known _ _ ReadOnly-fresh_token λ token w got. Yields-asks _ _ (
      Yields-pure _ _ (
        Yields-read _ _ ReadOnly-new_uuid λ id. Yields-statement _ _ λ time db created h.
          let new : ApiKey = record {
            id = id;
            tenant_id = tenant_id;
            name = name;
            prefix = prefix_of token;
            hash = sha256_hex env token;
            created = 0;
          } in
          let (marked, long_enough) = fresh_token-ok env long w {token = token} got in
          (
            record new { created = time },
            inserted-ok new created time db h,
            refl,
            refl,
            refl,
            marked,
            long_enough,
          )))

-- The key of a Create authenticates as its tenant, no call of the driver failing, at any world whose keys
-- are those that Create left. A read of 32 random bytes gives 32 bytes.
pub create-authenticate :
    (env : Env) (w w' : World) (tenant_id name : String) {created : CreatedApiKey}
    → ((n : ℕ) (bytes : List ℕ) → env.random_bytes n 32 ≡ some bytes → length bytes ≡ 32)
    → (create tenant_id name env w).0 ≡ ok created
    → w'.db.api_keys ≡ (create tenant_id name env w).1.db.api_keys
    → (authenticate created.key (reliable env) w').0 ≡ ok tenant_id
unfolding authenticate ApiKeys.read_by_prefix safe_compare sha256_hex Table.find ◌>>=◌
create-authenticate env w w' tenant_id name {created} long done same =
    let (key, here, of_tenant, prefix, hash, marked, enough) =
      (create-Yields env tenant_id name long).at w done in
    let now_here = same ∙ here in
    let equal = eq_true prefix in let equal_hash = eq_true hash in rw now_here (ground arith)
